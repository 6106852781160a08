-- ===== src/Master/Storage/Log.antt =====
-- The master's storage refines an append-only list: addMessage is a push at the end, and
-- getContiguousChunk drops what stands before the start.
use distributed_systems_hw.Base.{
  ℕ, ◌+◌, ◌≤◌, ◌<◌, ◌≡◌, sym, ◌∙◌, List, [], ◌∷◌, ◌++◌, arith, length, get_elem?, drop,
  get_elem?-push, get_elem?-above, get_elem?-drop, length-append, Bytes, u64_mod,
}
use distributed_systems_hw.Base.Maps.{find, find-insert, length-insert}
use mathlib.Core.Option.{Option}
use distributed_systems_hw.Scan.{scan-IsChunk, IsChunk-unique, IsChunk-list}
use distributed_systems_hw.Master.Storage.{Storage, add_message, get_contiguous_chunk}

-- The storage holds the messages of `log`, each under its position.
pub record IsLog (st : Storage) (log : List Bytes) : Type 0 where
  pub counted : st.next_message_id ≡ length log
  pub small : length st.messages ≤ length log
  pub entries : (i : ℕ) → find i st.messages ≡ get_elem? log i

-- What addMessage returns and leaves, for a storage that holds `log`.
pub record Appends (st : Storage) (log : List Bytes) (message : Bytes) : Type 0 where
  pub id : (add_message message st).0 ≡ length log
  pub view : (add_message message st).1 ≡ message
  pub after : IsLog (add_message message st).2 (log ++ message ∷ [])

-- While fewer than 2^64 - 1 messages are stored, addMessage on a storage that holds `log` returns the
-- length of `log` as the id and a view of the message, and leaves a storage that holds `log` with
-- the message at its end.
pub add_message-Appends :
    (st : Storage) (log : List Bytes) (message : Bytes)
    → length log + 1 < u64_mod
    → IsLog st log
    → Appends st log message
unfolding add_message
add_message-Appends st log message h v = record {
  id = v.counted;
  view = ground (arith, missing);
  after = record {
    counted = omega (arith, v.counted, length-append log (message ∷ []));
    small = omega (
      arith,
      length-append log (message ∷ []),
      length-insert st.next_message_id message st.messages,
    );
    entries = λ i. ground (
      arith,
      missing,
      v.counted,
      v.entries i,
      find-insert i st.next_message_id message st.messages,
      get_elem?-push log message i,
    );
  };
}
  where
    missing : find st.next_message_id st.messages ≡ Option.none
    missing = v.entries st.next_message_id ∙ get_elem?-above log _ (omega (arith, v.counted))

-- On a storage that holds `log`, getContiguousChunk(start) is `log` without its first `start`
-- messages; the scan ends although its loop has no bound, since start plus the number of messages
-- is below 2^64.
pub chunk-eq-drop :
    (st : Storage) (log : List Bytes) (start_id : ℕ)
    → start_id + length log < u64_mod
    → IsLog st log
    → get_contiguous_chunk st start_id ≡ drop start_id log
unfolding get_contiguous_chunk
chunk-eq-drop st log start_id h v =
    IsChunk-unique st.messages start_id _ _
      (scan-IsChunk st.messages start_id (omega (arith, v.small)))
      (IsChunk-list st.messages start_id (drop start_id log)
        (λ i. v.entries (start_id + i) ∙ sym (get_elem?-drop start_id log i)))
