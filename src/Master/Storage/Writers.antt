-- ===== src/Master/Storage/Writers.antt =====
-- addMessage called from several http threads at once: nextMessageId_.fetch_add and
-- messages_.insert are two atomic steps, and another thread may run between them.
use mathlib.Core.Option.{Option}
use distributed_systems_hw.Base.{
  ℕ, ◌+◌, ◌≤◌, ◌<◌, ◌≡◌, refl, ◌⊎◌, inl, List, [], ◌∷◌, ◌++◌, none, some, arith, length, get_elem?,
  take, drop, get_elem?-push, get_elem?-above, length-append, Bytes, u64_mod,
}
use distributed_systems_hw.Base.Maps.{
  Map, find, insert, erase, find-insert, find-erase, length-insert, length-erase_found,
}
use distributed_systems_hw.Scan.{scan-IsChunk, IsChunk-take, IsChunk-end}
use distributed_systems_hw.Master.Storage.{
  Storage, empty, fetch_id, store_message, get_contiguous_chunk,
}
use distributed_systems_hw.Master.Storage.Log.{IsLog}

-- The storage, the calls that have an id and have not stored their message, and, for the
-- statements, the message of each id in the order of the ids.
pub record Writers : Type 0 where
  pub storage : Storage
  pub in_flight : Map Bytes
  pub log : List Bytes

pub data Step (w : Writers) : Writers → Type 0 where
  fetch :
      (message : Bytes)
      → Step w (record {
        storage = (fetch_id w.storage).1;
        in_flight = insert (fetch_id w.storage).0 message w.in_flight;
        log = w.log ++ message ∷ [];
      })
  store :
      (id : ℕ) (message : Bytes)
      → find id w.in_flight ≡ some message
      → Step w (record {
        storage = (store_message id message w.storage).1;
        in_flight = erase id w.in_flight;
        log = w.log;
      })

pub data Reach : Writers → Type 0 where
  start : Reach (record { storage = empty; in_flight = []; log = [] })
  later : {w v : Writers} → Reach w → Step w v → Reach v

-- An id is stored, or in flight, or not given out.
abbrev Placed : Option Bytes → Option Bytes → Option Bytes → Type 0
Placed stored flying entry =
    ((stored ≡ entry) × (flying ≡ none)) ⊎ ((stored ≡ none) × (flying ≡ entry))

pub record Inv (w : Writers) : Type 0 where
  pub counted : length w.log < u64_mod → w.storage.next_message_id ≡ length w.log
  pub flying : length w.storage.messages + length w.in_flight ≤ length w.log
  pub placed :
      length w.log < u64_mod
      → (i : ℕ) → Placed (find i w.storage.messages) (find i w.in_flight) (get_elem? w.log i)

fetch_lem :
    (w : Writers) (message : Bytes)
    → Inv w
    → Inv (record {
      storage = (fetch_id w.storage).1;
      in_flight = insert (fetch_id w.storage).0 message w.in_flight;
      log = w.log ++ message ∷ [];
    })
unfolding fetch_id
fetch_lem w message v = record {
  counted = λ h. omega (arith, v.counted (omega (arith, grown)), grown);
  flying =
      omega (arith, v.flying, grown, length-insert w.storage.next_message_id message w.in_flight);
  placed = λ h i.
      let few : length w.log < u64_mod = omega (arith, grown) in
      ground (
        arith,
        v.counted few,
        v.placed few i,
        find-insert i w.storage.next_message_id message w.in_flight,
        get_elem?-push w.log message i,
        get_elem?-above w.log i,
      );
}
  where
    grown : length (w.log ++ message ∷ []) ≡ length w.log + 1
    grown = length-append w.log (message ∷ [])

store_lem :
    (w : Writers) (id : ℕ) (message : Bytes)
    → find id w.in_flight ≡ some message
    → Inv w
    → Inv (record {
      storage = (store_message id message w.storage).1;
      in_flight = erase id w.in_flight;
      log = w.log;
    })
unfolding store_message
store_lem w id message e v = record {
  counted = v.counted;
  flying = omega (
    arith,
    v.flying,
    length-insert id message w.storage.messages,
    length-erase_found id w.in_flight e,
  );
  placed = λ h i. ground (
    arith,
    e,
    v.placed h i,
    find-insert i id message w.storage.messages,
    find-erase i id w.in_flight,
  );
}

pub Step-Inv : {w v : Writers} → Step w v → Inv w → Inv v
Step-Inv {w} (fetch message) i = fetch_lem w message i
Step-Inv {w} (store id message e) i = store_lem w id message e i

pub Reach-Inv : {w : Writers} → Reach w → Inv w
Reach-Inv start = record {
  counted = λ h. refl;
  flying = omega arith;
  placed = λ h i. unfold find in inl (refl, refl);
}
Reach-Inv (later r st) = Step-Inv st (Reach-Inv r)

-- However the calls of addMessage interleave, while fewer than 2^64 ids have been given out: when
-- no call is between its two steps, the storage holds exactly the messages that were given ids,
-- each under its id.
pub Reach-IsLog :
    {w : Writers} → Reach w → length w.log < u64_mod → w.in_flight ≡ [] → IsLog w.storage w.log
Reach-IsLog {w} r h idle =
    let v = Reach-Inv r in
    record {
      counted = v.counted h;
      small = omega (arith, v.flying);
      entries = λ i. unfold find in ground (arith, idle, v.placed h i);
    }

-- A scan that runs between the steps of any number of concurrent calls of addMessage sees a run of
-- the messages in the order of their ids from `start_id` on, with no gap and nothing else, and it
-- ends where the next id is not stored, while start_id plus the number of ids given out is below
-- 2^64.
pub chunk-take :
    {w : Writers} (start_id : ℕ)
    → Reach w
    → start_id + length w.log < u64_mod
    → (n : ℕ) × (get_contiguous_chunk w.storage start_id ≡ take n (drop start_id w.log))
      × (find (start_id + n) w.storage.messages ≡ none)
unfolding get_contiguous_chunk
chunk-take {w} start_id r h =
    let v = Reach-Inv r in
    let few : start_id + length w.storage.messages < u64_mod = omega (arith, v.flying) in
    let from_log : (i : ℕ) (x : Bytes)
        → find i w.storage.messages ≡ some x
        → get_elem? w.log i ≡ some x =
      λ i x e. ground (arith, e, v.placed (omega arith) i) in
    let found = scan-IsChunk w.storage.messages start_id few in
    (
      _,
      IsChunk-take w.storage.messages w.log from_log start_id _ found,
      IsChunk-end w.storage.messages start_id _ found,
    )
