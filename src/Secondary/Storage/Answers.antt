-- ===== src/Secondary/Storage/Answers.antt =====
-- addMessages on an answer to getMessages that was asked for before: what the secondary holds, when
-- other messages may have come in between.
use distributed_systems_hw.Base.{
  ℕ, ◌+◌, ◌≤◌, ◌<◌, ◌%◌, ◌≢◌, List, [], ◌∷◌, ◌++◌, none, arith, length, take, drop, length-take,
  take-append-drop, length-drop, Bytes, u64_mod,
}
use distributed_systems_hw.Base.Maps.{Map, find, length-insert, length-insert_ge}
use distributed_systems_hw.Secondary.Storage.{Storage, add_message, add_messages_loop, add_messages}
use distributed_systems_hw.Secondary.Storage.Replica.{From, find-deliver}
use distributed_systems_hw.Secondary.Storage.CatchUp.{
  number, add_messages-deliver, filled, delivered-From, gap-le,
}

-- Every id below `n` is there.
abbrev pub Holds : ℕ → Map Bytes → Type 0
Holds n m = (i : ℕ) → i < n → find i m ≢ none

pub length-add_messages_ge :
    (start_id : ℕ) (messages : List Bytes) (st : Storage)
    → length st.messages ≤ length (add_messages start_id messages st).messages
unfolding add_messages add_messages_loop add_message
length-add_messages_ge start_id messages st = loop 0 messages st
  where
    loop :
        (i : ℕ) (rest : List Bytes) (s : Storage)
        → length s.messages ≤ length (add_messages_loop start_id i rest s).messages
    loop i [] s = omega arith
    loop i (message ∷ rest) s =
        let id = (start_id + i) % u64_mod in
        omega (
          arith,
          loop (i + 1) rest (add_message id message s),
          length-insert_ge id message s.messages,
        )

pub length-add_messages_le :
    (start_id : ℕ) (messages : List Bytes) (st : Storage)
    → length (add_messages start_id messages st).messages ≤ length st.messages + length messages
unfolding add_messages add_messages_loop add_message
length-add_messages_le start_id messages st = loop 0 messages st
  where
    loop :
        (i : ℕ) (rest : List Bytes) (s : Storage)
        → length (add_messages_loop start_id i rest s).messages ≤ length s.messages + length rest
    loop i [] s = omega arith
    loop i (message ∷ rest) s =
        let id = (start_id + i) % u64_mod in
        omega
          (arith, loop (i + 1) rest (add_message id message s), length-insert id message s.messages)

-- What addMessages leaves of an answer that goes from `gap` on to the first `had` messages.
pub record IsFilled (log : List Bytes) (had : ℕ) (before after : Map Bytes) : Type 0 where
  pub from : From log after
  pub holds : Holds had after
  pub kept : (i : ℕ) → find i before ≢ none → find i after ≢ none

delivered-IsFilled :
    (old new : List Bytes) (gap : ℕ) (st : Storage)
    → From (old ++ new) st.messages
    → Holds gap st.messages
    → length (old ++ new) < u64_mod
    → length old ≤ length (old ++ new)
    → IsFilled (old ++ new) (length old) st.messages (add_messages gap (drop gap old) st).messages
delivered-IsFilled old new gap st from held small part =
    let within = gap-le old new st from gap held in
    let same = add_messages-deliver gap (drop gap old) st (omega (arith, length-drop gap old)) in
    rw same (record {
      from = delivered-From old new st from gap;
      holds = filled old new st from gap held;
      kept = λ i there. ground (arith, there, find-deliver (number gap (drop gap old)) st i);
    })

pub answer-IsFilled :
    (log : List Bytes) (had gap : ℕ) (st : Storage)
    → From log st.messages
    → Holds gap st.messages
    → had ≤ length log
    → length log < u64_mod
    → IsFilled log had st.messages (add_messages gap (drop gap (take had log)) st).messages
answer-IsFilled log had gap st from held part small =
    let whole = take-append-drop had log in
    let n = length-take had log part in
    rw (whole, n) at
      (delivered-IsFilled (take had log) (drop had log) gap st (rw whole from) held (rw whole small)
        (rw (whole, n) part))
