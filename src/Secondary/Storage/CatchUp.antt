-- ===== src/Secondary/Storage/CatchUp.antt =====
-- addMessages on the answer to getMessages: a secondary that asks from its first gap catches up.
use distributed_systems_hw.Base.{
  get_elem?-some, get_elem?-append_left, length-drop, zero, dec_lt, ℕ, suc, ◌+◌, ◌-◌, ◌%◌, ◌≤◌, ◌<◌,
  ◌≡◌, refl, sym, ap, ◌∙◌, ◌≢◌, inl, inr, List, [], ◌∷◌, ◌++◌, none, some, arith, length, get_elem?,
  take, drop, get_elem?-drop, get_elem?-below, length-append, Bytes, u64_mod, Option-cases,
}
use distributed_systems_hw.Base.Maps.{Map, find}
use distributed_systems_hw.Scan.{IsChunk, scan-IsChunk, IsChunk-take, IsChunk-end}
use distributed_systems_hw.Secondary.Storage.{
  Storage, add_message, add_messages_loop, add_messages, get_first_gap, get_contiguous_chunk,
}
use distributed_systems_hw.Secondary.Storage.Replica.{
  From, deliver, find-deliver, length-deliver, gap-eq-length-chunk,
}

-- `msgs` under consecutive ids from `base` on.
abbrev pub number : ℕ → List Bytes → Map Bytes
number base [] = []
number base (v ∷ rest) = (base, v) ∷ number (base + 1) rest

find-number_below :
    (base : ℕ) (msgs : List Bytes) (i : ℕ) → i < base → find i (number base msgs) ≡ none
unfolding find
find-number_below base [] i h = refl
find-number_below base (v ∷ rest) i h =
    ground (arith, find-number_below (base + 1) rest i (omega arith))

length-number : (base : ℕ) (msgs : List Bytes) → length (number base msgs) ≡ length msgs
length-number base [] = refl
length-number base (v ∷ rest) = ap suc (length-number (base + 1) rest)

find-number :
    (base : ℕ) (msgs : List Bytes) (j : ℕ) → find (base + j) (number base msgs) ≡ get_elem? msgs j
unfolding find
find-number base [] j = refl
find-number base (v ∷ rest) zero = ground arith
find-number base (v ∷ rest) (suc j) =
    let e : base + suc j ≡ base + 1 + j = omega arith in
    ground (arith, find-number (base + 1) rest j, ap (λ (i : ℕ). find i (number (base + 1) rest)) e)

-- addMessages makes one call of addMessage for each message, under consecutive ids.
loop-deliver :
    (s k : ℕ) (msgs : List Bytes) (st : Storage)
    → s + k + length msgs ≤ u64_mod
    → add_messages_loop s k msgs st ≡ deliver (number (s + k) msgs) st
unfolding add_messages_loop deliver
loop-deliver s k [] st h = refl
loop-deliver s k (v ∷ rest) st h =
    let e : (s + k) % u64_mod ≡ s + k = omega arith in
    let next : s + (k + 1) ≡ s + k + 1 = omega arith in
    rw e (rw (← next) (loop-deliver s (k + 1) rest (add_message (s + k) v st) (omega arith)))

pub add_messages-deliver :
    (s : ℕ) (msgs : List Bytes) (st : Storage)
    → s + length msgs ≤ u64_mod
    → add_messages s msgs st ≡ deliver (number s msgs) st
unfolding add_messages
add_messages-deliver s msgs st h =
    let e : s + 0 ≡ s = omega arith in
    loop-deliver s 0 msgs st (omega arith) ∙ ap (λ (b : ℕ). deliver (number b msgs) st) e

-- The log as it was when the master answered, and what it has grown to.
module _ (old new : List Bytes) (st : Storage) (from : From (old ++ new) st.messages) where
  answered-From :
      (gap i : ℕ) (v : Bytes)
      → find i (number gap (drop gap old)) ≡ some v
      → get_elem? (old ++ new) i ≡ some v
  answered-From gap i v e = elim (dec_lt i gap) [
    | yes below ↦ cc (find-number_below gap (drop gap old) i below)
    | no reached ↦
        let j : gap + (i - gap) ≡ i = omega arith in
        let here : get_elem? old i ≡ some v =
          ap (get_elem? old) (sym j)
          ∙ sym (get_elem?-drop gap old (i - gap))
          ∙ sym (find-number gap (drop gap old) (i - gap))
          ∙ ap (λ (k : ℕ). find k (number gap (drop gap old))) j
          ∙ e in
        get_elem?-append_left old new i (get_elem?-below old i here) ∙ here
  ]

  pub filled :
      (gap : ℕ)
      → ((i : ℕ) → i < gap → find i st.messages ≢ none)
      → (i : ℕ) → i < length old
      → find i (deliver (number gap (drop gap old)) st).messages ≢ none
  filled gap present i h lost = elim (dec_lt i gap) [
    | yes below ↦
        present i below (ground (arith, lost, find-deliver (number gap (drop gap old)) st i))
    | no reached ↦
        let (v, here) = get_elem?-some old i h in
        let j : gap + (i - gap) ≡ i = omega arith in
        let sent : find i (number gap (drop gap old)) ≡ some v =
          ap (λ (k : ℕ). find k (number gap (drop gap old))) (sym j)
          ∙ find-number gap (drop gap old) (i - gap)
          ∙ get_elem?-drop gap old (i - gap)
          ∙ ap (get_elem? old) j
          ∙ here in
        ground (arith, lost, sent, find-deliver (number gap (drop gap old)) st i)
  ]

  pub delivered-From :
      (gap : ℕ) → From (old ++ new) (deliver (number gap (drop gap old)) st).messages
  delivered-From gap i v e =
      ground
        (arith, e, find-deliver (number gap (drop gap old)) st i, from i v, answered-From gap i v)

  pub gap-le :
      (gap : ℕ) → ((i : ℕ) → i < gap → find i st.messages ≢ none) → gap ≤ length (old ++ new)
  gap-le zero present = omega arith
  gap-le (suc k) present = elim (Option-cases (find k st.messages)) [
    | inl gap ↦ absurd (present k (omega arith) gap)
    | inr (v, hit) ↦ omega (arith, get_elem?-below (old ++ new) k (from k v hit))
  ]

  -- A secondary that holds messages of the master's log only asks from its first gap and stores the
  -- answer, the log as it was at some time from that gap on. Then it shows a run of the log from 0
  -- that is at least as long as the log was when the master answered, while the messages stored
  -- plus those of the log are fewer than 2^64.
  pub catch_up :
      length st.messages + length (old ++ new) < u64_mod
      → (n : ℕ) × (length old ≤ n)
        × (get_contiguous_chunk (add_messages (get_first_gap st) (drop (get_first_gap st) old) st) 0
            ≡ take n (old ++ new))
  unfolding get_contiguous_chunk
  catch_up h =
      (length chunk, enough, IsChunk-take after.messages (old ++ new) after-From 0 chunk found)
    where
      gap : ℕ
      gap = get_first_gap st

      facts :
          (gap ≡ length (get_contiguous_chunk st 0))
          × (find gap st.messages ≡ none)
          × ((i : ℕ) → i < gap → find i st.messages ≢ none)
      facts = gap-eq-length-chunk st (omega arith)

      within : gap ≤ length (old ++ new)
      within = gap-le gap facts.2

      after : Storage
      after = add_messages gap (drop gap old) st

      same : after ≡ deliver (number gap (drop gap old)) st
      same =
          add_messages-deliver gap (drop gap old) st
            (omega (arith, within, length-drop gap old, length-append old new))

      after-From : From (old ++ new) after.messages
      after-From = rw same (delivered-From gap)

      small : length after.messages < u64_mod
      small = rw same (
          omega (
            arith,
            length-deliver (number gap (drop gap old)) st,
            length-number gap (drop gap old),
            length-drop gap old,
            length-append old new,
          ))

      chunk : List Bytes
      chunk = get_contiguous_chunk after 0

      found : IsChunk after.messages 0 chunk
      found = scan-IsChunk after.messages 0 (omega (arith, small))

      enough : length old ≤ length chunk
      enough = elim (dec_lt (length chunk) (length old)) [
        | no h ↦ omega arith
        | yes short ↦
            let e : 0 + length chunk ≡ length chunk = omega arith in
            let ends : find (length chunk) after.messages ≡ none =
              rw e at (IsChunk-end after.messages 0 chunk found) in
            absurd (
              filled gap facts.2 (length chunk) short
                (ap (λ (s : Storage). find (length chunk) s.messages) (sym same) ∙ ends))
      ]
