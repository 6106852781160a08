-- ===== src/Secondary/Storage/Replica.antt =====
-- A secondary's storage against the master's list of messages: what arrives late, twice or out of
-- order.
use mathlib.Core.Option.{Option}
use distributed_systems_hw.Base.{
  get_elem?-some, ℕ, ◌+◌, ◌≤◌, ◌<◌, ◌≡◌, sym, ap, ◌∙◌, ◌↔◌, ◌≢◌, inl, inr, List, [], ◌∷◌, none,
  some, arith, length, get_elem?, take, drop, Bytes, u64_mod, Option-cases,
}
use distributed_systems_hw.Base.Maps.{Map, find, find-insert, length-insert}
use distributed_systems_hw.Scan.{
  IsChunk, scan-IsChunk, scan_gap, IsChunk-unique, IsChunk-take, IsChunk-end, IsChunk-get_elem?,
}
use distributed_systems_hw.Secondary.Storage.{
  Storage, empty, add_message, get_first_gap, get_contiguous_chunk,
}

-- Every message in the map is the one that `log` has under its id.
abbrev pub From : List Bytes → Map Bytes → Type 0
From log m = (i : ℕ) (v : Bytes) → find i m ≡ some v → get_elem? log i ≡ some v

-- Calls of addMessage in the order in which they are made.
unfoldable pub deliver : Map Bytes → Storage → Storage
deliver [] st = st
deliver ((id, message) ∷ rest) st = deliver rest (add_message id message st)

abbrev pub or_else {ℓ} : {A : Type ℓ} → Option A → Option A → Option A
or_else none b = b
or_else (some a) b = some a

-- The first message to arrive under an id stays.
pub find-deliver :
    (ds : Map Bytes) (st : Storage) (i : ℕ)
    → find i (deliver ds st).messages ≡ or_else (find i st.messages) (find i ds)
unfolding deliver add_message find
find-deliver [] st i = ground arith
find-deliver ((id, message) ∷ rest) st i =
    ground
      (arith, find-deliver rest (add_message id message st) i, find-insert i id message st.messages)

pub length-deliver :
    (ds : Map Bytes) (st : Storage)
    → length (deliver ds st).messages ≤ length st.messages + length ds
unfolding deliver add_message
length-deliver [] st = omega arith
length-deliver ((id, message) ∷ rest) st =
    omega
      (arith, length-deliver rest (add_message id message st), length-insert id message st.messages)

IsChunk-cong :
    (m n : Map Bytes) (s : ℕ) (r : List Bytes)
    → ((i : ℕ) → find i m ≡ find i n)
    → IsChunk m s r
    → IsChunk n s r
IsChunk-cong m n s [] h c = sym (h s) ∙ c
IsChunk-cong m n s (v ∷ r) h c = (sym (h s) ∙ c.0, IsChunk-cong m n (s + 1) r h c.1)

-- Two sequences of deliveries of messages of one log, in any order and with any repetitions, that
-- bring the same ids leave a secondary with the same contiguous chunk from every start, while
-- start plus the number of deliveries is below 2^64.
pub delivery_order :
    (log : List Bytes) (ds es : Map Bytes) (start_id : ℕ)
    → From log ds
    → From log es
    → ((i : ℕ) → (find i ds ≡ none) ↔ (find i es ≡ none))
    → start_id + length ds < u64_mod
    → start_id + length es < u64_mod
    → get_contiguous_chunk (deliver ds empty) start_id
      ≡ get_contiguous_chunk (deliver es empty) start_id
unfolding get_contiguous_chunk
delivery_order log ds es start_id fd fe same hd he =
    IsChunk-unique (deliver es empty).messages start_id _ _
      (IsChunk-cong (deliver ds empty).messages (deliver es empty).messages start_id _ agree
        (scan-IsChunk _ start_id (omega (arith, length-deliver ds empty))))
      (scan-IsChunk _ start_id (omega (arith, length-deliver es empty)))
  where
    at : (i : ℕ) → find i ds ≡ find i es
    at i = elim (Option-cases (find i ds)) [
      | inl gap ↦ gap ∙ sym ((same i).0 gap)
      | inr (v, hit) ↦ elim (Option-cases (find i es)) [
        | inl gap ↦ (same i).1 gap ∙ sym gap
        | inr (w, other) ↦ ground (arith, hit, other, fd i v hit, fe i w other)
      ]
    ]

    agree : (i : ℕ) → find i (deliver ds empty).messages ≡ find i (deliver es empty).messages
    agree i = unfold find in ground (arith, find-deliver ds empty i, find-deliver es empty i, at i)

-- getFirstGap is the length of the contiguous chunk from 0: every id below it is stored, and it is
-- not, while the number of messages is below 2^64.
pub gap-eq-length-chunk :
    (st : Storage)
    → length st.messages < u64_mod
    → (get_first_gap st ≡ length (get_contiguous_chunk st 0))
      × (find (get_first_gap st) st.messages ≡ none)
      × ((i : ℕ) → i < get_first_gap st → find i st.messages ≢ none)
unfolding get_first_gap get_contiguous_chunk
gap-eq-length-chunk st h = (same, missing, present)
  where
    chunk : IsChunk st.messages 0 (get_contiguous_chunk st 0)
    chunk = scan-IsChunk st.messages 0 (omega arith)

    same : get_first_gap st ≡ length (get_contiguous_chunk st 0)
    same = scan_gap st.messages 0 (omega arith) ∙ omega arith

    missing : find (get_first_gap st) st.messages ≡ none
    missing =
        let e : get_first_gap st ≡ 0 + length (get_contiguous_chunk st 0) = omega (arith, same) in
        rw e (IsChunk-end st.messages 0 _ chunk)

    present : (i : ℕ) → i < get_first_gap st → find i st.messages ≢ none
    present i lt gap =
        let few : i < length (get_contiguous_chunk st 0) = omega (arith, same) in
        let (v, e) = get_elem?-some (get_contiguous_chunk st 0) i few in
        let got = IsChunk-get_elem? st.messages 0 _ i chunk few in
        let zero_add : 0 + i ≡ i = omega arith in
        cc (sym e ∙ (got ∙ ap (λ (k : ℕ). find k st.messages) zero_add) ∙ gap)

-- A secondary that holds messages of `log` only shows a run of `log` from the start asked for, while
-- that start plus the number of messages stored is below 2^64.
pub chunk-From :
    (log : List Bytes) (st : Storage) (start_id : ℕ)
    → From log st.messages
    → start_id + length st.messages < u64_mod
    → (n : ℕ) × (get_contiguous_chunk st start_id ≡ take n (drop start_id log))
unfolding get_contiguous_chunk
chunk-From log st start_id f h =
    (_, IsChunk-take st.messages log f start_id _ (scan-IsChunk st.messages start_id h))
