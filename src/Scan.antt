-- ===== src/Scan.antt =====
-- The loops of both Storage classes over messages_: app/master-node/storage/storage.cpp and
-- app/secondary-node/storage/storage.cpp. `while (true)` is a recursion on fuel, for which one
-- round more than there are messages is enough.
use mathlib.Core.List.{append-nil, append_assoc}
use distributed_systems_hw.Base.{
  ℕ, zero, suc, ◌+◌, ◌≤◌, ◌<◌, ◌≡◌, refl, sym, ap, ◌∙◌, inl, inr, List, [], ◌∷◌, ◌++◌, none, some,
  arith, leb, if◌then◌else◌, length, get_elem?, take, drop, drop_cons, Option-cases, Bytes, u64_mod,
  next_u64,
}
use distributed_systems_hw.Base.Maps.{Map, find}

-- The loop of getContiguousChunk.
unfoldable pub chunk_loop : ℕ → Map Bytes → ℕ → List Bytes → List Bytes
chunk_loop zero messages start_id res = res
chunk_loop (suc fuel) messages start_id res = elim (find start_id messages) [
  | none ↦ res
  | some message ↦ chunk_loop fuel messages (next_u64 start_id) (res ++ message ∷ [])
]

-- The loop of getFirstGap.
unfoldable pub gap_loop : ℕ → Map Bytes → ℕ → ℕ
gap_loop zero messages res = res
gap_loop (suc fuel) messages res = elim (find res messages) [
  | none ↦ res
  | some _ ↦ gap_loop fuel messages (next_u64 res)
]

-- `r` holds the messages from `s` on, and the message behind them is missing.
abbrev pub IsChunk : Map Bytes → ℕ → List Bytes → Type 0
IsChunk m s [] = find s m ≡ none
IsChunk m s (v ∷ r) = (find s m ≡ some v) × IsChunk m (s + 1) r

-- How many keys are `s` or above.
abbrev pub above : ℕ → Map Bytes → ℕ
above s [] = 0
above s ((k, v) ∷ m) = (if leb s k then 1 else 0) + above s m

above-le-length : (s : ℕ) (m : Map Bytes) → above s m ≤ length m
above-le-length s [] = omega arith
above-le-length s ((k, v) ∷ m) = ground (arith, above-le-length s m)

above_step : (s : ℕ) (m : Map Bytes) → above (s + 1) m ≤ above s m
above_step s [] = omega arith
above_step s ((k, v) ∷ m) = ground (arith, above_step s m)

above_found : (s : ℕ) (m : Map Bytes) {v : Bytes} → find s m ≡ some v → above (s + 1) m < above s m
unfolding find
above_found s [] e = cc
above_found s ((k, w) ∷ m) {v} e = ground (arith, above_step s m, above_found s m {v = v})

chunk_loop_found :
    (fuel : ℕ) (m : Map Bytes) (s : ℕ) (res : List Bytes) {v : Bytes}
    → find s m ≡ some v
    → s + 1 < u64_mod
    → chunk_loop (suc fuel) m s res ≡ chunk_loop fuel m (s + 1) (res ++ v ∷ [])
unfolding chunk_loop
chunk_loop_found fuel m s res hit h =
    let same : next_u64 s ≡ s + 1 = omega arith in rw (hit, chunk_loop, same)

chunk_loop-IsChunk :
    (fuel : ℕ) (m : Map Bytes) (s : ℕ) (res : List Bytes)
    → above s m < fuel
    → s + above s m < u64_mod
    → (r : List Bytes) × (chunk_loop fuel m s res ≡ res ++ r) × IsChunk m s r
unfolding chunk_loop
chunk_loop-IsChunk zero m s res h b = absurd (omega arith)
chunk_loop-IsChunk (suc fuel) m s res h b = elim (Option-cases (find s m)) [
  | inl gap ↦ ([], rw (gap, chunk_loop) (sym (append-nil res)), gap)
  | inr (v, hit) ↦
      let fewer = above_found s m hit in
      let (r, e, c) =
        chunk_loop-IsChunk fuel m (s + 1) (res ++ v ∷ []) (omega arith) (omega arith) in
      (
        v ∷ r,
        chunk_loop_found fuel m s res hit (omega arith) ∙ e ∙ append_assoc res (v ∷ []) r,
        (hit, c),
      )
]

pub IsChunk-unique :
    (m : Map Bytes) (s : ℕ) (r q : List Bytes) → IsChunk m s r → IsChunk m s q → r ≡ q
IsChunk-unique m s [] [] c d = refl
IsChunk-unique m s [] (w ∷ q) c d = cc
IsChunk-unique m s (v ∷ r) [] c d = cc
IsChunk-unique m s (v ∷ r) (w ∷ q) c d =
    let head : some v ≡ some w = sym c.0 ∙ d.0 in
    ground (arith, head, IsChunk-unique m (s + 1) r q c.1 d.1)

gap_loop-IsChunk :
    (fuel : ℕ) (m : Map Bytes) (s : ℕ)
    → above s m < fuel
    → s + above s m < u64_mod
    → (r : List Bytes) → IsChunk m s r
    → gap_loop fuel m s ≡ s + length r
unfolding gap_loop
gap_loop-IsChunk zero m s h b r c = absurd (omega arith)
gap_loop-IsChunk (suc fuel) m s h b [] c = rw (c, gap_loop) (omega arith)
gap_loop-IsChunk (suc fuel) m s h b (v ∷ r) c =
    let fewer = above_found s m c.0 in
    let same : next_u64 s ≡ s + 1 = omega arith in
    rw (c.0, gap_loop, same)
      (omega (arith, gap_loop-IsChunk fuel m (s + 1) (omega arith) (omega arith) r c.1))

-- One round more than there are messages is enough, and then the chunk is the whole of it.
pub scan-IsChunk :
    (m : Map Bytes) (s : ℕ)
    → s + length m < u64_mod
    → IsChunk m s (chunk_loop (suc (length m)) m s [])
scan-IsChunk m s h =
    let few = above-le-length s m in
    let (r, e, c) = chunk_loop-IsChunk (suc (length m)) m s [] (omega arith) (omega arith) in rw e c

pub scan_gap :
    (m : Map Bytes) (s : ℕ)
    → s + length m < u64_mod
    → gap_loop (suc (length m)) m s ≡ s + length (chunk_loop (suc (length m)) m s [])
scan_gap m s h =
    let few = above-le-length s m in
    gap_loop-IsChunk (suc (length m)) m s (omega arith) (omega arith) _ (scan-IsChunk m s h)

-- What a chunk says of each position.
pub IsChunk-get_elem? :
    (m : Map Bytes) (s : ℕ) (r : List Bytes) (i : ℕ)
    → IsChunk m s r
    → i < length r
    → get_elem? r i ≡ find (s + i) m
IsChunk-get_elem? m s [] i c h = absurd (omega arith)
IsChunk-get_elem? m s (v ∷ r) zero c h = let e : s + zero ≡ s = omega arith in rw e (sym c.0)
IsChunk-get_elem? m s (v ∷ r) (suc i) c h =
    let e : s + suc i ≡ s + 1 + i = omega arith in
    rw e (IsChunk-get_elem? m (s + 1) r i c.1 (omega arith))

pub IsChunk-end :
    (m : Map Bytes) (s : ℕ) (r : List Bytes) → IsChunk m s r → find (s + length r) m ≡ none
IsChunk-end m s [] c = let e : s + 0 ≡ s = omega arith in rw e c
IsChunk-end m s (v ∷ r) c =
    let e : s + suc (length r) ≡ s + 1 + length r = omega arith in
    rw e (IsChunk-end m (s + 1) r c.1)

-- The chunk of a map that holds a whole list.
pub IsChunk-list :
    (m : Map Bytes) (s : ℕ) (r : List Bytes)
    → ((i : ℕ) → find (s + i) m ≡ get_elem? r i)
    → IsChunk m s r
IsChunk-list m s [] h = let e : s + 0 ≡ s = omega arith in rw e at (h 0)
IsChunk-list m s (v ∷ r) h =
    let e : s + 0 ≡ s = omega arith in
    let step : (i : ℕ) → find (s + 1 + i) m ≡ get_elem? r i =
      λ i. let e' : s + 1 + i ≡ s + suc i = omega arith in rw e' (h (suc i)) in
    (rw e at (h 0), IsChunk-list m (s + 1) r step)

-- The chunk of a map whose entries all come from a list is a run of that list.
pub IsChunk-take :
    (m : Map Bytes) (log : List Bytes)
    → ((i : ℕ) (v : Bytes) → find i m ≡ some v → get_elem? log i ≡ some v)
    → (s : ℕ) (r : List Bytes) → IsChunk m s r
    → r ≡ take (length r) (drop s log)
IsChunk-take m log h s [] c = refl
IsChunk-take m log h s (v ∷ r) c =
    rw (drop_cons s log (h s v c.0)) (ap (◌∷◌ v) (IsChunk-take m log h (s + 1) r c.1))
