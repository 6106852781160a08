-- ===== src/NetUtils/IoContextPool/Smallest.antt =====
-- libs/net-utils/src/iocontextpool.cpp: the loops over the loads.
use distributed_systems_hw.Base.{
  ℕ, zero, suc, ◌+◌, ◌-◌, ◌<◌, ◌≤◌, ◌≡◌, ◌⊎◌, inl, inr, refl, Option, none, some, List, [], ◌∷◌,
  arith, leb, ◌==◌, if◌then◌else◌, Bool-cases, length, get_elem?, All, next_u64,
}
use distributed_systems_hw.NetUtils.IoContextPool.{smallest_loop, increase, dec_loop, zeros}

-- `m` stands at the index `r` of the loads from index `i` on, and none of these is smaller.
abbrev pub Smallest : List ℕ → ℕ → ℕ → ℕ → Type 0
Smallest load i r m = (get_elem? load (r - i) ≡ some m) × (i ≤ r) × All (λ l. m ≤ l) load

All-weaken : (m s : ℕ) (load : List ℕ) → m ≤ s → All (λ l. s ≤ l) load → All (λ l. m ≤ l) load
All-weaken m s [] h a = tt
All-weaken m s (l ∷ load) h a = (omega arith, All-weaken m s load h (a.1))

later-Smallest :
    (l : ℕ) (load : List ℕ) (i r m : ℕ)
    → Smallest load (i + 1) r m
    → m ≤ l
    → Smallest (l ∷ load) i r m
later-Smallest l load i r m (found, above, a) h =
    let e : r - i ≡ suc (r - (i + 1)) = omega arith in (rw e found, omega arith, (h, a))

-- The result is the index so far, when no load is smaller, or that of a smallest load.
pub smallest_loop-Smallest :
    (load : List ℕ) (i s index : ℕ)
    → ((smallest_loop load i s index ≡ index) × All (λ l. s ≤ l) load)
      ⊎ ((m : ℕ) × (m < s) × Smallest load i (smallest_loop load i s index) m)
unfolding smallest_loop
smallest_loop-Smallest [] i s index = inl (refl, tt)
smallest_loop-Smallest (l ∷ load) i s index = elim (Bool-cases (leb s l)) [
  | inl kept ↦ rw kept (elim (smallest_loop-Smallest load (i + 1) s index) [
    | inl (e, a) ↦ inl (e, (ground (arith, kept), a))
    | inr (m, less, later) ↦
        inr (m, less, later-Smallest l load i _ m later (ground (arith, kept, less)))
  ])
  | inr smaller ↦ rw smaller (elim (smallest_loop-Smallest load (i + 1) l i) [
    | inl (e, a) ↦
        let here : smallest_loop load (i + 1) l i - i ≡ 0 = omega arith in
        inr (l, ground (arith, smaller), (rw here refl, omega arith, (omega arith, a)))
    | inr (m, less, later) ↦
        inr (m, ground (arith, smaller, less), later-Smallest l load i _ m later (omega arith))
  ])
]

pub get_elem?-increase :
    (i j : ℕ) (load : List ℕ) (n : ℕ)
    → get_elem? load i ≡ some n
    → get_elem? (increase i load) j ≡ (if i == j then some (next_u64 n) else get_elem? load j)
unfolding increase
get_elem?-increase i j [] n e = absurd (ground (arith, e))
get_elem?-increase zero zero (l ∷ load) n e = ground (arith, e)
get_elem?-increase zero (suc j) (l ∷ load) n e = ground arith
get_elem?-increase (suc i) zero (l ∷ load) n e = ground arith
get_elem?-increase (suc i) (suc j) (l ∷ load) n e = ground (arith, get_elem?-increase i j load n e)

pub length-increase : (i : ℕ) (load : List ℕ) → length (increase i load) ≡ length load
unfolding increase
length-increase i [] = refl
length-increase zero (l ∷ load) = refl
length-increase (suc i) (l ∷ load) = omega (arith, length-increase i load)

pub length-dec_loop : (c i : ℕ) (load : List ℕ) → length (dec_loop c i load) ≡ length load
unfolding dec_loop
length-dec_loop c i [] = refl
length-dec_loop c i (l ∷ load) = omega (arith, length-dec_loop c (i + 1) load)

abbrev pub minus_one : Option ℕ → Option ℕ
minus_one none = none
minus_one (some l) = some (l - 1)

pub get_elem?-dec_loop :
    (c i j : ℕ) (load : List ℕ)
    → get_elem? (dec_loop c i load) j
      ≡ (if i + j == c then minus_one (get_elem? load j) else get_elem? load j)
unfolding dec_loop
get_elem?-dec_loop c i j [] = ground arith
get_elem?-dec_loop c i zero (l ∷ load) = ground arith
get_elem?-dec_loop c i (suc j) (l ∷ load) =
    let e : i + suc j ≡ i + 1 + j = omega arith in rw e (get_elem?-dec_loop c (i + 1) j load)

pub length-zeros : (n : ℕ) → length (zeros n) ≡ n
length-zeros zero = refl
length-zeros (suc n) = omega (arith, length-zeros n)

pub get_elem?-zeros : (n i : ℕ) → i < n → get_elem? (zeros n) i ≡ some 0
get_elem?-zeros zero i h = absurd (omega arith)
get_elem?-zeros (suc n) zero h = refl
get_elem?-zeros (suc n) (suc i) h = get_elem?-zeros n i (omega arith)
