-- ===== src/Master/AddMessageRequest/Counts.antt =====
-- app/master-node/addmessagerequest: what the counts over the statuses say of single secondaries.
use distributed_systems_hw.Base.{
  ℕ, ◌≡◌, ◌≤◌, ◌<◌, ◌%◌, All, refl, true, false, List, [], ◌∷◌, none, some, arith, length,
  if◌then◌else◌, Bool-cases, inl, inr,
}
use distributed_systems_hw.Base.Maps.{Map, find, UniqueKeys}
use distributed_systems_hw.Master.AddMessageRequest.{
  Status, added, not_added, error, contains, retain, is_present, satisfied_loop,
  satisfied_write_concern, int_max, int_mod, present_secondaries,
}

-- The secondaries whose status is ADDED.
abbrev pub added_ids : Map Status → List ℕ
added_ids [] = []
added_ids ((id, added) ∷ rest) = id ∷ added_ids rest
added_ids ((id, not_added) ∷ rest) = added_ids rest
added_ids ((id, error) ∷ rest) = added_ids rest

-- No id stands twice in the list.
abbrev pub Distinct : List ℕ → Type 0
Distinct [] = Unit
Distinct (x ∷ xs) = (contains xs x ≡ false) × Distinct xs

-- Every id of the list stands in the other one.
abbrev pub Among : List ℕ → List ℕ → Type 0
Among ys [] = Unit
Among ys (x ∷ xs) = (contains ys x ≡ true) × Among ys xs

loop-eq-length :
    (m : Map Status) → length (added_ids m) ≤ int_max → satisfied_loop m ≡ length (added_ids m)
unfolding satisfied_loop
loop-eq-length [] h = refl
loop-eq-length ((id, added) ∷ rest) h =
    let before = loop-eq-length rest (omega arith) in omega (arith, before)
loop-eq-length ((id, not_added) ∷ rest) h = loop-eq-length rest h
loop-eq-length ((id, error) ∷ rest) h = loop-eq-length rest h

-- The counter is right while it does not overflow.
pub length-added_ids :
    (m : Map Status)
    → length (added_ids m) ≤ int_max
    → length (added_ids m) ≡ satisfied_write_concern m
unfolding satisfied_write_concern
length-added_ids m h = let e = loop-eq-length m h in ground (arith, e)

pub added_ids_absent : (k : ℕ) (m : Map Status) → find k m ≡ none → contains (added_ids m) k ≡ false
unfolding find
added_ids_absent k [] e = refl
added_ids_absent k ((id, added) ∷ rest) e = ground (arith, added_ids_absent k rest)
added_ids_absent k ((id, not_added) ∷ rest) e = ground (arith, added_ids_absent k rest)
added_ids_absent k ((id, error) ∷ rest) e = ground (arith, added_ids_absent k rest)

pub added_ids-Distinct : (m : Map Status) → UniqueKeys m → Distinct (added_ids m)
added_ids-Distinct [] u = tt
added_ids-Distinct ((id, added) ∷ rest) u =
    (added_ids_absent id rest u.0, added_ids-Distinct rest u.1)
added_ids-Distinct ((id, not_added) ∷ rest) u = added_ids-Distinct rest u.1
added_ids-Distinct ((id, error) ∷ rest) u = added_ids-Distinct rest u.1

-- Every secondary with status ADDED is in the list.
abbrev pub Backed : List ℕ → Map Status → Type 0
Backed acked m = (k : ℕ) → find k m ≡ some added → contains acked k ≡ true

tail-Backed :
    (acked : List ℕ) (id : ℕ) (s : Status) (m : Map Status)
    → find id m ≡ none
    → Backed acked ((id, s) ∷ m)
    → Backed acked m
unfolding find
tail-Backed acked id s m absent b k e = ground (arith, b k)

pub added_ids-Among :
    (acked : List ℕ) (m : Map Status) → UniqueKeys m → Backed acked m → Among acked (added_ids m)
unfolding find
added_ids-Among acked [] u b = tt
added_ids-Among acked ((id, added) ∷ rest) u b =
    (ground (arith, b id), added_ids-Among acked rest u.1 (tail-Backed acked id added rest u.0 b))
added_ids-Among acked ((id, not_added) ∷ rest) u b =
    added_ids-Among acked rest u.1 (tail-Backed acked id not_added rest u.0 b)
added_ids-Among acked ((id, error) ∷ rest) u b =
    added_ids-Among acked rest u.1 (tail-Backed acked id error rest u.0 b)

pub more-Among : (x : ℕ) (acked ids : List ℕ) → Among acked ids → Among (x ∷ acked) ids
more-Among x acked [] a = tt
more-Among x acked (y ∷ ys) a = (ground (arith, a.0), more-Among x acked ys a.1)

pub find-retain :
    (k : ℕ) (present : List ℕ) (m : Map Status)
    → find k (retain present m) ≡ (if is_present present k then find k m else none)
unfolding find retain
find-retain k present [] = ground arith
find-retain k present ((id, s) ∷ rest) = ground (arith, find-retain k present rest)

pub retain-UniqueKeys :
    (present : List ℕ) (m : Map Status) → UniqueKeys m → UniqueKeys (retain present m)
unfolding find retain
retain-UniqueKeys present [] u = tt
retain-UniqueKeys present ((id, s) ∷ rest) u = elim (Bool-cases (is_present present id)) [
  | inl kept ↦
      rw kept (ground (arith, find-retain id present rest, u.0), retain-UniqueKeys present rest u.1)
  | inr gone ↦ rw gone (retain-UniqueKeys present rest u.1)
]

-- Ids that fit an int are not mixed up.
pub present_exact :
    (ids : List ℕ) (j : ℕ)
    → All (λ id. id < int_max) ids
    → j < int_max
    → is_present ids j ≡ contains ids j
unfolding is_present
present_exact [] j a h = refl
present_exact (x ∷ ids) j a h =
    let same : x % int_mod ≡ x = omega (arith, a.0) in
    let self : j % int_mod ≡ j = omega arith in
    let rest : contains (present_secondaries ids) j ≡ contains ids j =
      rw self at (present_exact ids j a.1 h) in
    rw (same, self) (ground (arith, rest))
