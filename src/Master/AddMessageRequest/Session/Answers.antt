-- ===== src/Master/AddMessageRequest/Session/Answers.antt =====
-- app/master-node/addmessagerequest: what it says of single secondaries that as many have answered as
-- there are.
use distributed_systems_hw.Base.{
  ℕ, zero, suc, ◌≤◌, ◌<◌, ◌≡◌, ◌≢◌, refl, ap, inl, inr, true, false, List, [], ◌∷◌, Option, none,
  some, arith, length, ◌==◌, Bool-cases,
}
use distributed_systems_hw.Base.Maps.{Map, find, UniqueKeys}
use distributed_systems_hw.Master.AddMessageRequest.{
  Status, added, not_added, error, successful_answers, contains,
}
use distributed_systems_hw.Master.AddMessageRequest.Counts.{Distinct, Among}
use distributed_systems_hw.Master.AddMessageRequest.Session.{remove}
use distributed_systems_hw.Master.AddMessageRequest.Session.Progress.{length-remove}

-- More distinct ids do not fit among others.
remove-Among :
    (x : ℕ) (xs ids : List ℕ) → contains ids x ≡ false → Among xs ids → Among (remove x xs) ids
remove-Among x xs [] out a = tt
remove-Among x xs (y ∷ ids) out a = (
  contains-remove x y xs (ground (arith, out)) a.0,
  remove-Among x xs ids (ground (arith, out)) a.1,
)
  where
    contains-remove :
        (x y : ℕ) (xs : List ℕ)
        → (y == x) ≡ false
        → contains xs y ≡ true
        → contains (remove x xs) y ≡ true
    contains-remove x y [] other e = ground (arith, e)
    contains-remove x y (z ∷ xs) other e = ground (arith, e, other, contains-remove x y xs other)

pub Among-le : (xs ids : List ℕ) → Distinct ids → Among xs ids → length ids ≤ length xs
Among-le xs [] d a = omega arith
Among-le xs (y ∷ ids) d a =
    omega (
      arith,
      length-remove y xs a.0,
      Among-le (remove y xs) ids d.1 (remove-Among y xs ids d.0 a.1),
    )

-- The secondaries that have answered without an error.
abbrev answered_ids : Map Status → List ℕ
answered_ids [] = []
answered_ids ((id, error) ∷ rest) = answered_ids rest
answered_ids ((id, added) ∷ rest) = id ∷ answered_ids rest
answered_ids ((id, not_added) ∷ rest) = id ∷ answered_ids rest

length-answered_ids : (m : Map Status) → length (answered_ids m) ≡ successful_answers m
length-answered_ids [] = refl
length-answered_ids ((id, error) ∷ rest) = length-answered_ids rest
length-answered_ids ((id, added) ∷ rest) = ap suc (length-answered_ids rest)
length-answered_ids ((id, not_added) ∷ rest) = ap suc (length-answered_ids rest)

-- A status is one of an answer.
abbrev pub Answered : Option Status → Type 0
Answered s = (s ≢ none) × (s ≢ some error)

answered_ids-Answered :
    (j : ℕ) (m : Map Status)
    → UniqueKeys m
    → contains (answered_ids m) j ≡ true
    → Answered (find j m)
unfolding find
answered_ids-Answered j [] u e = (λ f. ground (arith, e), λ f. ground (arith, e))
answered_ids-Answered j ((id, added) ∷ rest) u e = (
  λ f. ground (arith, e, f, answered_ids-Answered j rest u.1),
  λ f. ground (arith, e, f, answered_ids-Answered j rest u.1),
)
answered_ids-Answered j ((id, not_added) ∷ rest) u e = (
  λ f. ground (arith, e, f, answered_ids-Answered j rest u.1),
  λ f. ground (arith, e, f, answered_ids-Answered j rest u.1),
)
answered_ids-Answered j ((id, error) ∷ rest) u e =
    let r = answered_ids-Answered j rest u.1 e in
    (λ f. ground (arith, f, r.0, u.0, same), λ f. ground (arith, f, r.0, r.1, u.0, same))
  where
    same : (id == j) ≡ true → find id rest ≡ find j rest
    same h = ap (λ (k : ℕ). find k rest) (ground (arith, h))

answered_ids_absent :
    (k : ℕ) (m : Map Status) → find k m ≡ none → contains (answered_ids m) k ≡ false
unfolding find
answered_ids_absent k [] e = refl
answered_ids_absent k ((id, added) ∷ rest) e = ground (arith, answered_ids_absent k rest)
answered_ids_absent k ((id, not_added) ∷ rest) e = ground (arith, answered_ids_absent k rest)
answered_ids_absent k ((id, error) ∷ rest) e = ground (arith, answered_ids_absent k rest)

answered_ids-Distinct : (m : Map Status) → UniqueKeys m → Distinct (answered_ids m)
answered_ids-Distinct [] u = tt
answered_ids-Distinct ((id, added) ∷ rest) u =
    (answered_ids_absent id rest u.0, answered_ids-Distinct rest u.1)
answered_ids-Distinct ((id, not_added) ∷ rest) u =
    (answered_ids_absent id rest u.0, answered_ids-Distinct rest u.1)
answered_ids-Distinct ((id, error) ∷ rest) u = answered_ids-Distinct rest u.1

-- A secondary that has a status is in the list.
abbrev pub Within : List ℕ → Map Status → Type 0
Within snapshot m = (j : ℕ) → find j m ≢ none → contains snapshot j ≡ true

tail-Within :
    (snapshot : List ℕ) (id : ℕ) (s : Status) (m : Map Status)
    → Within snapshot ((id, s) ∷ m)
    → Within snapshot m
unfolding find
tail-Within snapshot id s m w j e = w j (λ f. ground (arith, e, f))

answered_ids-Among :
    (snapshot : List ℕ) (m : Map Status) → Within snapshot m → Among snapshot (answered_ids m)
unfolding find
answered_ids-Among snapshot [] w = tt
answered_ids-Among snapshot ((id, added) ∷ rest) w = (
  w id (λ f. ground (arith, f)),
  answered_ids-Among snapshot rest (tail-Within snapshot id added rest w),
)
answered_ids-Among snapshot ((id, not_added) ∷ rest) w = (
  w id (λ f. ground (arith, f)),
  answered_ids-Among snapshot rest (tail-Within snapshot id not_added rest w),
)
answered_ids-Among snapshot ((id, error) ∷ rest) w =
    answered_ids-Among snapshot rest (tail-Within snapshot id error rest w)

-- As many answers as there are secondaries in the snapshot are answers of all of them.
pub all-Answered :
    (snapshot : List ℕ) (m : Map Status)
    → UniqueKeys m
    → Within snapshot m
    → successful_answers m ≡ length snapshot
    → (j : ℕ) → contains snapshot j ≡ true
    → Answered (find j m)
all-Answered snapshot m u w count j here = elim (Bool-cases (contains (answered_ids m) j)) [
  | inl found ↦ answered_ids-Answered j m u found
  | inr missing ↦
      let among = answered_ids-Among snapshot m w in
      let few =
        Among-le (remove j snapshot) (answered_ids m) (answered_ids-Distinct m u)
          (remove-Among j snapshot (answered_ids m) missing among) in
      absurd (omega (arith, few, count, length-remove j snapshot here, length-answered_ids m))
]

-- The ids 0 to n - 1.
abbrev below : ℕ → List ℕ
below zero = []
below (suc n) = n ∷ below n

length-below : (n : ℕ) → length (below n) ≡ n
length-below zero = refl
length-below (suc n) = omega (arith, length-below n)

contains-below : (n j : ℕ) → j < n → contains (below n) j ≡ true
contains-below zero j h = absurd (omega arith)
contains-below (suc n) j h = ground (arith, contains-below n j)

pub Among-all :
    (xs ids : List ℕ) → ((j : ℕ) → contains ids j ≡ true → contains xs j ≡ true) → Among xs ids
Among-all xs [] h = tt
Among-all xs (y ∷ ids) h = (h y (ground arith), Among-all xs ids (λ j e. h j (ground (arith, e))))

-- Distinct ids below n are at most n.
pub Distinct-le :
    (n : ℕ) (ids : List ℕ)
    → Distinct ids
    → ((j : ℕ) → contains ids j ≡ true → j < n)
    → length ids ≤ n
Distinct-le n ids d small = omega (
  arith,
  Among-le (below n) ids d (Among-all (below n) ids (λ j h. contains-below n j (small j h))),
  length-below n,
)
