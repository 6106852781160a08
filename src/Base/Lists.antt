-- ===== src/Base/Lists.antt =====
-- Lists measured by native numbers.
use Prim.Native.Nat.{ℕ, zero, suc, ◌+◌, ◌-◌, ◌≤◌, ◌<◌}
use mathlib.Core.Path.{◌≡◌, refl, ap}
use mathlib.Core.List.{List, [], ◌∷◌, ◌++◌}
use mathlib.Core.Option.{Option, none, some}
use native.Mathlib.Omega.{arith}
use distributed_systems_hw.Base.Tests.{◌==◌, if◌then◌else◌}

module _ {ℓ} {A : Type ℓ} where
  abbrev pub length : List A → ℕ
  length [] = 0
  length (x ∷ xs) = suc (length xs)

  abbrev pub get_elem? : List A → ℕ → Option A
  get_elem? [] i = none
  get_elem? (x ∷ xs) zero = some x
  get_elem? (x ∷ xs) (suc i) = get_elem? xs i

  abbrev pub take : ℕ → List A → List A
  take zero xs = []
  take (suc n) [] = []
  take (suc n) (x ∷ xs) = x ∷ take n xs

  abbrev pub drop : ℕ → List A → List A
  drop zero xs = xs
  drop (suc n) [] = []
  drop (suc n) (x ∷ xs) = drop n xs

  abbrev pub All {κ} : (A → Type κ) → List A → Type κ
  All P [] = Unit
  All P (x ∷ xs) = P x × All P xs

  pub length-append : (xs ys : List A) → length (xs ++ ys) ≡ length xs + length ys
  length-append [] ys = omega arith
  length-append (x ∷ xs) ys = omega (arith, length-append xs ys)

  pub take-length-append : (xs ys : List A) → take (length xs) (xs ++ ys) ≡ xs
  take-length-append [] ys = refl
  take-length-append (x ∷ xs) ys = ap (◌∷◌ x) (take-length-append xs ys)

  pub take_all : (n : ℕ) (xs : List A) → length xs ≤ n → take n xs ≡ xs
  take_all zero [] h = refl
  take_all (suc n) [] h = refl
  take_all zero (x ∷ xs) h = absurd (omega arith)
  take_all (suc n) (x ∷ xs) h = ap (◌∷◌ x) (take_all n xs (omega arith))

  -- A run of a list from a position on, as the end of what comes before its end.
  pub take-drop_run :
      (n s : ℕ) (xs : List A)
      → s ≤ length xs
      → (m : ℕ) × (m ≤ length xs) × (take n (drop s xs) ≡ drop s (take m xs))
  take-drop_run zero zero xs h = (0, omega arith, refl)
  take-drop_run (suc n) zero [] h = (0, omega arith, refl)
  take-drop_run (suc n) zero (x ∷ xs) h =
      let (m, b, e) = take-drop_run n zero xs (omega arith) in
      (suc m, omega (arith, b), ap (◌∷◌ x) e)
  take-drop_run n (suc s) [] h = absurd (omega arith)
  take-drop_run n (suc s) (x ∷ xs) h =
      let (m, b, e) = take-drop_run n s xs (omega arith) in (suc m, omega (arith, b), e)

  pub take_whole : (n : ℕ) (xs : List A) → length xs ≤ length (take n xs) → take n xs ≡ xs
  take_whole n [] h = take_all n [] (omega arith)
  take_whole zero (x ∷ xs) h = absurd (omega arith)
  take_whole (suc n) (x ∷ xs) h = ap (◌∷◌ x) (take_whole n xs (omega arith))

  pub drop-length-append : (xs ys : List A) → drop (length xs) (xs ++ ys) ≡ ys
  drop-length-append [] ys = refl
  drop-length-append (x ∷ xs) ys = drop-length-append xs ys

  pub take-append-drop : (n : ℕ) (xs : List A) → take n xs ++ drop n xs ≡ xs
  take-append-drop zero xs = refl
  take-append-drop (suc n) [] = refl
  take-append-drop (suc n) (x ∷ xs) = ap (◌∷◌ x) (take-append-drop n xs)

  pub take-append_left : (n : ℕ) (xs ys : List A) → n ≤ length xs → take n (xs ++ ys) ≡ take n xs
  take-append_left zero xs ys h = refl
  take-append_left (suc n) [] ys h = absurd (omega arith)
  take-append_left (suc n) (x ∷ xs) ys h = ap (◌∷◌ x) (take-append_left n xs ys (omega arith))

  pub length-take : (n : ℕ) (xs : List A) → n ≤ length xs → length (take n xs) ≡ n
  length-take zero xs h = refl
  length-take (suc n) [] h = absurd (omega arith)
  length-take (suc n) (x ∷ xs) h = omega (arith, length-take n xs (omega arith))

  pub length-take_le : (n : ℕ) (xs : List A) → length (take n xs) ≤ n
  length-take_le zero xs = omega arith
  length-take_le (suc n) [] = omega arith
  length-take_le (suc n) (x ∷ xs) = omega (arith, length-take_le n xs)

  pub All-append {κ} : (P : A → Type κ) (xs ys : List A) → All P xs → All P ys → All P (xs ++ ys)
  All-append P [] ys hx hy = hy
  All-append P (x ∷ xs) ys hx hy = (hx.0, All-append P xs ys hx.1 hy)

module _ {ℓ} {A : Type ℓ} where
  pub get_elem?-above : (xs : List A) (i : ℕ) → length xs ≤ i → get_elem? xs i ≡ none
  get_elem?-above [] i h = refl
  get_elem?-above (x ∷ xs) zero h = absurd (omega arith)
  get_elem?-above (x ∷ xs) (suc i) h = get_elem?-above xs i (omega arith)

  pub get_elem?-below : (xs : List A) (i : ℕ) {x : A} → get_elem? xs i ≡ some x → i < length xs
  get_elem?-below [] i e = cc
  get_elem?-below (x ∷ xs) zero e = omega arith
  get_elem?-below (x ∷ xs) (suc i) {x = y} e = omega (arith, get_elem?-below xs i {x = y} e)

  -- What a push at the end changes.
  pub get_elem?-push :
      (xs : List A) (x : A) (i : ℕ)
      → get_elem? (xs ++ x ∷ []) i ≡ (if length xs == i then some x else get_elem? xs i)
  get_elem?-push [] x zero = refl
  get_elem?-push [] x (suc i) = ground arith
  get_elem?-push (y ∷ xs) x zero = ground arith
  get_elem?-push (y ∷ xs) x (suc i) = ground (arith, get_elem?-push xs x i)

  pub get_elem?-drop :
      (s : ℕ) (xs : List A) (i : ℕ) → get_elem? (drop s xs) i ≡ get_elem? xs (s + i)
  get_elem?-drop zero xs i = let e : 0 + i ≡ i = omega arith in rw e
  get_elem?-drop (suc s) [] i = refl
  get_elem?-drop (suc s) (x ∷ xs) i =
      let e : suc s + i ≡ suc (s + i) = omega arith in rw e (get_elem?-drop s xs i)

  -- Taking one element more off a list that has it.
  pub drop_cons :
      (s : ℕ) (xs : List A) {x : A} → get_elem? xs s ≡ some x → drop s xs ≡ x ∷ drop (s + 1) xs
  drop_cons s [] e = cc
  drop_cons zero (y ∷ xs) e = ground arith
  drop_cons (suc s) (y ∷ xs) {x} e =
      let same : suc s + 1 ≡ suc (s + 1) = omega arith in rw same (drop_cons s xs {x = x} e)

  pub get_elem?-some : (xs : List A) (i : ℕ) → i < length xs → (x : A) × (get_elem? xs i ≡ some x)
  get_elem?-some [] i h = absurd (omega arith)
  get_elem?-some (x ∷ xs) zero h = (x, refl)
  get_elem?-some (x ∷ xs) (suc i) h = get_elem?-some xs i (omega arith)

  pub get_elem?-append_left :
      (xs ys : List A) (i : ℕ) → i < length xs → get_elem? (xs ++ ys) i ≡ get_elem? xs i
  get_elem?-append_left [] ys i h = absurd (omega arith)
  get_elem?-append_left (x ∷ xs) ys zero h = refl
  get_elem?-append_left (x ∷ xs) ys (suc i) h = get_elem?-append_left xs ys i (omega arith)

  pub length-drop : (n : ℕ) (xs : List A) → length (drop n xs) ≡ length xs - n
  length-drop zero xs = omega arith
  length-drop (suc n) [] = omega arith
  length-drop (suc n) (x ∷ xs) = omega (arith, length-drop n xs)
