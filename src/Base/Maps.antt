-- ===== src/Base/Maps.antt =====
-- std::unordered_map and tbb::concurrent_unordered_map with size_t keys, as association lists:
-- `insert` keeps an entry that is there, `assign` is `m[k] = v`, `erase` takes the key out.
use Prim.Native.Nat.{ℕ, suc, ◌≤◌, ◌<◌}
use mathlib.Core.Path.{◌≡◌, refl}
use mathlib.Core.Logic.{inl, inr}
use mathlib.Core.List.{List, [], ◌∷◌}
use mathlib.Core.Option.{Option, none, some}
use native.Mathlib.Omega.{arith}
use distributed_systems_hw.Base.Tests.{◌==◌, if◌then◌else◌, Bool-cases}
use distributed_systems_hw.Base.Lists.{length}

abbrev pub Map {ℓ} : Type ℓ → Type ℓ
Map V = List (ℕ × V)

-- What an insertion leaves at its key.
abbrev pub get_or {ℓ} : {V : Type ℓ} → Option V → V → V
get_or none v = v
get_or (some w) v = w

module _ {ℓ} {V : Type ℓ} where
  unfoldable pub find : ℕ → Map V → Option V
  find k [] = none
  find k ((j, v) ∷ m) = if j == k then some v else find k m

  unfoldable pub insert : ℕ → V → Map V → Map V
  insert k v [] = (k, v) ∷ []
  insert k v ((j, w) ∷ m) = if j == k then (j, w) ∷ m else (j, w) ∷ insert k v m

  unfoldable pub assign : ℕ → V → Map V → Map V
  assign k v [] = (k, v) ∷ []
  assign k v ((j, w) ∷ m) = if j == k then (k, v) ∷ m else (j, w) ∷ assign k v m

  unfoldable pub erase : ℕ → Map V → Map V
  erase k [] = []
  erase k ((j, w) ∷ m) = let rest = erase k m in if j == k then rest else (j, w) ∷ rest

  pub find-insert :
      (j k : ℕ) (v : V) (m : Map V)
      → find j (insert k v m) ≡ (if k == j then some (get_or (find j m) v) else find j m)
  unfolding find insert
  find-insert j k v [] = ground arith
  find-insert j k v ((i, w) ∷ m) = ground (arith, find-insert j k v m)

  pub find-assign :
      (j k : ℕ) (v : V) (m : Map V) → find j (assign k v m) ≡ (if k == j then some v else find j m)
  unfolding find assign
  find-assign j k v [] = refl
  find-assign j k v ((i, w) ∷ m) = ground (arith, find-assign j k v m)

  pub find-erase : (j k : ℕ) (m : Map V) → find j (erase k m) ≡ (if k == j then none else find j m)
  unfolding find erase
  find-erase j k [] = ground arith
  find-erase j k ((i, w) ∷ m) = ground (arith, find-erase j k m)

  -- What holds of every entry.
  pub find-assign_all {κ} :
      (P : V → Type κ) (k : ℕ) (v : V) (m : Map V)
      → ((j : ℕ) (w : V) → find j m ≡ some w → P w)
      → P v
      → (j : ℕ) (w : V) → find j (assign k v m) ≡ some w
      → P w
  find-assign_all P k v m old new j w e = elim (Bool-cases (k == j)) [
    | inl same ↦
        let hit : some w ≡ some v = ground (arith, e, same, find-assign j k v m) in
        let one : v ≡ w = ground (arith, hit) in rw (← one) new
    | inr other ↦ old j w (ground (arith, e, other, find-assign j k v m))
  ]

  -- One entry for each key.
  abbrev pub UniqueKeys : Map V → Type ℓ
  UniqueKeys [] = Unit
  UniqueKeys ((k, v) ∷ m) = (find k m ≡ none) × UniqueKeys m

  pub insert-UniqueKeys : (k : ℕ) (v : V) (m : Map V) → UniqueKeys m → UniqueKeys (insert k v m)
  unfolding insert find
  insert-UniqueKeys k v [] u = (refl, tt)
  insert-UniqueKeys k v ((j, w) ∷ m) u = elim (Bool-cases (j == k)) [
    | inl same ↦ rw same u
    | inr other ↦ rw other (ground (arith, find-insert j k v m, u.0), insert-UniqueKeys k v m u.1)
  ]

  pub assign-UniqueKeys : (k : ℕ) (v : V) (m : Map V) → UniqueKeys m → UniqueKeys (assign k v m)
  unfolding assign find
  assign-UniqueKeys k v [] u = (refl, tt)
  assign-UniqueKeys k v ((j, w) ∷ m) u = elim (Bool-cases (j == k)) [
    | inl same ↦ rw same (ground arith, u.1)
    | inr other ↦ rw other (ground (arith, find-assign j k v m, u.0), assign-UniqueKeys k v m u.1)
  ]

  pub erase-UniqueKeys : (k : ℕ) (m : Map V) → UniqueKeys m → UniqueKeys (erase k m)
  unfolding erase find
  erase-UniqueKeys k [] u = tt
  erase-UniqueKeys k ((j, w) ∷ m) u = elim (Bool-cases (j == k)) [
    | inl same ↦ rw same (erase-UniqueKeys k m u.1)
    | inr other ↦ rw other (ground (arith, find-erase j k m, u.0), erase-UniqueKeys k m u.1)
  ]

module _ {ℓ} {V : Type ℓ} where
  pub length-insert : (k : ℕ) (v : V) (m : Map V) → length (insert k v m) ≤ suc (length m)
  unfolding insert
  length-insert k v [] = omega arith
  length-insert k v ((j, w) ∷ m) = ground (arith, length-insert k v m)

  pub length-insert_ge : (k : ℕ) (v : V) (m : Map V) → length m ≤ length (insert k v m)
  unfolding insert
  length-insert_ge k v [] = omega arith
  length-insert_ge k v ((j, w) ∷ m) = ground (arith, length-insert_ge k v m)

  pub find-insert_self :
      (k : ℕ) (v : V) (m : Map V) → find k (insert k v m) ≡ some (get_or (find k m) v)
  find-insert_self k v m = ground (arith, find-insert k k v m)

  pub find-insert_new :
      (j k : ℕ) (v : V) (m : Map V)
      → find k m ≡ none
      → find j (insert k v m) ≡ (if k == j then some v else find j m)
  find-insert_new j k v m h = ground (arith, find-insert j k v m, h)

  pub length-erase-le : (k : ℕ) (m : Map V) → length (erase k m) ≤ length m
  unfolding erase
  length-erase-le k [] = omega arith
  length-erase-le k ((j, w) ∷ m) = ground (arith, length-erase-le k m)

  pub length-erase_found :
      (k : ℕ) (m : Map V) {v : V} → find k m ≡ some v → length (erase k m) < length m
  unfolding erase find
  length-erase_found k [] e = cc
  length-erase_found k ((j, w) ∷ m) {v} e =
      ground (arith, length-erase-le k m, length-erase_found k m {v = v})
