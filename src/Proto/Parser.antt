-- ===== src/Proto/Parser.antt =====
-- The discipline of parseRequestFrame and the fromPayload functions: read from a deserializer, and
-- `return {}` as soon as a read or a test fails.
pub mod Ints
use distributed_systems_hw.Base.{
  ℕ, ◌≡◌, refl, ◌∙◌, ap, Bool, true, false, Option, none, some, inl, inr, Bool-cases, Option-cases,
  arith,
}
use distributed_systems_hw.Proto.Deserializer.{
  Buffer, null, view, Deserializer, deserializer, at_end, leftover,
}

abbrev pub Parser : Type 0 → Type 0
Parser A = Deserializer → Option (A × Deserializer)

infixl 5 ◌>>=◌ ◌>>◌
unfoldable pub ◌>>=◌ : {A B : Type 0} → Parser A → (A → Parser B) → Parser B
◌>>=◌ m f d = elim (m d) [ none ↦ none | some (a, d') ↦ f a d' ]

abbrev pub ◌>>◌ : {B : Type 0} → Parser (Unit {0}) → Parser B → Parser B
m >> k = m >>= λ _. k

-- A value, or `return {}` where std::optional has none.
abbrev pub present : {A : Type 0} → Option A × Deserializer → Option (A × Deserializer)
present (none, d) = none
present (some a, d) = some (a, d)

unfoldable pub read : {A : Type 0} → (Deserializer → Option A × Deserializer) → Parser A
read g d = present (g d)

unfoldable pub valid : {A : Type 0} → Option A → Parser A
valid o d = present (o, d)

unfoldable pub check : (Deserializer → Bool) → Parser (Unit {0})
check test d = elim (test d) [ true ↦ some (tt, d) | false ↦ none ]

unfoldable pub return : {A : Type 0} → A → Parser A
return a d = some (a, d)

unfoldable pub rest : Parser Buffer
rest d = some (leftover d, d)

-- Runs on a fresh deserializer of the buffer.
abbrev pub value : {A : Type 0} → Option (A × Deserializer) → Option A
value none = none
value (some (a, d)) = some a

unfoldable pub parse : {A : Type 0} → Parser A → Buffer → Option A
parse m buffer = value (m (deserializer buffer))

module _ {A B : Type 0} where
  -- A step that succeeds.
  pub then_step :
      (m : Parser A) (f : A → Parser B) {d d' : Deserializer} {a : A}
      → m d ≡ some (a, d')
      → (m >>= f) d ≡ f a d'
  unfolding ◌>>=◌
  then_step m f e = rw (e, ◌>>=◌)

  -- The steps of a run that succeeds.
  pub step_of :
      (m : Parser A) (f : A → Parser B) (d : Deserializer) {r : B × Deserializer}
      → (m >>= f) d ≡ some r
      → (a : A) × (d' : Deserializer) × (m d ≡ some (a, d')) × (f a d' ≡ some r)
  unfolding ◌>>=◌
  step_of m f d {r} e = go (m d) refl
    where
      go :
          (o : Option (A × Deserializer))
          → m d ≡ o
          → (a : A) × (d' : Deserializer) × (m d ≡ some (a, d')) × (f a d' ≡ some r)
      go none h = let bad : none ≡ some r = rw (h, ◌>>=◌) at e in cc
      go (some (a, d')) h = (a, d', h, rw (h, ◌>>=◌) at e)

  pub read_step :
      (g : Deserializer → Option A × Deserializer) (f : A → Parser B) {d d' : Deserializer} {a : A}
      → g d ≡ (some a, d')
      → (read g >>= f) d ≡ f a d'
  unfolding read
  read_step g f e = then_step (read g) f (ap present e)

  pub valid_step :
      (o : Option A) (f : A → Parser B) (d : Deserializer) {a : A}
      → o ≡ some a
      → (valid o >>= f) d ≡ f a d
  unfolding valid
  valid_step o f d e = then_step (valid o) f (ap (λ (p : Option A). present (p, d)) e)

  pub read_of :
      (g : Deserializer → Option A × Deserializer) (f : A → Parser B) (d : Deserializer)
      {r : B × Deserializer}
      → (read g >>= f) d ≡ some r
      → (a : A) × (g d ≡ (some a, (g d).1)) × (f a (g d).1 ≡ some r)
  unfolding read
  read_of g f d {r} e = let (a, d', got, more) = step_of (read g) f d e in ground (arith, got, more)

  pub valid_of :
      (o : Option A) (f : A → Parser B) (d : Deserializer) {r : B × Deserializer}
      → (valid o >>= f) d ≡ some r
      → (a : A) × (o ≡ some a) × (f a d ≡ some r)
  unfolding ◌>>=◌ valid
  valid_of none f d e = cc
  valid_of (some a) f d e = (a, refl, e)

module _ {B : Type 0} where
  pub rest_step : (f : Buffer → Parser B) (d : Deserializer) → (rest >>= f) d ≡ f (leftover d) d
  unfolding ◌>>=◌ rest
  rest_step f d = refl

  pub check_step :
      (test : Deserializer → Bool) (f : Unit {0} → Parser B) (d : Deserializer)
      → test d ≡ true
      → (check test >>= f) d ≡ f tt d
  unfolding check
  check_step test f d e = then_step (check test) f (rw (e, check))

  pub check_of :
      (test : Deserializer → Bool) (f : Unit {0} → Parser B) (d : Deserializer)
      {r : B × Deserializer}
      → (check test >>= f) d ≡ some r
      → (test d ≡ true) × (f tt d ≡ some r)
  unfolding check
  check_of test f d e =
      let (a, d', got, more) = step_of (check test) f d e in ground (arith, got, more)
