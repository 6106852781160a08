-- ===== src/Proto/Platform.antt =====
-- What the protocol takes from the C++ library's allocation, and exceptions as values.
use distributed_systems_hw.Base.{ℕ, Bool}

-- Both answers depend on the memory at hand, so they are left open.
pub record Platform : Type 0 where
  -- std::vector<std::string>::reserve(n) throws std::length_error or std::bad_alloc.
  pub reserve_throws : ℕ → Bool
  -- new (std::nothrow) std::byte[n] does not return nullptr.
  pub allocates : ℕ → Bool

-- A call that may be left by an exception.
pub data Exec {ℓ} (A : Type ℓ) : Type ℓ where
  returned : A → Exec A
  thrown : Exec A

infixl 5 ◌>>=◌
abbrev pub ◌>>=◌ {ℓ κ} : {A : Type ℓ} {B : Type κ} → Exec A → (A → Exec B) → Exec B
returned a >>= f = f a
thrown >>= f = thrown
