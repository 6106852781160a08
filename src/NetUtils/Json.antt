-- ===== src/NetUtils/Json.antt =====
-- boost::json as both applications use it: a parameter, and the values that they build with it.
use Prim.Native.Char.{code}
use Prim.Native.String.{String}
use distributed_systems_hw.Base.{ℕ, ◌+◌, List, [], ◌∷◌, Bytes}

-- The bytes of an ASCII text.
abbrev pub bytes : String → Bytes
bytes String.[] = []
bytes (String.◌∷◌ c s) = code c ∷ bytes s

-- A value, or an exception with its what().
pub data Tried {ℓ} (A : Type ℓ) : Type ℓ where
  value : A → Tried A
  error : (what : Bytes) → Tried A

infixl 5 ◌>>=◌
abbrev pub ◌>>=◌ {ℓ κ} : {A : Type ℓ} {B : Type κ} → Tried A → (A → Tried B) → Tried B
value a >>= f = f a
error what >>= f = error what

-- std::int64_t
pub data ℤ : Type 0 where
  pos negsuc : ℕ → ℤ

-- What an entry of an object is set to.
pub data Scalar : Type 0 where
  number : ℕ → Scalar
  string : Bytes → Scalar

-- A boost::json::object, its entries in the order in which they are set.
abbrev pub Object : Type 0
Object = List (String × Scalar)

pub record Json : Type 1 where
  pub Value : Type 0
  pub Entries : Type 0
  pub parse : Bytes → Tried Value
  pub as_object : Value → Tried Entries
  pub at_key : Entries → String → Tried Value
  pub as_int64 : Value → Tried ℤ
  pub as_string : Value → Tried Bytes
  pub serialize : List Object → Bytes

-- The loop over the messages, from index i on: an object for each of them.
unfoldable pub messages_loop : ℕ → List Bytes → List Object
messages_loop i [] = []
messages_loop i (message ∷ rest) =
    (("id", number i) ∷ ("message", string message) ∷ []) ∷ messages_loop (i + 1) rest

unfoldable pub messages_array : List Bytes → List Object
unfolding messages_loop
messages_array messages = messages_loop 0 messages
