-- ===== src/Proto/HostBytes.antt =====
-- Integers as the bytes that they have in memory: a value of `w` bytes on the little-endian x86-64
-- hosts that the images are built for, least byte first.
use native.Mathlib.Nat.{pow-suc}
use distributed_systems_hw.Base.{
  ℕ, zero, suc, ◌+◌, ◌*◌, ◌/◌, ◌%◌, ◌^◌, ◌<◌, ◌≡◌, refl, ap, ap₂, ◌∙◌, [], ◌∷◌, arith, length, All,
  Bytes, IsByte,
}

unfoldable pub to_bytes : ℕ → ℕ → Bytes
to_bytes zero v = []
to_bytes (suc w) v = (v % 256) ∷ to_bytes w (v / 256)

unfoldable pub from_bytes : Bytes → ℕ
from_bytes [] = 0
from_bytes (b ∷ bs) = b + 256 * from_bytes bs

pub length-to_bytes : (w v : ℕ) → length (to_bytes w v) ≡ w
unfolding to_bytes
length-to_bytes zero v = refl
length-to_bytes (suc w) v = ap suc (length-to_bytes w (v / 256))

pub to_bytes-IsByte : (w v : ℕ) → All IsByte (to_bytes w v)
unfolding to_bytes
to_bytes-IsByte zero v = tt
to_bytes-IsByte (suc w) v = (omega arith, to_bytes-IsByte w (v / 256))

pub from-to_bytes : (w v : ℕ) → v < 256 ^ w → from_bytes (to_bytes w v) ≡ v
unfolding to_bytes from_bytes
from-to_bytes zero v h = omega arith
from-to_bytes (suc w) v h =
    let e = pow-suc 256 w in
    let small : v / 256 < 256 ^ w = omega (arith, e) in
    omega (arith, from-to_bytes w (v / 256) small)

pub to-from_bytes : (bs : Bytes) → All IsByte bs → to_bytes (length bs) (from_bytes bs) ≡ bs
unfolding to_bytes from_bytes
to-from_bytes [] h = refl
to-from_bytes (b ∷ bs) h =
    let low : (b + 256 * from_bytes bs) % 256 ≡ b = omega (arith, h.0) in
    let high : (b + 256 * from_bytes bs) / 256 ≡ from_bytes bs = omega (arith, h.0) in
    ap₂ ◌∷◌ low (ap (to_bytes (length bs)) high ∙ to-from_bytes bs h.1)

pub from_bytes-lt : (bs : Bytes) → All IsByte bs → from_bytes bs < 256 ^ length bs
unfolding from_bytes
from_bytes-lt [] h = omega arith
from_bytes-lt (b ∷ bs) h = omega (arith, h.0, pow-suc 256 (length bs), from_bytes-lt bs h.1)
