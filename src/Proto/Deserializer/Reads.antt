-- ===== src/Proto/Deserializer/Reads.antt =====
-- What each read of BufferDeserializer takes from the front of the buffer.
use distributed_systems_hw.Base.{
  ℕ, ◌^◌, ◌<◌, ◌≡◌, refl, sym, ap, ◌∙◌, ◌⊎◌, inl, inr, false, [], ◌∷◌, ◌++◌, Option, none, some,
  arith, ltb, length, length-append, take, drop, take-length-append, drop-length-append,
  take-append-drop, length-take, All, Bytes, IsByte, Bool-cases,
}
use mathlib.Core.List.{append-nil}
use distributed_systems_hw.Proto.HostBytes.{
  to_bytes, from_bytes, length-to_bytes, from-to_bytes, to-from_bytes, from_bytes-lt,
}
use distributed_systems_hw.Proto.Deserializer.{
  Buffer, null, view, Deserializer, deserializer, get_memory_and_advance, as_int, deserialize_int,
  deserialize_string, deserialize_rest,
}

-- A read of as many bytes as stand in front takes those.
pub get_memory-append :
    (front back : Bytes)
    → get_memory_and_advance (length front) (deserializer (view (front ++ back)))
      ≡ (some front, deserializer (view back))
unfolding get_memory_and_advance
get_memory-append front back =
    let room : ltb (length (front ++ back)) (length front) ≡ false =
      ground (arith, length-append front back) in
    rw (room, take-length-append front back, drop-length-append front back)

-- A read fails and moves nothing, or takes bytes from the front.
abbrev pub Taken : ℕ → Buffer → Option Bytes × Deserializer → Type 0
Taken n buffer r =
    (r ≡ (none, deserializer buffer))
    ⊎ ((front : Bytes) × (back : Bytes) × (buffer ≡ view (front ++ back))
        × (length front ≡ n)
        × (r ≡ (some front, deserializer (view back))))

pub get_memory-Taken :
    (n : ℕ) (buffer : Buffer) → Taken n buffer (get_memory_and_advance n (deserializer buffer))
unfolding get_memory_and_advance
get_memory-Taken n null = inl refl
get_memory-Taken n (view memory) = elim (Bool-cases (ltb (length memory) n)) [
  | inl short ↦ inl (rw short)
  | inr enough ↦ inr (
    take n memory,
    drop n memory,
    ap view (sym (take-append-drop n memory)),
    length-take n memory (ground (arith, enough)),
    rw enough,
  )
]

pub deserialize_int-append :
    (front back : Bytes)
    → deserialize_int (length front) (deserializer (view (front ++ back)))
      ≡ (some (from_bytes front), deserializer (view back))
unfolding deserialize_int
deserialize_int-append front back = ap as_int (get_memory-append front back)

-- Reading back an integer that was written.
pub deserialize_int-to_bytes :
    (w v : ℕ) (back : Bytes)
    → v < 256 ^ w
    → deserialize_int w (deserializer (view (to_bytes w v ++ back)))
      ≡ (some v, deserializer (view back))
deserialize_int-to_bytes w v back h =
    ap (λ (n : ℕ). deserialize_int n (deserializer (view (to_bytes w v ++ back))))
      (sym (length-to_bytes w v))
    ∙ deserialize_int-append (to_bytes w v) back
    ∙ ap (λ (n : ℕ). (some n, deserializer (view back))) (from-to_bytes w v h)

-- A read of an integer from bytes: it fails, or the bytes are those of the value.
abbrev pub Reads : ℕ → Buffer → Option ℕ × Deserializer → Type 0
Reads w buffer r =
    (r.0 ≡ none)
    ⊎ ((v : ℕ) × (front : Bytes) × (back : Bytes) × (buffer ≡ view (front ++ back))
        × (length front ≡ w)
        × (v ≡ from_bytes front)
        × (r ≡ (some v, deserializer (view back))))

pub deserialize_int-Reads :
    (w : ℕ) (buffer : Buffer) → Reads w buffer (deserialize_int w (deserializer buffer))
unfolding deserialize_int
deserialize_int-Reads w buffer = elim (get_memory-Taken w buffer) [
  | inl e ↦ inl (ap (λ (p : Option Bytes × Deserializer). (as_int p).0) e)
  | inr (front, back, e, n, r) ↦ inr (from_bytes front, front, back, e, n, refl, ap as_int r)
]

pub deserialize_string-append :
    (front back : Bytes)
    → deserialize_string (length front) (deserializer (view (front ++ back)))
      ≡ (some front, deserializer (view back))
unfolding deserialize_string
deserialize_string-append front back = get_memory-append front back

pub deserialize_rest-view :
    (memory : Bytes)
    → deserialize_rest (deserializer (view memory)) ≡ (some memory, deserializer (view []))
unfolding deserialize_rest
deserialize_rest-view memory = rw (append-nil memory) at (get_memory-append memory [])

-- A front of whole bytes is the bytes of its value.
pub front-to_bytes :
    (w v : ℕ) (front : Bytes)
    → length front ≡ w
    → v ≡ from_bytes front
    → All IsByte front
    → (front ≡ to_bytes w v) × (v < 256 ^ w)
front-to_bytes w v front n e h = (
  sym (to-from_bytes front h)
      ∙ ap (to_bytes (length front)) (sym e)
      ∙ ap (λ (k : ℕ). to_bytes k v) n,
  rw (e, ← n) (from_bytes-lt front h),
)

pub All-front : (a b : Bytes) → All IsByte (a ++ b) → All IsByte a × All IsByte b
All-front [] b h = (tt, h)
All-front (x ∷ a) b h = let (p, q) = All-front a b h.1 in ((h.0, p), q)
