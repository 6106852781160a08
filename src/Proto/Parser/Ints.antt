-- ===== src/Proto/Parser/Ints.antt =====
-- Parsers of integers on whole bytes: what a successful read says of the front of the buffer.
use distributed_systems_hw.Base.{
  ℕ, ◌^◌, ◌<◌, ◌≡◌, sym, ap, ◌∙◌, inl, inr, ◌++◌, some, Option, arith, All, Bytes, IsByte,
}
use distributed_systems_hw.Proto.HostBytes.{to_bytes}
use distributed_systems_hw.Proto.Deserializer.{view, Deserializer, deserializer, deserialize_int}
use distributed_systems_hw.Proto.Deserializer.Reads.{
  deserialize_int-Reads, front-to_bytes, All-front,
}
use distributed_systems_hw.Proto.Parser.{◌>>=◌, Parser, read, read_of}

view-injective : {a b : Bytes} → view a ≡ view b → a ≡ b
view-injective e = cc

module _ {B : Type 0} (w : ℕ) (f : ℕ → Parser B) (bytes : Bytes) (whole : All IsByte bytes) where
  -- The front of the buffer is the value that was read, and the rest is read on.
  pub record IntRead (r : B × Deserializer) : Type 0 where
    pub value : ℕ
    pub back : Bytes
    pub split : bytes ≡ to_bytes w value ++ back
    pub fits : value < 256 ^ w
    pub rest_whole : All IsByte back
    pub then : f value (deserializer (view back)) ≡ some r

  pub int_read :
      {r : B × Deserializer}
      → (read (deserialize_int w) >>= f) (deserializer (view bytes)) ≡ some r
      → IntRead r
  int_read {r} e =
      let (v, got, more) = read_of (deserialize_int w) f (deserializer (view bytes)) e in
      elim (deserialize_int-Reads w (view bytes)) [
        | inl failed ↦ absurd (ground (arith, got, failed))
        | inr (u, front, back, cut, n, val, r') ↦
            let same : u ≡ v = ground (arith, got, r') in
            let bytes_split : bytes ≡ front ++ back = view-injective cut in
            let parts = All-front front back (rw (← bytes_split) whole) in
            let (shape, small) = front-to_bytes w u front n val parts.0 in
            record {
              value = u;
              back = back;
              split = bytes_split ∙ ap (λ (x : Bytes). x ++ back) shape;
              fits = small;
              rest_whole = parts.1;
              then = rw same (sym (ap (λ (p : Option ℕ × Deserializer). f v p.1) r') ∙ more);
            }
      ]
