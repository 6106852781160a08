-- ===== src/Proto/Serializer.antt =====
-- libs/proto/src/serialization: BufferSequenceSerializer. A sequence of buffers is the list of the
-- bytes that they show; none is copied, and the caller keeps the objects alive.
use mathlib.Core.List.{append_assoc}
use distributed_systems_hw.Base.{ℕ, ◌≡◌, refl, ap, sym, ◌∙◌, List, [], ◌∷◌, ◌++◌, Bytes}
use distributed_systems_hw.Proto.HostBytes.{to_bytes}
use distributed_systems_hw.Proto.Deserializer.{Buffer, null, view}

abbrev pub Sequence : Type 0
Sequence = List Bytes

-- serializeWoOwnership(memory, size)
unfoldable pub serialize_memory : Buffer → Sequence → Sequence
serialize_memory null seq = seq
serialize_memory (view memory) seq = seq ++ memory ∷ []

-- serializeWoOwnership for an integer or enum of `width` bytes.
unfoldable pub serialize_int : ℕ → ℕ → Sequence → Sequence
unfolding serialize_memory
serialize_int width value seq = serialize_memory (view (to_bytes width value)) seq

-- serializeWoOwnership for a string or string_view.
unfoldable pub serialize_string : Bytes → Sequence → Sequence
unfolding serialize_memory
serialize_string value seq = serialize_memory (view value) seq

-- What a gathered write of the sequence sends.
abbrev pub joined : Sequence → Bytes
joined [] = []
joined (piece ∷ rest) = piece ++ joined rest

pub joined-append : (a b : Sequence) → joined (a ++ b) ≡ joined a ++ joined b
joined-append [] b = refl
joined-append (piece ∷ a) b =
    ap (◌++◌ piece) (joined-append a b) ∙ sym (append_assoc piece (joined a) (joined b))
