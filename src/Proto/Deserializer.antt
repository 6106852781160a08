-- ===== src/Proto/Deserializer.antt =====
-- libs/proto/src/deserialization: BufferDeserializer.
pub mod Reads
use distributed_systems_hw.Base.{
  ℕ, Bool, true, false, List, [], ◌∷◌, Option, none, some, ltb, if◌then◌else◌, length, take, drop,
  Bytes,
}
use distributed_systems_hw.Proto.HostBytes.{from_bytes}

-- boost::asio::const_buffer: a null pointer, or a view of some bytes.
pub data Buffer : Type 0 where
  null : Buffer
  view : Bytes → Buffer

-- class BufferDeserializer: what stands between current_ and end_, or the null pointer.
pub record Deserializer : Type 0 where
  pub unread : Buffer

-- The constructor.
abbrev pub deserializer : Buffer → Deserializer
deserializer buffer = record { unread = buffer }

-- atEnd
unfoldable pub at_end : Deserializer → Bool
at_end d = elim d.unread [ null ↦ true | view bytes ↦ elim bytes [ [] ↦ true | b ∷ rest ↦ false ] ]

-- leftover
unfoldable pub leftover : Deserializer → Buffer
leftover d = d.unread

-- getMemoryAndAdvance: the bytes at the pointer that it returns, or none for nullptr.
unfoldable pub get_memory_and_advance : ℕ → Deserializer → Option Bytes × Deserializer
get_memory_and_advance bytes d = elim d.unread [
  | null ↦ (none, d)
  | view memory ↦
      if ltb (length memory) bytes
      then (none, d)
      else (some (take bytes memory), record d { unread = view (drop bytes memory) })
]

-- The value at the pointer, `*reinterpret_cast<const T *>(mem)`.
abbrev pub as_int : Option Bytes × Deserializer → Option ℕ × Deserializer
as_int (none, d) = (none, d)
as_int (some bytes, d) = (some (from_bytes bytes), d)

-- deserialize<T> for an integer or enum of `width` bytes. An enum comes as the number in memory.
unfoldable pub deserialize_int : ℕ → Deserializer → Option ℕ × Deserializer
deserialize_int width d = as_int (get_memory_and_advance width d)

-- deserialize<std::string>(size)
unfoldable pub deserialize_string : ℕ → Deserializer → Option Bytes × Deserializer
deserialize_string size d = get_memory_and_advance size d

-- deserialize<std::string>(): all that is left.
unfoldable pub deserialize_rest : Deserializer → Option Bytes × Deserializer
deserialize_rest d = elim d.unread [
  | null ↦ (none, d)
  | view memory ↦ get_memory_and_advance (length memory) d
]
