-- ===== src/Proto/Request/RoundTrip.antt =====
-- Every request is read back from the payload that it writes.
use mathlib.Core.List.{append-nil}
use distributed_systems_hw.Base.{ℕ, ◌<◌, ◌≡◌, refl, ap, ◌∙◌, [], ◌++◌, some, Bytes, u64_mod}
use distributed_systems_hw.Proto.HostBytes.{to_bytes}
use distributed_systems_hw.Proto.Deserializer.{
  view, deserializer, at_end, deserialize_int, deserialize_rest,
}
use distributed_systems_hw.Proto.Deserializer.Reads.{
  deserialize_int-to_bytes, deserialize_rest-view,
}
use distributed_systems_hw.Proto.Parser.{
  ◌>>=◌, ◌>>◌, read, check, return, parse, value, read_step, check_step,
}
use distributed_systems_hw.Proto.Serializer.{serialize_int, serialize_string, joined}
use distributed_systems_hw.Proto.Request.{
  Request, add_message, get_messages, ping, secondary_node_ready, op_code, serialize_payload,
  add_message_from_payload, get_messages_from_payload, ping_from_payload,
  secondary_node_ready_from_payload, from_payload,
}

-- The numbers of the request fit a 64-bit field.
abbrev pub Fits : Request → Type 0
Fits (add_message id message) = id < u64_mod
Fits (get_messages start) = start < u64_mod
Fits (ping timestamp) = timestamp < u64_mod
Fits (secondary_node_ready name) = Unit

abbrev pub payload_bytes : Request → Bytes
payload_bytes r = joined (serialize_payload r [])

-- One integer and nothing behind it.
int_only :
    (n : ℕ) (f : ℕ → Request)
    → n < u64_mod
    → (parse (read (deserialize_int 8) >>= λ k. check at_end >> return (f k)))
        (view (to_bytes 8 n ++ []))
      ≡ some (f n)
unfolding parse return at_end
int_only n f h =
    ap value (read_step _ _ (deserialize_int-to_bytes 8 n [] h) ∙ check_step _ _ _ refl)

rest_only :
    (s : Bytes) (f : Bytes → Request)
    → (read deserialize_rest >>= λ x. check at_end >> return (f x)) (deserializer (view s))
      ≡ some (f s, deserializer (view []))
unfolding return at_end
rest_only s f = read_step _ _ (deserialize_rest-view s) ∙ check_step _ _ _ refl

-- The parser of a request's operation reads the request back from the payload that
-- serializePayloadWoOwnership writes, if its numbers fit 64 bits.
pub from-serialize_payload :
    (r : Request) → Fits r → from_payload (op_code r) (view (payload_bytes r)) ≡ some r
unfolding from_payload serialize_payload serialize_int serialize_string add_message_from_payload
    get_messages_from_payload ping_from_payload secondary_node_ready_from_payload parse
from-serialize_payload (add_message id message) h = ap value (
    read_step _ _ (deserialize_int-to_bytes 8 id (message ++ []) h)
    ∙ rest_only (message ++ []) (add_message id)
    ∙ ap (λ (m : Bytes). some (add_message id m, deserializer (view []))) (append-nil message))
from-serialize_payload (get_messages start) h = int_only start get_messages h
from-serialize_payload (ping timestamp) h = int_only timestamp ping h
from-serialize_payload (secondary_node_ready name) h = ap value (
    rest_only (name ++ []) secondary_node_ready
    ∙ ap (λ (m : Bytes). some (secondary_node_ready m, deserializer (view []))) (append-nil name))
