-- ===== src/Proto/Response/RoundTrip.antt =====
-- Every response is read back from the payload that it writes.
use mathlib.Core.List.{append-nil, append_assoc}
use distributed_systems_hw.Base.{
  ℕ, ◌<◌, ◌≡◌, refl, sym, ap, ◌∙◌, false, List, [], ◌∷◌, ◌++◌, Option, some, arith, length, All,
  Bytes, u64_mod,
}
use distributed_systems_hw.Proto.HostBytes.{to_bytes}
use distributed_systems_hw.Proto.Deserializer.{
  view, deserializer, at_end, deserialize_int, Deserializer,
}
use distributed_systems_hw.Proto.Deserializer.Reads.{
  deserialize_int-to_bytes, deserialize_string-append,
}
use distributed_systems_hw.Proto.Parser.{
  return, parse, value, read_step, check_step, valid_step, then_step,
}
use distributed_systems_hw.Proto.Platform.{Platform, returned}
use distributed_systems_hw.Proto.Serializer.{
  Sequence, serialize_int, serialize_string, joined, joined-append,
}
use distributed_systems_hw.Proto.Codes.{AddMessageStatus, status_byte, status_of-byte}
use distributed_systems_hw.Proto.Response.{
  GetMessages, Response, add_message, get_messages, pong, secondary_node_ready, from_views,
  from_messages, calc_sizes, serialize_items, serialize_payload, add_message_from_payload,
  read_messages, messages_to_end, read_counted, get_messages_from_payload, pong_from_payload,
  secondary_node_ready_from_payload,
}

abbrev pub payload_bytes : Response → Bytes
payload_bytes r = joined (serialize_payload r [])

-- The items of a getMessages response as they stand on the wire.
abbrev item_bytes : List Bytes → Bytes
item_bytes [] = []
item_bytes (m ∷ ms) = to_bytes 8 (length m) ++ (m ++ item_bytes ms)

joined-items :
    (ms : List Bytes) (seq : Sequence)
    → joined (serialize_items (calc_sizes ms) ms seq) ≡ joined seq ++ item_bytes ms
unfolding serialize_items serialize_int serialize_string
joined-items [] seq = sym (append-nil (joined seq))
joined-items (m ∷ ms) seq =
    joined-items ms ((seq ++ to_bytes 8 (length m) ∷ []) ++ m ∷ [])
    ∙ simp (joined-append, append_assoc, append-nil)

read-items :
    (ms acc : List Bytes)
    → All (λ m. length m < u64_mod) ms
    → read_messages (length ms) acc (deserializer (view (item_bytes ms)))
      ≡ some (acc ++ ms, deserializer (view []))
unfolding read_messages return
read-items [] acc h =
    ap (λ (x : List Bytes). some (x, deserializer (view []))) (sym (append-nil acc))
read-items (m ∷ ms) acc h =
    read_step _ _ (deserialize_int-to_bytes 8 (length m) _ h.0)
    ∙ read_step _ _ (deserialize_string-append m (item_bytes ms))
    ∙ read-items ms (acc ++ m ∷ []) h.1
    ∙ ap (λ (x : List Bytes). some (x, deserializer (view []))) (append_assoc acc (m ∷ []) ms)

payload-items :
    (ms : List Bytes)
    → payload_bytes (get_messages (from_views ms)) ≡ to_bytes 8 (length ms) ++ item_bytes ms
unfolding serialize_payload serialize_int
payload-items ms =
    joined-items ms (to_bytes 8 (length ms) ∷ [])
    ∙ ap (λ (x : Bytes). x ++ item_bytes ms) (append-nil (to_bytes 8 (length ms)))

-- GetMessages::fromPayload reads back the list of messages that a response was created with,
-- whatever their number and contents, if the number and each length fit 64 bits and reserve does
-- not throw for that number.
pub from-serialize_messages :
    ⦃p : Platform⦄
    → (ms : List Bytes) → length ms < u64_mod
    → All (λ m. length m < u64_mod) ms
    → p.reserve_throws (length ms) ≡ false
    → get_messages_from_payload (view (payload_bytes (get_messages (from_views ms))))
      ≡ returned (some (from_messages ms))
unfolding get_messages_from_payload messages_to_end at_end return
from-serialize_messages ⦃p⦄ ms h hs room =
    let first = deserialize_int-to_bytes 8 (length ms) (item_bytes ms) h in
    let items : messages_to_end (length ms) (deserializer (view (item_bytes ms)))
        ≡ some (from_messages ms, deserializer (view [])) =
      then_step _ _ (read-items ms [] hs) ∙ check_step _ _ _ refl in
    let counted =
      ap (λ (b : Bytes). deserialize_int 8 (deserializer (view b))) (payload-items ms) ∙ first in
    ap (λ (r : Option ℕ × Deserializer). read_counted r) counted
    ∙ rw room (ap (λ (o : Option (GetMessages × Deserializer)). returned (value o)) items)

-- The other responses are read back too, if a timestamp fits 64 bits; flushMessages then gives the
-- messages of a response that was parsed.
pub from-serialize_status :
    (s : AddMessageStatus)
    → add_message_from_payload (view (payload_bytes (add_message s))) ≡ some (add_message s)
unfolding add_message_from_payload serialize_payload serialize_int parse at_end return
from-serialize_status s = ap value (
    read_step _ _ (deserialize_int-to_bytes 1 (status_byte s) [] (ground arith))
    ∙ check_step _ _ _ refl
    ∙ valid_step _ _ _ (status_of-byte s))

pub from-serialize_pong :
    (t : ℕ) → t < u64_mod → pong_from_payload (view (payload_bytes (pong t))) ≡ some (pong t)
unfolding pong_from_payload serialize_payload serialize_int parse at_end return
from-serialize_pong t h =
    ap value (read_step _ _ (deserialize_int-to_bytes 8 t [] h) ∙ check_step _ _ _ refl)

pub from-serialize_ready :
    secondary_node_ready_from_payload (view (payload_bytes secondary_node_ready))
    ≡ some secondary_node_ready
unfolding secondary_node_ready_from_payload serialize_payload parse at_end return
from-serialize_ready = ap value (check_step _ _ _ refl)
