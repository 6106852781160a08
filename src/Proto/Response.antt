-- ===== src/Proto/Response.antt =====
-- libs/proto/src/response: the responses, their payloads and the parsers of these.
pub mod RoundTrip
use distributed_systems_hw.Base.{
  ℕ, zero, suc, Option, none, some, List, [], ◌∷◌, ◌++◌, map, length, if◌then◌else◌, Bytes,
}
use distributed_systems_hw.Proto.Deserializer.{
  Buffer, Deserializer, deserializer, at_end, deserialize_int, deserialize_string,
}
use distributed_systems_hw.Proto.Parser.{
  ◌>>=◌, ◌>>◌, Parser, read, valid, check, return, value, parse,
}
use distributed_systems_hw.Proto.Platform.{Platform, Exec, returned, thrown}
use distributed_systems_hw.Proto.Serializer.{Sequence, serialize_int, serialize_string}
use distributed_systems_hw.Proto.Codes.{OpCode, AddMessageStatus, status_byte, status_of}

-- calcSizes
abbrev pub calc_sizes : List Bytes → List ℕ
calc_sizes = map length

-- class GetMessages: messages_, views_, messagesNum_ and sizes_.
pub record GetMessages : Type 0 where
  pub messages : Option (List Bytes)
  pub views : List Bytes
  pub messages_num : ℕ
  pub sizes : List ℕ

-- The classes below AbstractResponse.
pub data Response : Type 0 where
  add_message : (status : AddMessageStatus) → Response
  get_messages : GetMessages → Response
  pong : (timestamp : ℕ) → Response
  secondary_node_ready : Response

-- The constructor of GetMessages from views, as create() uses it: messages_ stays empty.
abbrev pub from_views : List Bytes → GetMessages
from_views views = record {
  messages = none;
  views = views;
  messages_num = length views;
  sizes = calc_sizes views;
}

-- The constructor of GetMessages from strings, as fromPayload() uses it.
abbrev pub from_messages : List Bytes → GetMessages
from_messages messages = record {
  messages = some messages;
  views = messages;
  messages_num = length messages;
  sizes = calc_sizes messages;
}

-- flushMessages: the messages, and the response behind the move, which leaves a vector empty. Where
-- messages_ is empty the vector that is filled is a local one, and value() throws
-- std::bad_optional_access.
unfoldable pub flush_messages : GetMessages → Exec (List Bytes × GetMessages)
flush_messages r = elim r.messages [
  | none ↦ thrown
  | some messages ↦ returned (messages, record r { messages = some [] })
]

-- opCode()
abbrev pub op_code : Response → OpCode
op_code (add_message status) = OpCode.add_message
op_code (get_messages r) = OpCode.get_messages
op_code (pong timestamp) = OpCode.ping_pong
op_code secondary_node_ready = OpCode.ping_pong

-- The loop of GetMessages::serializePayloadWoOwnership; sizes_ and views_ have the same length.
unfoldable pub serialize_items : List ℕ → List Bytes → Sequence → Sequence
serialize_items [] views seq = seq
serialize_items (size ∷ sizes) [] seq = seq
serialize_items (size ∷ sizes) (item ∷ views) seq =
    serialize_items sizes views (serialize_string item (serialize_int 8 size seq))

-- serializePayloadWoOwnership
unfoldable pub serialize_payload : Response → Sequence → Sequence
serialize_payload (add_message status) seq = serialize_int 1 (status_byte status) seq
serialize_payload (get_messages r) seq =
    serialize_items r.sizes r.views (serialize_int 8 r.messages_num seq)
serialize_payload (pong timestamp) seq = serialize_int 8 timestamp seq
serialize_payload secondary_node_ready seq = seq

-- AddMessage::fromPayload
unfoldable pub add_message_from_payload : Buffer → Option Response
add_message_from_payload = parse do
  status ← read (deserialize_int 1)
  check at_end
  good ← valid (status_of status)
  return (add_message good)

-- The loop of GetMessages::fromPayload, with the rounds that are left.
unfoldable pub read_messages : ℕ → List Bytes → Parser (List Bytes)
read_messages zero messages = return messages
read_messages (suc left) messages = do
  size ← read (deserialize_int 8)
  message ← read (deserialize_string size)
  read_messages left (messages ++ message ∷ [])

-- The loop and the test behind it.
unfoldable pub messages_to_end : ℕ → Parser GetMessages
messages_to_end num = do
  messages ← read_messages num []
  check at_end
  return (from_messages messages)

-- From messages.reserve(messagesNum) on; reserve may throw.
unfoldable pub read_counted : ⦃p : Platform⦄ → Option ℕ × Deserializer → Exec (Option GetMessages)
read_counted (none, d) = returned none
read_counted ⦃p⦄ (some num, d) =
    if p.reserve_throws num then thrown else returned (value (messages_to_end num d))

-- GetMessages::fromPayload
unfoldable pub get_messages_from_payload : ⦃p : Platform⦄ → Buffer → Exec (Option GetMessages)
unfolding read_counted
get_messages_from_payload buffer = read_counted (deserialize_int 8 (deserializer buffer))

-- Pong::fromPayload
unfoldable pub pong_from_payload : Buffer → Option Response
pong_from_payload =
    parse do timestamp ← read (deserialize_int 8); check at_end; return (pong timestamp)

-- SecondaryNodeReady::fromPayload
unfoldable pub secondary_node_ready_from_payload : Buffer → Option Response
secondary_node_ready_from_payload = parse (check at_end >> return secondary_node_ready)
