-- ===== src/Proto/Request.antt =====
-- libs/proto/src/request: the requests, their payloads and the parsers of these. A request that
-- views a message and one that owns it are the same value here.
pub mod RoundTrip
pub mod Objects
use distributed_systems_hw.Base.{ℕ, Option, none, some, [], Bytes}
use distributed_systems_hw.Proto.Deserializer.{Buffer, at_end, deserialize_int, deserialize_rest}
use distributed_systems_hw.Proto.Parser.{◌>>=◌, ◌>>◌, read, check, return, parse}
use distributed_systems_hw.Proto.Serializer.{Sequence, serialize_int, serialize_string}
use distributed_systems_hw.Proto.Codes.{OpCode}

-- The classes below AbstractRequest.
pub data Request : Type 0 where
  add_message : (message_id : ℕ) → (message : Bytes) → Request
  get_messages : (start_message_id : ℕ) → Request
  ping : (timestamp : ℕ) → Request
  secondary_node_ready : (secondary_node_name : Bytes) → Request

-- opCode()
abbrev pub op_code : Request → OpCode
op_code (add_message id message) = OpCode.add_message
op_code (get_messages start) = OpCode.get_messages
op_code (ping timestamp) = OpCode.ping_pong
op_code (secondary_node_ready name) = OpCode.secondary_node_ready

-- serializePayloadWoOwnership
unfoldable pub serialize_payload : Request → Sequence → Sequence
serialize_payload (add_message id message) seq = serialize_string message (serialize_int 8 id seq)
serialize_payload (get_messages start) seq = serialize_int 8 start seq
serialize_payload (ping timestamp) seq = serialize_int 8 timestamp seq
serialize_payload (secondary_node_ready name) seq = serialize_string name seq

-- AddMessage::fromPayload. The source makes both reads before it tests them; a failed read moves
-- nothing, and the answer is then nullptr in either order.
unfoldable pub add_message_from_payload : Buffer → Option Request
add_message_from_payload = parse do
  id ← read (deserialize_int 8)
  message ← read deserialize_rest
  check at_end
  return (add_message id message)

-- GetMessages::fromPayload
unfoldable pub get_messages_from_payload : Buffer → Option Request
get_messages_from_payload =
    parse do start ← read (deserialize_int 8); check at_end; return (get_messages start)

-- Ping::fromPayload
unfoldable pub ping_from_payload : Buffer → Option Request
ping_from_payload =
    parse do timestamp ← read (deserialize_int 8); check at_end; return (ping timestamp)

-- SecondaryNodeReady::fromPayload
unfoldable pub secondary_node_ready_from_payload : Buffer → Option Request
secondary_node_ready_from_payload =
    parse do name ← read deserialize_rest; check at_end; return (secondary_node_ready name)

-- The parser that the switch in Endpoint::establishConnections picks for an operation.
unfoldable pub from_payload : OpCode → Buffer → Option Request
from_payload OpCode.add_message = add_message_from_payload
from_payload OpCode.get_messages = get_messages_from_payload
from_payload OpCode.ping_pong = ping_from_payload
from_payload OpCode.secondary_node_ready = secondary_node_ready_from_payload
