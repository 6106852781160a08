-- ===== src/Tests/Protocol.antt =====
-- The protocol: frames and payloads at concrete values.
use distributed_systems_hw.Base.{◌≡◌, refl, true, [], ◌∷◌, ◌++◌, none, some, arith, ltb, Bytes}
use distributed_systems_hw.Proto.HostBytes.{from_bytes}
use distributed_systems_hw.Proto.Deserializer.{
  null, view, leftover, get_memory_and_advance, deserialize_int,
}
use distributed_systems_hw.Proto.Parser.{◌>>=◌, read, valid, return, rest, parse}
use distributed_systems_hw.Proto.Serializer.{joined}
use distributed_systems_hw.Proto.Codes.{OpCode}
use distributed_systems_hw.Proto.Platform.{Platform, returned, thrown}
use distributed_systems_hw.Proto.Frame.{
  RequestFrame, parse_request_frame, parse_response_frame, construct_request_header,
  construct_response_header,
}
use distributed_systems_hw.Proto.Frame.RoundTrip.{
  Framed, parse-construct_request, parse-construct_response, parse_request-Framed,
}
use distributed_systems_hw.Proto.Request
use distributed_systems_hw.Proto.Request.{Request}
use distributed_systems_hw.Proto.Request.RoundTrip.{from-serialize_payload}
use distributed_systems_hw.Proto.Response.{
  get_messages, get_messages_from_payload, from_views, from_messages, flush_messages,
}
use distributed_systems_hw.Proto.Response.RoundTrip.{payload_bytes, from-serialize_messages}

abbrev hi : Bytes
hi = 104 ∷ 105 ∷ []

-- addMessage(3, "hi") as request 258 on the wire, without the size in front.
abbrev wire : Bytes
wire = 0 ∷ 2 ∷ 1 ∷ 0 ∷ 0 ∷ 0 ∷ 0 ∷ 0 ∷ 0 ∷ 0 ∷ 3 ∷ 0 ∷ 0 ∷ 0 ∷ 0 ∷ 0 ∷ 0 ∷ 0 ∷ 104 ∷ 105 ∷ []

abbrev frame : RequestFrame
frame = record {
  request_id = 258;
  op_code = OpCode.add_message;
  payload = view (3 ∷ 0 ∷ 0 ∷ 0 ∷ 0 ∷ 0 ∷ 0 ∷ 0 ∷ 104 ∷ 105 ∷ []);
}

wire_parses : parse_request_frame (view wire) ≡ some frame
unfolding parse_request_frame parse ◌>>=◌ read valid rest return leftover deserialize_int
    get_memory_and_advance from_bytes
wire_parses = refl

null_refused : parse_request_frame null ≡ none
unfolding parse_request_frame parse ◌>>=◌ read valid rest return leftover deserialize_int
    get_memory_and_advance
null_refused = refl

parse-construct_request_example :
    parse_request_frame (view (joined (construct_request_header 258 OpCode.ping_pong) ++ hi))
    ≡ some (record { request_id = 258; op_code = OpCode.ping_pong; payload = view hi })
parse-construct_request_example = parse-construct_request 258 OpCode.ping_pong hi (omega arith)

parse-construct_response_example :
    parse_response_frame (view (joined (construct_response_header 258) ++ hi))
    ≡ some (record { request_id = 258; payload = view hi })
parse-construct_response_example = parse-construct_response 258 hi (omega arith)

parse_request-Framed_example : Framed wire frame
parse_request-Framed_example = parse_request-Framed wire frame (omega arith) wire_parses

from-serialize_payload_example :
    Request.from_payload OpCode.add_message
      (view (joined (Request.serialize_payload (Request.add_message 3 hi) [])))
    ≡ some (Request.add_message 3 hi)
from-serialize_payload_example = from-serialize_payload (Request.add_message 3 hi) (omega arith)

-- A library that refuses to reserve more than a thousand strings.
instance abbrev small_platform : Platform
small_platform = record { reserve_throws = λ n. ltb 1000 n; allocates = λ n. true }

from-serialize_messages_example :
    get_messages_from_payload (view (payload_bytes (get_messages (from_views (hi ∷ [] ∷ [])))))
    ≡ returned (some (from_messages (hi ∷ [] ∷ [])))
from-serialize_messages_example =
    from-serialize_messages (hi ∷ [] ∷ []) (omega arith) (omega arith) refl

-- The messages are moved out, and a response that was made from views throws.
flush_of_messages :
    flush_messages (from_messages (hi ∷ []))
    ≡ returned (hi ∷ [], record (from_messages (hi ∷ [])) { messages = some [] })
unfolding flush_messages
flush_of_messages = refl

flush_of_nothing : flush_messages (from_messages []) ≡ returned ([], from_messages [])
unfolding flush_messages
flush_of_nothing = refl

flush_of_views : flush_messages (from_views (hi ∷ [])) ≡ thrown
unfolding flush_messages
flush_of_views = refl
