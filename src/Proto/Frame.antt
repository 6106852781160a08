-- ===== src/Proto/Frame.antt =====
-- libs/proto/src/frame: the headers of request and response frames.
pub mod RoundTrip
use distributed_systems_hw.Base.{ℕ, Bool, false, [], Option, none, some, ◌==◌, if◌then◌else◌}
use distributed_systems_hw.Proto.Deserializer.{Buffer, deserializer, leftover, deserialize_int}
use distributed_systems_hw.Proto.Parser.{◌>>=◌, ◌>>◌, read, valid, rest, return, parse}
use distributed_systems_hw.Proto.Serializer.{Sequence, serialize_int}
use distributed_systems_hw.Proto.Codes.{
  EventType, request, response, OpCode, event_code, op_code_byte, event_of, op_code_of,
}

pub record RequestFrame : Type 0 where
  pub request_id : ℕ
  pub op_code : OpCode
  pub payload : Buffer

pub record ResponseFrame : Type 0 where
  pub request_id : ℕ
  pub payload : Buffer

-- parseEventType
unfoldable pub parse_event_type : Buffer → Option EventType
parse_event_type frame = elim (deserialize_int 1 (deserializer frame)).0 [
  | none ↦ none
  | some code ↦ event_of code
]

-- The test at the start of parseRequestFrame and parseResponseFrame.
abbrev pub event_is : EventType → ℕ → Option (Unit {0})
event_is e code = if code == event_code e then some tt else none

-- parseRequestFrame
unfoldable pub parse_request_frame : Buffer → Option RequestFrame
parse_request_frame = parse do
  event ← read (deserialize_int 1)
  valid (event_is request event)
  id ← read (deserialize_int 8)
  code ← read (deserialize_int 1)
  op ← valid (op_code_of code)
  payload ← rest
  return (record { request_id = id; op_code = op; payload = payload })

-- parseResponseFrame
unfoldable pub parse_response_frame : Buffer → Option ResponseFrame
parse_response_frame = parse do
  event ← read (deserialize_int 1)
  valid (event_is response event)
  id ← read (deserialize_int 8)
  payload ← rest
  return (record { request_id = id; payload = payload })

-- constructRequestHeaderWoOwnership
unfoldable pub construct_request_header : ℕ → OpCode → Sequence
construct_request_header request_id op_code =
    serialize_int 1 (op_code_byte op_code)
      (serialize_int 8 request_id (serialize_int 1 (event_code request) []))

-- constructResponseHeaderWoOwnership
unfoldable pub construct_response_header : ℕ → Sequence
construct_response_header response_id =
    serialize_int 8 response_id (serialize_int 1 (event_code response) [])
