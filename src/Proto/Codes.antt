-- ===== src/Proto/Codes.antt =====
-- libs/proto/src/codes and libs/proto/include/proto/enums.h: the enums that stand in frames. A value
-- read from memory is a number, which the `switch` of its parser tests: that is `…_of`.
use Prim.Native.String.{String}
use distributed_systems_hw.Base.{ℕ, ◌≡◌, refl, Option, none, some, ◌==◌, if◌then◌else◌, arith}

pub data EventType : Type 0 where
  request response : EventType

pub data OpCode : Type 0 where
  add_message get_messages secondary_node_ready ping_pong : OpCode

pub data AddMessageStatus : Type 0 where
  ok not_allowed : AddMessageStatus

abbrev pub event_code : EventType → ℕ
event_code request = 0
event_code response = 1

abbrev pub op_code_byte : OpCode → ℕ
op_code_byte add_message = 0
op_code_byte get_messages = 1
op_code_byte secondary_node_ready = 2
op_code_byte ping_pong = 3

abbrev pub status_byte : AddMessageStatus → ℕ
status_byte ok = 0
status_byte not_allowed = 1

abbrev pub event_of : ℕ → Option EventType
event_of n = if n == 0 then some request else if n == 1 then some response else none

abbrev pub op_code_of : ℕ → Option OpCode
op_code_of n =
    if n == 0
    then some add_message
    else if n == 1
    then some get_messages
    else if n == 2
    then some secondary_node_ready
    else if n == 3
    then some ping_pong
    else none

abbrev pub status_of : ℕ → Option AddMessageStatus
status_of n = if n == 0 then some ok else if n == 1 then some not_allowed else none

-- operator<<
unfoldable pub show_event : EventType → String
show_event request = "EventType::REQUEST"
show_event response = "EventType::RESPONSE"

unfoldable pub show_op_code : OpCode → String
show_op_code add_message = "OpCode::ADD_MESSAGE"
show_op_code get_messages = "OpCode::GET_MESSAGES"
show_op_code secondary_node_ready = "OpCode::SECONDARY_NODE_READY"
show_op_code ping_pong = "OpCode::PING_PONG"

unfoldable pub show_status : AddMessageStatus → String
show_status ok = "AddMessageStatus::OK"
show_status not_allowed = "AddMessageStatus::NOT_ALLOWED"

pub event_of-code : (e : EventType) → event_of (event_code e) ≡ some e
event_of-code request = refl
event_of-code response = refl

pub op_code_of-byte : (o : OpCode) → op_code_of (op_code_byte o) ≡ some o
op_code_of-byte add_message = refl
op_code_of-byte get_messages = refl
op_code_of-byte secondary_node_ready = refl
op_code_of-byte ping_pong = refl

pub status_of-byte : (s : AddMessageStatus) → status_of (status_byte s) ≡ some s
status_of-byte ok = refl
status_of-byte not_allowed = refl

-- The switch lets through the numbers of the enumerators and no others.
pub op_code_of-some : (n : ℕ) (o : OpCode) → op_code_of n ≡ some o → n ≡ op_code_byte o
op_code_of-some n o e = ground arith

pub status_of-some : (n : ℕ) (s : AddMessageStatus) → status_of n ≡ some s → n ≡ status_byte s
status_of-some n s e = ground arith
