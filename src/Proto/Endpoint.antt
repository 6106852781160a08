-- ===== src/Proto/Endpoint.antt =====
-- libs/proto/src/endpoint.cpp: requests out as futures, requests in as signals. The socket, the two
-- managers and their signals are Proto/SocketWrapper, Proto/OutcomingRequests and
-- Proto/IncomingRequests; a handle names a promise.
pub mod Calls
pub mod Replies
use distributed_systems_hw.Base.{ℕ, Option, none, some, if◌then◌else◌, ltb, Bytes}
use distributed_systems_hw.Proto.Codes.{OpCode}
use distributed_systems_hw.Proto.Frame.{RequestFrame}
use distributed_systems_hw.Proto.Request
use distributed_systems_hw.Proto.Request.{
  Request, add_message_from_payload, get_messages_from_payload, ping_from_payload,
  secondary_node_ready_from_payload,
}
use distributed_systems_hw.Proto.OutcomingContext
use distributed_systems_hw.Proto.IncomingContext
use distributed_systems_hw.Proto.IncomingContext.{Context, Kind}
use distributed_systems_hw.Proto.IncomingRequests.{Manager, register_context}

-- std::uniform_int_distribution with the thread's engine: what it draws between two bounds. Each
-- call has its own.
pub record Random : Type 0 where
  pub draw : ℕ → ℕ → ℕ

-- create(): the bounds of the artificial delay that the endpoint is made with.
unfoldable pub create_bounds : ℕ × ℕ → ℕ × ℕ
create_bounds (first, second) = if ltb second first then (second, first) else (first, second)

-- chooseSendDelay()
unfoldable pub choose_send_delay : Random → ℕ × ℕ → ℕ
choose_send_delay random bounds = random.draw bounds.0 bounds.1

-- What a send_ function gives to OutcomingRequestsManager::sendRequest; its future is that of the
-- context.
pub record Sending : Type 0 where
  pub request : Request
  pub context : OutcomingContext.Context
  pub delay : ℕ

module _ (random : Random) (bounds : ℕ × ℕ) (handle : ℕ) where
  unfoldable pub send_add_message : ℕ → Bytes → Sending
  unfolding choose_send_delay
  send_add_message msg_id msg = record {
    request = Request.add_message msg_id msg;
    context = OutcomingContext.create handle OutcomingContext.for_add_message;
    delay = choose_send_delay random bounds;
  }

  unfoldable pub send_get_messages : ℕ → Sending
  unfolding choose_send_delay
  send_get_messages start_msg_id = record {
    request = Request.get_messages start_msg_id;
    context = OutcomingContext.create handle OutcomingContext.for_get_messages;
    delay = choose_send_delay random bounds;
  }

  unfoldable pub send_ping : ℕ → Sending
  unfolding choose_send_delay
  send_ping ping_timestamp = record {
    request = Request.ping ping_timestamp;
    context = OutcomingContext.create handle OutcomingContext.for_ping;
    delay = choose_send_delay random bounds;
  }

  unfoldable pub send_secondary_node_ready : Bytes → Sending
  unfolding choose_send_delay
  send_secondary_node_ready secondary_name = record {
    request = Request.secondary_node_ready secondary_name;
    context = OutcomingContext.create handle OutcomingContext.for_secondary_node_ready;
    delay = choose_send_delay random bounds;
  }

-- The signals for incoming requests, with the promise of the response.
pub data Incoming : Type 0 where
  incoming_add_message : (msg_id : ℕ) → (msg : Bytes) → (promise : ℕ) → Incoming
  incoming_get_messages : (start_msg_id : ℕ) → (promise : ℕ) → Incoming
  incoming_ping : (timestamp : ℕ) → (promise : ℕ) → Incoming
  incoming_secondary_node_ready : (name : Bytes) → (promise : ℕ) → Incoming

-- What handling a request frame leaves: the manager, and the signal that is emitted.
abbrev Handled : Type 0
Handled = Manager × Option Incoming

-- The cases of the switch in establishConnections(), behind fromPayload(); where that fails, the
-- case is left. A request of another class is not what it returns.
abbrev on_add_message : ℕ → ℕ → Manager → Option Request → Handled
on_add_message handle request_id m (some (Request.add_message msg_id msg)) = (
  register_context request_id (IncomingContext.create handle Kind.add_message) m,
  some (incoming_add_message msg_id msg handle),
)
on_add_message handle request_id m other = (m, none)

abbrev on_get_messages : ℕ → ℕ → Manager → Option Request → Handled
on_get_messages handle request_id m (some (Request.get_messages start)) = (
  register_context request_id (IncomingContext.create handle Kind.get_messages) m,
  some (incoming_get_messages start handle),
)
on_get_messages handle request_id m other = (m, none)

abbrev on_ping : ℕ → ℕ → Manager → Option Request → Handled
on_ping handle request_id m (some (Request.ping timestamp)) = (
  register_context request_id (IncomingContext.create handle Kind.ping) m,
  some (incoming_ping timestamp handle),
)
on_ping handle request_id m other = (m, none)

abbrev on_secondary_node_ready : ℕ → ℕ → Manager → Option Request → Handled
on_secondary_node_ready handle request_id m (some (Request.secondary_node_ready name)) = (
  register_context request_id (IncomingContext.create handle Kind.secondary_node_ready) m,
  some (incoming_secondary_node_ready name handle),
)
on_secondary_node_ready handle request_id m other = (m, none)

-- The slot of incomingRequestFrame, for an operation; `handle` is that of the new context.
unfoldable pub dispatch : ℕ → OpCode → RequestFrame → Manager → Handled
dispatch handle OpCode.add_message f m =
    on_add_message handle f.request_id m (add_message_from_payload f.payload)
dispatch handle OpCode.get_messages f m =
    on_get_messages handle f.request_id m (get_messages_from_payload f.payload)
dispatch handle OpCode.ping_pong f m = on_ping handle f.request_id m (ping_from_payload f.payload)
dispatch handle OpCode.secondary_node_ready f m =
    on_secondary_node_ready handle f.request_id m (secondary_node_ready_from_payload f.payload)

-- The slot of incomingRequestFrame.
unfoldable pub on_request_frame : ℕ → RequestFrame → Manager → Handled
unfolding dispatch
on_request_frame handle f m = dispatch handle f.op_code f m
