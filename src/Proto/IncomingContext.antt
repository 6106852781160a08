-- ===== src/Proto/IncomingContext.antt =====
-- libs/proto/src/incomingrequestcontext: the promise of the answer to a request of the peer.
use distributed_systems_hw.Base.{ℕ, Option, none, some, List, Bytes}
use distributed_systems_hw.Proto.Codes.{AddMessageStatus}
use distributed_systems_hw.Proto.Response.{Response, from_views}

-- The four classes below AbstractIncomingRequestContext.
pub data Kind : Type 0 where
  add_message get_messages ping secondary_node_ready : Kind

-- The type T of the boost::promise<T> of a class.
abbrev pub Value : Kind → Type 0
Value add_message = AddMessageStatus
Value get_messages = List Bytes
Value ping = ℕ
Value secondary_node_ready = Unit {0}

-- An object of such a class; `handle` tells objects apart.
pub record Context : Type 0 where
  pub handle : ℕ
  pub kind : Kind

-- create()
abbrev pub create : ℕ → Kind → Context
create handle kind = record { handle = handle; kind = kind }

-- The signals of AbstractIncomingRequestContext.
pub data Signal : Type 0 where
  response_received : Response → Signal
  invalid_response_received : Signal

-- The response that a value of the promise is put into.
abbrev pub response_of : (kind : Kind) → Value kind → Response
response_of add_message status = Response.add_message status
response_of get_messages views = Response.get_messages (from_views views)
response_of ping timestamp = Response.pong timestamp
response_of secondary_node_ready done = Response.secondary_node_ready

-- The function that connectPromise() posts when the promise is done, of a context that is alive;
-- none is a future with an exception, which an abandoned promise has too.
abbrev pub promise_done : (kind : Kind) → Option (Value kind) → Signal
promise_done kind none = invalid_response_received
promise_done kind (some value) = response_received (response_of kind value)
