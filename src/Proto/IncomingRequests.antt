-- ===== src/Proto/IncomingRequests.antt =====
-- libs/proto/src/incomingrequestsmanager: the requests of the peer that are not answered yet.
pub mod Runs
use distributed_systems_hw.Base.{ℕ, Option, none, some, List, [], ◌∷◌, ◌==◌, if◌then◌else◌}
use distributed_systems_hw.Base.Maps.{Map, find, insert, erase}
use distributed_systems_hw.Proto.Codes.{EventType, request, response}
use distributed_systems_hw.Proto.Deserializer.{Buffer}
use distributed_systems_hw.Proto.Serializer.{Sequence}
use distributed_systems_hw.Proto.Frame.{
  RequestFrame, parse_event_type, parse_request_frame, construct_response_header,
}
use distributed_systems_hw.Proto.Response.{Response, serialize_payload}
use distributed_systems_hw.Proto.IncomingContext.{
  Context, Kind, Value, Signal, response_received, invalid_response_received, promise_done,
}

-- registeredContexts_, which holds the only reference to each context.
pub record Manager : Type 0 where
  pub registered_contexts : Map Context

abbrev pub empty : Manager
empty = record { registered_contexts = [] }

-- registerContext(): with an id that is taken the context is dropped.
unfoldable pub register_context : ℕ → Context → Manager → Manager
register_context response_id context m = elim (find response_id m.registered_contexts) [
  | some other ↦ m
  | none ↦ record { registered_contexts = insert response_id context m.registered_contexts }
]

-- onIncomingFrame(), for an event type that was parsed: the frame that incomingRequestFrame emits.
unfoldable pub on_event : Option EventType → Buffer → Option RequestFrame
on_event none frame = none
on_event (some response) frame = none
on_event (some request) frame = parse_request_frame frame

-- onIncomingFrame()
unfoldable pub on_incoming_frame : Buffer → Option RequestFrame
unfolding on_event
on_incoming_frame frame = on_event (parse_event_type frame) frame

abbrev pub forget : ℕ → Manager → Manager
forget response_id m = record { registered_contexts = erase response_id m.registered_contexts }

-- The frame of a response.
abbrev pub response_frame : ℕ → Response → Sequence
response_frame response_id r = serialize_payload r (construct_response_header response_id)

-- onResponseRecieved(): the new state, and the frame that is written; none is nullptr.
unfoldable pub on_response_received : ℕ → Option Response → Manager → Manager × List Sequence
on_response_received response_id none m = (forget response_id m, [])
on_response_received response_id (some r) m =
    (forget response_id m, response_frame response_id r ∷ [])

-- onInvalidResponseRecieved()
unfoldable pub on_invalid_response_received : ℕ → Manager → Manager
on_invalid_response_received response_id m = forget response_id m

-- The slot that registerContext() connects to each signal, with the id bound to it.
unfoldable pub on_signal : ℕ → Signal → Manager → Manager × List Sequence
unfolding on_response_received on_invalid_response_received
on_signal response_id (response_received r) m = on_response_received response_id (some r) m
on_signal response_id invalid_response_received m = (on_invalid_response_received response_id m, [])

-- The id that the context of a promise is registered under: none when it is gone, and then
-- weakSelf.lock() in the function that the context posted is null.
abbrev pub alive_as : ℕ → Map Context → Option ℕ
alive_as handle [] = none
alive_as handle ((response_id, c) ∷ rest) =
    if c.handle == handle then some response_id else alive_as handle rest

-- The promise of a context of the kind is done.
unfoldable pub on_promise_done :
    ℕ → (kind : Kind) → Option (Value kind) → Manager → Manager × List Sequence
unfolding on_signal
on_promise_done handle kind value m = elim (alive_as handle m.registered_contexts) [
  | none ↦ (m, [])
  | some response_id ↦ on_signal response_id (promise_done kind value) m
]
