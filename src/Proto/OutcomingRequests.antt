-- ===== src/Proto/OutcomingRequests.antt =====
-- libs/proto/src/outcomingrequestsmanager: the requests that wait for an answer. A settled context is
-- part of the result of the call that drops it; so are the frame and the timer of a new request.
pub mod Runs
pub mod Settling
pub mod Answers
use distributed_systems_hw.Base.{
  ℕ, ◌+◌, ◌%◌, Bool, true, false, Option, none, some, List, [], ◌∷◌, ◌++◌, if◌then◌else◌, next_u64,
  u64_mod,
}
use distributed_systems_hw.Base.Maps.{Map, find, insert, erase}
use distributed_systems_hw.Proto.Codes.{EventType, request, response}
use distributed_systems_hw.Proto.Platform.{Platform, Exec, returned, thrown, ◌>>=◌}
use distributed_systems_hw.Proto.Deserializer.{Buffer}
use distributed_systems_hw.Proto.Serializer.{Sequence}
use distributed_systems_hw.Proto.Frame.{
  ResponseFrame, parse_event_type, parse_response_frame, construct_request_header,
}
use distributed_systems_hw.Proto.Request.{Request, op_code, serialize_payload}
use distributed_systems_hw.Proto.OutcomingContext.{
  InvalidationReason, timeout, peer_disconnected, Context, invalidate,
  on_response_received as context_on_response_received,
}

-- requestIdCounter_ and pendingRequests_; a pending request is its context here, since its request
-- is not read again and its timer is the event `timer_fired`.
pub record Manager : Type 0 where
  pub request_id_counter : ℕ
  pub pending_requests : Map Context

abbrev pub empty : Manager
empty = record { request_id_counter = 0; pending_requests = [] }

-- The timer and the write, after the delay, of a request.
pub data Effect : Type 0 where
  timeout_timer : (request_id : ℕ) → Effect
  delayed_write : (request_id : ℕ) → (frame : Sequence) → Effect

-- The frame of a request.
abbrev pub request_frame : ℕ → Request → Sequence
request_frame id r = serialize_payload r (construct_request_header id (op_code r))

pub record Sent : Type 0 where
  pub manager : Manager
  pub settled : List Context
  pub effects : List Effect

-- sendRequestImpl()
unfoldable pub send_request_impl : Request → Context → Manager → Sent
send_request_impl r context m =
    let id = m.request_id_counter in
    let counted = record m { request_id_counter = next_u64 id } in
    elim (find id m.pending_requests) [
      | some other ↦ record {
        manager = counted;
        settled = invalidate timeout context ∷ [];
        effects = [];
      }
      | none ↦ record {
        manager = record counted { pending_requests = insert id context m.pending_requests };
        settled = [];
        effects = timeout_timer id ∷ delayed_write id (request_frame id r) ∷ [];
      }
    ]

-- onResponseRecieved()
unfoldable pub on_response_received :
    ⦃p : Platform⦄ → ℕ → Buffer → Manager → Exec (Manager × List Context)
on_response_received id payload m = elim (find id m.pending_requests) [
  | none ↦ returned (m, [])
  | some context ↦ context_on_response_received payload context >>= (λ settled.
      returned (record m { pending_requests = erase id m.pending_requests }, settled ∷ []))
]

-- onIncomingFrame(), for an event type that was parsed.
unfoldable pub on_event :
    ⦃p : Platform⦄ → Option EventType → Buffer → Manager → Exec (Manager × List Context)
unfolding on_response_received
on_event none frame m = returned (m, [])
on_event (some request) frame m = returned (m, [])
on_event (some response) frame m = elim (parse_response_frame frame) [
  | none ↦ returned (m, [])
  | some f ↦ on_response_received f.request_id f.payload m
]

-- onIncomingFrame()
unfoldable pub on_incoming_frame : ⦃p : Platform⦄ → Buffer → Manager → Exec (Manager × List Context)
unfolding on_event
on_incoming_frame frame m = on_event (parse_event_type frame) frame m

-- invalidatePendingRequest()
unfoldable pub invalidate_pending_request :
    ℕ → InvalidationReason → Manager → Manager × List Context
invalidate_pending_request id reason m = elim (find id m.pending_requests) [
  | none ↦ (m, [])
  | some context ↦
      (record m { pending_requests = erase id m.pending_requests }, invalidate reason context ∷ [])
]

-- The loop of invalidateAllPendingRequests().
unfoldable pub invalidate_loop : InvalidationReason → Map Context → List Context
invalidate_loop reason [] = []
invalidate_loop reason ((id, context) ∷ rest) =
    invalidate reason context ∷ invalidate_loop reason rest

-- invalidateAllPendingRequests(), which the signal `invalidated` of the socket and the destructor call.
unfoldable pub invalidate_all : InvalidationReason → Manager → Manager × List Context
invalidate_all reason m =
    (record m { pending_requests = [] }, invalidate_loop reason m.pending_requests)

-- The callback of the timer of a request; it has an error code where the timer was cancelled.
unfoldable pub timer_fired : (cancelled : Bool) → ℕ → Manager → Manager × List Context
unfolding invalidate_pending_request
timer_fired cancelled id m = if cancelled then (m, []) else invalidate_pending_request id timeout m

-- The callback of the delay: what is left to write, if the socket was not invalidated.
unfoldable pub delay_over :
    (was_invalidated : Bool) → ℕ → Sequence → Manager → (Manager × List Context) × List Sequence
unfolding invalidate_pending_request
delay_over was_invalidated id frame m =
    if was_invalidated
    then (invalidate_pending_request id peer_disconnected m, [])
    else ((m, []), frame ∷ [])

-- The function that sendRequest() posts; none is a manager that is gone.
unfoldable pub posted_send : Request → Context → Option Manager → Option Manager × List Context
unfolding send_request_impl
posted_send r context none = (none, invalidate peer_disconnected context ∷ [])
posted_send r context (some m) =
    let sent = send_request_impl r context m in (some sent.manager, sent.settled)
