-- ===== src/Proto/OutcomingRequests/Answers.antt =====
-- libs/proto/src/outcomingrequestsmanager: the frame that a peer builds for a response reaches the
-- context that waits under the id of the frame, and no other.
use distributed_systems_hw.Base.{
  ℕ, ◌<◌, ◌≡◌, ◌≢◌, refl, ap, ◌∙◌, false, none, some, List, [], ◌∷◌, ◌++◌, arith, length, All,
  u64_mod, Bytes,
}
use distributed_systems_hw.Base.Maps.{find, erase, find-erase}
use distributed_systems_hw.Proto.Codes.{AddMessageStatus, response}
use distributed_systems_hw.Proto.Platform.{Platform, returned, ◌>>=◌}
use distributed_systems_hw.Proto.Deserializer.{Buffer, view}
use distributed_systems_hw.Proto.Serializer.{joined}
use distributed_systems_hw.Proto.Frame.{
  ResponseFrame, parse_response_frame, construct_response_header,
}
use distributed_systems_hw.Proto.Frame.RoundTrip.{
  parse-construct_response, event-construct_response,
}
use distributed_systems_hw.Proto.Response.{
  Response, add_message, get_messages, pong, secondary_node_ready, from_views, flush_messages,
}
use distributed_systems_hw.Proto.Response.RoundTrip.{
  payload_bytes, from-serialize_messages, from-serialize_status, from-serialize_pong,
  from-serialize_ready,
}
use distributed_systems_hw.Proto.OutcomingContext.{
  Kind, for_add_message, for_get_messages, for_ping, for_secondary_node_ready, Context, Outcome,
  status, messages, timestamp, ready, fill, IsOpen, take_payload, take_step, add_message_parsed,
  ping_parsed, ready_parsed, get_messages_parsed,
  on_response_received as context_on_response_received,
}
use distributed_systems_hw.Proto.OutcomingRequests.{
  Manager, on_response_received, on_event, on_incoming_frame, timer_fired,
  invalidate_pending_request,
}

-- The responses to each kind of request, and what they say to the one who asked.
pub data Answers ⦃p : Platform⦄ : Kind → Response → Outcome → Type 0 where
  with_status : (s : AddMessageStatus) → Answers for_add_message (add_message s) (status s)
  with_messages :
      (ms : List Bytes)
      → length ms < u64_mod
      → All (λ m. length m < u64_mod) ms
      → p.reserve_throws (length ms) ≡ false
      → Answers for_get_messages (get_messages (from_views ms)) (messages ms)
  with_pong : (t : ℕ) → t < u64_mod → Answers for_ping (pong t) (timestamp t)
  with_ready : Answers for_secondary_node_ready secondary_node_ready ready

abbrev pub frame_bytes : ℕ → Response → Bytes
frame_bytes id r = joined (construct_response_header id) ++ payload_bytes r

take-payload_bytes :
    ⦃p : Platform⦄
    → (kind : Kind) (r : Response) (o : Outcome) (c : Context) → Answers kind r o
    → take_payload kind (view (payload_bytes r)) c ≡ returned (fill o c)
unfolding take_payload flush_messages
take-payload_bytes _ _ _ c (with_status s) =
    ap (λ parsed. returned (add_message_parsed parsed c)) (from-serialize_status s)
take-payload_bytes _ _ _ c (with_messages ms n sizes fits) =
    ap (λ parsed. parsed >>= (λ r. get_messages_parsed r c))
      (from-serialize_messages ms n sizes fits)
take-payload_bytes _ _ _ c (with_pong t h) =
    ap (λ parsed. returned (ping_parsed parsed c)) (from-serialize_pong t h)
take-payload_bytes _ _ _ c with_ready =
    ap (λ parsed. returned (ready_parsed parsed c)) from-serialize_ready

abbrev pub drop_id : ℕ → Manager → Manager
drop_id id m = record m { pending_requests = erase id m.pending_requests }

respond :
    ⦃p : Platform⦄
    → (id : ℕ) (payload : Buffer) (m : Manager) (c c' : Context)
    → find id m.pending_requests ≡ some c
    → context_on_response_received payload c ≡ returned c'
    → on_response_received id payload m ≡ returned (drop_id id m, c' ∷ [])
unfolding on_response_received
respond id payload m c c' found e = rw (found, on_response_received, e) refl

event_response :
    ⦃p : Platform⦄
    → (buffer : Buffer) (m : Manager) (f : ResponseFrame) → parse_response_frame buffer ≡ some f
    → on_event (some response) buffer m ≡ on_response_received f.request_id f.payload m
unfolding on_event
event_response buffer m f e = rw (e, on_event) refl

-- When a request with an id below 2^64 is pending, its context open, and the frame comes in that the
-- peer builds for a response that answers it: the promise is set to what the response says, this
-- request is no longer pending, every other one still is, and a timeout that comes later does
-- nothing.
pub answer_settles :
    ⦃p : Platform⦄
    → (id : ℕ) (m : Manager) (c : Context) (r : Response) (o : Outcome) → id < u64_mod
    → find id m.pending_requests ≡ some c
    → IsOpen c
    → Answers c.kind r o
    → (on_incoming_frame (view (frame_bytes id r)) m ≡ returned (drop_id id m, fill o c ∷ []))
      × (timer_fired false id (drop_id id m) ≡ (drop_id id m, []))
      × ((j : ℕ) → j ≢ id → find j (drop_id id m).pending_requests ≡ find j m.pending_requests)
unfolding on_incoming_frame timer_fired invalidate_pending_request
answer_settles id m c r o small found unset answers = (
  ap (λ event. on_event event (view (frame_bytes id r)) m)
        (event-construct_response id (payload_bytes r))
      ∙ event_response _ m _ (parse-construct_response id (payload_bytes r) small)
      ∙ respond id (view (payload_bytes r)) m c (fill o c) found
          (take_step _ c unset ∙ take-payload_bytes c.kind r o c answers),
  rw (gone, invalidate_pending_request) refl,
  λ j other. ground (arith, find-erase j id m.pending_requests),
)
  where
    gone : find id (erase id m.pending_requests) ≡ none
    gone = ground (arith, find-erase id id m.pending_requests)
