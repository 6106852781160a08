-- ===== src/Tests/Outcoming.antt =====
-- Two requests of one peer, the first of which is answered, and the second of which times out.
use distributed_systems_hw.Base.{
  ℕ, ◌≡◌, ◌≢◌, refl, true, false, List, [], ◌∷◌, arith, ltb, All, Bytes,
}
use distributed_systems_hw.Base.Maps.{find, insert, erase}
use distributed_systems_hw.Proto.HostBytes.{from_bytes}
use distributed_systems_hw.Proto.Deserializer.{
  view, leftover, get_memory_and_advance, deserialize_int, at_end,
}
use distributed_systems_hw.Proto.Parser.{◌>>=◌, read, valid, return, rest, parse, check}
use distributed_systems_hw.Proto.Platform.{Platform, returned}
use distributed_systems_hw.Proto.Request
use distributed_systems_hw.Proto.Frame.{parse_event_type, parse_response_frame}
use distributed_systems_hw.Proto.Response.{pong, pong_from_payload}
use distributed_systems_hw.Proto.OutcomingContext.{
  Context, timestamp, fill, for_ping, for_add_message, create, take_payload, invalidate,
  on_response_received as context_on_response_received,
}
use distributed_systems_hw.Proto.OutcomingRequests.{
  Manager, send_request_impl, on_response_received, on_event, on_incoming_frame, timer_fired,
  invalidate_pending_request,
}
use distributed_systems_hw.Proto.OutcomingRequests.Runs.{
  Event, send, frame, timer, disconnect, Run, react, run_all, occurs, IsSettled, IsWell, total,
  idle,
}
use distributed_systems_hw.Proto.OutcomingRequests.Settling.{settled_once, disconnect_settles}
use distributed_systems_hw.Proto.OutcomingRequests.Answers.{
  with_pong, frame_bytes, drop_id, answer_settles,
}

instance abbrev small : Platform
small = record { reserve_throws = λ n. ltb 1000 n; allocates = λ n. true }

abbrev ping : Context
ping = create 70 for_ping

abbrev add : Context
add = create 71 for_add_message

-- pong(9) as the response with id 0.
abbrev pong_frame : Bytes
pong_frame = 1 ∷ 0 ∷ 0 ∷ 0 ∷ 0 ∷ 0 ∷ 0 ∷ 0 ∷ 0 ∷ 9 ∷ 0 ∷ 0 ∷ 0 ∷ 0 ∷ 0 ∷ 0 ∷ 0 ∷ []

abbrev events : List Event
events =
    send (Request.ping 8) ping
    ∷ send (Request.add_message 3 (104 ∷ [])) add
    ∷ frame (view pong_frame)
    ∷ timer false 0
    ∷ []

abbrev last : Run
last = record {
  manager = record { request_id_counter = 2; pending_requests = (1, add) ∷ [] };
  settled = fill (timestamp 9) ping ∷ [];
}

run_events : run_all events idle ≡ returned last
unfolding find insert erase send_request_impl on_response_received on_event on_incoming_frame
    timer_fired invalidate_pending_request invalidate context_on_response_received take_payload
    pong_from_payload parse_event_type parse_response_frame parse ◌>>=◌ read valid return rest check
    leftover at_end deserialize_int get_memory_and_advance from_bytes
run_events = refl

settled_once_example : IsWell last × ((h : ℕ) → total h last ≡ occurs h (ping ∷ add ∷ []))
settled_once_example = settled_once events last ((refl, refl), ((refl, refl), tt)) run_events

disconnect_settles_example :
    (out : Run) × (react disconnect last ≡ returned out)
    × (out.manager.pending_requests ≡ [])
    × All IsSettled out.settled
    × ((h : ℕ) → occurs h out.settled ≡ occurs h (ping ∷ add ∷ []))
disconnect_settles_example =
    disconnect_settles events last ((refl, refl), ((refl, refl), tt)) run_events

abbrev waiting : Manager
waiting = record { request_id_counter = 2; pending_requests = (0, ping) ∷ (1, add) ∷ [] }

answer_settles_example :
    (on_incoming_frame (view (frame_bytes 0 (pong 9))) waiting
      ≡ returned (drop_id 0 waiting, fill (timestamp 9) ping ∷ []))
    × (timer_fired false 0 (drop_id 0 waiting) ≡ (drop_id 0 waiting, []))
    × ((j : ℕ)
        → j ≢ 0
        → find j (drop_id 0 waiting).pending_requests ≡ find j waiting.pending_requests)
unfolding find
answer_settles_example =
    answer_settles 0 waiting ping (pong 9) (timestamp 9) (omega arith) refl (refl, refl)
      (with_pong 9 (omega arith))

-- A library that reserves as much as it is asked for.
