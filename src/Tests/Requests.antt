-- ===== src/Tests/Requests.antt =====
-- One message with write concern 2 of the master and two secondaries, the second of which answers.
use distributed_systems_hw.Base.{
  ℕ, ◌≡◌, refl, true, false, List, [], ◌∷◌, Option, some, arith, Bytes,
}
use distributed_systems_hw.Base.Maps.{find, assign}
use distributed_systems_hw.Proto.Codes.{ok}
use distributed_systems_hw.Master.AddMessageRequest.{
  set_value, retain, is_present, satisfied_loop, satisfied_write_concern, request_mark_success,
  update_data, send_loop, wait_if_none, send_request_to_secondaries, proceed, start,
  on_response_received, on_send_done,
}
use distributed_systems_hw.Master.AddMessageRequest.Session.{
  IsNarrow, Session, Reach, run, answer, opened, answered,
}
use distributed_systems_hw.Master.AddMessageRequest.Session.Promise.{
  IsKept, promise-IsKept, prompt_promise,
}
use distributed_systems_hw.Master.AddMessageRequest.Session.Progress.{Going, reached-Going}

abbrev text : Bytes
text = 104 ∷ 105 ∷ []

abbrev two : Option (List ℕ)
two = some (4 ∷ 5 ∷ [])

abbrev sent : Session
sent = opened 7 text 1 two

abbrev one_ok : Session
one_ok = answered 5 (some ok) two sent

one_ok_reached : (reach : Reach one_ok) × IsNarrow reach
unfolding start update_data retain is_present satisfied_loop satisfied_write_concern proceed
    send_request_to_secondaries wait_if_none send_loop find
one_ok_reached = (
  answer 5 (some ok) two (run 7 text 1 two (omega arith)) refl (omega arith),
  (omega arith, (omega arith, (omega arith, tt)), (omega arith, (omega arith, tt))),
)

promise-IsKept_example : IsKept 1 (5 ∷ []) false true (set_value ∷ [])
unfolding start update_data retain is_present satisfied_loop satisfied_write_concern proceed
    send_request_to_secondaries wait_if_none send_loop find on_send_done on_response_received assign
    request_mark_success
promise-IsKept_example = promise-IsKept one_ok_reached.0 one_ok_reached.1

prompt_promise_example : one_ok.request.promise_filled ≡ true
unfolding start update_data retain is_present satisfied_loop satisfied_write_concern proceed
    send_request_to_secondaries wait_if_none send_loop find on_send_done on_response_received assign
    request_mark_success
prompt_promise_example =
    prompt_promise one_ok_reached.0 one_ok_reached.1 (5 ∷ []) (refl, tt) (λ j h. ground (arith, h))
      (omega arith)

reached-Going_example : Going one_ok.request 1 0
unfolding start update_data retain is_present satisfied_loop satisfied_write_concern proceed
    send_request_to_secondaries wait_if_none send_loop find on_send_done on_response_received assign
    request_mark_success
reached-Going_example = reached-Going one_ok_reached.0
