-- ===== src/Master/AddMessageRequest/Session/Finished.antt =====
-- app/master-node/addmessagerequest: where a request ends. There every secondary of its last
-- snapshot has answered.
use distributed_systems_hw.Base.{
  ℕ, ◌+◌, ◌-◌, ◌%◌, ◌<◌, ◌≡◌, ◌≢◌, refl, ◌∙◌, inl, inr, Bool, true, false, ◌||◌, List, ◌++◌, Option,
  none, some, leb, arith, length, length-append, u64_mod, ◌==◌, Bool-cases,
}
use distributed_systems_hw.Base.Maps.{find, UniqueKeys}
use distributed_systems_hw.Proto.Codes.{AddMessageStatus}
use distributed_systems_hw.Master.AddMessageRequest.{
  AddMessageRequest, satisfied_write_concern, all_secondaries_successfully_answered,
  request_mark_success, update_data, send_request_to_secondaries, go_on, proceed, start,
  on_response_received, on_send_done, create, contains, retain,
}
use distributed_systems_hw.Master.AddMessageRequest.Counts.{find-retain, present_exact}
use distributed_systems_hw.Master.AddMessageRequest.Sending.{sends, timers, send_request-Counted}
use distributed_systems_hw.Master.AddMessageRequest.Session.{
  Session, Reach, run, answer, wake, remove, Bounded, Narrow, IsNarrow, is_gone,
}
use distributed_systems_hw.Master.AddMessageRequest.Session.Answers.{Answered, all-Answered}
use distributed_systems_hw.Master.AddMessageRequest.Session.Promise.{NarrowKeys, reached-Safe}
use distributed_systems_hw.Master.AddMessageRequest.Session.Progress.{
  reached-Going, mark_success_frame,
}
use distributed_systems_hw.Master.AddMessageRequest.Session.Snapshots.{
  proceed-SameData, marked-SameData,
}

send-goes :
    (r : AddMessageRequest)
    → r.pending_writes ≡ 0
    → length r.secondaries_snapshot < u64_mod
    → length (sends (send_request_to_secondaries r).1) ≡ 0
    → timers (send_request_to_secondaries r).1 ≢ 0
send-goes r idle b s t = let c = send_request-Counted r idle b in ground (arith, c.0, c.2, s, t)

go_on-ended :
    (r : AddMessageRequest)
    → r.pending_writes ≡ 0
    → length r.secondaries_snapshot < u64_mod
    → length (sends (go_on r).1) ≡ 0
    → timers (go_on r).1 ≡ 0
    → all_secondaries_successfully_answered r ≡ true
unfolding go_on
go_on-ended r idle b s t = elim (Bool-cases (all_secondaries_successfully_answered r)) [
  | inl all ↦ all
  | inr more ↦ absurd (send-goes r idle b (rw more at s) (rw more at t))
]

-- No send and no timer is left by proceed() only when all have answered.
proceed-ended :
    (r : AddMessageRequest)
    → r.pending_writes ≡ 0
    → length r.secondaries_snapshot < u64_mod
    → length (sends (proceed r).1) ≡ 0
    → timers (proceed r).1 ≡ 0
    → all_secondaries_successfully_answered r ≡ true
unfolding proceed
proceed-ended r idle b s t =
    elim (Bool-cases (leb r.write_concern (satisfied_write_concern r.statuses))) [
      | inl met ↦
          let f = mark_success_frame r in
          let m = marked-SameData r in
          let all =
            go_on-ended (request_mark_success r) (f.1 ∙ idle) (ground (arith, f.2, b)) (rw met at s)
              (rw met at t) in
          ground (arith, all, m.statuses, m.snapshot)
      | inr unmet ↦ absurd (send-goes r idle b (rw unmet at s) (rw unmet at t))
    ]

-- Every secondary of the last snapshot has answered.
abbrev pub AllAnswered : AddMessageRequest → Type 0
AllAnswered r = (j : ℕ) → contains r.secondaries_snapshot j ≡ true → Answered (find j r.statuses)

start-ended :
    (ids : List ℕ) (r : AddMessageRequest)
    → length ids < u64_mod
    → r.pending_writes ≡ 0
    → UniqueKeys (start (some ids) r).0.statuses
    → Narrow (some ids)
    → NarrowKeys (start (some ids) r).0.statuses
    → length (sends (start (some ids) r).1) ≡ 0
    → timers (start (some ids) r).1 ≡ 0
    → AllAnswered (start (some ids) r).0
unfolding start update_data
start-ended ids r b idle u fits n s t =
    let q : AddMessageRequest = record r {
      secondaries_snapshot = ids;
      statuses = retain ids r.statuses;
    } in
    let same = proceed-SameData q in
    let all = proceed-ended q idle b s t in
    rw (same.statuses, same.snapshot)
      (all-Answered ids (retain ids r.statuses) (rw (same.statuses) at u)
        (λ j e. ground (
          arith,
          e,
          find-retain j ids r.statuses,
          present_exact ids j fits (rw (same.statuses) at n j e),
        ))
        (ground (arith, all)))

-- Nothing is to come of the request, and the master was there each time.
pub record IsOver (s : Session) : Type 0 where
  pub kept : s.lost ≡ false
  pub quiet : length s.outstanding ≡ 0
  pub unplanned : s.waiting ≡ 0

started-ended :
    (snapshot : Option (List ℕ)) (r : AddMessageRequest) (lost : Bool)
    → Bounded snapshot
    → r.pending_writes ≡ 0
    → UniqueKeys (start snapshot r).0.statuses
    → Narrow snapshot
    → NarrowKeys (start snapshot r).0.statuses
    → lost || is_gone snapshot ≡ false
    → length (sends (start snapshot r).1) ≡ 0
    → timers (start snapshot r).1 ≡ 0
    → AllAnswered (start snapshot r).0
started-ended none r lost b idle u fits n kept s t = absurd (ground (arith, kept))
started-ended (some ids) r lost b idle u fits n kept s t = start-ended ids r b idle u fits n s t

send_done-ended :
    (id : ℕ) (response : Option AddMessageStatus) (snapshot : Option (List ℕ))
    (r : AddMessageRequest) (lost : Bool) (ids : List ℕ)
    → Bounded snapshot
    → UniqueKeys (on_send_done id response snapshot r).0.statuses
    → Narrow snapshot
    → NarrowKeys (on_send_done id response snapshot r).0.statuses
    → (on_send_done id response snapshot r).0.pending_writes
      ≡ length (ids ++ sends (on_send_done id response snapshot r).1)
    → lost || is_gone snapshot ≡ false
    → length (ids ++ sends (on_send_done id response snapshot r).1) ≡ 0
    → timers (on_send_done id response snapshot r).1 ≡ 0
    → AllAnswered (on_send_done id response snapshot r).0
unfolding on_send_done
send_done-ended id response snapshot r lost ids b u fits keys p kept s t =
    let received : AddMessageRequest = on_response_received id response r in
    let counted : AddMessageRequest = record received {
      pending_writes = (received.pending_writes + u64_mod - 1) % u64_mod;
    } in
    elim (Bool-cases (counted.pending_writes == 0)) [
      | inl last ↦
          let n = length-append ids (sends (start snapshot counted).1) in
          rw last (
            started-ended snapshot counted lost b (ground (arith, last)) (rw last at u) fits
              (rw last at keys) kept (omega (arith, n, rw last at s)) (rw last at t))
      | inr more ↦ absurd (ground (arith, more, rw more at (p ∙ s)))
    ]

-- A request that is over has an answer of every secondary in its last snapshot, when each snapshot
-- lists fewer than 2^64 secondaries and every id of a secondary is below 2^31 - 1.
pub over-AllAnswered :
    {s : Session} (reach : Reach s) → IsNarrow reach → IsOver s → AllAnswered s.request
over-AllAnswered (run message_id message write_concern snapshot b) narrow over =
    let safe = (reached-Safe (run message_id message write_concern snapshot b) narrow).0 in
    started-ended snapshot (create message_id message write_concern) false b refl safe.0 narrow
      safe.3 over.kept over.quiet (omega (arith, over.unplanned))
over-AllAnswered (answer {s} id response snapshot before out b) narrow over =
    let after = answer id response snapshot before out b in
    let safe = (reached-Safe after narrow).0 in
    send_done-ended id response snapshot s.request s.lost (remove id s.outstanding) b safe.0
      narrow.1 safe.3 (reached-Going after).0 over.kept over.quiet (omega (arith, over.unplanned))
over-AllAnswered (wake {s} snapshot before timer b) narrow over =
    let g = reached-Going before in
    let gone : length s.outstanding ≡ 0 = ground (arith, g.2, timer) in
    let n = length-append s.outstanding (sends (start snapshot s.request).1) in
    let safe = (reached-Safe (wake snapshot before timer b) narrow).0 in
    started-ended snapshot s.request s.lost b (g.0 ∙ gone) safe.0 narrow.0 safe.3 over.kept
      (omega (arith, over.quiet, n)) (omega (arith, over.unplanned))
