-- ===== src/Master/AddMessageRequest/Session/Progress.antt =====
-- app/master-node/addmessagerequest: pendingWrites_ is the number of callbacks to come, and a request
-- never stops with its promise open.
use distributed_systems_hw.Base.{
  ℕ, suc, ◌+◌, ◌-◌, ◌%◌, ◌<◌, ◌≡◌, ◌≢◌, refl, ◌∙◌, ◌⊎◌, inl, inr, true, List, [], ◌∷◌, ◌++◌, Option,
  none, some, leb, arith, length, length-append, u64_mod, ◌==◌, Bool-cases,
}
use distributed_systems_hw.Base.Maps.{assign}
use distributed_systems_hw.Proto.Codes.{AddMessageStatus}
use distributed_systems_hw.Master.AddMessageRequest.{
  AddMessageRequest, Action, satisfied_write_concern, all_secondaries_successfully_answered,
  request_mark_success, request_mark_failure, update_data, send_request_to_secondaries, go_on,
  proceed, start, status_after, on_response_received, on_send_done, create, contains, retain,
}
use distributed_systems_hw.Master.AddMessageRequest.Sending.{
  sends, timers, Counted, send_request-Counted,
}
use distributed_systems_hw.Master.AddMessageRequest.Session.{
  Session, Reach, run, answer, wake, remove, Bounded,
}

-- What start() leaves when no write is pending: as many pending writes as it has sent, at most one
-- timer, that only where it has sent nothing, and the promise set where there is neither.
abbrev Started : AddMessageRequest × List Action → Type 0
Started (r, actions) =
    (r.pending_writes ≡ length (sends actions))
    × (r.pending_writes < u64_mod)
    × (((timers actions ≡ 0) × (0 < r.pending_writes))
        ⊎ ((timers actions ≡ 1) × (r.pending_writes ≡ 0))
        ⊎ ((timers actions ≡ 0) × (r.pending_writes ≡ 0) × (r.promise_filled ≡ true)))

Counted-Started : (out : AddMessageRequest × List Action) → Counted out → Started out
Counted-Started (r, actions) (p, b, inl sent) = (p, b, inl sent)
Counted-Started (r, actions) (p, b, inr timer) = (p, b, inr (inl timer))

pub mark_success_frame :
    (r : AddMessageRequest)
    → ((request_mark_success r).promise_filled ≡ true)
      × ((request_mark_success r).pending_writes ≡ r.pending_writes)
      × ((request_mark_success r).secondaries_snapshot ≡ r.secondaries_snapshot)
unfolding request_mark_success
mark_success_frame r = elim (Bool-cases r.promise_filled) [
  | inl f ↦ rw f (refl, refl, refl)
  | inr f ↦ rw f (refl, refl, refl)
]

mark_failure_frame :
    (r : AddMessageRequest)
    → ((request_mark_failure r).promise_filled ≡ true)
      × ((request_mark_failure r).pending_writes ≡ r.pending_writes)
unfolding request_mark_failure
mark_failure_frame r = elim (Bool-cases r.promise_filled) [
  | inl f ↦ rw f (refl, refl)
  | inr f ↦ rw f (refl, refl)
]

go_on-Started :
    (r : AddMessageRequest)
    → r.pending_writes ≡ 0
    → length r.secondaries_snapshot < u64_mod
    → r.promise_filled ≡ true
    → Started (go_on r)
unfolding go_on
go_on-Started r idle b set = elim (Bool-cases (all_secondaries_successfully_answered r)) [
  | inl all ↦ rw all (idle, omega arith, inr (inr (refl, idle, set)))
  | inr more ↦
      rw more (Counted-Started (send_request_to_secondaries r) (send_request-Counted r idle b))
]

proceed-Started :
    (r : AddMessageRequest)
    → r.pending_writes ≡ 0
    → length r.secondaries_snapshot < u64_mod
    → Started (proceed r)
unfolding proceed
proceed-Started r idle b =
    elim (Bool-cases (leb r.write_concern (satisfied_write_concern r.statuses))) [
      | inl met ↦
          let f = mark_success_frame r in
          rw met (go_on-Started (request_mark_success r) (f.1 ∙ idle) (ground (arith, f.2, b)) f.0)
      | inr unmet ↦
          rw unmet (Counted-Started (send_request_to_secondaries r) (send_request-Counted r idle b))
    ]

start-Started :
    (snapshot : Option (List ℕ)) (r : AddMessageRequest)
    → Bounded snapshot
    → r.pending_writes ≡ 0
    → Started (start snapshot r)
unfolding start update_data
start-Started none r b idle =
    let f = mark_failure_frame r in
    (f.1 ∙ idle, ground (arith, f.1), inr (inr (refl, f.1 ∙ idle, f.0)))
start-Started (some snapshot) r b idle =
    proceed-Started
      (record r { secondaries_snapshot = snapshot; statuses = retain snapshot r.statuses }) idle b

-- Between the callbacks: every pending write has its callback to come, and there is a callback to
-- come, or one timer, or the promise is set.
abbrev pub Going : AddMessageRequest → (outstanding waiting : ℕ) → Type 0
Going r outstanding waiting =
    (r.pending_writes ≡ outstanding)
    × (outstanding < u64_mod)
    × (((waiting ≡ 0) × (0 < outstanding))
        ⊎ ((waiting ≡ 1) × (outstanding ≡ 0))
        ⊎ ((waiting ≡ 0) × (outstanding ≡ 0) × (r.promise_filled ≡ true)))

-- start() is called where no callback and no timer is to come.
Started-Going :
    (out : AddMessageRequest × List Action) (ids : List ℕ) (waiting : ℕ)
    → length ids ≡ 0
    → waiting ≡ 0
    → Started out
    → Going out.0 (length (ids ++ sends out.1)) (waiting + timers out.1)
Started-Going (r, actions) ids waiting i w s =
    let n = length-append ids (sends actions) in (omega arith, omega arith, ground (arith, n, s.2))

pub length-remove :
    (id : ℕ) (ids : List ℕ) → contains ids id ≡ true → length ids ≡ suc (length (remove id ids))
length-remove id [] e = ground (arith, e)
length-remove id (x ∷ xs) e = ground (arith, length-remove id xs, e)

received_frame :
    (id : ℕ) (response : Option AddMessageStatus) (r : AddMessageRequest)
    → (on_response_received id response r).pending_writes ≡ r.pending_writes
unfolding on_response_received
received_frame id response r =
    let r' : AddMessageRequest = record r {
      statuses = assign id (status_after response) r.statuses;
    } in
    elim (Bool-cases (leb r'.write_concern (satisfied_write_concern r'.statuses))) [
      | inl met ↦ rw met ((mark_success_frame r').1)
      | inr unmet ↦ rw unmet refl
    ]

-- `ids` are the outstanding ones without the one that answers.
on_send_done-Going :
    (id : ℕ) (response : Option AddMessageStatus) (snapshot : Option (List ℕ))
    (r : AddMessageRequest) (ids : List ℕ) (waiting : ℕ)
    → Bounded snapshot
    → Going r (suc (length ids)) waiting
    → Going
        (on_send_done id response snapshot r).0
        (length (ids ++ sends (on_send_done id response snapshot r).1))
        (waiting + timers (on_send_done id response snapshot r).1)
unfolding on_send_done
on_send_done-Going id response snapshot r ids waiting b g =
    let received : AddMessageRequest = on_response_received id response r in
    let counted : AddMessageRequest = record received {
      pending_writes = (received.pending_writes + u64_mod - 1) % u64_mod;
    } in
    let f = received_frame id response r in
    let left : counted.pending_writes ≡ length ids = omega arith in
    let idle : waiting ≡ 0 = ground (arith, g.2) in
    elim (Bool-cases (counted.pending_writes == 0)) [
      | inl last ↦
          let zero : counted.pending_writes ≡ 0 = ground (arith, last) in
          rw last (
            Started-Going (start snapshot counted) ids waiting (omega arith) idle
              (start-Started snapshot counted b zero))
      | inr more ↦
          let n = length-append ids [] in
          let some_left : counted.pending_writes ≢ 0 = λ z. ground (arith, more, z) in
          rw more (omega arith, omega arith, inl (omega arith, ground (arith, n, left, some_left)))
    ]

-- Of a request that has run, when each snapshot lists fewer than 2^64 secondaries: pendingWrites_ is
-- the number of sends whose callback is still to come, so that no call of start() finds writes
-- pending. Where there is none, one timer is running, or the promise has been set; a timer runs
-- only where there is none.
pub reached-Going : {s : Session} → Reach s → Going s.request (length s.outstanding) s.waiting
reached-Going (run message_id message write_concern snapshot b) =
    let r = create message_id message write_concern in
    Started-Going (start snapshot r) [] 0 refl refl (start-Started snapshot r b refl)
reached-Going (answer {s} id response snapshot before out b) =
    let l = length-remove id s.outstanding out in
    on_send_done-Going id response snapshot s.request (remove id s.outstanding) s.waiting b
      (rw⁻¹ l (reached-Going before))
reached-Going (wake {s} snapshot before timer b) =
    let g = reached-Going before in
    let gone : length s.outstanding ≡ 0 = ground (arith, g.2, timer) in
    let once : s.waiting ≡ 1 = ground (arith, g.2, timer) in
    Started-Going (start snapshot s.request) s.outstanding (s.waiting - 1) gone (omega arith)
      (start-Started snapshot s.request b (g.0 ∙ gone))
