-- ===== src/Master/AddMessageRequest/Session/Snapshots.antt =====
-- app/master-node/addmessagerequest: the snapshots and the statuses of a request.
use distributed_systems_hw.Base.{
  ℕ, ◌⊎◌, ◌+◌, ◌-◌, ◌%◌, ◌≡◌, refl, ap, ◌∙◌, sym, inl, inr, true, false, List, Option, none, some,
  arith, u64_mod, ◌==◌, Bool-cases, Bytes,
}
use distributed_systems_hw.Base.Maps.{Map, find, assign}
use distributed_systems_hw.Proto.Codes.{AddMessageStatus}
use distributed_systems_hw.Master.AddMessageRequest.{
  AddMessageRequest, Status, request_mark_success, request_mark_failure, update_data,
  send_request_to_secondaries, go_on, proceed, start, status_after, on_response_received,
  on_send_done, create, contains, retain,
}
use distributed_systems_hw.Master.AddMessageRequest.Counts.{find-retain}
use distributed_systems_hw.Master.AddMessageRequest.Sending.{send_request_frame}
use distributed_systems_hw.Master.AddMessageRequest.Session.{Session, opened, answered, woken}

-- What start() changes besides the promise and the pending writes: nothing, behind updateData().
pub record SameData (r q : AddMessageRequest) : Type 0 where
  pub statuses : q.statuses ≡ r.statuses
  pub snapshot : q.secondaries_snapshot ≡ r.secondaries_snapshot

pub marked-SameData : (r : AddMessageRequest) → SameData r (request_mark_success r)
unfolding request_mark_success
marked-SameData r = record { statuses = ground arith; snapshot = ground arith }

send-SameData : (r : AddMessageRequest) → SameData r (send_request_to_secondaries r).0
send-SameData r =
    let f = send_request_frame r in rw (f.1) (record { statuses = refl; snapshot = refl })

go_on-SameData : (r : AddMessageRequest) → SameData r (go_on r).0
unfolding go_on
go_on-SameData r =
    let s = send-SameData r in
    record { statuses = ground (arith, s.statuses); snapshot = ground (arith, s.snapshot) }

pub proceed-SameData : (r : AddMessageRequest) → SameData r (proceed r).0
unfolding proceed
proceed-SameData r =
    let s = send-SameData r in
    let m = marked-SameData r in
    let g = go_on-SameData (request_mark_success r) in
    record {
      statuses = ground (arith, s.statuses, m.statuses, g.statuses);
      snapshot = ground (arith, s.snapshot, m.snapshot, g.snapshot);
    }

-- The snapshot of a request is the last that it was given.
start_snapshot :
    (ids : List ℕ) (r : AddMessageRequest) → (start (some ids) r).0.secondaries_snapshot ≡ ids
unfolding start update_data
start_snapshot ids r =
    let q : AddMessageRequest = record r {
      secondaries_snapshot = ids;
      statuses = retain ids r.statuses;
    } in
    (proceed-SameData q).snapshot

-- A status is one that was there before.
pub start_statuses :
    (snapshot : Option (List ℕ)) (r : AddMessageRequest) (j : ℕ) (x : Status)
    → find j (start snapshot r).0.statuses ≡ some x
    → find j r.statuses ≡ some x
unfolding start update_data request_mark_failure
start_statuses none r j x e = ground (arith, e)
start_statuses (some ids) r j x e =
    let q : AddMessageRequest = record r {
      secondaries_snapshot = ids;
      statuses = retain ids r.statuses;
    } in
    let f : find j (retain ids r.statuses) ≡ some x =
      ap (λ (m : Map Status). find j m) (sym ((proceed-SameData q).statuses)) ∙ e in
    ground (arith, f, find-retain j ids r.statuses)

received_data :
    (id : ℕ) (response : Option AddMessageStatus) (r : AddMessageRequest)
    → SameData
        (record r { statuses = assign id (status_after response) r.statuses })
        (on_response_received id response r)
unfolding on_response_received request_mark_success
received_data id response r = record { statuses = ground arith; snapshot = ground arith }

pub on_send_done_statuses :
    (id : ℕ) (response : Option AddMessageStatus) (snapshot : Option (List ℕ))
    (r : AddMessageRequest) (j : ℕ) (x : Status)
    → find j (on_send_done id response snapshot r).0.statuses ≡ some x
    → find j (assign id (status_after response) r.statuses) ≡ some x
unfolding on_send_done
on_send_done_statuses id response snapshot r j x e =
    let received : AddMessageRequest = on_response_received id response r in
    let counted : AddMessageRequest = record received {
      pending_writes = (received.pending_writes + u64_mod - 1) % u64_mod;
    } in
    let same = ap (λ (m : Map Status). find j m) (sym ((received_data id response r).statuses)) in
    elim (Bool-cases (counted.pending_writes == 0)) [
      | inl last ↦ same ∙ start_statuses snapshot counted j x (rw last at e)
      | inr more ↦ same ∙ rw more at e
    ]

-- The snapshot that the callback of a send leaves is the old one or the new one.
on_send_done_snapshot :
    (id : ℕ) (response : Option AddMessageStatus) (ids : List ℕ) (r : AddMessageRequest)
    → ((on_send_done id response (some ids) r).0.secondaries_snapshot ≡ ids)
      ⊎ ((on_send_done id response (some ids) r).0.secondaries_snapshot ≡ r.secondaries_snapshot)
unfolding on_send_done
on_send_done_snapshot id response ids r =
    let received : AddMessageRequest = on_response_received id response r in
    let counted : AddMessageRequest = record received {
      pending_writes = (received.pending_writes + u64_mod - 1) % u64_mod;
    } in
    elim (Bool-cases (counted.pending_writes == 0)) [
      | inl last ↦ inl (rw last (start_snapshot ids counted))
      | inr more ↦ inr (rw more ((received_data id response r).snapshot))
    ]

-- Whom the snapshot lists, when the master has been there each time.
pub opened_lists :
    (peer message_id : ℕ) (message : Bytes) (write_concern : ℕ) (snapshot : Option (List ℕ))
    → ((ids : List ℕ) → snapshot ≡ some ids → contains ids peer ≡ true)
    → (opened message_id message write_concern snapshot).lost ≡ false
    → contains (opened message_id message write_concern snapshot).request.secondaries_snapshot peer
      ≡ true
opened_lists peer message_id message write_concern none listed kept = cc
opened_lists peer message_id message write_concern (some ids) listed kept =
    rw (start_snapshot ids (create message_id message write_concern)) (listed ids refl)

pub answered_lists :
    (peer id : ℕ) (response : Option AddMessageStatus) (snapshot : Option (List ℕ)) (s : Session)
    → ((ids : List ℕ) → snapshot ≡ some ids → contains ids peer ≡ true)
    → (s.lost ≡ false → contains s.request.secondaries_snapshot peer ≡ true)
    → (answered id response snapshot s).lost ≡ false
    → contains (answered id response snapshot s).request.secondaries_snapshot peer ≡ true
answered_lists peer id response none s listed before kept = absurd (ground (arith, kept))
answered_lists peer id response (some ids) s listed before kept =
    elim (on_send_done_snapshot id response ids s.request) [
      | inl new ↦ rw new (listed ids refl)
      | inr old ↦ rw old (before (ground (arith, kept)))
    ]

pub woken_lists :
    (peer : ℕ) (snapshot : Option (List ℕ)) (s : Session)
    → ((ids : List ℕ) → snapshot ≡ some ids → contains ids peer ≡ true)
    → (woken snapshot s).lost ≡ false
    → contains (woken snapshot s).request.secondaries_snapshot peer ≡ true
woken_lists peer none s listed kept = absurd (ground (arith, kept))
woken_lists peer (some ids) s listed kept = rw (start_snapshot ids s.request) (listed ids refl)
