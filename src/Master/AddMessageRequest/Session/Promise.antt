-- ===== src/Master/AddMessageRequest/Session/Promise.antt =====
-- app/master-node/addmessagerequest: what the promise was set to, and by what right.
use distributed_systems_hw.Base.{
  ℕ, ◌≤◌, ◌<◌, ◌≢◌, ◌≡◌, refl, ◌||◌, ap, inl, inr, Bool, true, false, List, [], ◌∷◌, Option, none,
  some, leb, arith, length, ◌==◌, Bool-cases, ◌+◌, ◌-◌, ◌%◌, u64_mod,
}
use distributed_systems_hw.Base.Maps.{Map, find, assign, find-assign, UniqueKeys, assign-UniqueKeys}
use distributed_systems_hw.Proto.Codes.{AddMessageStatus, ok, not_allowed}
use distributed_systems_hw.Master.AddMessageRequest.{
  AddMessageRequest, Status, added, not_added, error, int_max, contains, Outcome, set_value,
  set_exception, satisfied_write_concern, all_secondaries_successfully_answered,
  request_mark_success, request_mark_failure, update_data, send_request_to_secondaries, go_on,
  proceed, start, status_after, on_response_received, on_send_done, create, retain,
}
use distributed_systems_hw.Master.AddMessageRequest.Counts.{
  added_ids, Distinct, Among, Backed, length-added_ids, added_ids-Distinct, added_ids-Among,
  added_ids_absent, more-Among, find-retain, retain-UniqueKeys,
}
use distributed_systems_hw.Master.AddMessageRequest.Sending.{send_request_frame}
use distributed_systems_hw.Master.AddMessageRequest.Session.Answers.{
  Among-le, Among-all, Distinct-le,
}
use distributed_systems_hw.Master.AddMessageRequest.Session.{
  Session, Reach, run, answer, wake, is_gone, note_ack, IsNarrow,
}

-- The promise is not set, or set once: to a value when as many different secondaries as the write
-- concern asks for have answered OK, or to an exception when the master node is gone.
pub data IsKept (write_concern : ℕ) (acked : List ℕ) (lost : Bool) (filled : Bool)
    (promise : List Outcome) : Type 0 where
  pending : filled ≡ false → promise ≡ [] → IsKept write_concern acked lost filled promise
  succeeded :
      filled ≡ true
      → promise ≡ set_value ∷ []
      → (ids : List ℕ) → Distinct ids
      → Among acked ids
      → write_concern ≤ length ids
      → IsKept write_concern acked lost filled promise
  failed :
      filled ≡ true
      → promise ≡ set_exception ∷ []
      → lost ≡ true
      → IsKept write_concern acked lost filled promise

later-IsKept :
    (c : ℕ) (id : ℕ) (response : Option AddMessageStatus) (acked : List ℕ) (lost gone filled : Bool)
    (promise : List Outcome)
    → IsKept c acked lost filled promise
    → IsKept c (note_ack id response acked) (lost || gone) filled promise
later-IsKept c id response acked lost gone filled promise (pending f p) = pending f p
later-IsKept c id none acked lost gone filled promise (succeeded f p ids d a h) =
    succeeded f p ids d a h
later-IsKept c id (some ok) acked lost gone filled promise (succeeded f p ids d a h) =
    succeeded f p ids d (more-Among id acked ids a) h
later-IsKept c id (some not_allowed) acked lost gone filled promise (succeeded f p ids d a h) =
    succeeded f p ids d a h
later-IsKept c id response acked lost gone filled promise (failed f p l) = failed f p (rw l refl)

-- The ids that have a status.
abbrev pub NarrowKeys : Map Status → Type 0
NarrowKeys m = (j : ℕ) → find j m ≢ none → j < int_max

-- They are too few for the counter to overflow.
added_ids-le : (m : Map Status) → UniqueKeys m → NarrowKeys m → length (added_ids m) ≤ int_max
added_ids-le m u n =
    Distinct-le int_max (added_ids m) (added_ids-Distinct m u)
      (λ j h. n j (λ f. ground (arith, h, added_ids_absent j m f)))

-- What holds of a request between the calls of its methods.
abbrev pub Safe : List ℕ → Bool → AddMessageRequest → Type 0
Safe acked lost r =
    UniqueKeys r.statuses
    × Backed acked r.statuses
    × IsKept r.write_concern acked lost r.promise_filled r.promise
    × NarrowKeys r.statuses

-- The promise is set where the write concern is met.
abbrev pub Prompt : AddMessageRequest → Type 0
Prompt r = r.write_concern ≤ satisfied_write_concern r.statuses → r.promise_filled ≡ true

module _ (acked : List ℕ) (lost : Bool) where
  mark_success-Safe :
      (r : AddMessageRequest)
      → r.write_concern ≤ satisfied_write_concern r.statuses
      → Safe acked lost r
      → Safe acked lost (request_mark_success r) × ((request_mark_success r).promise_filled ≡ true)
  unfolding request_mark_success
  mark_success-Safe r met (u, b, k, n) = elim k [
    | pending f p ↦ rw f (
      (
        u,
        b,
        succeeded refl (ap (λ l. set_value ∷ l) p) (added_ids r.statuses)
            (added_ids-Distinct r.statuses u) (added_ids-Among acked r.statuses u b)
            (ground (arith, met, length-added_ids r.statuses (added_ids-le r.statuses u n))),
        n,
      ),
      refl,
    )
    | succeeded f p ids d a h ↦ rw f ((u, b, succeeded refl p ids d a h, n), refl)
    | failed f p l ↦ rw f ((u, b, failed refl p l, n), refl)
  ]

  mark_failure-Safe :
      (r : AddMessageRequest)
      → lost ≡ true
      → Safe acked lost r
      → Safe acked lost (request_mark_failure r) × ((request_mark_failure r).promise_filled ≡ true)
  unfolding request_mark_failure
  mark_failure-Safe r gone (u, b, k, n) = elim k [
    | pending f p ↦ rw f ((u, b, failed refl (ap (λ l. set_exception ∷ l) p) gone, n), refl)
    | succeeded f p ids d a h ↦ rw f ((u, b, succeeded refl p ids d a h, n), refl)
    | failed f p l ↦ rw f ((u, b, failed refl p l, n), refl)
  ]

  send_request-Safe :
      (r : AddMessageRequest)
      → Safe acked lost r
      → Safe acked lost (send_request_to_secondaries r).0
  send_request-Safe r safe = let f = send_request_frame r in rw (f.1) safe

  send_request-Prompt :
      (r : AddMessageRequest) → Prompt r → Prompt (send_request_to_secondaries r).0
  send_request-Prompt r prompt = let f = send_request_frame r in rw (f.1) prompt

  go_on-Safe :
      (r : AddMessageRequest)
      → Safe acked lost r
      → r.promise_filled ≡ true
      → Safe acked lost (go_on r).0 × Prompt (go_on r).0
  unfolding go_on
  go_on-Safe r safe set = elim (Bool-cases (all_secondaries_successfully_answered r)) [
    | inl all ↦ rw all (safe, λ h. set)
    | inr more ↦ rw more (send_request-Safe r safe, send_request-Prompt r (λ h. set))
  ]

  proceed-Safe :
      (r : AddMessageRequest)
      → Safe acked lost r
      → Safe acked lost (proceed r).0 × Prompt (proceed r).0
  unfolding proceed
  proceed-Safe r safe =
      elim (Bool-cases (leb r.write_concern (satisfied_write_concern r.statuses))) [
        | inl met ↦
            let marked = mark_success-Safe r (ground (arith, met)) safe in
            rw met (go_on-Safe (request_mark_success r) marked.0 marked.1)
        | inr unmet ↦
            rw unmet
              (send_request-Safe r safe, send_request-Prompt r (λ h. ground (arith, unmet, h)))
      ]

  start-Safe :
      (snapshot : Option (List ℕ)) (r : AddMessageRequest)
      → (is_gone snapshot ≡ true → lost ≡ true)
      → Safe acked lost r
      → Safe acked lost (start snapshot r).0 × Prompt (start snapshot r).0
  unfolding start update_data
  start-Safe none r gone safe =
      let marked = mark_failure-Safe r (gone refl) safe in (marked.0, λ h. marked.1)
  start-Safe (some snapshot) r gone (u, b, k, n) =
      proceed-Safe
        (record r { secondaries_snapshot = snapshot; statuses = retain snapshot r.statuses })
        (
          retain-UniqueKeys snapshot r.statuses u,
          (λ i e. ground (arith, b i, find-retain i snapshot r.statuses)),
          k,
          (λ i e. n i (λ f. ground (arith, e, f, find-retain i snapshot r.statuses))),
        )

-- Storing the answer of a secondary.
received-Backed :
    (id : ℕ) (response : Option AddMessageStatus) (acked : List ℕ) (m : Map Status)
    → Backed acked m
    → Backed (note_ack id response acked) (assign id (status_after response) m)
received-Backed id none acked m b k e = ground (arith, b k, find-assign k id (status_after none) m)
received-Backed id (some ok) acked m b k e =
    ground (arith, b k, find-assign k id (status_after (some ok)) m)
received-Backed id (some not_allowed) acked m b k e =
    ground (arith, b k, find-assign k id (status_after (some not_allowed)) m)

received-Safe :
    (id : ℕ) (response : Option AddMessageStatus) (acked : List ℕ) (lost gone : Bool)
    (r : AddMessageRequest)
    → id < int_max
    → Safe acked lost r
    → Safe (note_ack id response acked) (lost || gone) (on_response_received id response r)
      × Prompt (on_response_received id response r)
unfolding on_response_received
received-Safe id response acked lost gone r narrow (u, b, k, n) =
    let r' : AddMessageRequest = record r {
      statuses = assign id (status_after response) r.statuses;
    } in
    let safe : Safe (note_ack id response acked) (lost || gone) r' = (
      assign-UniqueKeys id (status_after response) r.statuses u,
      received-Backed id response acked r.statuses b,
      later-IsKept r.write_concern id response acked lost gone r.promise_filled r.promise k,
      (λ j e. ground (arith, e, narrow, n j, find-assign j id (status_after response) r.statuses)),
    ) in
    elim (Bool-cases (leb r'.write_concern (satisfied_write_concern r'.statuses))) [
      | inl met ↦
          let marked =
            mark_success-Safe (note_ack id response acked) (lost || gone) r' (ground (arith, met))
              safe in
          rw met (marked.0, λ h. marked.1)
      | inr unmet ↦ rw unmet (safe, λ h. ground (arith, unmet, h))
    ]

on_send_done-Safe :
    (id : ℕ) (response : Option AddMessageStatus) (snapshot : Option (List ℕ)) (acked : List ℕ)
    (lost : Bool) (r : AddMessageRequest)
    → id < int_max
    → Safe acked lost r
    → Safe
        (note_ack id response acked)
        (lost || is_gone snapshot)
        (on_send_done id response snapshot r).0
      × Prompt (on_send_done id response snapshot r).0
unfolding on_send_done
on_send_done-Safe id response snapshot acked lost r narrow safe =
    let received : AddMessageRequest = on_response_received id response r in
    let counted : AddMessageRequest = record received {
      pending_writes = (received.pending_writes + u64_mod - 1) % u64_mod;
    } in
    let kept = received-Safe id response acked lost (is_gone snapshot) r narrow safe in
    elim (Bool-cases (counted.pending_writes == 0)) [
      | inl last ↦ rw last (
          start-Safe (note_ack id response acked) (lost || is_gone snapshot) snapshot counted
            (λ g. ground (arith, g)) kept.0)
      | inr more ↦ rw more kept
    ]

pub reached-Safe :
    {s : Session} (reach : Reach s)
    → IsNarrow reach
    → Safe s.acked s.lost s.request × Prompt s.request
unfolding find
reached-Safe (run message_id message write_concern snapshot b) narrow =
    start-Safe [] (is_gone snapshot) snapshot (create message_id message write_concern) (λ g. g)
      (tt, (λ k e. ground arith), pending refl refl, λ j e. absurd (e refl))
reached-Safe (answer {s} id response snapshot before out b) (fits, more, narrow) =
    on_send_done-Safe id response snapshot s.acked s.lost s.request fits
      (reached-Safe before narrow).0
reached-Safe (wake {s} snapshot before out b) (more, narrow) =
    let (u, bk, k, n) = (reached-Safe before narrow).0 in
    start-Safe s.acked (s.lost || is_gone snapshot) snapshot s.request (λ g. ground (arith, g))
      (
        u,
        bk,
        later-IsKept s.request.write_concern 0 none s.acked s.lost (is_gone snapshot)
            s.request.promise_filled s.request.promise k,
        n,
      )

-- Of a request that has run, with any answers to its sends and any timers, when each snapshot lists
-- fewer than 2^64 secondaries and every id of a secondary is below 2^31 - 1: its promise is either
-- not set, or set once to a value, when at least as many different secondaries as the write concern
-- of the request have answered OK, or set once to an exception, when the master node was found gone.
pub promise-IsKept :
    {s : Session} (reach : Reach s)
    → IsNarrow reach
    → IsKept s.request.write_concern s.acked s.lost s.request.promise_filled s.request.promise
promise-IsKept reach narrow = (reached-Safe reach narrow).0.2

-- The secondaries of a list have the status ADDED.
abbrev pub AllAdded : List ℕ → Map Status → Type 0
AllAdded ids m = (j : ℕ) → contains ids j ≡ true → find j m ≡ some added

added_ids_found : (j : ℕ) (m : Map Status) → find j m ≡ some added → contains (added_ids m) j ≡ true
unfolding find
added_ids_found j [] e = cc
added_ids_found j ((id, added) ∷ rest) e = ground (arith, e, added_ids_found j rest)
added_ids_found j ((id, not_added) ∷ rest) e = ground (arith, e, added_ids_found j rest)
added_ids_found j ((id, error) ∷ rest) e = ground (arith, e, added_ids_found j rest)

-- Of a request that has run, when each snapshot lists fewer than 2^64 secondaries and every id of a
-- secondary is below 2^31 - 1: when there are at least as many different secondaries as its write
-- concern whose stored status is ADDED, then the promise has been set.
pub prompt_promise :
    {s : Session} (reach : Reach s)
    → IsNarrow reach
    → (ids : List ℕ) → Distinct ids
    → AllAdded ids s.request.statuses
    → s.request.write_concern ≤ length ids
    → s.request.promise_filled ≡ true
prompt_promise {s} reach narrow ids d all enough =
    let (safe, prompt) = reached-Safe reach narrow in
    let m = s.request.statuses in
    let few = added_ids-le m safe.0 safe.3 in
    let among = Among-all (added_ids m) ids (λ j h. added_ids_found j m (all j h)) in
    prompt (omega (arith, enough, Among-le (added_ids m) ids d among, length-added_ids m few))
