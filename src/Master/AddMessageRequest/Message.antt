-- ===== src/Master/AddMessageRequest/Message.antt =====
-- app/master-node/addmessagerequest: a request keeps its message and its write concern.
use distributed_systems_hw.Base.{
  ℕ, ◌≡◌, refl, ap, ◌∙◌, Option, none, some, List, arith, Bool-cases, inl, inr, leb, ◌==◌, ◌+◌, ◌-◌,
  ◌%◌, u64_mod,
}
use distributed_systems_hw.Proto.Codes.{AddMessageStatus}
use distributed_systems_hw.Master.AddMessageRequest.{
  AddMessageRequest, request_mark_success, request_mark_failure, update_data, wait_if_none,
  send_request_to_secondaries, go_on, proceed, satisfied_write_concern, start, on_response_received,
  on_send_done,
}
use distributed_systems_hw.Master.AddMessageRequest.Sending.{send_loop_frame}

-- Two requests for the same message, with the same write concern.
pub record SameMessage (r q : AddMessageRequest) : Type 0 where
  pub concern : q.write_concern ≡ r.write_concern
  pub id : q.message_id ≡ r.message_id
  pub message : q.message ≡ r.message

send-SameMessage : (r : AddMessageRequest) → SameMessage r (send_request_to_secondaries r).0
unfolding send_request_to_secondaries wait_if_none
send-SameMessage r = record {
  concern = ground (
    arith,
    ap (λ (q : AddMessageRequest). q.write_concern) (send_loop_frame r.secondaries_snapshot r),
  );
  id = ground (
    arith,
    ap (λ (q : AddMessageRequest). q.message_id) (send_loop_frame r.secondaries_snapshot r),
  );
  message =
      ground (
        arith,
        ap (λ (q : AddMessageRequest). q.message) (send_loop_frame r.secondaries_snapshot r),
      );
}

trans-SameMessage :
    {r q : AddMessageRequest} (p : AddMessageRequest)
    → SameMessage r q
    → SameMessage q p
    → SameMessage r p
trans-SameMessage p a b = record {
  concern = b.concern ∙ a.concern;
  id = b.id ∙ a.id;
  message = b.message ∙ a.message;
}

marked-SameMessage : (r : AddMessageRequest) → SameMessage r (request_mark_success r)
unfolding request_mark_success
marked-SameMessage r = record { concern = ground arith; id = ground arith; message = ground arith }

go_on-SameMessage : (r : AddMessageRequest) → SameMessage r (go_on r).0
unfolding go_on
go_on-SameMessage r =
    let s = send-SameMessage r in
    record {
      concern = ground (arith, s.concern);
      id = ground (arith, s.id);
      message = ground (arith, s.message);
    }

proceed-SameMessage : (r : AddMessageRequest) → SameMessage r (proceed r).0
unfolding proceed
proceed-SameMessage r =
    elim (Bool-cases (leb r.write_concern (satisfied_write_concern r.statuses))) [
      | inl met ↦
          rw met (
            trans-SameMessage _ (marked-SameMessage r) (go_on-SameMessage (request_mark_success r)))
      | inr unmet ↦ rw unmet (send-SameMessage r)
    ]

pub start-SameMessage :
    (snapshot : Option (List ℕ)) (r : AddMessageRequest) → SameMessage r (start snapshot r).0
unfolding start update_data request_mark_failure
start-SameMessage none r = record {
  concern = ground arith;
  id = ground arith;
  message = ground arith;
}
start-SameMessage (some snapshot) r =
    let q = (update_data (some snapshot) r).1 in
    trans-SameMessage _ (record { concern = refl; id = refl; message = refl })
      (proceed-SameMessage q)

received-SameMessage :
    (id : ℕ) (response : Option AddMessageStatus) (r : AddMessageRequest)
    → SameMessage r (on_response_received id response r)
unfolding on_response_received request_mark_success
received-SameMessage id response r = record {
  concern = ground arith;
  id = ground arith;
  message = ground arith;
}

pub on_send_done-SameMessage :
    (id : ℕ) (response : Option AddMessageStatus) (snapshot : Option (List ℕ))
    (r : AddMessageRequest)
    → SameMessage r (on_send_done id response snapshot r).0
unfolding on_send_done
on_send_done-SameMessage id response snapshot r =
    let received : AddMessageRequest = on_response_received id response r in
    let counted : AddMessageRequest = record received {
      pending_writes = (received.pending_writes + u64_mod - 1) % u64_mod;
    } in
    let a = received-SameMessage id response r in
    let b : SameMessage r counted = record {
      concern = a.concern;
      id = a.id;
      message = a.message;
    } in
    elim (Bool-cases (counted.pending_writes == 0)) [
      | inl last ↦ rw last (trans-SameMessage _ b (start-SameMessage snapshot counted))
      | inr more ↦ rw more b
    ]
