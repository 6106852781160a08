-- ===== src/System/Joining/Sending.antt =====
-- What a request knows of a secondary that joins, and what each event keeps.
use distributed_systems_hw.Base.{
  is_some, ℕ, ◌<◌, ◌≡◌, ◌≢◌, refl, sym, ap, ◌∙◌, inl, inr, ◌⊎◌, Bool, true, false, Option, none,
  some, List, arith, ◌==◌, Bytes, Bool-cases,
}
use distributed_systems_hw.Base.Maps.{Map, find, find-assign}
use distributed_systems_hw.Proto.Codes.{AddMessageStatus, ok, not_allowed}
use distributed_systems_hw.Master.AddMessageRequest.{
  int_max, AddMessageRequest, not_added, contains, create, status_after,
}
use distributed_systems_hw.Master.AddMessageRequest.Message.{
  start-SameMessage, on_send_done-SameMessage,
}
use distributed_systems_hw.Master.AddMessageRequest.Session as Requests
use distributed_systems_hw.Master.AddMessageRequest.Session.{
  Session, Fits, IsNarrow, opened, answered, woken, note_ack,
}
use distributed_systems_hw.Master.AddMessageRequest.Session.Snapshots.{
  start_statuses, on_send_done_statuses, opened_lists, answered_lists, woken_lists,
}
use distributed_systems_hw.System.Joining.{Connection, away, there, gone, is_there, Reply, Lists}

module _ (id peer : ℕ) where
  -- The request of the message, which is stored. The secondary has refused nothing, and where it is
  -- known to have stored the message, it has confirmed it.
  pub record Requested (stored : Map Bytes) (confirmed : Bool) (s : Session) : Type 0 where
    pub reach : Requests.Reach s
    pub narrow : IsNarrow reach
    pub same_id : s.request.message_id ≡ id
    pub placed : find id stored ≡ some s.request.message
    pub unrefused : find peer s.request.statuses ≢ some not_added
    pub acked : contains s.acked peer ≡ true → confirmed ≡ true

  -- The session lists the secondary, if it was never without a master.
  abbrev pub Listed : Session → Type 0
  Listed s = s.lost ≡ false → contains s.request.secondaries_snapshot peer ≡ true

  -- A secondary whose answer was made before the message was stored is listed.
  pub record Sends (stored : Map Bytes) (request : Option Session) (connection : Connection)
      (reply taken : Option Reply) (confirmed : Bool) : Type 0 where
    pub requested : (s : Session) → request ≡ some s → Requested stored confirmed s
    pub unsent : connection ≡ away → (reply ≡ none) × (taken ≡ none)
    pub early :
        (r : Reply)
        → (reply ≡ some r) ⊎ (taken ≡ some r)
        → r.with_message ≡ false
        → (s : Session) → request ≡ some s
        → connection ≡ there
        → Listed s

  shown_there :
      (connection : Connection) (snapshot : Option (List ℕ))
      → Lists peer connection snapshot
      → connection ≡ there
      → (ids : List ℕ) → snapshot ≡ some ids
      → contains ids peer ≡ true
  shown_there connection none l here ids e = cc
  shown_there connection (some xs) l here ids e =
      let same : xs ≡ ids = ground (arith, e) in
      ap (λ (ys : List ℕ). contains ys peer) (sym same) ∙ l ∙ ap is_there here

  module _ {stored : Map Bytes} {request : Option Session} {connection : Connection}
      {reply taken : Option Reply} {confirmed : Bool}
      (k : Sends stored request connection reply taken confirmed) where
    -- More is stored.
    pub wrote-Sends :
        (more : Map Bytes)
        → ((i : ℕ) (x : Bytes) → find i stored ≡ some x → find i more ≡ some x)
        → Sends more request connection reply taken confirmed
    wrote-Sends more kept = record {
      requested = λ s e.
          let q = k.requested s e in
          record {
            reach = q.reach;
            narrow = q.narrow;
            same_id = q.same_id;
            placed = kept id s.request.message q.placed;
            unrefused = q.unrefused;
            acked = q.acked;
          };
      unsent = k.unsent;
      early = k.early;
    }

    -- A session in place of the one before.
    set-Sends :
        (s : Session)
        → Requested stored confirmed s
        → (connection ≡ there
            → (r : Reply) → (reply ≡ some r) ⊎ (taken ≡ some r)
            → r.with_message ≡ false
            → Listed s)
        → Sends stored (some s) connection reply taken confirmed
    set-Sends s q listed = record {
      requested = λ t e. let same : s ≡ t = ground (arith, e) in rw (← same) q;
      unsent = k.unsent;
      early = λ r e f t g h. let same : s ≡ t = ground (arith, g) in rw (← same) (listed h r e f);
    }

    pub posted-Sends :
        (message : Bytes) (write_concern : ℕ) (snapshot : Option (List ℕ))
        → find id stored ≡ some message
        → Fits snapshot
        → Lists peer connection snapshot
        → Sends stored
            (some (opened id message write_concern snapshot))
            connection
            reply
            taken
            confirmed
    unfolding find
    posted-Sends message write_concern snapshot e b l =
        let r : AddMessageRequest = create id message write_concern in
        let same = start-SameMessage snapshot r in
        set-Sends (opened id message write_concern snapshot)
          (record {
            reach = Requests.run id message write_concern snapshot b.0;
            narrow = b.1;
            same_id = same.id;
            placed = e ∙ ap (λ (m : Bytes). some m) (sym (same.message));
            unrefused = λ f. cc (start_statuses snapshot r peer not_added f);
            acked = λ f. cc;
          })
          (λ h q f g.
            opened_lists peer id message write_concern snapshot
              (shown_there connection snapshot l h))

    status_after-refused :
        (response : Option AddMessageStatus)
        → status_after response ≡ not_added
        → response ≡ some not_allowed
    status_after-refused none e = cc
    status_after-refused (some ok) e = cc
    status_after-refused (some not_allowed) e = refl

    note_ack-confirmed :
        (from : ℕ) (response : Option AddMessageStatus) (acked : List ℕ)
        → (contains acked peer ≡ true → confirmed ≡ true)
        → (from ≡ peer → response ≡ some ok → confirmed ≡ true)
        → contains (note_ack from response acked) peer ≡ true
        → confirmed ≡ true
    note_ack-confirmed from none acked before backed e = before e
    note_ack-confirmed from (some not_allowed) acked before backed e = before e
    note_ack-confirmed from (some ok) acked before backed e = elim (Bool-cases (from == peer)) [
      | inl same ↦ backed (ground (arith, same)) refl
      | inr other ↦ before (ground (arith, other, e))
    ]

    pub answer-Sends :
        (s : Session) (from : ℕ) (response : Option AddMessageStatus) (snapshot : Option (List ℕ))
        → request ≡ some s
        → (contains s.outstanding from ≡ true) × (from < int_max)
        → (from ≡ peer → response ≢ some not_allowed)
        → (from ≡ peer → response ≡ some ok → confirmed ≡ true)
        → Fits snapshot
        → Lists peer connection snapshot
        → Sends stored (some (answered from response snapshot s)) connection reply taken confirmed
    answer-Sends s from response snapshot e out fair backed b l =
        let q = k.requested s e in
        let same = on_send_done-SameMessage from response snapshot s.request in
        set-Sends (answered from response snapshot s)
          (record {
            reach = Requests.answer from response snapshot q.reach out.0 b.0;
            narrow = (out.1, b.1, q.narrow);
            same_id = same.id ∙ q.same_id;
            placed = q.placed ∙ ap (λ (m : Bytes). some m) (sym (same.message));
            unrefused = λ f.
                let g = on_send_done_statuses from response snapshot s.request peer not_added f in
                elim (Bool-cases (from == peer)) [
                  | inl here ↦ fair (ground (arith, here)) (
                      status_after-refused response (
                        ground (
                          arith,
                          g,
                          here,
                          find-assign peer from (status_after response) s.request.statuses,
                        )))
                  | inr other ↦ q.unrefused (
                      ground (
                        arith,
                        g,
                        other,
                        find-assign peer from (status_after response) s.request.statuses,
                      ))
                ];
            acked = note_ack-confirmed from response s.acked q.acked backed;
          })
          (λ h r f g.
            answered_lists peer from response snapshot s (shown_there connection snapshot l h)
              (k.early r f g s e h))

    pub wake-Sends :
        (s : Session) (snapshot : Option (List ℕ))
        → request ≡ some s
        → 0 < s.waiting
        → Fits snapshot
        → Lists peer connection snapshot
        → Sends stored (some (woken snapshot s)) connection reply taken confirmed
    wake-Sends s snapshot e timer b l =
        let q = k.requested s e in
        let same = start-SameMessage snapshot s.request in
        set-Sends (woken snapshot s)
          (record {
            reach = Requests.wake snapshot q.reach timer b.0;
            narrow = (b.1, q.narrow);
            same_id = same.id ∙ q.same_id;
            placed = q.placed ∙ ap (λ (m : Bytes). some m) (sym (same.message));
            unrefused = λ f. q.unrefused (start_statuses snapshot s.request peer not_added f);
            acked = q.acked;
          })
          (λ h r f g. woken_lists peer snapshot s (shown_there connection snapshot l h))

    pub joined-Sends : connection ≡ away → Sends stored request there reply taken confirmed
    joined-Sends e = record {
      requested = k.requested;
      unsent = λ f. cc;
      early = λ r f g s h i. ground (arith, f, k.unsent e);
    }

    pub left-Sends : Sends stored request gone reply taken confirmed
    left-Sends = record { requested = k.requested; unsent = λ f. cc; early = λ r f g s h i. cc }

    pub asked-Sends : Sends stored request connection none taken confirmed
    asked-Sends = record {
      requested = k.requested;
      unsent = λ f. (refl, (k.unsent f).1);
      early = λ r f. k.early r (ground (arith, f));
    }

    -- An answer without the message is made before there is a request for it.
    pub replied-Sends :
        (r : Reply)
        → connection ≢ away
        → r.with_message ≡ is_some (find id stored)
        → Sends stored request connection (some r) taken confirmed
    replied-Sends r here e = record {
      requested = k.requested;
      unsent = λ f. absurd (here f);
      early = λ q f g s h i. elim f [
        | inl this ↦ absurd (
            ground
              (arith, this, e, g, h, (k.requested s h).placed, ap (λ (x : Option Reply). x) this))
        | inr before ↦ k.early q (inr before) g s h i
      ];
    }

    pub took-Sends :
        (r : Reply) → reply ≡ some r → Sends stored request connection none (some r) confirmed
    took-Sends r e = record {
      requested = k.requested;
      unsent = λ f. ground (arith, e, k.unsent f);
      early = λ q f. k.early q (ground (arith, e, f));
    }

    pub confirmed-Sends : Sends stored request connection reply taken true
    confirmed-Sends = record {
      requested = λ s e.
          let q = k.requested s e in
          record {
            reach = q.reach;
            narrow = q.narrow;
            same_id = q.same_id;
            placed = q.placed;
            unrefused = q.unrefused;
            acked = λ f. refl;
          };
      unsent = k.unsent;
      early = k.early;
    }
