-- ===== src/Master/AddMessageRequest/Sending.antt =====
-- app/master-node/addmessagerequest: what sendRequestToSecondaries() leaves: pendingWrites_ is the
-- number of requests sent, and a timer is started where there is none.
use distributed_systems_hw.Base.{
  ℕ, suc, ◌+◌, ◌%◌, ◌<◌, ◌≤◌, ◌≡◌, refl, sym, ap, ◌∙◌, ◌⊎◌, inl, inr, false, List, [], ◌∷◌, ◌++◌,
  arith, length, u64_mod, ltb, ◌==◌, Bool-cases,
}
use distributed_systems_hw.Base.Maps.{find}
use distributed_systems_hw.Master.AddMessageRequest.{
  AddMessageRequest, Action, send_add_message, start_later, need_to_send, send_loop, wait_if_none,
  send_request_to_secondaries,
}

-- The ids of the secondaries that the actions send to.
abbrev pub sends : List Action → List ℕ
sends [] = []
sends (send_add_message id _ _ ∷ rest) = id ∷ sends rest
sends (start_later _ ∷ rest) = sends rest

-- How many timers the actions start.
abbrev pub timers : List Action → ℕ
timers [] = 0
timers (send_add_message _ _ _ ∷ rest) = timers rest
timers (start_later _ ∷ rest) = suc (timers rest)

pub sends_timer :
    (actions : List Action) (t : ℕ) → sends (actions ++ start_later t ∷ []) ≡ sends actions
sends_timer [] t = refl
sends_timer (send_add_message i m b ∷ rest) t = ap (λ l. i ∷ l) (sends_timer rest t)
sends_timer (start_later u ∷ rest) t = sends_timer rest t

pub timers_timer :
    (actions : List Action) (t : ℕ) → timers (actions ++ start_later t ∷ []) ≡ suc (timers actions)
timers_timer [] t = refl
timers_timer (send_add_message i m b ∷ rest) t = timers_timer rest t
timers_timer (start_later u ∷ rest) t = ap suc (timers_timer rest t)

pub send_loop_frame :
    (ids : List ℕ) (r : AddMessageRequest)
    → (send_loop ids r).0 ≡ record r { pending_writes = (send_loop ids r).0.pending_writes }
unfolding send_loop
send_loop_frame [] r = refl
send_loop_frame (id ∷ ids) r = elim (Bool-cases (need_to_send (find id r.statuses))) [
  | inl send ↦
      rw send (send_loop_frame ids (record r { pending_writes = (r.pending_writes + 1) % u64_mod }))
  | inr skip ↦ rw skip (send_loop_frame ids r)
]

-- One write more is pending for each request sent, and the loop starts no timer.
pub send_loop_counts :
    (ids : List ℕ) (r : AddMessageRequest)
    → r.pending_writes + length ids < u64_mod
    → ((send_loop ids r).0.pending_writes ≡ r.pending_writes + length (sends (send_loop ids r).1))
      × (length (sends (send_loop ids r).1) ≤ length ids)
      × (timers (send_loop ids r).1 ≡ 0)
unfolding send_loop
send_loop_counts [] r h = (omega arith, omega arith, refl)
send_loop_counts (id ∷ ids) r h = elim (Bool-cases (need_to_send (find id r.statuses))) [
  | inl send ↦
      let next : ℕ = (r.pending_writes + 1) % u64_mod in
      let ih = send_loop_counts ids (record r { pending_writes = next }) (omega arith) in
      rw send (omega arith, omega arith, ih.2)
  | inr skip ↦ let ih = send_loop_counts ids r (omega arith) in rw skip (ih.0, omega arith, ih.2)
]

-- With no write pending: as many pending writes as requests sent, and a timer where there are none.
abbrev pub Counted : AddMessageRequest × List Action → Type 0
Counted (r, actions) =
    (r.pending_writes ≡ length (sends actions))
    × (r.pending_writes < u64_mod)
    × (((timers actions ≡ 0) × (0 < r.pending_writes))
        ⊎ ((timers actions ≡ 1) × (r.pending_writes ≡ 0)))

pub wait_if_none-Counted :
    (out : AddMessageRequest × List Action)
    → out.0.pending_writes ≡ length (sends out.1)
    → out.0.pending_writes < u64_mod
    → timers out.1 ≡ 0
    → Counted (wait_if_none out)
unfolding wait_if_none
wait_if_none-Counted (r, actions) p b t = elim (Bool-cases (r.pending_writes == 0)) [
  | inl zero ↦ rw zero (
    p ∙ ap length (sym (sends_timer actions 3000)),
    b,
    inr (timers_timer actions 3000 ∙ ap suc t, ground (arith, zero)),
  )
  | inr more ↦ rw more (p, b, inl (t, ground (arith, more)))
]

pub send_request-Counted :
    (r : AddMessageRequest)
    → r.pending_writes ≡ 0
    → length r.secondaries_snapshot < u64_mod
    → Counted (send_request_to_secondaries r)
unfolding send_request_to_secondaries
send_request-Counted r none_pending h =
    let c = send_loop_counts r.secondaries_snapshot r (omega arith) in
    let idle : ltb 0 r.pending_writes ≡ false = ground (arith, none_pending) in
    rw idle
      (wait_if_none-Counted (send_loop r.secondaries_snapshot r) (omega arith) (omega arith) c.2)

wait_if_none-keeps : (out : AddMessageRequest × List Action) → (wait_if_none out).0 ≡ out.0
unfolding wait_if_none
wait_if_none-keeps (r, actions) = ground arith

-- Nothing but pendingWrites_ changes.
pub send_request_frame :
    (r : AddMessageRequest)
    → (n : ℕ) × ((send_request_to_secondaries r).0 ≡ record r { pending_writes = n })
unfolding send_request_to_secondaries
send_request_frame r = elim (Bool-cases (ltb 0 r.pending_writes)) [
  | inl pending ↦ (r.pending_writes, rw pending refl)
  | inr idle ↦ (
    (send_loop r.secondaries_snapshot r).0.pending_writes,
    rw idle (
        wait_if_none-keeps (send_loop r.secondaries_snapshot r)
        ∙ send_loop_frame r.secondaries_snapshot r),
  )
]
