-- ===== src/Proto/OutcomingRequests/Settling.antt =====
-- libs/proto/src/outcomingrequestsmanager: every request that is sent is settled once, or pending.
use mathlib.Core.Path.{subst}
use distributed_systems_hw.Base.{
  ℕ, ◌+◌, ◌≡◌, refl, Bool, true, false, Option, none, some, List, [], ◌∷◌, ◌++◌, arith,
  Option-cases, inl, inr, All, All-append,
}
use distributed_systems_hw.Base.Maps.{find, erase, UniqueKeys, insert-UniqueKeys, erase-UniqueKeys}
use distributed_systems_hw.Proto.Codes.{EventType, request, response}
use distributed_systems_hw.Proto.Platform.{Platform, Exec, returned, thrown, ◌>>=◌}
use distributed_systems_hw.Proto.Deserializer.{Buffer}
use distributed_systems_hw.Proto.Serializer.{Sequence}
use distributed_systems_hw.Proto.Frame.{parse_event_type, parse_response_frame}
use distributed_systems_hw.Proto.Request.{Request}
use distributed_systems_hw.Proto.OutcomingContext.{
  InvalidationReason, timeout, peer_disconnected, Context, Outcome, exception, fill, invalidate,
  IsOpen, invalidate_open, Fills, response-Fills,
  on_response_received as context_on_response_received,
}
use distributed_systems_hw.Proto.OutcomingRequests.{
  Manager, send_request_impl, on_response_received, on_event, on_incoming_frame,
  invalidate_pending_request, invalidate_all, timer_fired, delay_over,
}
use distributed_systems_hw.Proto.OutcomingRequests.Runs.{
  Event, send, frame, timer, delay, disconnect, Run, idle, record_settled, react, run_all, occurs,
  pends, sent_contexts, IsSettled, AllOpen, IsWell, total, fill-IsSettled, find-IsOpen,
  erase-AllOpen, insert-AllOpen, pends-insert, pends-erase, invalidate_loop-settles,
}

-- What a call leaves of a manager and of the contexts that it was given.
abbrev Handled : Manager → List Context → Manager × List Context → Type 0
Handled m given out =
    UniqueKeys out.0.pending_requests
    × AllOpen out.0.pending_requests
    × All IsSettled out.1
    × ((h : ℕ)
        → occurs h out.1 + pends h out.0.pending_requests
          ≡ pends h m.pending_requests + occurs h given)

abbrev Returns : (Manager × List Context → Type 0) → Exec (Manager × List Context) → Type 0
Returns P thrown = Unit
Returns P (returned out) = P out

nothing-Handled :
    (m : Manager)
    → UniqueKeys m.pending_requests
    → AllOpen m.pending_requests
    → Handled m [] (m, [])
nothing-Handled m u a = (u, a, tt, λ h. omega arith)

-- Taking out a context that was filled.
dropped-Handled :
    (id : ℕ) (m : Manager) (c c' : Context) (o : Outcome)
    → UniqueKeys m.pending_requests
    → AllOpen m.pending_requests
    → find id m.pending_requests ≡ some c
    → c' ≡ fill o c
    → Handled m [] (record m { pending_requests = erase id m.pending_requests }, c' ∷ [])
dropped-Handled id m c c' o u a found e =
    let s = fill-IsSettled c c' o (find-IsOpen id m.pending_requests found a) e in
    (
      erase-UniqueKeys id m.pending_requests u,
      erase-AllOpen id m.pending_requests a,
      (s.0, tt),
      λ h. ground (arith, pends-erase h id m.pending_requests {c = c} u found, s.1),
    )

invalidate-Handled :
    (id : ℕ) (reason : InvalidationReason) (m : Manager)
    → UniqueKeys m.pending_requests
    → AllOpen m.pending_requests
    → Handled m [] (invalidate_pending_request id reason m)
unfolding invalidate_pending_request
invalidate-Handled id reason m u a = elim (Option-cases (find id m.pending_requests)) [
  | inl e ↦ rw (e, invalidate_pending_request) (nothing-Handled m u a)
  | inr (c, e) ↦
      rw (e, invalidate_pending_request)
        (dropped-Handled id m c (invalidate reason c) (exception reason) u a e
          (invalidate_open reason c (find-IsOpen id m.pending_requests e a)))
]

answered-Handled :
    (id : ℕ) (m : Manager) (c : Context) (answer : Exec Context)
    → UniqueKeys m.pending_requests
    → AllOpen m.pending_requests
    → find id m.pending_requests ≡ some c
    → Fills answer c
    → Returns (Handled m []) (
        answer >>= (λ settled.
          returned (record m { pending_requests = erase id m.pending_requests }, settled ∷ [])))
answered-Handled id m c thrown u a e f = tt
answered-Handled id m c (returned c') u a e f = dropped-Handled id m c c' (f.0) u a e (f.1)

on_response-Handled :
    ⦃p : Platform⦄
    → (id : ℕ) (payload : Buffer) (m : Manager) → UniqueKeys m.pending_requests
    → AllOpen m.pending_requests
    → Returns (Handled m []) (on_response_received id payload m)
unfolding on_response_received
on_response-Handled id payload m u a = elim (Option-cases (find id m.pending_requests)) [
  | inl e ↦ rw (e, on_response_received) (nothing-Handled m u a)
  | inr (c, e) ↦
      rw (e, on_response_received)
        (answered-Handled id m c (context_on_response_received payload c) u a e
          (response-Fills payload c (find-IsOpen id m.pending_requests e a)))
]

on_event-Handled :
    ⦃p : Platform⦄
    → (event : Option EventType) (buffer : Buffer) (m : Manager) → UniqueKeys m.pending_requests
    → AllOpen m.pending_requests
    → Returns (Handled m []) (on_event event buffer m)
unfolding on_event
on_event-Handled none buffer m u a = nothing-Handled m u a
on_event-Handled (some request) buffer m u a = nothing-Handled m u a
on_event-Handled (some response) buffer m u a = elim (Option-cases (parse_response_frame buffer)) [
  | inl e ↦ rw (e, on_event) (nothing-Handled m u a)
  | inr (f, e) ↦ rw (e, on_event) (on_response-Handled f.request_id f.payload m u a)
]

frame-Handled :
    ⦃p : Platform⦄
    → (buffer : Buffer) (m : Manager) → UniqueKeys m.pending_requests
    → AllOpen m.pending_requests
    → Returns (Handled m []) (on_incoming_frame buffer m)
unfolding on_incoming_frame
frame-Handled buffer m u a = on_event-Handled (parse_event_type buffer) buffer m u a

send-Handled :
    (r : Request) (c : Context) (m : Manager)
    → UniqueKeys m.pending_requests
    → AllOpen m.pending_requests
    → IsOpen c
    → Handled m (c ∷ []) ((send_request_impl r c m).manager, (send_request_impl r c m).settled)
unfolding send_request_impl
send-Handled r c m u a unset = elim (Option-cases (find m.request_id_counter m.pending_requests)) [
  | inl e ↦
      rw (e, send_request_impl)
        (
          insert-UniqueKeys m.request_id_counter c m.pending_requests u,
          insert-AllOpen m.request_id_counter c m.pending_requests unset a,
          tt,
          λ h. ground (arith, pends-insert h m.request_id_counter c m.pending_requests e),
        )
  | inr (other, e) ↦
      let s =
        fill-IsSettled c (invalidate timeout c) (exception timeout) unset
          (invalidate_open timeout c unset) in
      rw (e, send_request_impl) (u, a, (s.0, tt), λ h. ground (arith, s.1))
]

timer-Handled :
    (cancelled : Bool) (id : ℕ) (m : Manager)
    → UniqueKeys m.pending_requests
    → AllOpen m.pending_requests
    → Handled m [] (timer_fired cancelled id m)
unfolding timer_fired
timer-Handled true id m u a = nothing-Handled m u a
timer-Handled false id m u a = invalidate-Handled id timeout m u a

delay-Handled :
    (was_invalidated : Bool) (id : ℕ) (bytes : Sequence) (m : Manager)
    → UniqueKeys m.pending_requests
    → AllOpen m.pending_requests
    → Handled m [] (delay_over was_invalidated id bytes m).0
unfolding delay_over
delay-Handled true id bytes m u a = invalidate-Handled id peer_disconnected m u a
delay-Handled false id bytes m u a = nothing-Handled m u a

disconnect-Handled :
    (m : Manager)
    → UniqueKeys m.pending_requests
    → AllOpen m.pending_requests
    → Handled m [] (invalidate_all peer_disconnected m)
unfolding invalidate_all
disconnect-Handled m u a =
    let s = invalidate_loop-settles peer_disconnected m.pending_requests a in
    (tt, tt, s.0, λ h. omega (arith, s.1 h))

-- A run from another one, with the contexts that were given to it meanwhile.
abbrev Continues : Run → List Context → Exec Run → Type 0
Continues run given thrown = Unit
Continues run given (returned run') =
    IsWell run' × ((h : ℕ) → total h run' ≡ total h run + occurs h given)

occurs-append : (h : ℕ) (xs ys : List Context) → occurs h (xs ++ ys) ≡ occurs h xs + occurs h ys
occurs-append h [] ys = omega arith
occurs-append h (x ∷ xs) ys = ground (arith, occurs-append h xs ys)

settled_so-Continues :
    (run : Run) (given : List Context) (out : Manager × List Context)
    → IsWell run
    → Handled run.manager given out
    → Continues run given (returned (record_settled run.settled out))
settled_so-Continues run given out well handled = (
  (handled.0, handled.1, All-append IsSettled out.1 run.settled handled.2 (well.2)),
  λ h. omega (arith, handled.3 h, occurs-append h out.1 run.settled),
)

bound-Continues :
    (run : Run) (outs : Exec (Manager × List Context))
    → IsWell run
    → Returns (Handled run.manager []) outs
    → Continues run [] (outs >>= (λ out. returned (record_settled run.settled out)))
bound-Continues run thrown well handled = tt
bound-Continues run (returned out) well handled = settled_so-Continues run [] out well handled

react-Continues :
    ⦃p : Platform⦄
    → (event : Event) (run : Run) → IsWell run
    → All IsOpen (sent_contexts (event ∷ []))
    → Continues run (sent_contexts (event ∷ [])) (react event run)
react-Continues (send r c) run well unset =
    settled_so-Continues run (c ∷ [])
      ((send_request_impl r c run.manager).manager, (send_request_impl r c run.manager).settled)
      well (send-Handled r c run.manager (well.0) (well.1) (unset.0))
react-Continues (frame buffer) run well unset =
    bound-Continues run (on_incoming_frame buffer run.manager) well
      (frame-Handled buffer run.manager (well.0) (well.1))
react-Continues (timer cancelled id) run well unset =
    settled_so-Continues run [] (timer_fired cancelled id run.manager) well
      (timer-Handled cancelled id run.manager (well.0) (well.1))
react-Continues (delay was_invalidated id bytes) run well unset =
    settled_so-Continues run [] (delay_over was_invalidated id bytes run.manager).0 well
      (delay-Handled was_invalidated id bytes run.manager (well.0) (well.1))
react-Continues disconnect run well unset =
    settled_so-Continues run [] (invalidate_all peer_disconnected run.manager) well
      (disconnect-Handled run.manager (well.0) (well.1))

chain :
    (run run' : Run) (given given' : List Context) (later : Exec Run)
    → ((h : ℕ) → total h run' ≡ total h run + occurs h given)
    → Continues run' given' later
    → Continues run (given ++ given') later
chain run run' given given' thrown counts after = tt
chain run run' given given' (returned r) counts after =
    (after.0, λ h. omega (arith, counts h, after.1 h, occurs-append h given given'))

bind-Continues :
    (run : Run) (given given' : List Context) (first : Exec Run) (next : Run → Exec Run)
    → Continues run given first
    → ((r : Run) → IsWell r → Continues r given' (next r))
    → Continues run (given ++ given') (first >>= next)
bind-Continues run given given' thrown next c n = tt
bind-Continues run given given' (returned r) next c n =
    chain run r given given' (next r) (c.1) (n r (c.0))

split_event :
    (event : Event) (events : List Event)
    → sent_contexts (event ∷ events) ≡ sent_contexts (event ∷ []) ++ sent_contexts events
split_event (send r c) events = refl
split_event (frame buffer) events = refl
split_event (timer cancelled id) events = refl
split_event (delay was_invalidated id bytes) events = refl
split_event disconnect events = refl

split-IsOpen :
    (event : Event) (events : List Event)
    → All IsOpen (sent_contexts (event ∷ events))
    → All IsOpen (sent_contexts (event ∷ [])) × All IsOpen (sent_contexts events)
split-IsOpen (send r c) events a = ((a.0, tt), a.1)
split-IsOpen (frame buffer) events a = (tt, a)
split-IsOpen (timer cancelled id) events a = (tt, a)
split-IsOpen (delay was_invalidated id bytes) events a = (tt, a)
split-IsOpen disconnect events a = (tt, a)

run_all-Continues :
    ⦃p : Platform⦄
    → (events : List Event) (run : Run) → IsWell run
    → All IsOpen (sent_contexts events)
    → Continues run (sent_contexts events) (run_all events run)
run_all-Continues [] run well a = (well, λ h. omega arith)
run_all-Continues (event ∷ events) run well a =
    let s = split-IsOpen event events a in
    rw (split_event event events) (
      bind-Continues run (sent_contexts (event ∷ [])) (sent_contexts events) (react event run)
        (run_all events) (react-Continues event run well (s.0))
        (λ r w. run_all-Continues events r w (s.1)))

-- For every sequence of sends, frames, timers, delays and disconnections, when each context that is
-- sent is new and no exception leaves a call: each context sent is found once among the settled
-- ones or once among the pending ones, as often as it was sent; a settled one has had its promise
-- set exactly once, and a pending one has not.
pub settled_once :
    ⦃p : Platform⦄
    → (events : List Event) (run : Run) → All IsOpen (sent_contexts events)
    → run_all events idle ≡ returned run
    → IsWell run × ((h : ℕ) → total h run ≡ occurs h (sent_contexts events))
settled_once events run a e =
    let c : Continues idle (sent_contexts events) (returned run) =
      subst (Continues idle (sent_contexts events)) e
        (run_all-Continues events idle (tt, tt, tt) a) in
    (c.0, λ h. omega (arith, c.1 h))

-- For every sequence of sends, frames, timers, delays and disconnections, when each context that is
-- sent is new and no exception leaves a call, and when the peer then disconnects or the manager is
-- destroyed: nothing is pending, and each context was settled as often as it was sent, its promise
-- set exactly once.
pub disconnect_settles :
    ⦃p : Platform⦄
    → (events : List Event) (run : Run) → All IsOpen (sent_contexts events)
    → run_all events idle ≡ returned run
    → (out : Run) × (react disconnect run ≡ returned out)
      × (out.manager.pending_requests ≡ [])
      × All IsSettled out.settled
      × ((h : ℕ) → occurs h out.settled ≡ occurs h (sent_contexts events))
unfolding invalidate_all
disconnect_settles events run a e =
    let before = settled_once events run a e in
    let after = react-Continues disconnect run (before.0) tt in
    (
      record_settled run.settled (invalidate_all peer_disconnected run.manager),
      refl,
      refl,
      after.0.2,
      λ h. omega (arith, after.1 h, before.1 h),
    )
