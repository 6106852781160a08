-- ===== src/Proto/SocketWrapper/Runs.antt =====
-- libs/proto/src/socketwrapper: any sequence of writes, of ends of writes, and of failures.
use distributed_systems_hw.Base.{ℕ, ◌+◌, ◌≡◌, inl, refl, List, [], ◌∷◌, ◌++◌, arith}
use distributed_systems_hw.Proto.SocketWrapper.{
  ErrorCode, PendingWrite, SocketWrapper, Effect, create, invalidate, write_frame, on_written,
}
use distributed_systems_hw.Proto.SocketWrapper.Writes.{
  called, queued, waits, IsSteady, Accounts, called-append, write_frame-Accounts,
  invalidate-Accounts, on_written-Accounts,
}

-- What happens to a socket: a frame is to be written, the write in progress ends, or the socket is
-- invalidated.
pub data Event : Type 0 where
  write : PendingWrite → Event
  written : ErrorCode → Event
  broken : Event

abbrev pub react : Event → SocketWrapper → SocketWrapper × List Effect
react (write w) s = write_frame w s
react (written code) s = on_written code s
react broken s = invalidate s

-- The socket and all effects so far, after a sequence of events.
abbrev pub run_all : List Event → SocketWrapper → SocketWrapper × List Effect
run_all [] s = (s, [])
run_all (e ∷ events) s =
    ((run_all events (react e s).0).0, (react e s).1 ++ (run_all events (react e s).0).1)

-- How often a callback is handed over by the events.
abbrev pub handed : ℕ → List Event → ℕ
handed h [] = 0
handed h (write w ∷ events) = queued h (w ∷ []) + handed h events
handed h (written code ∷ events) = handed h events
handed h (broken ∷ events) = handed h events

react-Accounts :
    (e : Event) (s : SocketWrapper)
    → IsSteady s
    → Accounts (λ h. waits h s + handed h (e ∷ [])) (react e s)
react-Accounts (write w) s steady =
    let a = write_frame-Accounts w s steady in (a.0, λ h. omega (arith, a.1 h))
react-Accounts (written code) s steady =
    let a = on_written-Accounts code s steady in (a.0, λ h. omega (arith, a.1 h))
react-Accounts broken s steady =
    let a = invalidate-Accounts s steady.flight in (a.0, λ h. omega (arith, a.1 h))

handed-cons :
    (h : ℕ) (e : Event) (events : List Event)
    → handed h (e ∷ events) ≡ handed h (e ∷ []) + handed h events
handed-cons h (write w) events = omega arith
handed-cons h (written code) events = omega arith
handed-cons h broken events = omega arith

run-Accounts :
    (events : List Event) (s : SocketWrapper)
    → IsSteady s
    → Accounts (λ h. waits h s + handed h events) (run_all events s)
run-Accounts [] s steady = (steady, λ h. omega arith)
run-Accounts (e ∷ events) s steady =
    let a = react-Accounts e s steady in
    let ih = run-Accounts events (react e s).0 (a.0) in
    (
      ih.0,
      λ h. omega (
        arith,
        a.1 h,
        ih.1 h,
        handed-cons h e events,
        called-append h (react e s).1 (run_all events (react e s).0).1,
      ),
    )

-- For every sequence of writes, ends of writes with any error code, and invalidations, of a new
-- socket: a callback was called as often as it was handed over, less the times that it still waits
-- in the queue or in the one write in progress. Nothing waits in the queue while no write is in
-- progress, or once the socket was invalidated.
pub run-IsSteady :
    (events : List Event)
    → IsSteady (run_all events create).0
      × ((h : ℕ)
          → called h (run_all events create).1 + waits h (run_all events create).0
            ≡ handed h events)
run-IsSteady events =
    let fresh : IsSteady create = record {
      flight = inl (refl, refl);
      dropped = λ d. refl;
      idle = λ d. refl;
    } in
    let a = run-Accounts events create fresh in (a.0, λ h. omega (arith, a.1 h))
