-- ===== src/Proto/SocketWrapper/Writes.antt =====
-- libs/proto/src/socketwrapper: the callbacks of writes.
use mathlib.Core.Path.{subst}
use distributed_systems_hw.Base.{
  ℕ, suc, ◌+◌, ◌≡◌, ◌⊎◌, inl, inr, refl, sym, ap, ◌∙◌, Bool, true, false, Option, none, some, List,
  [], ◌∷◌, ◌++◌, arith, if◌then◌else◌, ◌==◌, Bool-cases, Option-cases,
}
use distributed_systems_hw.Proto.SocketWrapper.{
  ErrorCode, success, failed, aborted, PendingWrite, SocketWrapper, Effect, call, async_write,
  async_read, close_socket, emit_invalidated, emit_frame, abort_loop, start_write,
  check_pending_writes, invalidate, write_frame, after_write, on_written,
}

-- How often a callback is called by effects, waits in the queue, and is in flight.
abbrev pub called : ℕ → List Effect → ℕ
called h [] = 0
called h (call c code ∷ rest) = if c == h then suc (called h rest) else called h rest
called h (async_write frame ∷ rest) = called h rest
called h (async_read n ∷ rest) = called h rest
called h (close_socket ∷ rest) = called h rest
called h (emit_invalidated ∷ rest) = called h rest
called h (emit_frame frame ∷ rest) = called h rest

abbrev pub queued : ℕ → List PendingWrite → ℕ
queued h [] = 0
queued h (w ∷ rest) = if w.callback == h then suc (queued h rest) else queued h rest

abbrev pub flying : ℕ → Option ℕ → ℕ
flying h none = 0
flying h (some c) = if c == h then 1 else 0

abbrev pub waits : ℕ → SocketWrapper → ℕ
waits h s = flying h s.in_flight + queued h s.pending_writes

-- A write is in progress exactly while a callback is in flight.
abbrev pub Flight : Bool → Option ℕ → Type 0
Flight wip in_flight =
    ((wip ≡ false) × (in_flight ≡ none)) ⊎ ((wip ≡ true) × ((c : ℕ) × (in_flight ≡ some c)))

-- Between the calls, nothing waits on a socket that was invalidated, and nothing waits while no
-- write is in progress.
pub record IsSteady (s : SocketWrapper) : Type 0 where
  pub flight : Flight s.write_in_progress s.in_flight
  pub dropped : s.invalidated ≡ true → s.pending_writes ≡ []
  pub idle : s.write_in_progress ≡ false → s.pending_writes ≡ []

-- What a call leaves: a steady socket, and every callback that waited was called or still waits.
abbrev pub Accounts : (ℕ → ℕ) → SocketWrapper × List Effect → Type 0
Accounts before out = IsSteady out.0 × ((h : ℕ) → called h out.1 + waits h out.0 ≡ before h)

pub called-append : (h : ℕ) (xs ys : List Effect) → called h (xs ++ ys) ≡ called h xs + called h ys
called-append h [] ys = omega arith
called-append h (call c code ∷ rest) ys = ground (arith, called-append h rest ys)
called-append h (async_write frame ∷ rest) ys = called-append h rest ys
called-append h (async_read n ∷ rest) ys = called-append h rest ys
called-append h (close_socket ∷ rest) ys = called-append h rest ys
called-append h (emit_invalidated ∷ rest) ys = called-append h rest ys
called-append h (emit_frame frame ∷ rest) ys = called-append h rest ys

called-abort_loop : (h : ℕ) (ws : List PendingWrite) → called h (abort_loop ws) ≡ queued h ws
called-abort_loop h [] = refl
called-abort_loop h (w ∷ rest) = ground (arith, called-abort_loop h rest)

queued-append :
    (h : ℕ) (xs ys : List PendingWrite) → queued h (xs ++ ys) ≡ queued h xs + queued h ys
queued-append h [] ys = omega arith
queued-append h (w ∷ rest) ys = ground (arith, queued-append h rest ys)

start_write-Accounts :
    (ws : List PendingWrite) (s : SocketWrapper)
    → s.pending_writes ≡ ws
    → s.in_flight ≡ none
    → s.write_in_progress ≡ false
    → s.invalidated ≡ false
    → Accounts (λ h. waits h s) (start_write ws s)
unfolding start_write
start_write-Accounts [] s p f w i =
    (record { flight = inl (w, f); dropped = λ d. p; idle = λ d. p }, λ h. omega arith)
start_write-Accounts (v ∷ rest) s p f w i = (
  record {
    flight = inr (refl, (v.callback, refl));
    dropped = λ d. absurd (ground (arith, d, i));
    idle = λ d. absurd (ground (arith, d));
  },
  λ h. rw (p, f) (ground arith),
)

check_idle :
    (s : SocketWrapper)
    → s.invalidated ≡ false
    → s.write_in_progress ≡ false
    → check_pending_writes s ≡ start_write s.pending_writes s
unfolding check_pending_writes
check_idle s alive w = ground (arith, alive, w)

check_busy :
    (s : SocketWrapper)
    → s.invalidated ≡ false
    → s.write_in_progress ≡ true
    → check_pending_writes s ≡ (s, [])
unfolding check_pending_writes
check_busy s alive w = ground (arith, alive, w)

check_dead :
    (s : SocketWrapper)
    → s.invalidated ≡ true
    → check_pending_writes s ≡ (record s { pending_writes = [] }, abort_loop s.pending_writes)
unfolding check_pending_writes
check_dead s dead = ground (arith, dead)

check-Accounts :
    (s : SocketWrapper)
    → Flight s.write_in_progress s.in_flight
    → Accounts (λ h. waits h s) (check_pending_writes s)
check-Accounts s f = elim (Bool-cases s.invalidated) [
  | inl dead ↦ rw (check_dead s dead) (
    record { flight = f; dropped = λ d. refl; idle = λ d. refl },
    λ h. omega (arith, called-abort_loop h s.pending_writes),
  )
  | inr alive ↦ elim f as (λ x. Accounts (λ h. waits h s) (check_pending_writes s)) [
    | inl (w, none_flies) ↦
        rw (check_idle s alive w) (start_write-Accounts s.pending_writes s refl none_flies w alive)
    | inr (w, flies) ↦ rw (check_busy s alive w) (
      record {
        flight = f;
        dropped = λ d. absurd (ground (arith, d, alive));
        idle = λ d. absurd (ground (arith, d, w));
      },
      λ h. omega arith,
    )
  ]
]

pub write_frame-Accounts :
    (w : PendingWrite) (s : SocketWrapper)
    → IsSteady s
    → Accounts (λ h. waits h s + queued h (w ∷ [])) (write_frame w s)
unfolding write_frame
write_frame-Accounts w s steady =
    let c =
      check-Accounts (record s { pending_writes = s.pending_writes ++ w ∷ [] }) steady.flight in
    (c.0, λ h. omega (arith, c.1 h, queued-append h s.pending_writes (w ∷ [])))

invalidate_again :
    (s : SocketWrapper)
    → s.invalidated ≡ true
    → invalidate s ≡ check_pending_writes (record s { invalidated = true })
unfolding invalidate
invalidate_again s again = ground (arith, again)

invalidate_first :
    (s : SocketWrapper)
    → s.invalidated ≡ false
    → invalidate s ≡ (
      (check_pending_writes (record s { invalidated = true })).0,
      close_socket
          ∷ ((check_pending_writes (record s { invalidated = true })).1 ++ emit_invalidated ∷ []),
    )
unfolding invalidate
invalidate_first s first = ground (arith, first)

pub invalidate-Accounts :
    (s : SocketWrapper)
    → Flight s.write_in_progress s.in_flight
    → Accounts (λ h. waits h s) (invalidate s)
invalidate-Accounts s flight =
    let c = check-Accounts (record s { invalidated = true }) flight in
    elim (Bool-cases s.invalidated) [
      | inl again ↦ rw (invalidate_again s again) c
      | inr first ↦ rw (invalidate_first s first) (
        c.0,
        λ h. omega (
          arith,
          c.1 h,
          called-append h (check_pending_writes (record s { invalidated = true })).1
              (emit_invalidated ∷ []),
        ),
      )
    ]

invalidate-flight : (s : SocketWrapper) → (invalidate s).0.in_flight ≡ s.in_flight
invalidate-flight s =
    let e = check_dead (record s { invalidated = true }) refl in
    elim (Bool-cases s.invalidated) [
      | inl again ↦
          ap (λ (o : SocketWrapper × List Effect). o.0.in_flight) (invalidate_again s again ∙ e)
      | inr first ↦
          ap (λ (o : SocketWrapper × List Effect). o.0.in_flight) (invalidate_first s first)
          ∙ ap (λ (o : SocketWrapper × List Effect). o.0.in_flight) e
    ]

pub invalidate-invalidated : (s : SocketWrapper) → (invalidate s).0.invalidated ≡ true
invalidate-invalidated s =
    let e = check_dead (record s { invalidated = true }) refl in
    elim (Bool-cases s.invalidated) [
      | inl again ↦
          ap (λ (o : SocketWrapper × List Effect). o.0.invalidated) (invalidate_again s again ∙ e)
      | inr first ↦
          ap (λ (o : SocketWrapper × List Effect). o.0.invalidated) (invalidate_first s first)
          ∙ ap (λ (o : SocketWrapper × List Effect). o.0.invalidated) e
    ]

-- A write that ends with an error, behind the call of its callback.
error-Accounts :
    (s : SocketWrapper) (dead checked : SocketWrapper × List Effect)
    → invalidate s ≡ dead
    → check_pending_writes (record dead.0 { write_in_progress = false; in_flight = none }) ≡ checked
    → IsSteady s
    → Accounts (λ h. queued h s.pending_writes) (checked.0, dead.1 ++ checked.1)
error-Accounts s dead checked d c steady =
    let first : Accounts (λ h. waits h s) dead =
      subst (Accounts (λ h. waits h s)) d (invalidate-Accounts s steady.flight) in
    let same : dead.0.in_flight ≡ s.in_flight =
      sym (ap (λ (o : SocketWrapper × List Effect). o.0.in_flight) d) ∙ invalidate-flight s in
    let idled : SocketWrapper = record dead.0 { write_in_progress = false; in_flight = none } in
    let second : Accounts (λ h. waits h idled) checked =
      subst (Accounts (λ h. waits h idled)) c (check-Accounts idled (inl (refl, refl))) in
    (
      second.0,
      λ h.
          let f : flying h dead.0.in_flight ≡ flying h s.in_flight = ap (flying h) same in
          omega (arith, first.1 h, second.1 h, f, called-append h dead.1 checked.1),
    )

after_write-Accounts :
    (code : ErrorCode) (s : SocketWrapper)
    → IsSteady s
    → Accounts (λ h. queued h s.pending_writes) (after_write code s)
unfolding after_write
after_write-Accounts success s steady =
    let c =
      check-Accounts (record s { write_in_progress = false; in_flight = none })
        (inl (refl, refl)) in
    (c.0, λ h. omega (arith, c.1 h))
after_write-Accounts failed s steady = error-Accounts s _ _ refl refl steady
after_write-Accounts aborted s steady = error-Accounts s _ _ refl refl steady

written_none :
    (code : ErrorCode) (s : SocketWrapper) → s.in_flight ≡ none → on_written code s ≡ (s, [])
unfolding on_written
written_none code s e = ground (arith, e)

written_some :
    (code : ErrorCode) (s : SocketWrapper) (c : ℕ)
    → s.in_flight ≡ some c
    → on_written code s ≡ ((after_write code s).0, call c code ∷ (after_write code s).1)
unfolding on_written
written_some code s c e = ground (arith, e)

pub on_written-Accounts :
    (code : ErrorCode) (s : SocketWrapper)
    → IsSteady s
    → Accounts (λ h. waits h s) (on_written code s)
on_written-Accounts code s steady = elim (Option-cases s.in_flight) [
  | inl none_flies ↦ rw (written_none code s none_flies) (steady, λ h. omega arith)
  | inr (c, flies) ↦
      let after = after_write-Accounts code s steady in
      let w : ((h : ℕ) → waits h s ≡ flying h (some c) + queued h s.pending_writes) =
        (λ h. ap (λ (o : Option ℕ). flying h o + queued h s.pending_writes) flies) in
      rw (written_some code s c flies) (after.0, λ h. ground (arith, after.1 h, w h))
]
