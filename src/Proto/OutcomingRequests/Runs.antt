-- ===== src/Proto/OutcomingRequests/Runs.antt =====
-- libs/proto/src/outcomingrequestsmanager: any sequence of the events that a manager reacts to.
use distributed_systems_hw.Base.{
  ℕ, suc, ◌+◌, ◌≡◌, refl, ap, Bool, true, none, some, List, [], ◌∷◌, ◌++◌, if◌then◌else◌, ◌==◌,
  arith, Bool-cases, inl, inr, All,
}
use distributed_systems_hw.Base.Maps.{Map, find, insert, erase, UniqueKeys}
use distributed_systems_hw.Proto.Platform.{Platform, Exec, returned, ◌>>=◌}
use distributed_systems_hw.Proto.Deserializer.{Buffer}
use distributed_systems_hw.Proto.Serializer.{Sequence}
use distributed_systems_hw.Proto.Request.{Request}
use distributed_systems_hw.Proto.OutcomingContext.{
  InvalidationReason, peer_disconnected, Context, Outcome, exception, fill, invalidate, IsOpen,
  invalidate_open,
}
use distributed_systems_hw.Proto.OutcomingRequests.{
  Manager, empty, send_request_impl, on_incoming_frame, invalidate_loop, invalidate_all,
  timer_fired, delay_over,
}

-- What happens to a manager: a request is sent, a frame comes in, the timer of a request ends or is
-- cancelled, the delay of a request is over, or the peer is gone.
pub data Event : Type 0 where
  send : Request → Context → Event
  frame : Buffer → Event
  timer : Bool → ℕ → Event
  delay : Bool → ℕ → Sequence → Event
  disconnect : Event

-- A manager with the contexts that it has settled.
pub record Run : Type 0 where
  pub manager : Manager
  pub settled : List Context

abbrev pub idle : Run
idle = record { manager = empty; settled = [] }

abbrev pub record_settled : List Context → Manager × List Context → Run
record_settled before out = record { manager = out.0; settled = out.1 ++ before }

abbrev pub react : ⦃p : Platform⦄ → Event → Run → Exec Run
react (send r context) run =
    let sent = send_request_impl r context run.manager in
    returned (record_settled run.settled (sent.manager, sent.settled))
react (frame buffer) run =
    on_incoming_frame buffer run.manager >>= (λ out. returned (record_settled run.settled out))
react (timer cancelled id) run =
    returned (record_settled run.settled (timer_fired cancelled id run.manager))
react (delay was_invalidated id bytes) run =
    returned (record_settled run.settled (delay_over was_invalidated id bytes run.manager).0)
react disconnect run =
    returned (record_settled run.settled (invalidate_all peer_disconnected run.manager))

abbrev pub run_all : ⦃p : Platform⦄ → List Event → Run → Exec Run
run_all [] run = returned run
run_all (e ∷ events) run = react e run >>= run_all events

-- How often an object stands among contexts, and among those that the events send.
abbrev pub occurs : ℕ → List Context → ℕ
occurs h [] = 0
occurs h (c ∷ rest) = if c.handle == h then suc (occurs h rest) else occurs h rest

abbrev pub pends : ℕ → Map Context → ℕ
pends h [] = 0
pends h ((id, c) ∷ rest) = if c.handle == h then suc (pends h rest) else pends h rest

abbrev pub sent_contexts : List Event → List Context
sent_contexts [] = []
sent_contexts (send r context ∷ events) = context ∷ sent_contexts events
sent_contexts (frame buffer ∷ events) = sent_contexts events
sent_contexts (timer cancelled id ∷ events) = sent_contexts events
sent_contexts (delay was_invalidated id bytes ∷ events) = sent_contexts events
sent_contexts (disconnect ∷ events) = sent_contexts events

-- Its promise was set once.
abbrev pub IsSettled : Context → Type 0
IsSettled c = (o : Outcome) × (c.promise_filled ≡ true) × (c.promise ≡ o ∷ [])

abbrev pub AllOpen : Map Context → Type 0
AllOpen [] = Unit
AllOpen ((id, c) ∷ rest) = IsOpen c × AllOpen rest

-- Every pending context is open, and every settled one is settled once.
abbrev pub IsWell : Run → Type 0
IsWell run =
    UniqueKeys run.manager.pending_requests
    × AllOpen run.manager.pending_requests
    × All IsSettled run.settled

-- How many contexts with a handle a run has.
abbrev pub total : ℕ → Run → ℕ
total h run = occurs h run.settled + pends h run.manager.pending_requests

pub fill-IsSettled :
    (c c' : Context) (o : Outcome)
    → IsOpen c
    → c' ≡ fill o c
    → IsSettled c' × (c'.handle ≡ c.handle)
fill-IsSettled c c' o unset e = rw e ((o, refl, ap (λ l. o ∷ l) (unset.1)), refl)

pub find-IsOpen :
    (id : ℕ) (m : Map Context) {c : Context} → find id m ≡ some c → AllOpen m → IsOpen c
unfolding find
find-IsOpen id [] e a = absurd (ground arith)
find-IsOpen id ((j, d) ∷ m) {c} e a = elim (Bool-cases (j == id)) [
  | inl same ↦ let here : c ≡ d = ground (arith, e, same) in rw here (a.0)
  | inr other ↦ find-IsOpen id m {c = c} (ground (arith, e, other)) (a.1)
]

pub erase-AllOpen : (id : ℕ) (m : Map Context) → AllOpen m → AllOpen (erase id m)
unfolding erase
erase-AllOpen id [] a = tt
erase-AllOpen id ((j, d) ∷ m) a = elim (Bool-cases (j == id)) [
  | inl same ↦ rw same (erase-AllOpen id m (a.1))
  | inr other ↦ rw other (a.0, erase-AllOpen id m (a.1))
]

pub insert-AllOpen :
    (id : ℕ) (c : Context) (m : Map Context) → IsOpen c → AllOpen m → AllOpen (insert id c m)
unfolding insert
insert-AllOpen id c [] unset a = (unset, tt)
insert-AllOpen id c ((j, d) ∷ m) unset a = elim (Bool-cases (j == id)) [
  | inl same ↦ rw same a
  | inr other ↦ rw other (a.0, insert-AllOpen id c m unset (a.1))
]

pub pends-insert :
    (h id : ℕ) (c : Context) (m : Map Context)
    → find id m ≡ none
    → pends h (insert id c m) ≡ pends h m + occurs h (c ∷ [])
unfolding find insert
pends-insert h id c [] e = ground arith
pends-insert h id c ((j, d) ∷ m) e = ground (arith, pends-insert h id c m)

erase_absent : (id : ℕ) (m : Map Context) → find id m ≡ none → erase id m ≡ m
unfolding find erase
erase_absent id [] e = refl
erase_absent id ((j, d) ∷ m) e = ground (arith, erase_absent id m)

pub pends-erase :
    (h id : ℕ) (m : Map Context) {c : Context}
    → UniqueKeys m
    → find id m ≡ some c
    → pends h m ≡ occurs h (c ∷ []) + pends h (erase id m)
unfolding find erase
pends-erase h id [] u e = absurd (ground arith)
pends-erase h id ((j, d) ∷ m) {c} u e = elim (Bool-cases (j == id)) [
  | inl same ↦
      let here : c ≡ d = ground (arith, e, same) in
      let gone : erase id m ≡ m = erase_absent id m (ground (arith, same, u.0)) in
      rw (same, here, gone) (ground arith)
  | inr other ↦
      let ih = pends-erase h id m {c = c} (u.1) (ground (arith, e, other)) in
      rw other (ground (arith, ih))
]

pub invalidate_loop-settles :
    (reason : InvalidationReason) (m : Map Context)
    → AllOpen m
    → All IsSettled (invalidate_loop reason m)
      × ((h : ℕ) → occurs h (invalidate_loop reason m) ≡ pends h m)
unfolding invalidate_loop
invalidate_loop-settles reason [] a = (tt, λ h. refl)
invalidate_loop-settles reason ((id, c) ∷ m) a =
    let ih = invalidate_loop-settles reason m (a.1) in
    let s =
      fill-IsSettled c (invalidate reason c) (exception reason) (a.0)
        (invalidate_open reason c (a.0)) in
    ((s.0, ih.0), λ h. ground (arith, ih.1 h, s.1))
