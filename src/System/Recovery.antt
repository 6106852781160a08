-- ===== src/System/Recovery.antt =====
-- That a secondary can always catch up with its master: no state is a dead end.
use distributed_systems_hw.Base.{
  ℕ, zero, suc, ◌⊎◌, ◌+◌, ◌≤◌, ◌<◌, ◌≡◌, refl, ap, ◌∙◌, inl, inr, some, List, [], true, false,
  arith, length, take_whole, length-drop, Bytes, u64_mod, Bool-cases, Option-cases,
}
use distributed_systems_hw.Base.Maps.{find, assign, find-assign}
use distributed_systems_hw.Master.Storage as MasterStorage
use distributed_systems_hw.Master.Storage.Log.{chunk-eq-drop}
use distributed_systems_hw.Secondary.Storage.{Storage, get_contiguous_chunk}
use distributed_systems_hw.Secondary.MasterSession.{
  run, ask_for_messages, notify_operational, on_messages, on_endpoint_invalidated,
}
use distributed_systems_hw.Secondary.SecondaryNode.{
  disconnect_master_session, on_session_invalidated, on_session_operational, emit, emit_all,
  run_master_session, on_connect, on_reconnect_timer, is_current, messages_answered,
  endpoint_invalidated,
}
use distributed_systems_hw.System.{
  Asked, World, Step, connected, timer_fired, master_answered, answered, invalidated, Reach, later,
}
use distributed_systems_hw.System.Links.{Reach-IsLinked}
use distributed_systems_hw.System.Steps.{IsReplica}
use distributed_systems_hw.System.Replication.{size, Reach-IsReplica, shows_prefix}
use distributed_systems_hw.Secondary.Storage.CatchUp.{gap-le}
use distributed_systems_hw.Secondary.Storage.Answers.{length-add_messages_le}

-- Some steps in a row.
pub data Steps : World → World → Type 0 where
  done : {w : World} → Steps w w
  next : {w u v : World} → Step w u → Steps u v → Steps w v

pub Steps-Reach : {name : Bytes} {w v : World} → Steps w v → Reach name w → Reach name v
Steps-Reach done reach = reach
Steps-Reach (next st rest) reach = Steps-Reach rest (later reach st)

-- `v` comes after `w`, the secondary operational there with an answer that has every message posted.
record IsCaughtUp (w v : World) : Type 0 where
  steps : Steps w v
  log : v.log ≡ w.log
  operational : v.node.operational ≡ true
  caught : v.caught ≡ length v.log
  grown : length v.node.storage.messages ≤ length w.node.storage.messages + length w.log

abbrev CatchesUp : World → Type 0
CatchesUp w = (v : World) × IsCaughtUp w v

-- The master gets the request and answers, and the answer is taken.
from_answer :
    {w : World} (handle : ℕ) (a : Asked)
    → IsReplica w
    → size w < u64_mod
    → w.node.session ≡ some handle
    → find handle w.asked ≡ some a
    → CatchesUp w
unfolding messages_answered emit_all emit on_messages notify_operational on_session_operational
from_answer {w} handle a r small current waiting = (
  _,
  record {
    steps =
        next (master_answered handle a waiting)
          (next (answered handle full chunk (length w.log) found refl) done);
    log = rw this refl;
    operational = rw this refl;
    caught = rw this refl;
    grown = rw this (omega (arith, length-add_messages_le a.gap chunk w.node.storage, few));
  },
)
  where
    chunk : List Bytes
    chunk = MasterStorage.get_contiguous_chunk w.master a.gap

    full : Asked
    full = record a { reply = some (chunk, length w.log) }

    found : find handle (assign handle full w.asked) ≡ some full
    found = ground (arith, find-assign handle handle full w.asked)

    this : is_current handle w.node.session ≡ true
    this = ground (arith, current)

    few : length chunk ≤ length w.log
    few =
        let within = gap-le [] w.log w.node.storage r.from a.gap (r.asked handle a waiting).held in
        let e = chunk-eq-drop w.master w.log a.gap (omega (arith, within)) r.master in
        omega (arith, ap (λ (l : List Bytes). length l) e, length-drop a.gap w.log)

-- One step more in front.
behind :
    {w u : World}
    → Step w u
    → u.log ≡ w.log
    → u.node.storage ≡ w.node.storage
    → CatchesUp u
    → CatchesUp w
behind st same kept (v, c) = (
  v,
  record {
    steps = next st c.steps;
    log = c.log ∙ same;
    operational = c.operational;
    caught = c.caught;
    grown = omega (
      arith,
      c.grown,
      ap (λ (l : List Bytes). length l) same,
      ap (λ (st : Storage). length st.messages) kept,
    );
  },
)

module _ {name : Bytes} {w : World} (reach : Reach name w) (small : size w < u64_mod) where
  from_session :
      (handle : ℕ) → w.node.session ≡ some handle → w.node.operational ≡ false → CatchesUp w
  from_session handle current down = elim (Option-cases (find handle w.asked)) [
    | inl lost ↦ absurd ((Reach-IsLinked reach).waits handle current down lost)
    | inr (a, e) ↦ from_answer handle a (Reach-IsReplica reach small) small current e
  ]

from_attempt :
    {name : Bytes} {w : World} (k : ℕ)
    → Reach name w
    → size w < u64_mod
    → w.attempts ≡ suc k
    → CatchesUp w
unfolding on_connect run_master_session emit_all emit disconnect_master_session run ask_for_messages
from_attempt {w} k reach small e =
    behind (connected false k e) refl refl
      (from_session (later reach (connected false k e)) small w.sessions refl refl)

from_timer :
    {name : Bytes} {w : World} (k : ℕ)
    → Reach name w
    → size w < u64_mod
    → w.timers ≡ suc k
    → CatchesUp w
unfolding on_reconnect_timer
from_timer {w} k reach small e =
    behind (timer_fired k e) refl refl
      (from_attempt w.attempts (later reach (timer_fired k e)) small refl)

from_operational :
    {name : Bytes} {w : World} (handle : ℕ)
    → Reach name w
    → size w < u64_mod
    → w.node.session ≡ some handle
    → CatchesUp w
unfolding endpoint_invalidated emit_all emit on_endpoint_invalidated on_session_invalidated
    disconnect_master_session
from_operational {w} handle reach small current =
    let this : is_current handle w.node.session ≡ true = ground (arith, current) in
    behind (invalidated handle) (rw this refl) (rw this refl)
      (from_attempt w.attempts (later reach (invalidated handle)) (rw this small) (rw this refl))

ℕ-cases : (n : ℕ) → (n ≡ 0) ⊎ ((k : ℕ) × (n ≡ suc k))
ℕ-cases zero = inl refl
ℕ-cases (suc k) = inr (k, refl)

catches_up : {name : Bytes} {w : World} → Reach name w → size w < u64_mod → CatchesUp w
catches_up {w} reach small = elim (Option-cases w.node.session) [
  | inr (handle, current) ↦ elim (Bool-cases w.node.operational) [
    | inl up ↦ from_operational handle reach small current
    | inr down ↦ from_session reach small handle current down
  ]
  | inl gone ↦ elim (ℕ-cases w.attempts) [
    | inr (k, e) ↦ from_attempt k reach small e
    | inl idle ↦ elim (ℕ-cases w.timers) [
      | inr (k, e) ↦ from_timer k reach small e
      | inl none_left ↦ absurd (ground (arith, (Reach-IsLinked reach).one, gone, idle, none_left))
    ]
  ]
]

-- An operational secondary that has taken an answer with every message shows what the master shows.
shows_all :
    {name : Bytes} {v : World}
    → Reach name v
    → size v < u64_mod
    → v.node.operational ≡ true
    → v.caught ≡ length v.log
    → get_contiguous_chunk v.node.storage 0 ≡ MasterStorage.get_contiguous_chunk v.master 0
shows_all {v} reach small up caught =
    let (n, e, enough) = shows_prefix reach small in
    let log =
      chunk-eq-drop v.master v.log 0 (omega (arith, small)) (Reach-IsReplica reach small).master in
    e
    ∙ take_whole n (MasterStorage.get_contiguous_chunk v.master 0) (
        omega (
          arith,
          caught,
          enough up,
          ap (λ (l : List Bytes). length l) log,
          ap (λ (l : List Bytes). length l) e,
        ))

-- From every state that a master and a secondary reach there is a way on, along which no message is
-- posted, to a state in which the secondary is operational and shows from 0 on exactly what the
-- master shows; while three times the messages posted plus those that the secondary stores are fewer
-- than 2^64.
pub can_catch_up :
    {name : Bytes} {w : World}
    → Reach name w
    → size w + length w.log < u64_mod
    → (v : World) × Steps w v
      × (v.log ≡ w.log)
      × (v.node.operational ≡ true)
      × (get_contiguous_chunk v.node.storage 0 ≡ MasterStorage.get_contiguous_chunk v.master 0)
can_catch_up {w} reach small =
    let (v, c) = catches_up reach (omega arith) in
    let logs = ap (λ (l : List Bytes). length l) c.log in
    let room : size v < u64_mod = omega (arith, c.grown, logs) in
    (
      v,
      c.steps,
      c.log,
      c.operational,
      shows_all (Steps-Reach c.steps reach) room c.operational c.caught,
    )
