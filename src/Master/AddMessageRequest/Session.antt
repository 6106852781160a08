-- ===== src/Master/AddMessageRequest/Session.antt =====
-- app/master-node/addmessagerequest: a request from run() on, its callbacks in any order, with any
-- answers, and with what the master node returns for a snapshot each time.
pub mod Promise
pub mod Progress
pub mod Answers
pub mod Snapshots
pub mod Finished
use distributed_systems_hw.Base.{
  ℕ, ◌-◌, ◌<◌, ◌≡◌, Bool, true, false, ◌||◌, List, [], ◌∷◌, ◌++◌, Option, none, some, ◌==◌,
  if◌then◌else◌, ◌+◌, length, Bytes, u64_mod, All,
}
use distributed_systems_hw.Proto.Codes.{AddMessageStatus, ok, not_allowed}
use distributed_systems_hw.Master.AddMessageRequest.{
  AddMessageRequest, Action, int_max, contains, create, start, on_send_done,
}
use distributed_systems_hw.Master.AddMessageRequest.Sending.{sends, timers}

-- A request with the secondaries that have not answered yet, the timers that have not fired, the
-- secondaries that have answered OK, and whether the master node was found gone.
pub record Session : Type 0 where
  pub request : AddMessageRequest
  pub outstanding : List ℕ
  pub waiting : ℕ
  pub acked : List ℕ
  pub lost : Bool

-- The list without the first occurrence of an id.
abbrev pub remove : ℕ → List ℕ → List ℕ
remove id [] = []
remove id (x ∷ xs) = let rest = remove id xs in if x == id then xs else x ∷ rest

-- The secondaries that a snapshot lists are fewer than 2^64.
abbrev pub Bounded : Option (List ℕ) → Type 0
Bounded none = Unit
Bounded (some ids) = length ids < u64_mod

abbrev pub is_gone : Option (List ℕ) → Bool
is_gone none = true
is_gone (some _) = false

abbrev pub note_ack : ℕ → Option AddMessageStatus → List ℕ → List ℕ
note_ack id none acked = acked
note_ack id (some ok) acked = id ∷ acked
note_ack id (some not_allowed) acked = acked

abbrev pub commit : AddMessageRequest × List Action → Session → Session
commit out s = record s {
  request = out.0;
  outstanding = s.outstanding ++ sends out.1;
  waiting = s.waiting + timers out.1;
}

abbrev pub fresh : AddMessageRequest → Bool → Session
fresh r lost = record { request = r; outstanding = []; waiting = 0; acked = []; lost = lost }

-- run()
abbrev pub opened : ℕ → Bytes → ℕ → Option (List ℕ) → Session
opened message_id message write_concern snapshot =
    let r = create message_id message write_concern in
    commit (start snapshot r) (fresh r (is_gone snapshot))

-- The callback of one send.
abbrev pub answered : ℕ → Option AddMessageStatus → Option (List ℕ) → Session → Session
answered id response snapshot s = commit (on_send_done id response snapshot s.request) (record s {
  outstanding = remove id s.outstanding;
  acked = note_ack id response s.acked;
  lost = s.lost || is_gone snapshot;
})

-- The callback of a timer.
abbrev pub woken : Option (List ℕ) → Session → Session
woken snapshot s =
    commit (start snapshot s.request)
      (record s { waiting = s.waiting - 1; lost = s.lost || is_gone snapshot })

-- The sessions that a request can be in.
pub data Reach : Session → Type 0 where
  run :
      (message_id : ℕ)
      → (message : Bytes) → (write_concern : ℕ) → (snapshot : Option (List ℕ)) → Bounded snapshot
      → Reach (opened message_id message write_concern snapshot)
  answer :
      {s : Session}
      → (id : ℕ) → (response : Option AddMessageStatus) → (snapshot : Option (List ℕ)) → Reach s
      → contains s.outstanding id ≡ true
      → Bounded snapshot
      → Reach (answered id response snapshot s)
  wake :
      {s : Session}
      → (snapshot : Option (List ℕ)) → Reach s
      → 0 < s.waiting
      → Bounded snapshot
      → Reach (woken snapshot s)

-- The ids that a snapshot lists fit an int, and below the largest one.
abbrev pub Narrow : Option (List ℕ) → Type 0
Narrow none = Unit
Narrow (some ids) = All (λ id. id < int_max) ids

-- A snapshot of fewer than 2^64 secondaries with such ids.
abbrev pub Fits : Option (List ℕ) → Type 0
Fits snapshot = Bounded snapshot × Narrow snapshot

-- The request has met such ids only.
abbrev pub IsNarrow : {s : Session} → Reach s → Type 0
IsNarrow (run message_id message write_concern snapshot b) = Narrow snapshot
IsNarrow (answer id response snapshot before out b) =
    (id < int_max) × Narrow snapshot × IsNarrow before
IsNarrow (wake snapshot before timer b) = Narrow snapshot × IsNarrow before
