-- ===== src/System/Joining.antt =====
-- A secondary that joins while messages are posted: one message, the storage of the master with the
-- steps of all its writers, the request of the message, and one connection of one secondary.
pub mod Knowing
pub mod Sending
pub mod Arrival
use distributed_systems_hw.Base.{
  is_some, ℕ, ◌<◌, ◌≡◌, ◌≢◌, Bool, true, false, Option, none, some, List, [], ◌∷◌, length, Bytes,
}
use distributed_systems_hw.Base.Maps.{find}
use distributed_systems_hw.Proto.Codes.{AddMessageStatus, ok, not_allowed}
use distributed_systems_hw.Master.Storage as MasterStorage
use distributed_systems_hw.Master.Storage.Writers as Writers
use distributed_systems_hw.Master.Storage.Writers.{Writers}
use distributed_systems_hw.Master.AddMessageRequest.{int_max, contains}
use distributed_systems_hw.Master.AddMessageRequest.Session.{Session, Fits, opened, answered, woken}
use distributed_systems_hw.Secondary.Storage as SecondaryStorage
use distributed_systems_hw.Secondary.Storage.{Storage}
use distributed_systems_hw.Secondary.MasterSession.{
  Effect, set_status, on_messages, on_incoming_add_message,
}

-- The connection, as the master sees it: before addSecondaryImpl(), then, and after onInvalidated().
pub data Connection : Type 0 where
  away there gone : Connection

abbrev pub is_there : Connection → Bool
is_there there = true
is_there _ = false

abbrev pub is_nil {ℓ} : {A : Type ℓ} → List A → Bool
is_nil [] = true
is_nil (x ∷ xs) = false

-- The answer to getMessages; whether the message was stored when it was made, and whether no call of
-- addMessage was between its two steps then.
pub record Reply : Type 0 where
  pub messages : List Bytes
  pub with_message : Bool
  pub settled : Bool

-- `asked` is where the request of the secondary that waits starts, `reply` its answer, and `taken` the
-- answer that the secondary has stored last. `confirmed` says that it has set the promise of the
-- message to OK.
pub record World : Type 0 where
  pub writers : Writers
  pub request : Option Session
  pub connection : Connection
  pub store : Storage
  pub asked : Option ℕ
  pub reply : Option Reply
  pub taken : Option Reply
  pub confirmed : Bool

abbrev pub says_ok : List Effect → Bool
says_ok [] = false
says_ok (set_status promise ok ∷ rest) = true
says_ok (effect ∷ rest) = says_ok rest

-- The snapshot lists the secondary while it is connected.
abbrev pub Lists : ℕ → Connection → Option (List ℕ) → Type 0
Lists peer connection none = Unit
Lists peer connection (some ids) = contains ids peer ≡ is_there connection

-- The steps for message `id`, posted with a write concern, and the secondary `peer`. It answers OK
-- only after it has set the promise, and nothing else; other messages of the master come to it at
-- any time.
pub data Step (id write_concern peer : ℕ) (w : World) : World → Type 0 where
  wrote :
      {v : Writers}
      → Writers.Step w.writers v
      → Step id write_concern peer w (record w { writers = v })
  posted :
      (message : Bytes) (snapshot : Option (List ℕ))
      → w.request ≡ none
      → find id w.writers.storage.messages ≡ some message
      → Fits snapshot
      → Lists peer w.connection snapshot
      → Step id write_concern peer w
          (record w { request = some (opened id message write_concern snapshot) })
  answer :
      (s : Session) (from : ℕ) (response : Option AddMessageStatus) (snapshot : Option (List ℕ))
      → w.request ≡ some s
      → (contains s.outstanding from ≡ true) × (from < int_max)
      → (from ≡ peer → response ≢ some not_allowed)
      → (from ≡ peer → response ≡ some ok → w.confirmed ≡ true)
      → Fits snapshot
      → Lists peer w.connection snapshot
      → Step id write_concern peer w
          (record w { request = some (answered from response snapshot s) })
  wake :
      (s : Session) (snapshot : Option (List ℕ))
      → w.request ≡ some s
      → 0 < s.waiting
      → Fits snapshot
      → Lists peer w.connection snapshot
      → Step id write_concern peer w (record w { request = some (woken snapshot s) })
  joined : w.connection ≡ away → Step id write_concern peer w (record w { connection = there })
  left : w.connection ≡ there → Step id write_concern peer w (record w { connection = gone })
  asked :
      Step id write_concern peer w
        (record w { asked = some (SecondaryStorage.get_first_gap w.store); reply = none })
  replied :
      (gap : ℕ)
      → w.asked ≡ some gap
      → w.connection ≢ away
      → Step id write_concern peer w (record w {
        reply = some (record {
          messages = MasterStorage.get_contiguous_chunk w.writers.storage gap;
          with_message = is_some (find id w.writers.storage.messages);
          settled = is_nil w.writers.in_flight;
        });
      })
  took :
      (gap : ℕ) (r : Reply) (friendly_name : Bytes)
      → w.asked ≡ some gap
      → w.reply ≡ some r
      → Step id write_concern peer w (record w {
        store = (on_messages friendly_name gap (some r.messages) w.store).0;
        asked = none;
        reply = none;
        taken = some r;
      })
  stored :
      (s : Session) (promise : ℕ)
      → w.request ≡ some s
      → Step id write_concern peer w (
          let done =
            on_incoming_add_message s.request.message_id s.request.message promise w.store in
          record w { store = done.0; confirmed = says_ok done.1 })
  other_stored :
      (k : ℕ) (message : Bytes)
      → find k w.writers.storage.messages ≡ some message
      → Step id write_concern peer w
          (record w { store = SecondaryStorage.add_message k message w.store })

abbrev pub started : World
started = record {
  writers = record { storage = MasterStorage.empty; in_flight = []; log = [] };
  request = none;
  connection = away;
  store = SecondaryStorage.empty;
  asked = none;
  reply = none;
  taken = none;
  confirmed = false;
}

pub data Reach (id write_concern peer : ℕ) : World → Type 0 where
  start : Reach id write_concern peer started
  later :
      {w v : World}
      → Reach id write_concern peer w
      → Step id write_concern peer w v
      → Reach id write_concern peer v
