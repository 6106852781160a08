-- ===== src/System/Writing.antt =====
-- A message that is posted: its request on the master, and the storages of the secondaries that are
-- asked to store it, each behind a session of app/secondary-node/mastersession.
pub mod Written
pub mod Durable
use distributed_systems_hw.Base.{
  ℕ, ◌≡◌, Option, none, some, List, [], ◌∷◌, ◌++◌, Bool, true, false, Bytes, ◌<◌,
}
use distributed_systems_hw.Base.Maps.{Map, find, assign}
use distributed_systems_hw.Proto.Codes.{AddMessageStatus, ok, not_allowed}
use distributed_systems_hw.Master.AddMessageRequest.{int_max, contains}
use distributed_systems_hw.Master.AddMessageRequest.Session as Requests
use distributed_systems_hw.Master.AddMessageRequest.Session.{Session, Fits, opened, answered, woken}
use distributed_systems_hw.Secondary.Storage as SecondaryStorage
use distributed_systems_hw.Secondary.Storage.{Storage}
use distributed_systems_hw.Secondary.MasterSession.{Effect, set_status, on_incoming_add_message}

-- The request, the storage of each secondary under its id, and the secondaries that have set the
-- promise of the request to OK.
pub record Cluster : Type 0 where
  pub session : Session
  pub stores : Map Storage
  pub confirmed : List ℕ

-- The secondary `id`, once for each promise that it sets to OK.
abbrev pub confirms : ℕ → List Effect → List ℕ
confirms id [] = []
confirms id (set_status promise ok ∷ rest) = id ∷ confirms id rest
confirms id (effect ∷ rest) = confirms id rest

-- The request of the message arrives at a secondary, any number of times.
abbrev pub store : ℕ → ℕ → Storage → Cluster → Cluster
store id promise st c =
    let r = c.session.request in
    let done = on_incoming_add_message r.message_id r.message promise st in
    record c { stores = assign id done.0 c.stores; confirmed = confirms id done.1 ++ c.confirmed }

-- Other messages come to a secondary, of other requests or with an answer to getMessages; under the
-- id of this message only this message comes. The answer OK comes from a secondary that gave it.
pub data Step (c : Cluster) : Cluster → Type 0 where
  joined :
      (id : ℕ)
      → find id c.stores ≡ none
      → Step c (record c { stores = assign id SecondaryStorage.empty c.stores })
  stored :
      (id promise : ℕ) (st : Storage) → find id c.stores ≡ some st → Step c (store id promise st c)
  other_stored :
      (id k : ℕ) (v : Bytes) (st : Storage)
      → find id c.stores ≡ some st
      → (k ≡ c.session.request.message_id → v ≡ c.session.request.message)
      → Step c (record c { stores = assign id (SecondaryStorage.add_message k v st) c.stores })
  answer :
      (id : ℕ) (response : Option AddMessageStatus) (snapshot : Option (List ℕ))
      → (contains c.session.outstanding id ≡ true) × (id < int_max)
      → (response ≡ some ok → contains c.confirmed id ≡ true)
      → Fits snapshot
      → Step c (record c { session = answered id response snapshot c.session })
  wake :
      (snapshot : Option (List ℕ))
      → 0 < c.session.waiting
      → Fits snapshot
      → Step c (record c { session = woken snapshot c.session })

pub data Reach (message_id : ℕ) (message : Bytes) (write_concern : ℕ) : Cluster → Type 0 where
  begin :
      (snapshot : Option (List ℕ))
      → Fits snapshot
      → Reach message_id message write_concern (record {
        session = opened message_id message write_concern snapshot;
        stores = [];
        confirmed = [];
      })
  later :
      {c d : Cluster}
      → Reach message_id message write_concern c
      → Step c d
      → Reach message_id message write_concern d
