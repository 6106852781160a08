-- ===== src/System/Writing/Durable.antt =====
-- What a client knows when its message has been answered: how many secondaries have stored it.
use distributed_systems_hw.Base.{ℕ, ◌≡◌, some, List, Bytes, All}
use distributed_systems_hw.Base.Maps.{Map, find}
use distributed_systems_hw.Master.AddMessageRequest.Session as Requests
use distributed_systems_hw.Master.AddMessageRequest.Session.{
  Session, Bounded, opened, answered, woken, note_ack,
}
use distributed_systems_hw.Secondary.Storage.{Storage}
use distributed_systems_hw.System.Writing.Written.{held}

module _ (message_id : ℕ) (message : Bytes) (write_concern : ℕ) where
  -- Each of the secondaries holds the message.
  abbrev pub Holding : Map Storage → List ℕ → Type 0
  Holding stores ids = All (λ j. held message_id (find j stores) ≡ some message) ids
