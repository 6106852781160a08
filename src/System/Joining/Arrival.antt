-- ===== src/System/Joining/Arrival.antt =====
-- Whether a message arrives at a secondary that joins while it is posted.
use distributed_systems_hw.Base.{ℕ, ◌+◌, ◌*◌, length}
use distributed_systems_hw.Master.AddMessageRequest.Session.{Session}
use distributed_systems_hw.Master.Storage.Writers as Writers
use distributed_systems_hw.Secondary.Storage as SecondaryStorage
use distributed_systems_hw.Secondary.Storage.{add_messages}
use distributed_systems_hw.System.Joining.{World, Reach, asked}
use distributed_systems_hw.System.Joining.Knowing.{Knows}
use distributed_systems_hw.System.Joining.Sending.{Sends}

-- What is to stay below 2^64 for the ids not to wrap around.
abbrev pub size : World → ℕ
size w = length w.store.messages + 2 * length w.writers.log

module _ (id write_concern peer : ℕ) where
  record Inv (w : World) : Type 0 where
    pub reach : Writers.Reach w.writers
    pub knows : Knows id w.writers.log w.store.messages w.asked w.reply w.taken w.confirmed
    pub sends :
        Sends id peer w.writers.storage.messages w.request w.connection w.reply w.taken w.confirmed
