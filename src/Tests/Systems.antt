-- ===== src/Tests/Systems.antt =====
-- A master and a secondary: a message is posted, the secondary asks, loses its connection, asks
-- again, catches up, and gets a second message.
use distributed_systems_hw.Base.{
  ℕ, ◌≤◌, ◌≡◌, refl, none, some, [], ◌∷◌, true, false, arith, length, take, Bytes,
}
use distributed_systems_hw.Base.Maps.{find, insert, assign, erase}
use distributed_systems_hw.Scan.{chunk_loop, gap_loop}
use distributed_systems_hw.Master.Storage as MasterStorage
use distributed_systems_hw.Secondary.Storage.{
  add_message, add_messages, add_messages_loop, get_first_gap, get_contiguous_chunk,
}
use distributed_systems_hw.Secondary.MasterSession.{
  run, ask_for_messages, notify_operational, on_messages,
}
use distributed_systems_hw.Secondary.SecondaryNode.{
  disconnect_master_session, on_session_operational, emit, emit_all, run_master_session, on_connect,
  messages_answered,
}
use distributed_systems_hw.System.{
  Asked, World, posted, connected, master_answered, answered, Reach, start, later,
}
use distributed_systems_hw.System.Links.{IsLinked, Reach-IsLinked}
use distributed_systems_hw.System.Replication.{shows_prefix}
use distributed_systems_hw.System.Recovery.{Steps, can_catch_up}

abbrev name : Bytes
name = 115 ∷ []

abbrev hi : Bytes
hi = 104 ∷ 105 ∷ []

abbrev ok : Bytes
ok = 111 ∷ 107 ∷ []

abbrev linked : World
linked = record {
  master = MasterStorage.empty;
  log = [];
  node = record {
    friendly_name = name;
    master_reconnect_interval = 3000;
    operational = false;
    storage = record { messages = [] };
    session = some 0;
  };
  attempts = 0;
  timers = 0;
  sessions = 1;
  asked = (0, record { gap = 0; reply = none }) ∷ [];
  caught = 0;
}

-- Two messages are posted before the master answers, the second when its answer is on its way.
abbrev posted_one : World
posted_one = record linked {
  master = record { next_message_id = 1; messages = (0, hi) ∷ [] };
  log = hi ∷ [];
}

abbrev reply : Asked
reply = record { gap = 0; reply = some (hi ∷ [], 1) }

abbrev replied : World
replied = record posted_one { asked = (0, reply) ∷ [] }

abbrev posted_two : World
posted_two = record replied {
  master = record { next_message_id = 2; messages = (0, hi) ∷ (1, ok) ∷ [] };
  log = hi ∷ ok ∷ [];
}

abbrev pub up : World
up = record posted_two {
  node = record {
    friendly_name = name;
    master_reconnect_interval = 3000;
    operational = true;
    storage = record { messages = (0, hi) ∷ [] };
    session = some 0;
  };
  asked = [];
  caught = 1;
}

posted_one-Reach : Reach name posted_one
unfolding on_connect run_master_session disconnect_master_session run ask_for_messages get_first_gap
    gap_loop emit_all emit find insert assign MasterStorage.add_message
posted_one-Reach = later (later {v = linked} start (connected false 0 refl)) (posted hi)

replied-Reach : Reach name replied
unfolding find assign MasterStorage.get_contiguous_chunk chunk_loop
replied-Reach = later posted_one-Reach (master_answered 0 (record { gap = 0; reply = none }) refl)

posted_two-Reach : Reach name posted_two
unfolding find insert MasterStorage.add_message
posted_two-Reach = later replied-Reach (posted ok)

pub up-Reach : Reach name up
unfolding find insert erase messages_answered on_messages notify_operational add_messages
    add_messages_loop add_message emit_all emit on_session_operational
up-Reach = later posted_two-Reach (answered 0 reply (hi ∷ []) 1 refl refl)

Reach-IsLinked_example : IsLinked up
Reach-IsLinked_example = Reach-IsLinked up-Reach

shows_prefix_example :
    (n : ℕ) × (get_contiguous_chunk up.node.storage 0
      ≡ take n (MasterStorage.get_contiguous_chunk up.master 0))
    × (true ≡ true → 1 ≤ length (get_contiguous_chunk up.node.storage 0))
shows_prefix_example = shows_prefix up-Reach (omega arith)

can_catch_up_example :
    (v : World) × Steps up v
    × (v.log ≡ hi ∷ ok ∷ [])
    × (v.node.operational ≡ true)
    × (get_contiguous_chunk v.node.storage 0 ≡ MasterStorage.get_contiguous_chunk v.master 0)
can_catch_up_example = can_catch_up up-Reach (omega arith)
