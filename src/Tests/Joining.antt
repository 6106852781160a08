-- ===== src/Tests/Joining.antt =====
-- A secondary that joins while messages are posted: one whose answer was made too early, and one that
-- misses a message.
use distributed_systems_hw.Base.{◌≡◌, refl, none, some, [], ◌∷◌, true, false, arith, Bytes}
use distributed_systems_hw.Base.Maps.{find, insert, erase}
use distributed_systems_hw.Scan.{chunk_loop, gap_loop}
use distributed_systems_hw.Proto.Codes as Codes
use distributed_systems_hw.Master.Storage as MasterStorage
use distributed_systems_hw.Master.Storage.Writers.{Writers, fetch, store}
use distributed_systems_hw.Master.AddMessageRequest.{
  start, update_data, retain, is_present, satisfied_loop, satisfied_write_concern, proceed, go_on,
  request_mark_success,
}
use distributed_systems_hw.Master.AddMessageRequest.Session.{Session, opened, answered}
use distributed_systems_hw.Master.AddMessageRequest.Session.Finished.{IsOver}
use distributed_systems_hw.Secondary.Storage.{
  add_message, add_messages, add_messages_loop, get_first_gap,
}
use distributed_systems_hw.Secondary.MasterSession.{on_messages}
use distributed_systems_hw.System.Joining.{
  World, there, Reply, Reach, later, start as begun, started, wrote, posted, joined, asked, replied,
  took, other_stored,
}

abbrev hi : Bytes
hi = 104 ∷ 105 ∷ []

abbrev ok : Bytes
ok = 111 ∷ 107 ∷ []

-- Message 0 has its id, and secondary 7 joins, asks and is answered before it is stored. Then the
-- message is stored and sent to it.
abbrev early : Reply
early = record { messages = []; with_message = false; settled = false }

abbrev one_fetched : Writers
one_fetched = record {
  storage = record { next_message_id = 1; messages = [] };
  in_flight = (0, hi) ∷ [];
  log = hi ∷ [];
}

abbrev one_stored : Writers
one_stored = record {
  storage = record { next_message_id = 1; messages = (0, hi) ∷ [] };
  in_flight = [];
  log = hi ∷ [];
}

abbrev empty_handed : World
empty_handed = record started { writers = one_fetched; connection = there; taken = some early }

abbrev sent : Session
sent = opened 0 hi 1 (some (7 ∷ []))

abbrev sent_late : World
sent_late = record empty_handed { writers = one_stored; request = some sent }

abbrev got_late : World
got_late = record sent_late { store = record { messages = (0, hi) ∷ [] }; confirmed = true }

abbrev over_late : Session
over_late = answered 7 (some Codes.ok) (some (7 ∷ [])) sent

abbrev over : World
over = record got_late { request = some over_late }

-- Message 1 is stored, posted and over while message 0 is not stored yet. The secondary joins and is
-- answered, with nothing, then message 0 is stored and sent to it: message 1 never comes.
abbrev two_fetched : Writers
two_fetched = record {
  storage = record { next_message_id = 2; messages = [] };
  in_flight = (0, hi) ∷ (1, ok) ∷ [];
  log = hi ∷ ok ∷ [];
}

abbrev second_stored : Writers
second_stored = record {
  storage = record { next_message_id = 2; messages = (1, ok) ∷ [] };
  in_flight = (0, hi) ∷ [];
  log = hi ∷ ok ∷ [];
}

abbrev both_stored : Writers
both_stored = record {
  storage = record { next_message_id = 2; messages = (1, ok) ∷ (0, hi) ∷ [] };
  in_flight = [];
  log = hi ∷ ok ∷ [];
}

abbrev alone : Session
alone = opened 1 ok 0 (some [])

abbrev nothing_yet : Reply
nothing_yet = record { messages = []; with_message = true; settled = false }

abbrev caught_up : World
caught_up = record started {
  writers = second_stored;
  request = some alone;
  connection = there;
  taken = some nothing_yet;
}

abbrev missed : World
missed = record caught_up { writers = both_stored; store = record { messages = (0, hi) ∷ [] } }

caught_up-Reach : Reach 1 0 7 caught_up
unfolding find insert erase MasterStorage.fetch_id MasterStorage.store_message
    MasterStorage.get_contiguous_chunk chunk_loop get_first_gap gap_loop on_messages add_messages
    add_messages_loop
caught_up-Reach =
    let one = later {v = record started { writers = one_fetched }} begun (wrote (fetch hi)) in
    let two = later {v = record started { writers = two_fetched }} one (wrote (fetch ok)) in
    let placed =
      later {v = record started { writers = second_stored }} two (wrote (store 1 ok refl)) in
    let done = later placed (posted ok (some []) refl refl (omega arith, tt) refl) in
    let linked = later done (joined refl) in
    let wants = later linked asked in
    let has = later wants (replied 0 refl (λ e. cc)) in later has (took 0 nothing_yet [] refl refl)

missed-Reach : Reach 1 0 7 missed
unfolding find insert erase MasterStorage.store_message add_message
missed-Reach =
    let placed =
      later {v = record caught_up { writers = both_stored }} caught_up-Reach
        (wrote (store 0 hi refl)) in
    later placed (other_stored 0 hi refl)

missed_lem :
    IsOver alone
    × (find 1 missed.writers.storage.messages ≡ some ok)
    × (find 1 missed.store.messages ≡ none)
unfolding find start update_data retain is_present satisfied_loop satisfied_write_concern proceed
    go_on request_mark_success
missed_lem = (record { kept = refl; quiet = refl; unplanned = refl }, refl, refl)
