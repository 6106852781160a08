-- ===== src/System/Replication.antt =====
-- The master's messages and what a secondary has of them, whatever is lost, late or repeated between
-- the two, and however often they lose each other.
use distributed_systems_hw.Base.{
  ℕ, ◌+◌, ◌*◌, ◌≤◌, ◌<◌, ◌≡◌, refl, sym, ap, ◌∙◌, [], ◌∷◌, true, false, arith, length, take,
  length-append, dec_lt, Bytes, u64_mod,
}
use distributed_systems_hw.Base.Maps.{find, length-insert_ge}
use distributed_systems_hw.Master.Storage as MasterStorage
use distributed_systems_hw.Master.Storage.Log.{chunk-eq-drop}
use distributed_systems_hw.Secondary.Storage.{add_message, get_contiguous_chunk}
use distributed_systems_hw.Secondary.Storage.Replica.{gap-eq-length-chunk, chunk-From}
use distributed_systems_hw.Secondary.Storage.Answers.{length-add_messages_ge}
use distributed_systems_hw.Secondary.MasterSession.{
  run, ask_for_messages, notify_operational, on_messages, on_ready_acknowledged,
  on_endpoint_invalidated, on_incoming_add_message, on_incoming_ping,
}
use distributed_systems_hw.Secondary.SecondaryNode.{
  disconnect_master_session, on_session_invalidated, on_session_operational, emit, emit_all,
  run_master_session, on_connect, on_reconnect_timer, messages_answered, ready_answered,
  endpoint_invalidated, add_message_arrived, ping_arrived,
}
use distributed_systems_hw.System.{
  World, started, Step, posted, connected, timer_fired, master_answered, answered, unanswered,
  acknowledged, invalidated, message_arrived, pinged, Reach, start, later,
}
use distributed_systems_hw.System.Steps.{
  IsReplica, posted-IsReplica, connected-IsReplica, master_answered-IsReplica,
  message_arrived-IsReplica,
}
use distributed_systems_hw.System.Callbacks.{
  answered-IsReplica, unanswered-IsReplica, acknowledged-IsReplica, invalidated-IsReplica,
  pinged-IsReplica,
}

-- Twice the messages that were posted, and those that the secondary stores.
abbrev pub size : World → ℕ
size w = length w.node.storage.messages + 2 * length w.log

-- Nothing is lost from the log or the storage.
size-Step : {w v : World} → Step w v → size w ≤ size v
unfolding on_connect run_master_session emit_all emit disconnect_master_session run ask_for_messages
    notify_operational on_messages on_ready_acknowledged on_endpoint_invalidated
    on_incoming_add_message on_incoming_ping on_session_invalidated on_session_operational
    on_reconnect_timer messages_answered ready_answered endpoint_invalidated add_message_arrived
    ping_arrived add_message
size-Step {w} (posted message) = omega (arith, length-append w.log (message ∷ []))
size-Step (connected true k e) = omega arith
size-Step (connected false k e) = omega arith
size-Step (timer_fired k e) = omega arith
size-Step (master_answered handle a e) = omega arith
size-Step {w} (answered handle a messages had e f) =
    ground (arith, length-add_messages_ge a.gap messages w.node.storage)
size-Step (unanswered handle a e) = ground arith
size-Step (acknowledged handle received) = ground arith
size-Step (invalidated handle) = ground arith
size-Step {w} (message_arrived handle id message promise e) =
    ground (arith, length-insert_ge id message w.node.storage.messages)
size-Step (pinged handle now promise) = ground arith

Step-IsReplica :
    {w v : World} → Step w v → size w < u64_mod → size v < u64_mod → IsReplica w → IsReplica v
unfolding on_connect on_reconnect_timer
Step-IsReplica {w} (posted message) h g r =
    posted-IsReplica h r message (omega (arith, g, length-append w.log (message ∷ [])))
Step-IsReplica (connected true k e) h g r = record {
  master = r.master;
  from = r.from;
  caught = r.caught;
  asked = r.asked;
}
Step-IsReplica (connected false k e) h g r = connected-IsReplica h r k
Step-IsReplica (timer_fired k e) h g r = record {
  master = r.master;
  from = r.from;
  caught = r.caught;
  asked = r.asked;
}
Step-IsReplica (master_answered handle a e) h g r = master_answered-IsReplica h r handle a e
Step-IsReplica (answered handle a messages had e f) h g r =
    answered-IsReplica h r handle a messages had e f
Step-IsReplica (unanswered handle a e) h g r = unanswered-IsReplica h r handle a
Step-IsReplica (acknowledged handle received) h g r = acknowledged-IsReplica h r handle received
Step-IsReplica (invalidated handle) h g r = invalidated-IsReplica h r handle
Step-IsReplica (message_arrived handle id message promise e) h g r =
    message_arrived-IsReplica h r handle id message promise e
Step-IsReplica (pinged handle now promise) h g r = pinged-IsReplica h r handle now promise

started-IsReplica : (name : Bytes) → IsReplica (started name)
unfolding find
started-IsReplica name = record {
  master = record { counted = refl; small = omega arith; entries = λ i. refl };
  from = λ i v e. cc;
  caught = λ e. cc;
  asked = λ h a e. cc;
}

pub Reach-IsReplica : {name : Bytes} {w : World} → Reach name w → size w < u64_mod → IsReplica w
Reach-IsReplica {name} start h = started-IsReplica name
Reach-IsReplica (later {w = u} reach st) h =
    let before : size u < u64_mod = omega (arith, h, size-Step st) in
    Step-IsReplica st before h (Reach-IsReplica reach before)

-- In every state that a master and a secondary reach, while twice the messages posted plus those
-- that the secondary stores are fewer than 2^64: what the secondary shows from 0 on is the beginning
-- of what the master shows; and once it is operational it shows at least as many messages as the
-- master had when it gave the last answer that the secondary took.
pub shows_prefix :
    {name : Bytes} {w : World}
    → Reach name w
    → size w < u64_mod
    → (n : ℕ) × (get_contiguous_chunk w.node.storage 0
        ≡ take n (MasterStorage.get_contiguous_chunk w.master 0))
      × (w.node.operational ≡ true → w.caught ≤ length (get_contiguous_chunk w.node.storage 0))
shows_prefix {name} {w} reach h =
    let r = Reach-IsReplica reach h in
    let (n, e) = chunk-From w.log w.node.storage 0 r.from (omega arith) in
    (
      n,
      e ∙ ap (take n) (sym (chunk-eq-drop w.master w.log 0 (omega arith) r.master)),
      λ up. enough r up,
    )
  where
    enough :
        IsReplica w
        → w.node.operational ≡ true
        → w.caught ≤ length (get_contiguous_chunk w.node.storage 0)
    enough r up =
        let (same, missing, present) = gap-eq-length-chunk w.node.storage (omega arith) in
        elim (dec_lt (length (get_contiguous_chunk w.node.storage 0)) w.caught) [
          | no all ↦ omega arith
          | yes short ↦ absurd (r.caught up _ (omega (arith, same, short)) missing)
        ]
