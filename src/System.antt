-- ===== src/System.antt =====
-- A master and one secondary as they run together: app/master-node/storage and app/secondary-node.
-- What is on its way between them, and what the secondary waits for, is a multiset of events that
-- come in any order; a message that the master has stored arrives any number of times.
pub mod Links
pub mod Steps
pub mod Callbacks
pub mod Replication
pub mod Recovery
pub mod Clients
pub mod Writing
pub mod Joining
use distributed_systems_hw.Base.{
  ℕ, ◌+◌, ◌≡◌, Option, none, some, List, [], ◌∷◌, ◌++◌, length, Bool, false, if◌then◌else◌, Bytes,
  suc,
}
use distributed_systems_hw.Base.Maps.{Map, find, assign, erase}
use distributed_systems_hw.Master.Storage as MasterStorage
use distributed_systems_hw.Secondary.MasterSession.{Effect}
use distributed_systems_hw.Secondary.SecondaryNode.{
  SecondaryNode, Action, create, connect, reconnect_later, of_session, reconnect_to_master,
  on_connect, on_reconnect_timer, is_current, messages_answered, ready_answered,
  endpoint_invalidated, add_message_arrived, ping_arrived,
}

-- A getMessages request of a session: where it starts, and the answer once the master has given it,
-- with how many messages the master had then.
pub record Asked : Type 0 where
  pub gap : ℕ
  pub reply : Option (List Bytes × ℕ)

-- `log` is every message that the master was given, in order, `sessions` the handle of the next
-- session, and `caught` what the master had when it gave the last answer that was taken.
pub record World : Type 0 where
  pub master : MasterStorage.Storage
  pub log : List Bytes
  pub node : SecondaryNode
  pub attempts : ℕ
  pub timers : ℕ
  pub sessions : ℕ
  pub asked : Map Asked
  pub caught : ℕ

-- What an action puts on its way.
abbrev pub note : Action → World → World
note connect w = record w { attempts = suc w.attempts }
note (reconnect_later ms) w = record w { timers = suc w.timers }
note (of_session handle (Effect.send_get_messages gap)) w = record w {
  asked = assign handle (record { gap = gap; reply = none }) w.asked;
}
note other w = w

abbrev pub note_all : List Action → World → World
note_all [] w = w
note_all (action ∷ rest) w = note_all rest (note action w)

abbrev pub commit : SecondaryNode × List Action → World → World
commit out w = note_all out.1 (record w { node = out.0 })

-- A secondary that is run, as main() does it with kMasterReconnectTimeout, beside a master without messages.
abbrev pub started : Bytes → World
started friendly_name =
    commit (create friendly_name 3000, reconnect_to_master)
      (record {
        master = MasterStorage.empty;
        log = [];
        node = create friendly_name 3000;
        attempts = 0;
        timers = 0;
        sessions = 0;
        asked = [];
        caught = 0;
      })

-- The timer is never cancelled.
pub data Step (w : World) : World → Type 0 where
  posted :
      (message : Bytes)
      → Step w (record w {
        master = (MasterStorage.add_message message w.master).2;
        log = w.log ++ message ∷ [];
      })
  connected :
      (error : Bool) (k : ℕ)
      → w.attempts ≡ suc k
      → Step w (
          commit
            (on_connect error w.sessions w.node)
            (record w { attempts = k; sessions = suc w.sessions }))
  timer_fired :
      (k : ℕ)
      → w.timers ≡ suc k
      → Step w (commit (w.node, on_reconnect_timer false) (record w { timers = k }))
  master_answered :
      (handle : ℕ) (a : Asked)
      → find handle w.asked ≡ some a
      → Step w (record w {
        asked =
            assign handle
              (record a {
                reply = some (MasterStorage.get_contiguous_chunk w.master a.gap, length w.log);
              })
              w.asked;
      })
  answered :
      (handle : ℕ) (a : Asked) (messages : List Bytes) (had : ℕ)
      → find handle w.asked ≡ some a
      → a.reply ≡ some (messages, had)
      → Step w (
          commit (messages_answered handle a.gap (some messages) w.node) (record w {
            asked = erase handle w.asked;
            caught = if is_current handle w.node.session then had else w.caught;
          }))
  unanswered :
      (handle : ℕ) (a : Asked)
      → find handle w.asked ≡ some a
      → Step w (
          commit
            (messages_answered handle a.gap none w.node)
            (record w { asked = erase handle w.asked }))
  acknowledged :
      (handle : ℕ) (received : Bool) → Step w (commit (ready_answered handle received w.node) w)
  invalidated : (handle : ℕ) → Step w (commit (endpoint_invalidated handle w.node) w)
  message_arrived :
      (handle id : ℕ) (message : Bytes) (promise : ℕ)
      → find id w.master.messages ≡ some message
      → Step w (commit (add_message_arrived handle id message promise w.node) w)
  pinged : (handle now promise : ℕ) → Step w (commit (ping_arrived handle now promise w.node) w)

pub data Reach (friendly_name : Bytes) : World → Type 0 where
  start : Reach friendly_name (started friendly_name)
  later : {w v : World} → Reach friendly_name w → Step w v → Reach friendly_name v
