-- ===== src/System/Links.antt =====
-- app/secondary-node/secondarynode: that a secondary always has, or is about to have, one session.
use distributed_systems_hw.Base.{
  ℕ, suc, ◌+◌, ◌≡◌, refl, ◌≢◌, Option, none, some, List, Bool, true, false, arith, Bytes,
}
use distributed_systems_hw.Base.Maps.{find, assign, erase, find-assign, find-erase}
use distributed_systems_hw.Secondary.Storage.{get_first_gap}
use distributed_systems_hw.Secondary.MasterSession.{
  run, ask_for_messages, notify_operational, on_messages, on_ready_acknowledged,
  on_endpoint_invalidated, on_incoming_add_message, on_incoming_ping,
}
use distributed_systems_hw.Secondary.SecondaryNode.{
  disconnect_master_session, on_session_invalidated, on_session_operational, emit, emit_all,
  run_master_session, on_connect, on_reconnect_timer, messages_answered, ready_answered,
  endpoint_invalidated, add_message_arrived, ping_arrived,
}
use distributed_systems_hw.System.{
  Asked, World, started, commit, Step, posted, connected, timer_fired, master_answered, answered,
  unanswered, acknowledged, invalidated, message_arrived, pinged, Reach, start, later,
}

-- One if there is a session.
abbrev pub sessions_of : Option ℕ → ℕ
sessions_of none = 0
sessions_of (some handle) = 1

pub record IsLinked (w : World) : Type 0 where
  pub one : sessions_of w.node.session + w.attempts + w.timers ≡ 1
  pub idle : w.node.session ≡ none → w.node.operational ≡ false
  pub waits :
      (handle : ℕ)
      → w.node.session ≡ some handle
      → w.node.operational ≡ false
      → find handle w.asked ≢ none

started-IsLinked : (name : Bytes) → IsLinked (started name)
started-IsLinked name = record { one = refl; idle = λ e. refl; waits = λ h e. cc }

module _ {w : World} (l : IsLinked w) where
  connected-IsLinked :
      (k : ℕ)
      → w.attempts ≡ suc k
      → IsLinked (
          commit
            (on_connect false w.sessions w.node)
            (record w { attempts = k; sessions = suc w.sessions }))
  unfolding on_connect run_master_session emit_all emit disconnect_master_session run
      ask_for_messages
  connected-IsLinked k e = record {
    one = omega (arith, e, l.one);
    idle = λ f. cc;
    waits = λ h f g. ground (
      arith,
      f,
      find-assign h w.sessions (record { gap = get_first_gap w.node.storage; reply = none })
          w.asked,
    );
  }

  master_answered-IsLinked :
      (handle : ℕ) (a b : Asked)
      → find handle w.asked ≡ some a
      → IsLinked (record w { asked = assign handle b w.asked })
  master_answered-IsLinked handle a b e = record {
    one = l.one;
    idle = l.idle;
    waits = λ h f g. ground (arith, l.waits h f g, find-assign h handle b w.asked);
  }

  answered-IsLinked :
      (handle : ℕ) (a : Asked) (messages : List Bytes) (caught : ℕ)
      → IsLinked (
          commit
            (messages_answered handle a.gap (some messages) w.node)
            (record w { asked = erase handle w.asked; caught = caught }))
  unfolding messages_answered emit_all emit on_messages notify_operational on_session_operational
  answered-IsLinked handle a messages caught = record {
    one = ground (arith, l.one);
    idle = λ f. ground (arith, f, l.idle);
    waits = λ h f g. ground (arith, f, g, l.waits h, find-erase h handle w.asked);
  }

  unanswered-IsLinked :
      (handle : ℕ) (a : Asked)
      → IsLinked (
          commit
            (messages_answered handle a.gap none w.node)
            (record w { asked = erase handle w.asked }))
  unfolding messages_answered emit_all emit on_messages ask_for_messages
  unanswered-IsLinked handle a = record {
    one = ground (arith, l.one);
    idle = λ f. ground (arith, f, l.idle);
    waits = λ h f g. ground (
      arith,
      f,
      g,
      l.waits h,
      find-erase h handle w.asked,
      find-assign h handle (record { gap = get_first_gap w.node.storage; reply = none })
          (erase handle w.asked),
    );
  }

  acknowledged-IsLinked :
      (handle : ℕ) (received : Bool) → IsLinked (commit (ready_answered handle received w.node) w)
  unfolding ready_answered emit_all emit on_ready_acknowledged notify_operational
  acknowledged-IsLinked handle received = record {
    one = ground (arith, l.one);
    idle = λ f. ground (arith, f, l.idle);
    waits = λ h f g. ground (arith, f, g, l.waits h);
  }

  invalidated-IsLinked : (handle : ℕ) → IsLinked (commit (endpoint_invalidated handle w.node) w)
  unfolding endpoint_invalidated emit_all emit on_endpoint_invalidated on_session_invalidated
      disconnect_master_session
  invalidated-IsLinked handle = record {
    one = ground (arith, l.one);
    idle = λ f. ground (arith, f, l.idle);
    waits = λ h f g. ground (arith, f, g, l.waits h);
  }

  message_arrived-IsLinked :
      (handle id : ℕ) (message : Bytes) (promise : ℕ)
      → IsLinked (commit (add_message_arrived handle id message promise w.node) w)
  unfolding add_message_arrived emit_all emit on_incoming_add_message
  message_arrived-IsLinked handle id message promise = record {
    one = ground (arith, l.one);
    idle = λ f. ground (arith, f, l.idle);
    waits = λ h f g. ground (arith, f, g, l.waits h);
  }

  pinged-IsLinked :
      (handle now promise : ℕ) → IsLinked (commit (ping_arrived handle now promise w.node) w)
  unfolding ping_arrived emit_all emit on_incoming_ping
  pinged-IsLinked handle now promise = record {
    one = ground (arith, l.one);
    idle = λ f. ground (arith, f, l.idle);
    waits = λ h f g. ground (arith, f, g, l.waits h);
  }

pub Step-IsLinked : {w v : World} → Step w v → IsLinked w → IsLinked v
unfolding on_connect on_reconnect_timer
Step-IsLinked (posted message) l = record { one = l.one; idle = l.idle; waits = l.waits }
Step-IsLinked (connected true k e) l = record {
  one = omega (arith, e, l.one);
  idle = l.idle;
  waits = l.waits;
}
Step-IsLinked (connected false k e) l = connected-IsLinked l k e
Step-IsLinked (timer_fired k e) l = record {
  one = omega (arith, e, l.one);
  idle = l.idle;
  waits = l.waits;
}
Step-IsLinked (master_answered handle a e) l = master_answered-IsLinked l handle a _ e
Step-IsLinked (answered handle a messages had e f) l = answered-IsLinked l handle a messages _
Step-IsLinked (unanswered handle a e) l = unanswered-IsLinked l handle a
Step-IsLinked (acknowledged handle received) l = acknowledged-IsLinked l handle received
Step-IsLinked (invalidated handle) l = invalidated-IsLinked l handle
Step-IsLinked (message_arrived handle id message promise e) l =
    message_arrived-IsLinked l handle id message promise
Step-IsLinked (pinged handle now promise) l = pinged-IsLinked l handle now promise

-- In every state that a master and a secondary reach: the secondary has a session, an attempt to
-- connect or a timer that will start one, and only one of these; without a session it is not
-- operational; and while it has a session and is not operational it waits for the master's answer.
pub Reach-IsLinked : {name : Bytes} {w : World} → Reach name w → IsLinked w
Reach-IsLinked {name} start = started-IsLinked name
Reach-IsLinked (later r st) = Step-IsLinked st (Reach-IsLinked r)
