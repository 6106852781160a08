-- ===== src/Secondary/SecondaryNode.antt =====
-- app/secondary-node/secondarynode: the storage of a secondary, and its session with the master. A
-- session is named by a handle; what comes back to a session that is gone does nothing, which the
-- source has from weakSelf and from slots that track the session.
use distributed_systems_hw.Base.{
  ℕ, Option, none, some, List, [], ◌∷◌, ◌++◌, Bool, true, false, ◌==◌, if◌then◌else◌, Bytes,
}
use distributed_systems_hw.Secondary.Storage
use distributed_systems_hw.Secondary.Storage.{Storage}
use distributed_systems_hw.Secondary.MasterSession
use distributed_systems_hw.Secondary.MasterSession.{Effect}

-- class SecondaryNode
pub record SecondaryNode : Type 0 where
  pub friendly_name : Bytes
  pub master_reconnect_interval : ℕ
  pub operational : Bool
  pub storage : Storage
  pub session : Option ℕ

-- What a node does: async_connect, the timer of launchWithDelay, and the effects of a session that
-- are not its signals.
pub data Action : Type 0 where
  connect : Action
  reconnect_later : (ms : ℕ) → Action
  of_session : (handle : ℕ) → Effect → Action

-- SecondaryNode::create()
abbrev pub create : Bytes → ℕ → SecondaryNode
create friendly_name master_reconnect_interval = record {
  friendly_name = friendly_name;
  master_reconnect_interval = master_reconnect_interval;
  operational = false;
  storage = Storage.empty;
  session = none;
}

-- reconnectToMaster(), before it waits; run() is this too.
abbrev pub reconnect_to_master : List Action
reconnect_to_master = connect ∷ []

-- disconnectMasterSession()
unfoldable pub disconnect_master_session : SecondaryNode → SecondaryNode
disconnect_master_session n = record n { session = none; operational = false }

-- onSessionInvalidated()
unfoldable pub on_session_invalidated : SecondaryNode → SecondaryNode × List Action
unfolding disconnect_master_session
on_session_invalidated n = (disconnect_master_session n, reconnect_to_master)

-- onSessionOperational()
unfoldable pub on_session_operational : SecondaryNode → SecondaryNode
on_session_operational n = record n { operational = true }

-- One effect of session `handle`: its signals call the slots of the node.
unfoldable pub emit : ℕ → Effect → SecondaryNode → SecondaryNode × List Action
unfolding on_session_invalidated on_session_operational
emit handle Effect.invalidated n = on_session_invalidated n
emit handle Effect.operational n = (on_session_operational n, [])
emit handle effect n = (n, of_session handle effect ∷ [])

-- The effects in the order in which the session has them.
unfoldable pub emit_all : ℕ → List Effect → SecondaryNode → SecondaryNode × List Action
emit_all handle [] n = (n, [])
emit_all handle (effect ∷ rest) n =
    let first = emit handle effect n in
    let others = emit_all handle rest first.0 in (others.0, first.1 ++ others.1)

-- runMasterSession(), for a new session `handle`.
unfoldable pub run_master_session : ℕ → SecondaryNode → SecondaryNode × List Action
unfolding disconnect_master_session
run_master_session handle n =
    let fresh = record (disconnect_master_session n) { session = some handle } in
    emit_all handle (MasterSession.run fresh.storage) fresh

-- The callback of async_connect: an error, or a socket whose session will be `handle`.
unfoldable pub on_connect : Bool → ℕ → SecondaryNode → SecondaryNode × List Action
unfolding run_master_session
on_connect true handle n = (n, reconnect_later n.master_reconnect_interval ∷ [])
on_connect false handle n = run_master_session handle n

-- The callback of the timer: with an error it is not called back.
unfoldable pub on_reconnect_timer : Bool → List Action
on_reconnect_timer true = []
on_reconnect_timer false = reconnect_to_master

-- weakSelf.lock(), for session `handle`.
abbrev pub is_current : ℕ → Option ℕ → Bool
is_current handle none = false
is_current handle (some current) = current == handle

-- The session functions, behind that test. `with_storage` is for those that change the storage.
abbrev pub with_storage :
    ℕ → (Storage → Storage × List Effect) → SecondaryNode → SecondaryNode × List Action
with_storage handle f n =
    let done = f n.storage in emit_all handle done.1 (record n { storage = done.0 })

unfoldable pub messages_answered :
    ℕ → ℕ → Option (List Bytes) → SecondaryNode → SecondaryNode × List Action
messages_answered handle gap answer n =
    if is_current handle n.session
    then with_storage handle (MasterSession.on_messages n.friendly_name gap answer) n
    else (n, [])

unfoldable pub ready_answered : ℕ → Bool → SecondaryNode → SecondaryNode × List Action
ready_answered handle acknowledged n =
    if is_current handle n.session
    then emit_all handle (MasterSession.on_ready_acknowledged n.friendly_name acknowledged) n
    else (n, [])

unfoldable pub endpoint_invalidated : ℕ → SecondaryNode → SecondaryNode × List Action
endpoint_invalidated handle n =
    if is_current handle n.session
    then emit_all handle MasterSession.on_endpoint_invalidated n
    else (n, [])

unfoldable pub add_message_arrived : ℕ → ℕ → Bytes → ℕ → SecondaryNode → SecondaryNode × List Action
add_message_arrived handle msg_id msg response n =
    if is_current handle n.session
    then with_storage handle (MasterSession.on_incoming_add_message msg_id msg response) n
    else (n, [])

unfoldable pub ping_arrived : ℕ → ℕ → ℕ → SecondaryNode → SecondaryNode × List Action
ping_arrived handle now response n =
    if is_current handle n.session
    then emit_all handle (MasterSession.on_incoming_ping now response) n
    else (n, [])
