-- ===== src/Secondary/MasterSession.antt =====
-- app/secondary-node/mastersession: one connection of a secondary to its master. The endpoint is
-- Proto/Endpoint; its futures come back as calls of the functions named for their answers.
use distributed_systems_hw.Base.{ℕ, Option, none, some, List, [], ◌∷◌, Bool, true, false, Bytes}
use distributed_systems_hw.Proto.Codes.{AddMessageStatus, ok}
use distributed_systems_hw.Secondary.Storage
use distributed_systems_hw.Secondary.Storage.{Storage}

-- What a session does: calls on its endpoint, its two signals, and the promises it sets.
pub data Effect : Type 0 where
  run_endpoint : Effect
  send_get_messages : (start_msg_id : ℕ) → Effect
  send_secondary_node_ready : (secondary_name : Bytes) → Effect
  invalidated operational : Effect
  set_status : (promise : ℕ) → AddMessageStatus → Effect
  set_timestamp : (promise : ℕ) → (timestamp : ℕ) → Effect

-- askForMessages(), before it waits.
unfoldable pub ask_for_messages : Storage → List Effect
ask_for_messages storage = send_get_messages (Storage.get_first_gap storage) ∷ []

-- notifyOperational(), before it waits.
unfoldable pub notify_operational : Bytes → List Effect
notify_operational friendly_name = send_secondary_node_ready friendly_name ∷ []

-- run()
unfoldable pub run : Storage → List Effect
run storage = run_endpoint ∷ ask_for_messages storage

-- The callback in askForMessages(): `gap` was asked for, and the future has a value or an exception.
unfoldable pub on_messages : Bytes → ℕ → Option (List Bytes) → Storage → Storage × List Effect
on_messages friendly_name gap (some messages) storage =
    (Storage.add_messages gap messages storage, operational ∷ notify_operational friendly_name)
on_messages friendly_name gap none storage = (storage, ask_for_messages storage)

-- The callback in notifyOperational(): whether the future has a value.
unfoldable pub on_ready_acknowledged : Bytes → Bool → List Effect
on_ready_acknowledged friendly_name true = []
on_ready_acknowledged friendly_name false = notify_operational friendly_name

-- onEndpointInvalidated()
unfoldable pub on_endpoint_invalidated : List Effect
on_endpoint_invalidated = invalidated ∷ []

-- onIncomingAddMessage()
unfoldable pub on_incoming_add_message : ℕ → Bytes → ℕ → Storage → Storage × List Effect
on_incoming_add_message msg_id msg response storage =
    (Storage.add_message msg_id msg storage, set_status response ok ∷ [])

-- onIncomingPing(), at the time `now`.
unfoldable pub on_incoming_ping : ℕ → ℕ → List Effect
on_incoming_ping now response = set_timestamp response now ∷ []
