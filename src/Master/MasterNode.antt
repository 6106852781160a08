-- ===== src/Master/MasterNode.antt =====
-- app/master-node/masternode and app/master-node/secondary: the messages of the master and the
-- secondaries that are connected to it. The functions that a method posts are events; an endpoint is
-- named by the id of its secondary.
pub mod Members
pub mod Messages
use Prim.Native.String.{String}
use distributed_systems_hw.Base.{
  ℕ, ◌+◌, ◌-◌, Bool, true, false, Option, none, some, List, [], ◌∷◌, ◌++◌, leb, if◌then◌else◌,
  get_elem?, Bytes, next_u64,
}
use distributed_systems_hw.Base.Maps.{Map, find, assign, erase}
use distributed_systems_hw.Proto.Platform.{Exec, returned, thrown, ◌>>=◌}
use distributed_systems_hw.Master.Storage
use distributed_systems_hw.Master.Storage.{Storage}
use distributed_systems_hw.Master.AddMessageRequest
use distributed_systems_hw.Master.AddMessageRequest.{AddMessageRequest, Action}

-- enum class SecondaryState
pub data SecondaryState : Type 0 where
  invalidated registering operational : SecondaryState

-- operator<<
unfoldable pub show_state : SecondaryState → String
show_state invalidated = "SecondaryState::INVALIDATED"
show_state registering = "SecondaryState::REGISTERING"
show_state operational = "SecondaryState::OPERATIONAL"

-- class SecondaryNode
pub record SecondaryNode : Type 0 where
  pub id : ℕ
  pub friendly_name : Option Bytes
  pub state : SecondaryState

-- SecondaryNode::create()
abbrev pub create_node : ℕ → SecondaryNode
create_node id = record { id = id; friendly_name = none; state = registering }

abbrev pub set_friendly_name : Bytes → SecondaryNode → SecondaryNode
set_friendly_name name node = record node { friendly_name = some name }

abbrev pub set_operational : SecondaryNode → SecondaryNode
set_operational node = record node { state = operational }

abbrev pub set_invalidated : SecondaryNode → SecondaryNode
set_invalidated node = record node { state = invalidated }

-- struct SecondarySnapshot
pub record SecondarySnapshot : Type 0 where
  pub id : ℕ
  pub friendly_name : Option Bytes
  pub state : SecondaryState

-- class MasterNode
pub record MasterNode : Type 0 where
  pub secondary_id_counter : ℕ
  pub secondaries : Map SecondaryNode
  pub storage : Storage

abbrev pub create : MasterNode
create = record { secondary_id_counter = 0; secondaries = []; storage = Storage.empty }

-- The loop of secondariesSnapshot().
abbrev pub snapshot_loop : Map SecondaryNode → List SecondarySnapshot
snapshot_loop [] = []
snapshot_loop ((id, secondary) ∷ rest) =
    record { id = id; friendly_name = secondary.friendly_name; state = secondary.state }
    ∷ snapshot_loop rest

-- secondariesSnapshot()
abbrev pub secondaries_snapshot : MasterNode → List SecondarySnapshot
secondaries_snapshot m = snapshot_loop m.secondaries

-- The part of a snapshot that AddMessageRequest reads.
abbrev pub ids_of : List SecondarySnapshot → List ℕ
ids_of [] = []
ids_of (s ∷ rest) = s.id ∷ ids_of rest

-- addSecondaryImpl(): the new state and the id, to whose endpoint the slots are connected.
unfoldable pub add_secondary_impl : MasterNode → MasterNode × ℕ
add_secondary_impl m =
    let id = m.secondary_id_counter in
    (
      record m {
        secondary_id_counter = next_u64 id;
        secondaries = assign id (create_node id) m.secondaries;
      },
      id,
    )

-- onInvalidated(): the new state, and the node that leaves it.
unfoldable pub on_invalidated : ℕ → MasterNode → MasterNode × Option SecondaryNode
on_invalidated id m = elim (find id m.secondaries) [
  | none ↦ (m, none)
  | some secondary ↦
      (record m { secondaries = erase id m.secondaries }, some (set_invalidated secondary))
]

-- onIncomingGetMessages(): what the response is set to.
unfoldable pub on_incoming_get_messages : ℕ → MasterNode → List Bytes
on_incoming_get_messages start_msg_id m = Storage.get_contiguous_chunk m.storage start_msg_id

-- onIncomingSecondaryNodeReady(): the new state, and whether the response is set.
unfoldable pub on_incoming_secondary_node_ready : ℕ → Bytes → MasterNode → MasterNode × Bool
on_incoming_secondary_node_ready id name m = elim (find id m.secondaries) [
  | none ↦ (m, false)
  | some secondary ↦ (
    record m {
      secondaries = assign id (set_operational (set_friendly_name name secondary)) m.secondaries;
    },
    true,
  )
]

-- What addMessage() returns: a future that is ready, or the one of the request.
pub data Future : Type 0 where
  ready of_request : Future

pub record Added : Type 0 where
  pub node : MasterNode
  pub request : AddMessageRequest
  pub actions : List Action
  pub future : Future

-- The write concern of the request: the master's own copy is not counted there.
abbrev pub request_concern : ℕ → ℕ
request_concern write_concern = if leb write_concern 1 then 0 else write_concern - 1

-- addMessage(), with no other call between its steps.
unfoldable pub add_message : Bytes → ℕ → MasterNode → Added
add_message message write_concern m =
    let stored = Storage.add_message message m.storage in
    let request = AddMessageRequest.create stored.0 stored.1 (request_concern write_concern) in
    let started = AddMessageRequest.start (some (ids_of (secondaries_snapshot m))) request in
    record {
      node = record m { storage = stored.2 };
      request = started.0;
      actions = started.1;
      future = if leb write_concern 1 then ready else of_request;
    }

-- What a ping comes to: the timestamp of the pong, or an exception with its diagnostic information.
pub data Pong : Type 0 where
  pong : ℕ → Pong
  exception : Bytes → Pong

-- struct PingResult
pub record PingResult : Type 0 where
  pub secondary_id : ℕ
  pub secondary_friendly_name : Option Bytes
  pub secondary_state : SecondaryState
  pub ping_timestamp : ℕ
  pub pong_timestamp : Option ℕ
  pub exception_string : Option Bytes

abbrev pub pong_timestamp_of : Pong → Option ℕ
pong_timestamp_of (pong t) = some t
pong_timestamp_of (exception text) = none

abbrev pub exception_string_of : Pong → Option Bytes
exception_string_of (pong t) = none
exception_string_of (exception text) = some text

-- The body of the loop of pingSecondaries(), for secondary `s`.
abbrev pub ping_result : ℕ → SecondarySnapshot → Pong → PingResult
ping_result ping_timestamp s response = record {
  secondary_id = s.id;
  secondary_friendly_name = s.friendly_name;
  secondary_state = s.state;
  ping_timestamp = ping_timestamp;
  pong_timestamp = pong_timestamp_of response;
  exception_string = exception_string_of response;
}

-- The loop of pingSecondaries() over the responses from index i on; snapshot.at(i) throws behind
-- the end.
unfoldable pub ping_loop :
    ℕ → List SecondarySnapshot → ℕ → List Pong → List PingResult → Exec (List PingResult)
ping_loop ping_timestamp snapshot i [] results = returned results
ping_loop ping_timestamp snapshot i (response ∷ responses) results = elim (get_elem? snapshot i) [
  | none ↦ thrown
  | some s ↦
      ping_loop ping_timestamp snapshot (i + 1) responses
        (results ++ ping_result ping_timestamp s response ∷ [])
]

-- pingSecondaries(), before it waits: the secondaries that a ping is sent to; with none of them the
-- future is ready with no results.
abbrev pub pings : MasterNode → List ℕ
pings m = ids_of (secondaries_snapshot m)

-- pingSecondaries(), behind when_all: the responses are those of the pings, in order.
unfoldable pub ping_secondaries : ℕ → List Pong → MasterNode → Exec (List PingResult)
unfolding ping_loop
ping_secondaries ping_timestamp responses m =
    ping_loop ping_timestamp (secondaries_snapshot m) 0 responses []
