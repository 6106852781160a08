-- ===== src/Tests/Nodes.antt =====
-- A master with two secondaries, the first of which becomes operational and leaves.
use distributed_systems_hw.Base.{◌≡◌, refl, none, some, List, [], ◌∷◌, arith, Bytes}
use distributed_systems_hw.Base.Maps.{find, assign, erase}
use distributed_systems_hw.Proto.Platform.{returned}
use distributed_systems_hw.Master.Storage.Log.{IsLog}
use distributed_systems_hw.Master.MasterNode.{
  MasterNode, PingResult, Pong, pong, exception, operational, registering, create,
  add_secondary_impl, on_invalidated, on_incoming_secondary_node_ready, secondaries_snapshot,
  ping_secondaries, ids_of,
}
use distributed_systems_hw.Master.MasterNode.Members.{
  Reach, begin, connected, lost, ready, IsGood, reached-IsGood,
}
use distributed_systems_hw.Master.MasterNode.Messages.{
  Reports, ping-Reports, Accepts, add_message-Accepts,
}

abbrev name : Bytes
name = 115 ∷ 49 ∷ []

abbrev two : MasterNode
two = (add_secondary_impl (add_secondary_impl create).0).0

abbrev named : MasterNode
named = (on_incoming_secondary_node_ready 0 name two).0

abbrev one_left : MasterNode
one_left = (on_invalidated 0 named).0

one_left-Reach : Reach one_left 2 (0 ∷ [])
one_left-Reach =
    lost 0 (ready 0 name (connected (connected begin (omega arith)) (omega arith))) (omega arith)

reached-IsGood_example : IsGood one_left 2 (0 ∷ [])
reached-IsGood_example = reached-IsGood one_left-Reach

names_of_two :
    secondaries_snapshot named
    ≡ record { id = 0; friendly_name = some name; state = operational }
      ∷ record { id = 1; friendly_name = none; state = registering }
      ∷ []
unfolding find assign add_secondary_impl on_incoming_secondary_node_ready
names_of_two = refl

first_is_gone : ids_of (secondaries_snapshot one_left) ≡ 1 ∷ []
unfolding find assign erase add_secondary_impl on_incoming_secondary_node_ready on_invalidated
first_is_gone = refl

abbrev responses : List Pong
responses = pong 12 ∷ exception (111 ∷ []) ∷ []

ping-Reports_example :
    (results : List PingResult) × (ping_secondaries 10 responses named ≡ returned results)
    × Reports 10 (secondaries_snapshot named) responses results
unfolding find assign add_secondary_impl on_incoming_secondary_node_ready
ping-Reports_example = ping-Reports 10 responses named refl

no_messages : IsLog create.storage []
unfolding find
no_messages = record { counted = refl; small = omega arith; entries = λ i. refl }

add_message-Accepts_example : Accepts create [] name 3
add_message-Accepts_example = add_message-Accepts create [] name 3 (omega arith) no_messages
