-- ===== src/Tests/Writing.antt =====
-- A message with a write concern of 1 that one secondary stores and confirms.
use distributed_systems_hw.Base.{some, [], ◌∷◌, Bytes}
use distributed_systems_hw.Base.Maps.{assign}
use distributed_systems_hw.Proto.Codes.{ok}
use distributed_systems_hw.Master.AddMessageRequest.Session.{opened, answered}
use distributed_systems_hw.Secondary.Storage.{empty}
use distributed_systems_hw.System.Writing.{Cluster, store}

abbrev hi : Bytes
hi = 104 ∷ 105 ∷ []

abbrev opened_one : Cluster
opened_one = record { session = opened 0 hi 1 (some (7 ∷ [])); stores = []; confirmed = [] }

abbrev joined_one : Cluster
joined_one = record opened_one { stores = assign 7 empty [] }

abbrev stored_one : Cluster
stored_one = store 7 50 empty joined_one

abbrev answered_one : Cluster
answered_one = record stored_one {
  session = answered 7 (some ok) (some (7 ∷ [])) stored_one.session;
}
