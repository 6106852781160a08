-- ===== src/System/Clients.antt =====
-- What clients are given by GET /messages, from the master and from the secondary.
use distributed_systems_hw.Base.{
  ℕ, ◌≤◌, ◌≡◌, true, some, get_elem?, List, [], ◌∷◌, if◌then◌else◌, length, take, Bytes,
}
use distributed_systems_hw.Master.Storage as MasterStorage
use distributed_systems_hw.Master.MasterNode.{MasterNode}
use distributed_systems_hw.Master.HttpSession as MasterHttp
use distributed_systems_hw.Master.HttpSession.{done}
use distributed_systems_hw.Secondary.HttpSession as SecondaryHttp
use distributed_systems_hw.NetUtils.Json.{Json, Object, bytes, number, string}
use distributed_systems_hw.NetUtils.HttpSession.{
  Request, Response, Effect, async_write, create, with_body, begin_response, json_response,
  fallback,
}
use distributed_systems_hw.System.{World}

-- The response with an array in json.
abbrev pub ok_response : Json → Request → List Object → Response
ok_response json request array =
    (with_body (json.serialize array) (json_response (begin_response (create request)))).response

-- What is behind the effects of a secondary that is not operational.
abbrev pub refuse : Request → List Effect
refuse request =
    fallback (bytes "node is not operational") (json_response (begin_response (create request)))

-- An array with an object for each message, with its id from 0 on.
pub record IsArray (messages : List Bytes) (array : List Object) : Type 0 where
  pub sized : length array ≡ length messages
  pub entries :
      (i : ℕ) (x : Bytes)
      → get_elem? messages i ≡ some x
      → get_elem? array i ≡ some (("id", number i) ∷ ("message", string x) ∷ [])

pub record IsServed (json : Json) (request : Request) (w : World) (m : MasterNode) : Type 0 where
  pub shown : ℕ
  pub enough : w.node.operational ≡ true → w.caught ≤ shown
  pub array : List Object
  pub of_messages : IsArray (MasterStorage.get_contiguous_chunk w.master 0) array
  pub master :
      (MasterHttp.process_request json (some m) (create request)).1
      ≡ done (async_write (ok_response json request array) ∷ [])
  pub secondary : SecondaryHttp.process_request json (some w.node) (create request) ≡ (
      if w.node.operational
      then async_write (ok_response json request (take shown array)) ∷ []
      else refuse request)
