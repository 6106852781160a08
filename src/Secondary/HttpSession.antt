-- ===== src/Secondary/HttpSession.antt =====
-- app/secondary-node/httpsession: the requests of clients.
use text.Mathlib.Text.{◌==◌}
use distributed_systems_hw.Base.{◌&&◌, Option, none, some, List, if◌then◌else◌}
use distributed_systems_hw.Secondary.Storage
use distributed_systems_hw.Secondary.SecondaryNode.{SecondaryNode}
use distributed_systems_hw.NetUtils.Json.{Json, bytes, messages_array}
use distributed_systems_hw.NetUtils.HttpSession.{
  HttpSession, Effect, is_get, write_response, fallback, with_body, begin_response, json_response,
}

module _ (json : Json) where
  -- GET /messages
  unfoldable pub get_messages : Option SecondaryNode → HttpSession → List Effect
  unfolding messages_array write_response fallback
  get_messages none s = fallback (bytes "node is dead (should not happen)") s
  get_messages (some own) s =
      if own.operational
      then write_response (
          with_body (json.serialize (messages_array (Storage.get_contiguous_chunk own.storage 0)))
            s)
      else fallback (bytes "node is not operational") s

  -- processRequest()
  unfoldable pub process_request : Option SecondaryNode → HttpSession → List Effect
  unfolding get_messages fallback
  process_request own session =
      let s = begin_response session in
      if is_get s.request.method && s.request.target == "/messages"
      then get_messages own (json_response s)
      else fallback (bytes "invalid request") s
