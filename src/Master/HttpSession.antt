-- ===== src/Master/HttpSession.antt =====
-- app/master-node/httpsession: the requests of clients. The futures of the node come back as calls of
-- on_pings and on_added.
pub mod Answers
use Prim.Native.String.{String}
use text.Mathlib.Text.{◌==◌}
use distributed_systems_hw.Base.{
  ℕ, Bool, true, false, ◌&&◌, Option, none, some, List, [], ◌∷◌, ◌++◌, if◌then◌else◌, map, Bytes,
}
use distributed_systems_hw.Master.Storage
use distributed_systems_hw.Master.MasterNode.{MasterNode, PingResult, show_state}
use distributed_systems_hw.NetUtils.Json.{
  Json, Object, bytes, Tried, value, error, ◌>>=◌, ℤ, pos, negsuc, number, string, messages_array,
}
use distributed_systems_hw.NetUtils.HttpSession.{
  HttpSession, Effect, is_get, is_post, write_response, fallback, with_body, begin_response,
  json_response,
}

-- What processRequest() leaves to be done: nothing, or to wait for pingSecondaries() or addMessage().
pub data Next : Type 0 where
  done : List Effect → Next
  wait_pings : Next
  wait_added : (message : Bytes) → (write_concern : ℕ) → Next

-- The body of a POST, behind as_int64() and as_string().
abbrev pub checked_concern : ℤ → Bytes → Tried (Bytes × ℕ)
checked_concern (pos n) message = value (message, n)
checked_concern (negsuc n) message = error (bytes "Write concern cannot be negative")

-- The optional entries of an object.
abbrev pub number_entry : String → Option ℕ → Object
number_entry key none = []
number_entry key (some n) = (key, number n) ∷ []

abbrev pub text_entry : String → Option Bytes → Object
text_entry key none = []
text_entry key (some t) = (key, string t) ∷ []

-- The body of the loop over the ping results.
unfoldable pub ping_object : PingResult → Object
ping_object r =
    ("secondaryId", number r.secondary_id) ∷ text_entry "friendlyName" r.secondary_friendly_name
    ++ ("state", string (bytes (show_state r.secondary_state)))
      ∷ ("pingTimestamp", number r.ping_timestamp)
      ∷ number_entry "pongTimestamp" r.pong_timestamp
    ++ text_entry "exceptionString" r.exception_string

-- The prefix of the reason when the body of a POST is refused.
abbrev pub refusal : Bytes → Bytes
refusal what = bytes "Internal error occured: " ++ what

module _ (json : Json) where
  -- The body of the try block.
  unfoldable pub parse_new_message : Bytes → Tried (Bytes × ℕ)
  parse_new_message body = json.parse body >>= (λ v. json.as_object v >>= (λ entries.
      json.at_key entries "writeConcern" >>= (λ concern. json.as_int64 concern >>= (λ n.
        json.at_key entries "message"
        >>= (λ m. json.as_string m >>= (λ message. checked_concern n message))))))

  -- GET /messages
  unfoldable pub get_messages : Option MasterNode → HttpSession → HttpSession × Next
  unfolding write_response fallback messages_array
  get_messages none s = (
    json_response s,
    done (fallback (bytes "node is dead (should not happen)") (json_response s)),
  )
  get_messages (some master) s =
      let array = messages_array (Storage.get_contiguous_chunk master.storage 0) in
      let answer = with_body (json.serialize array) (json_response s) in
      (answer, done (write_response answer))

  -- GET /pingSecondaries
  unfoldable pub get_ping_secondaries : Option MasterNode → HttpSession → HttpSession × Next
  unfolding fallback
  get_ping_secondaries none s = (
    json_response s,
    done (fallback (bytes "node is dead (should not happen)") (json_response s)),
  )
  get_ping_secondaries (some master) s = (json_response s, wait_pings)

  -- POST /newMessage
  abbrev pub post_parsed : Tried (Bytes × ℕ) → Option MasterNode → HttpSession → HttpSession × Next
  post_parsed (error what) master s = (s, done (fallback (refusal what) s))
  post_parsed (value (message, concern)) none s =
      (s, done (fallback (bytes "node is dead (should not happen)") s))
  post_parsed (value (message, concern)) (some master) s = (s, wait_added message concern)

  unfoldable pub post_new_message : Option MasterNode → HttpSession → HttpSession × Next
  unfolding parse_new_message
  post_new_message master s = post_parsed (parse_new_message s.request.body) master s

  -- processRequest()
  unfoldable pub process_request : Option MasterNode → HttpSession → HttpSession × Next
  unfolding get_messages get_ping_secondaries post_new_message fallback
  process_request master session =
      let s = begin_response session in
      if is_get s.request.method && s.request.target == "/messages"
      then get_messages master s
      else if is_get s.request.method && s.request.target == "/pingSecondaries"
      then get_ping_secondaries master s
      else if is_post s.request.method && s.request.target == "/newMessage"
      then post_new_message master s
      else (s, done (fallback (bytes "invalid request") s))

  -- The callback of pingSecondaries().
  unfoldable pub on_pings : Option (List PingResult) → HttpSession → List Effect
  unfolding ping_object write_response fallback
  on_pings none s = fallback (bytes "error occured for request") s
  on_pings (some results) s =
      write_response (with_body (json.serialize (map ping_object results)) s)

-- The callback of addMessage().
unfoldable pub on_added : Bool → HttpSession → List Effect
unfolding write_response fallback
on_added false s = fallback (bytes "error occured for request") s
on_added true s = write_response (with_body (bytes "ok") s)
