-- ===== src/NetUtils/HttpSession.antt =====
-- libs/net-utils/src/httpsession.cpp: one request on one connection. What is called on the socket
-- and the timer are effects; processRequest() is Master/HttpSession and Secondary/HttpSession.
use Prim.Native.String.{String}
use distributed_systems_hw.Base.{
  ℕ, Bool, true, false, Option, none, some, List, [], ◌∷◌, ◌++◌, max, length, Bytes,
}
use distributed_systems_hw.NetUtils.Json.{bytes}

-- http::verb, as far as it is tested.
pub data Verb : Type 0 where
  get post other : Verb

abbrev pub is_get : Verb → Bool
is_get get = true
is_get _ = false

abbrev pub is_post : Verb → Bool
is_post post = true
is_post _ = false

-- http::status, as far as it is set.
pub data Status : Type 0 where
  ok bad_request : Status

-- The parts of request_ that are read.
pub record Request : Type 0 where
  pub version : ℕ
  pub method : Verb
  pub target : String
  pub body : Bytes

-- The parts of response_ that are set.
pub record Response : Type 0 where
  pub version : ℕ
  pub keep_alive : Bool
  pub result : Status
  pub server : Option Bytes
  pub content_type : Option Bytes
  pub body : Bytes
  pub content_length : Option ℕ

-- How boost::beast makes a response: HTTP/1.1, 200.
abbrev pub new_response : Response
new_response = record {
  version = 11;
  keep_alive = true;
  result = ok;
  server = none;
  content_type = none;
  body = [];
  content_length = none;
}

-- class HttpSession
pub record HttpSession : Type 0 where
  pub timeout_ms : Option ℕ
  pub request : Request
  pub response : Response

-- The two constructors; the request is what is read later.
abbrev pub create : Request → HttpSession
create request = record { timeout_ms = none; request = request; response = new_response }

abbrev pub create_with_timeout : ℕ → Request → HttpSession
create_with_timeout timeout_ms request = record {
  timeout_ms = some (max timeout_ms 1);
  request = request;
  response = new_response;
}

pub data Effect : Type 0 where
  expires_from_now : (ms : ℕ) → Effect
  async_read close cancel_timer : Effect
  async_write : Response → Effect

-- setDeadline()
abbrev pub deadline_of : Option ℕ → List Effect
deadline_of none = []
deadline_of (some ms) = expires_from_now ms ∷ []

unfoldable pub set_deadline : HttpSession → List Effect
set_deadline s = deadline_of s.timeout_ms

-- The callback of the timer: with an error, or not.
unfoldable pub on_deadline : Bool → List Effect
on_deadline true = []
on_deadline false = close ∷ []

-- run()
unfoldable pub run : HttpSession → List Effect
unfolding set_deadline
run s = set_deadline s ++ async_read ∷ []

abbrev pub cancel_of : Option ℕ → List Effect
cancel_of none = []
cancel_of (some ms) = cancel_timer ∷ []

-- The callback of the read, when it fails.
unfoldable pub on_read_failed : HttpSession → List Effect
on_read_failed s = cancel_of s.timeout_ms

-- writeResponse()
unfoldable pub write_response : HttpSession → List Effect
write_response s = async_write s.response ∷ []

-- The callback of the write.
unfoldable pub on_written : HttpSession → List Effect
on_written s = cancel_of s.timeout_ms

-- The body, and its length.
abbrev pub with_body : Bytes → HttpSession → HttpSession
with_body body s = record s {
  response = record (s.response) { body = body; content_length = some (length body) };
}

-- fallback()
unfoldable pub fallback : Bytes → HttpSession → List Effect
unfolding write_response
fallback reason s = write_response (
    with_body reason (record s {
      response = record (s.response) {
        result = bad_request;
        content_type = some (bytes "text/plain");
      };
    }))

-- What processRequest() starts with.
abbrev pub begin_response : HttpSession → HttpSession
begin_response s = record s {
  response = record (s.response) { version = s.request.version; keep_alive = false };
}

-- How an answer in json begins.
abbrev pub json_response : HttpSession → HttpSession
json_response s = record s {
  response = record (s.response) {
    result = ok;
    server = some (bytes "Beast");
    content_type = some (bytes "application/json");
  };
}
