-- ===== src/Master/HttpSession/Answers.antt =====
-- app/master-node/httpsession: that every request is answered, and how.
use Prim.Native.String.{String}
use text.Mathlib.Text.{◌==◌}
use distributed_systems_hw.Base.{
  ℕ, ◌≡◌, refl, Bool, true, false, ◌&&◌, Option, none, some, List, [], ◌∷◌, if◌then◌else◌, length,
  Bytes, Bool-cases, inl, inr,
}
use distributed_systems_hw.Master.MasterNode.{MasterNode, PingResult}
use distributed_systems_hw.NetUtils.Json.{Json, Tried, value, error, ◌>>=◌, ℤ, pos, negsuc, bytes}
use distributed_systems_hw.NetUtils.HttpSession.{
  HttpSession, Effect, async_write, Request, Response, ok, bad_request, is_get, is_post, create,
  begin_response, write_response, fallback,
}
use distributed_systems_hw.Master.HttpSession.{
  Next, done, wait_pings, wait_added, checked_concern, parse_new_message, get_messages,
  get_ping_secondaries, post_new_message, post_parsed, process_request, on_pings, on_added,
}

abbrev pub is_some {ℓ} : {A : Type ℓ} → Option A → Bool
is_some none = false
is_some (some a) = true

abbrev pub is_value {ℓ} : {A : Type ℓ} → Tried A → Bool
is_value (value a) = true
is_value (error what) = false

abbrev is_natural : Tried ℤ → Bool
is_natural (value (pos n)) = true
is_natural (value (negsuc n)) = false
is_natural (error what) = false

module _ (json : Json) where
  -- The entry of a body, an object in json, under a key.
  abbrev entry_of : Bytes → String → Tried json.Value
  entry_of body key = json.parse body >>= (λ v. json.as_object v >>= (λ o. json.at_key o key))

  -- The body has a write concern that is not negative, and a message.
  abbrev pub well_formed : Bytes → Bool
  well_formed body =
      is_natural (entry_of body "writeConcern" >>= (λ v. json.as_int64 v))
      && is_value (entry_of body "message" >>= (λ v. json.as_string v))

  parse_new_message-well_formed :
      (body : Bytes) → is_value (parse_new_message json body) ≡ well_formed body
  unfolding parse_new_message
  parse_new_message-well_formed body = by_parse (json.parse body)
    where
      by_text :
          (n : ℤ) (text : Tried Bytes)
          → is_value (text >>= (λ message. checked_concern n message))
            ≡ (is_natural (value n) && is_value text)
      by_text (pos n) (value text) = refl
      by_text (pos n) (error what) = refl
      by_text (negsuc n) (value text) = refl
      by_text (negsuc n) (error what) = refl

      by_message :
          (n : ℤ) (m : Tried json.Value)
          → is_value (m >>= (λ v. json.as_string v >>= (λ message. checked_concern n message)))
            ≡ (is_natural (value n) && is_value (m >>= (λ v. json.as_string v)))
      by_message n (value v) = by_text n (json.as_string v)
      by_message n (error what) = by_text n (error what)

      by_number :
          (n : Tried ℤ) (m : Tried json.Value)
          → is_value (
              n >>= (λ k. m >>= (λ v. json.as_string v >>= (λ message. checked_concern k message))))
            ≡ (is_natural n && is_value (m >>= (λ v. json.as_string v)))
      by_number (value n) m = by_message n m
      by_number (error what) m = refl

      by_concern :
          (c m : Tried json.Value)
          → is_value (
              c >>= (λ w. json.as_int64 w >>= (λ k.
                m >>= (λ v. json.as_string v >>= (λ message. checked_concern k message)))))
            ≡ (is_natural (c >>= (λ w. json.as_int64 w))
                && is_value (m >>= (λ v. json.as_string v)))
      by_concern (value w) m = by_number (json.as_int64 w) m
      by_concern (error what) m = refl

      by_object :
          (o : Tried json.Entries)
          → is_value (
              o >>= (λ entries. json.at_key entries "writeConcern" >>= (λ w.
                json.as_int64 w >>= (λ k.
                  json.at_key entries "message"
                  >>= (λ v. json.as_string v >>= (λ message. checked_concern k message))))))
            ≡ (is_natural
                  (o >>= (λ entries. json.at_key entries "writeConcern") >>= (λ w. json.as_int64 w))
                && is_value
                    (o >>= (λ entries. json.at_key entries "message") >>= (λ v. json.as_string v)))
      by_object (value o) = by_concern (json.at_key o "writeConcern") (json.at_key o "message")
      by_object (error what) = refl

      by_parse :
          (v : Tried json.Value)
          → is_value (
              v >>= (λ x. json.as_object x >>= (λ entries.
                json.at_key entries "writeConcern" >>= (λ w. json.as_int64 w >>= (λ k.
                  json.at_key entries "message"
                  >>= (λ m. json.as_string m >>= (λ message. checked_concern k message)))))))
            ≡ (is_natural (
                  v
                  >>= (λ x. json.as_object x >>= (λ o. json.at_key o "writeConcern"))
                  >>= (λ w. json.as_int64 w))
                && is_value (
                    v
                    >>= (λ x. json.as_object x >>= (λ o. json.at_key o "message"))
                    >>= (λ m. json.as_string m)))
      by_parse (value x) = by_object (json.as_object x)
      by_parse (error what) = refl

-- What one of the futures is set to: the results of the pings, and whether addMessage() came to an
-- end without an exception.
module _ (json : Json) (pings : Option (List PingResult)) (added : Bool) where
  abbrev pub finish : HttpSession × Next → List Effect
  finish (s, done effects) = effects
  finish (s, wait_pings) = on_pings json pings s
  finish (s, wait_added message write_concern) = on_added added s

  -- A request from processRequest() to the end.
  abbrev pub respond : Option MasterNode → HttpSession → List Effect
  respond master s = finish (process_request json master s)

  -- The requests that succeed.
  abbrev pub succeeds : Option MasterNode → Request → Bool
  succeeds master request =
      if is_get request.method && request.target == "/messages"
      then is_some master
      else if is_get request.method && request.target == "/pingSecondaries"
      then is_some master && is_some pings
      else if is_post request.method && request.target == "/newMessage"
      then well_formed json request.body && (is_some master && added)
      else false

-- The one response to a request.
pub record IsAnswer (request : Request) (success : Bool) (effects : List Effect) : Type 0 where
  pub response : Response
  pub only : effects ≡ async_write response ∷ []
  pub version : response.version ≡ request.version
  pub closing : response.keep_alive ≡ false
  pub whole : response.content_length ≡ some (length response.body)
  pub result : response.result ≡ (if success then ok else bad_request)

module _ (json : Json) (pings : Option (List PingResult)) (added : Bool) (request : Request) where
  abbrev begun : HttpSession
  begun = begin_response (create request)

  from_messages :
      (master : Option MasterNode)
      → IsAnswer request (is_some master) (finish json pings added (get_messages json master begun))
  unfolding get_messages fallback write_response
  from_messages none = record {
    response = _;
    only = refl;
    version = refl;
    closing = refl;
    whole = refl;
    result = refl;
  }
  from_messages (some m) = record {
    response = _;
    only = refl;
    version = refl;
    closing = refl;
    whole = refl;
    result = refl;
  }

  from_pings :
      (master : Option MasterNode) (results : Option (List PingResult))
      → IsAnswer request
          (is_some master && is_some results)
          (finish json results added (get_ping_secondaries json master begun))
  unfolding get_ping_secondaries on_pings fallback write_response
  from_pings none results = record {
    response = _;
    only = refl;
    version = refl;
    closing = refl;
    whole = refl;
    result = refl;
  }
  from_pings (some m) none = record {
    response = _;
    only = refl;
    version = refl;
    closing = refl;
    whole = refl;
    result = refl;
  }
  from_pings (some m) (some results) = record {
    response = _;
    only = refl;
    version = refl;
    closing = refl;
    whole = refl;
    result = refl;
  }

  from_post :
      (master : Option MasterNode) (parsed : Tried (Bytes × ℕ)) (stored : Bool)
      → IsAnswer request
          (is_value parsed && (is_some master && stored))
          (finish json pings stored (post_parsed json parsed master begun))
  unfolding on_added fallback write_response
  from_post master (error what) stored = record {
    response = _;
    only = refl;
    version = refl;
    closing = refl;
    whole = refl;
    result = refl;
  }
  from_post none (value (message, concern)) stored = record {
    response = _;
    only = refl;
    version = refl;
    closing = refl;
    whole = refl;
    result = refl;
  }
  from_post (some m) (value (message, concern)) false = record {
    response = _;
    only = refl;
    version = refl;
    closing = refl;
    whole = refl;
    result = refl;
  }
  from_post (some m) (value (message, concern)) true = record {
    response = _;
    only = refl;
    version = refl;
    closing = refl;
    whole = refl;
    result = refl;
  }

  from_route :
      (master : Option MasterNode) (success : Bool) (route : HttpSession × Next)
      → succeeds json pings added master request ≡ success
      → process_request json master (create request) ≡ route
      → IsAnswer request success (finish json pings added route)
      → IsAnswer request
          (succeeds json pings added master request)
          (respond json pings added master (create request))
  from_route master success route e f a = rw (e, f) a

  -- Every request, whether the master node is there or gone, and whatever its future is set to, is
  -- answered with exactly one response, which has the version of the request and the length of its
  -- body, closes the connection, and has the status 200 if it is a GET of /messages, a GET of
  -- /pingSecondaries whose pings come to an end, or a POST to /newMessage whose body is an object with
  -- a write concern that is not negative and a message, and addMessage() comes to an end, and the
  -- master node is there; and otherwise 400.
  pub answer-IsAnswer :
      (master : Option MasterNode)
      → IsAnswer request
          (succeeds json pings added master request)
          (respond json pings added master (create request))
  unfolding process_request post_new_message fallback write_response
  answer-IsAnswer master =
      elim (Bool-cases (is_get request.method && request.target == "/messages")) [
        | inl here ↦
            from_route master (is_some master) (get_messages json master begun) (rw here refl)
              (rw here refl) (from_messages master)
        | inr other ↦
            elim (Bool-cases (is_get request.method && request.target == "/pingSecondaries")) [
              | inl here ↦
                  from_route master (is_some master && is_some pings)
                    (get_ping_secondaries json master begun) (rw (other, here) refl)
                    (rw (other, here) refl) (from_pings master pings)
              | inr another ↦
                  elim (Bool-cases (is_post request.method && request.target == "/newMessage")) [
                    | inl here ↦
                        from_route master
                          (well_formed json request.body && (is_some master && added))
                          (post_new_message json master begun) (rw (other, another, here) refl)
                          (rw (other, another, here) refl)
                          (rw (parse_new_message-well_formed json request.body) at
                            (from_post master (parse_new_message json request.body) added))
                    | inr neither ↦
                        from_route master false
                          (begun, done (fallback (bytes "invalid request") begun))
                          (rw (other, another, neither) refl) (rw (other, another, neither) refl)
                          (record {
                            response = _;
                            only = refl;
                            version = refl;
                            closing = refl;
                            whole = refl;
                            result = refl;
                          })
                  ]
            ]
      ]
