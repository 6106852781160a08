-- ===== src/Proto/OutcomingContext.antt =====
-- libs/proto/src/outcomingrequestcontext: the promise that waits for the answer to a request. The
-- calls on the promise are kept in `promise`, the last one first.
use Prim.Native.String.{String}
use distributed_systems_hw.Base.{
  ℕ, ◌≡◌, refl, arith, Bool, true, false, Option, none, some, List, [], ◌∷◌, if◌then◌else◌, Bytes,
}
use distributed_systems_hw.Proto.Codes.{AddMessageStatus}
use distributed_systems_hw.Proto.Platform.{Platform, Exec, returned, thrown, ◌>>=◌}
use distributed_systems_hw.Proto.Deserializer.{Buffer}
use distributed_systems_hw.Proto.Response.{
  Response, add_message, get_messages, pong, secondary_node_ready, GetMessages, flush_messages,
  add_message_from_payload, get_messages_from_payload, pong_from_payload,
  secondary_node_ready_from_payload,
}

-- enum class InvalidationReason
pub data InvalidationReason : Type 0 where
  timeout bad_response_frame peer_disconnected : InvalidationReason

-- operator<<
unfoldable pub show_reason : InvalidationReason → String
show_reason timeout = "InvalidationReason::TIMEOUT"
show_reason bad_response_frame = "InvalidationReason::BAD_RESPONSE_FRAME"
show_reason peer_disconnected = "InvalidationReason::PEER_DISCONNECTED"

-- What a promise is set to: the value of one of the four classes, or the exception of a reason.
pub data Outcome : Type 0 where
  status : AddMessageStatus → Outcome
  messages : List Bytes → Outcome
  timestamp : ℕ → Outcome
  ready : Outcome
  exception : InvalidationReason → Outcome

-- The four classes below AbstractOutcomingRequestContext.
pub data Kind : Type 0 where
  for_add_message for_get_messages for_ping for_secondary_node_ready : Kind

-- An object of such a class; `handle` tells objects apart.
pub record Context : Type 0 where
  pub handle : ℕ
  pub kind : Kind
  pub promise_filled : Bool
  pub promise : List Outcome

-- create()
abbrev pub create : ℕ → Kind → Context
create handle kind = record { handle = handle; kind = kind; promise_filled = false; promise = [] }

-- promiseMarkFilled(), and the call on the promise that follows it.
abbrev pub fill : Outcome → Context → Context
fill outcome c = record c { promise_filled = true; promise = outcome ∷ c.promise }

-- invalidate() and invalidatePromise()
unfoldable pub invalidate : InvalidationReason → Context → Context
invalidate reason c = if c.promise_filled then c else fill (exception reason) c

-- AddMessage::onResponseRecieved, behind fromPayload().
abbrev pub add_message_parsed : Option Response → Context → Context
add_message_parsed (some (add_message s)) c = fill (status s) c
add_message_parsed other c = invalidate bad_response_frame c

-- Ping::onResponseRecieved, behind fromPayload().
abbrev pub ping_parsed : Option Response → Context → Context
ping_parsed (some (pong t)) c = fill (timestamp t) c
ping_parsed other c = invalidate bad_response_frame c

-- SecondaryNodeReady::onResponseRecieved, behind fromPayload().
abbrev pub ready_parsed : Option Response → Context → Context
ready_parsed (some secondary_node_ready) c = fill ready c
ready_parsed other c = invalidate bad_response_frame c

-- GetMessages::onResponseRecieved, behind fromPayload().
abbrev pub get_messages_parsed : Option GetMessages → Context → Exec Context
get_messages_parsed none c = returned (invalidate bad_response_frame c)
get_messages_parsed (some r) c =
    flush_messages r >>= (λ flushed. returned (fill (messages flushed.0) c))

-- The four onResponseRecieved(), behind the test of promiseFilled().
unfoldable pub take_payload : ⦃p : Platform⦄ → Kind → Buffer → Context → Exec Context
take_payload for_add_message payload c =
    returned (add_message_parsed (add_message_from_payload payload) c)
take_payload for_ping payload c = returned (ping_parsed (pong_from_payload payload) c)
take_payload for_secondary_node_ready payload c =
    returned (ready_parsed (secondary_node_ready_from_payload payload) c)
take_payload for_get_messages payload c =
    get_messages_from_payload payload >>= (λ parsed. get_messages_parsed parsed c)

-- onResponseRecieved()
unfoldable pub on_response_received : ⦃p : Platform⦄ → Buffer → Context → Exec Context
unfolding take_payload
on_response_received payload c =
    if c.promise_filled then returned c else take_payload c.kind payload c

-- A context whose promise is open.
abbrev pub IsOpen : Context → Type 0
IsOpen c = (c.promise_filled ≡ false) × (c.promise ≡ [])

pub invalidate_open :
    (reason : InvalidationReason) (c : Context)
    → IsOpen c
    → invalidate reason c ≡ fill (exception reason) c
unfolding invalidate
invalidate_open reason c unset = ground (arith, unset.0)

refused : (c : Context) → IsOpen c → (o : Outcome) × (invalidate bad_response_frame c ≡ fill o c)
refused c unset = (exception bad_response_frame, invalidate_open bad_response_frame c unset)

add_message-Fills :
    (parsed : Option Response) (c : Context)
    → IsOpen c
    → (o : Outcome) × (add_message_parsed parsed c ≡ fill o c)
add_message-Fills none c unset = refused c unset
add_message-Fills (some (add_message s)) c unset = (status s, refl)
add_message-Fills (some (get_messages r)) c unset = refused c unset
add_message-Fills (some (pong t)) c unset = refused c unset
add_message-Fills (some secondary_node_ready) c unset = refused c unset

ping-Fills :
    (parsed : Option Response) (c : Context)
    → IsOpen c
    → (o : Outcome) × (ping_parsed parsed c ≡ fill o c)
ping-Fills none c unset = refused c unset
ping-Fills (some (add_message s)) c unset = refused c unset
ping-Fills (some (get_messages r)) c unset = refused c unset
ping-Fills (some (pong t)) c unset = (timestamp t, refl)
ping-Fills (some secondary_node_ready) c unset = refused c unset

ready-Fills :
    (parsed : Option Response) (c : Context)
    → IsOpen c
    → (o : Outcome) × (ready_parsed parsed c ≡ fill o c)
ready-Fills none c unset = refused c unset
ready-Fills (some (add_message s)) c unset = refused c unset
ready-Fills (some (get_messages r)) c unset = refused c unset
ready-Fills (some (pong t)) c unset = refused c unset
ready-Fills (some secondary_node_ready) c unset = (ready, refl)

-- The context behind a call: none where the call is left by an exception.
abbrev pub Fills : Exec Context → Context → Type 0
Fills thrown c = Unit
Fills (returned c') c = (o : Outcome) × (c' ≡ fill o c)

flushed-Fills :
    (out : Exec (List Bytes × GetMessages)) (c : Context)
    → Fills (out >>= (λ flushed. returned (fill (messages flushed.0) c))) c
flushed-Fills thrown c = tt
flushed-Fills (returned (list, after)) c = (messages list, refl)

get_messages-Fills :
    (parsed : Exec (Option GetMessages)) (c : Context)
    → IsOpen c
    → Fills (parsed >>= (λ r. get_messages_parsed r c)) c
get_messages-Fills thrown c unset = tt
get_messages-Fills (returned none) c unset = refused c unset
get_messages-Fills (returned (some r)) c unset = flushed-Fills (flush_messages r) c

take_payload-Fills :
    ⦃p : Platform⦄
    → (kind : Kind) (payload : Buffer) (c : Context) → IsOpen c
    → Fills (take_payload kind payload c) c
unfolding take_payload
take_payload-Fills for_add_message payload c unset =
    add_message-Fills (add_message_from_payload payload) c unset
take_payload-Fills for_ping payload c unset = ping-Fills (pong_from_payload payload) c unset
take_payload-Fills for_secondary_node_ready payload c unset =
    ready-Fills (secondary_node_ready_from_payload payload) c unset
take_payload-Fills for_get_messages payload c unset =
    get_messages-Fills (get_messages_from_payload payload) c unset

pub take_step :
    ⦃p : Platform⦄
    → (payload : Buffer) (c : Context) → IsOpen c
    → on_response_received payload c ≡ take_payload c.kind payload c
unfolding on_response_received
take_step payload c unset = ground (arith, unset.0)

-- An answer to an open context sets its promise, unless an exception leaves the call.
pub response-Fills :
    ⦃p : Platform⦄
    → (payload : Buffer) (c : Context) → IsOpen c
    → Fills (on_response_received payload c) c
response-Fills payload c unset =
    rw (take_step payload c unset) (take_payload-Fills c.kind payload c unset)
