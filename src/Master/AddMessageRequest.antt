-- ===== src/Master/AddMessageRequest.antt =====
-- app/master-node/addmessagerequest: one message on its way to the secondaries, and the promise that
-- the http handler waits for. The calls that a method makes on boost are its results: those on the
-- promise are kept in `promise`, sends and timers are actions.
pub mod Counts
pub mod Message
pub mod Sending
pub mod Session
use distributed_systems_hw.Base.{
  ℕ, suc, ◌+◌, ◌-◌, ◌%◌, ◌^◌, Bool, true, false, not, List, [], ◌∷◌, ◌++◌, Option, none, some, leb,
  ltb, ◌==◌, if◌then◌else◌, length, Bytes, u64_mod, next_u64,
}
use distributed_systems_hw.Base.Maps.{Map, find, assign}
use distributed_systems_hw.Proto.Codes.{AddMessageStatus, ok, not_allowed}

-- enum class Status
pub data Status : Type 0 where
  added not_added error : Status

-- promise_.set_value() and promise_.set_exception(...).
pub data Outcome : Type 0 where
  set_value set_exception : Outcome

-- The members of AddMessageRequest. A snapshot of a secondary is its id: the endpoint is what the
-- action names by that id.
pub record AddMessageRequest : Type 0 where
  pub write_concern : ℕ
  pub message_id : ℕ
  pub message : Bytes
  pub promise_filled : Bool
  pub promise : List Outcome
  pub pending_writes : ℕ
  pub secondaries_snapshot : List ℕ
  pub statuses : Map Status

pub data Action : Type 0 where
  -- secondary.endpoint->send_addMessage(messageId_, message_), with onResponseRecieved behind it
  send_add_message : (secondary_id message_id : ℕ) → (message : Bytes) → Action
  -- launchWithDelay(..., kMasterReconnectTimeout, start)
  start_later : (milliseconds : ℕ) → Action

-- create()
abbrev pub create : ℕ → Bytes → ℕ → AddMessageRequest
create message_id message write_concern = record {
  write_concern = write_concern;
  message_id = message_id;
  message = message;
  promise_filled = false;
  promise = [];
  pending_writes = 0;
  secondaries_snapshot = [];
  statuses = [];
}

-- `res` is an int: it has 32 bits and is taken for negative from 2^31 on. There `++res` overflows,
-- which the language leaves open; it wraps here.
abbrev pub int_mod : ℕ
int_mod = 2 ^ 32

abbrev pub int_max : ℕ
int_max = 2147483647

-- The loop of satisfiedWriteConcern().
unfoldable pub satisfied_loop : Map Status → ℕ
satisfied_loop [] = 0
satisfied_loop ((id, added) ∷ rest) = (satisfied_loop rest + 1) % int_mod
satisfied_loop ((id, not_added) ∷ rest) = satisfied_loop rest
satisfied_loop ((id, error) ∷ rest) = satisfied_loop rest

-- An int as a size_t.
abbrev pub size_of_int : ℕ → ℕ
size_of_int n = if leb n int_max then n else n + (u64_mod - int_mod)

-- satisfiedWriteConcern()
unfoldable pub satisfied_write_concern : Map Status → ℕ
unfolding satisfied_loop
satisfied_write_concern m = size_of_int (satisfied_loop m)

-- The loop of allSecondariesSuccessfullyAnswered().
abbrev pub successful_answers : Map Status → ℕ
successful_answers [] = 0
successful_answers ((id, error) ∷ rest) = successful_answers rest
successful_answers ((id, added) ∷ rest) = suc (successful_answers rest)
successful_answers ((id, not_added) ∷ rest) = suc (successful_answers rest)

-- allSecondariesSuccessfullyAnswered()
abbrev pub all_secondaries_successfully_answered : AddMessageRequest → Bool
all_secondaries_successfully_answered r =
    successful_answers r.statuses == length r.secondaries_snapshot

-- requestMarkSuccess()
unfoldable pub request_mark_success : AddMessageRequest → AddMessageRequest
request_mark_success r =
    if r.promise_filled
    then r
    else record r { promise_filled = true; promise = set_value ∷ r.promise }

-- requestMarkFailure()
unfoldable pub request_mark_failure : AddMessageRequest → AddMessageRequest
request_mark_failure r =
    if r.promise_filled
    then r
    else record r { promise_filled = true; promise = set_exception ∷ r.promise }

-- An id stands in a list.
abbrev pub contains : List ℕ → ℕ → Bool
contains [] id = false
contains (x ∷ xs) id = if x == id then true else contains xs id

-- presentSecondaries, an unordered_set of ints: the low 32 bits of each id.
abbrev pub present_secondaries : List ℕ → List ℕ
present_secondaries [] = []
present_secondaries (id ∷ ids) = id % int_mod ∷ present_secondaries ids

-- presentSecondaries.contains(id), which takes an int too.
unfoldable pub is_present : List ℕ → ℕ → Bool
is_present snapshot id = contains (present_secondaries snapshot) (id % int_mod)

-- The loop of updateData() that erases the secondaries that are gone.
unfoldable pub retain : List ℕ → Map Status → Map Status
unfolding is_present
retain present [] = []
retain present ((id, status) ∷ rest) =
    let others = retain present rest in
    if is_present present id then (id, status) ∷ others else others

-- updateData(), with what secondariesSnapshot() returns, or none where the master is gone.
unfoldable pub update_data : Option (List ℕ) → AddMessageRequest → Bool × AddMessageRequest
update_data none r = (false, r)
update_data (some snapshot) r =
    (true, record r { secondaries_snapshot = snapshot; statuses = retain snapshot r.statuses })

-- A secondary is asked unless it has answered with no error.
abbrev pub need_to_send : Option Status → Bool
need_to_send none = true
need_to_send (some error) = true
need_to_send (some added) = false
need_to_send (some not_added) = false

-- The loop of sendRequestToSecondaries().
unfoldable pub send_loop : List ℕ → AddMessageRequest → AddMessageRequest × List Action
send_loop [] r = (r, [])
send_loop (id ∷ ids) r =
    let sent = send_loop ids (record r { pending_writes = next_u64 r.pending_writes }) in
    let skipped = send_loop ids r in
    if need_to_send (find id r.statuses)
    then (sent.0, send_add_message id r.message_id r.message ∷ sent.1)
    else skipped

-- sendRequestToSecondaries(), behind its loop.
unfoldable pub wait_if_none : AddMessageRequest × List Action → AddMessageRequest × List Action
wait_if_none (r, actions) =
    if r.pending_writes == 0 then (r, actions ++ start_later 3000 ∷ []) else (r, actions)

-- sendRequestToSecondaries()
unfoldable pub send_request_to_secondaries : AddMessageRequest → AddMessageRequest × List Action
send_request_to_secondaries r =
    if ltb 0 r.pending_writes then (r, []) else wait_if_none (send_loop r.secondaries_snapshot r)

-- start(), behind requestMarkSuccess().
unfoldable pub go_on : AddMessageRequest → AddMessageRequest × List Action
go_on r = if all_secondaries_successfully_answered r then (r, []) else send_request_to_secondaries r

-- start(), from the test of the write concern on.
unfoldable pub proceed : AddMessageRequest → AddMessageRequest × List Action
unfolding request_mark_success
proceed r =
    if leb r.write_concern (satisfied_write_concern r.statuses)
    then go_on (request_mark_success r)
    else send_request_to_secondaries r

-- start()
unfoldable pub start : Option (List ℕ) → AddMessageRequest → AddMessageRequest × List Action
unfolding update_data request_mark_failure
start snapshot r =
    let updated = update_data snapshot r in
    if updated.0 then proceed updated.1 else (request_mark_failure updated.1, [])

-- The status that onResponseRecieved() stores; none is a future with an exception.
abbrev pub status_after : Option AddMessageStatus → Status
status_after none = error
status_after (some ok) = added
status_after (some not_allowed) = not_added

-- onResponseRecieved()
unfoldable pub on_response_received :
    ℕ → Option AddMessageStatus → AddMessageRequest → AddMessageRequest
unfolding request_mark_success
on_response_received secondary_id response r =
    let r' = record r { statuses = assign secondary_id (status_after response) r.statuses } in
    if leb r'.write_concern (satisfied_write_concern r'.statuses)
    then request_mark_success r'
    else r'

-- The callback of a send: onResponseRecieved(), --pendingWrites_, and onAllResponsesRecieved(),
-- which is start(), behind the last one.
unfoldable pub on_send_done :
    ℕ
    → Option AddMessageStatus
    → Option (List ℕ)
    → AddMessageRequest
    → AddMessageRequest × List Action
unfolding on_response_received
on_send_done secondary_id response snapshot r =
    let received = on_response_received secondary_id response r in
    let counted = record received {
      pending_writes = (received.pending_writes + u64_mod - 1) % u64_mod;
    } in
    if counted.pending_writes == 0 then start snapshot counted else (counted, [])
