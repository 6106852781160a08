-- ===== src/Master/MasterNode/Messages.antt =====
-- app/master-node/masternode: what addMessage() and pingSecondaries() return.
use distributed_systems_hw.Base.{
  none, ℕ, zero, suc, ◌+◌, ◌<◌, ◌≤◌, ◌≡◌, refl, sym, ap, ◌∙◌, inl, inr, true, false, some, List, [],
  ◌∷◌, ◌++◌, arith, if◌then◌else◌, leb, length, get_elem?, drop, Bytes, Bool-cases, u64_mod,
}
use mathlib.Core.List.{append_assoc, append-nil}
use distributed_systems_hw.Proto.Platform.{returned}
use distributed_systems_hw.Master.Storage
use distributed_systems_hw.Master.Storage.{Storage}
use distributed_systems_hw.Master.Storage.Log.{IsLog, add_message-Appends}
use distributed_systems_hw.Master.AddMessageRequest
use distributed_systems_hw.Master.AddMessageRequest.{
  AddMessageRequest, Action, set_value, proceed, go_on, start, update_data, request_mark_success,
  satisfied_write_concern, send_request_to_secondaries, retain,
}
use distributed_systems_hw.Master.AddMessageRequest.Sending.{send_request_frame}
use distributed_systems_hw.Master.MasterNode.{
  pong, exception, MasterNode, SecondarySnapshot, Pong, PingResult, ping_result, ping_loop,
  ping_secondaries, secondaries_snapshot, ids_of, ready, of_request, request_concern, add_message,
}

-- One result for each secondary and its response, in order.
abbrev results_of : ℕ → List SecondarySnapshot → List Pong → List PingResult
results_of t [] responses = []
results_of t (s ∷ snapshot) [] = []
results_of t (s ∷ snapshot) (r ∷ responses) = ping_result t s r ∷ results_of t snapshot responses

drop_uncons :
    (i : ℕ) (all : List SecondarySnapshot) (s : SecondarySnapshot) (rest : List SecondarySnapshot)
    → drop i all ≡ s ∷ rest
    → (get_elem? all i ≡ some s) × (drop (i + 1) all ≡ rest)
drop_uncons zero [] s rest e = absurd (ground (arith, e))
drop_uncons zero (x ∷ xs) s rest e = (cc, cc)
drop_uncons (suc i) [] s rest e = absurd (ground (arith, e))
drop_uncons (suc i) (x ∷ xs) s rest e =
    let ih = drop_uncons i xs s rest e in
    let n : suc i + 1 ≡ suc (i + 1) = omega arith in (ih.0, rw n (ih.1))

loop-results_of :
    (t : ℕ) (all : List SecondarySnapshot) (i : ℕ) (snapshot : List SecondarySnapshot)
    (responses : List Pong) (results : List PingResult)
    → drop i all ≡ snapshot
    → length responses ≡ length snapshot
    → ping_loop t all i responses results ≡ returned (results ++ results_of t snapshot responses)
unfolding ping_loop
loop-results_of t all i [] [] results d e = ap returned (sym (append-nil results))
loop-results_of t all i [] (r ∷ responses) results d e = absurd (omega arith)
loop-results_of t all i (s ∷ snapshot) [] results d e = absurd (omega arith)
loop-results_of t all i (s ∷ snapshot) (r ∷ responses) results d e =
    let here = drop_uncons i all s snapshot d in
    rw (here.0, ping_loop)
      (loop-results_of t all (i + 1) snapshot responses (results ++ ping_result t s r ∷ []) (here.1)
          (omega arith)
        ∙ ap returned
            (append_assoc results (ping_result t s r ∷ []) (results_of t snapshot responses)))

-- What a result says of a response.
abbrev Says : Pong → PingResult → Type 0
Says (pong t) p = (p.pong_timestamp ≡ some t) × (p.exception_string ≡ none)
Says (exception text) p = (p.pong_timestamp ≡ none) × (p.exception_string ≡ some text)

-- The results are those of the secondaries and their responses, in order.
abbrev pub Reports : ℕ → List SecondarySnapshot → List Pong → List PingResult → Type 0
Reports t (s ∷ snapshot) (r ∷ responses) (p ∷ results) =
    (p.secondary_id ≡ s.id)
    × (p.secondary_friendly_name ≡ s.friendly_name)
    × (p.secondary_state ≡ s.state)
    × (p.ping_timestamp ≡ t)
    × Says r p
    × Reports t snapshot responses results
Reports t snapshot responses results =
    (length snapshot ≡ 0) × (length responses ≡ 0) × (length results ≡ 0)

results_of-Reports :
    (t : ℕ) (snapshot : List SecondarySnapshot) (responses : List Pong)
    → length responses ≡ length snapshot
    → Reports t snapshot responses (results_of t snapshot responses)
results_of-Reports t [] [] e = (refl, refl, refl)
results_of-Reports t [] (r ∷ responses) e = absurd (omega arith)
results_of-Reports t (s ∷ snapshot) [] e = absurd (omega arith)
results_of-Reports t (s ∷ snapshot) (pong x ∷ responses) e =
    (refl, refl, refl, refl, (refl, refl), results_of-Reports t snapshot responses (omega arith))
results_of-Reports t (s ∷ snapshot) (exception x ∷ responses) e =
    (refl, refl, refl, refl, (refl, refl), results_of-Reports t snapshot responses (omega arith))

-- With as many responses as there are secondaries, pingSecondaries() returns, and its result is one
-- entry for each secondary, in order: its id, its name and its state, the timestamp of the ping, and
-- either the timestamp of its pong or the text of its exception, and not the other.
pub ping-Reports :
    (t : ℕ) (responses : List Pong) (m : MasterNode)
    → length responses ≡ length (secondaries_snapshot m)
    → (results : List PingResult) × (ping_secondaries t responses m ≡ returned results)
      × Reports t (secondaries_snapshot m) responses results
unfolding ping_secondaries
ping-Reports t responses m e = (
  results_of t (secondaries_snapshot m) responses,
  loop-results_of t (secondaries_snapshot m) 0 (secondaries_snapshot m) responses [] refl e,
  results_of-Reports t (secondaries_snapshot m) responses e,
)

-- What the sends of a request leave as it is.
abbrev Keeps : AddMessageRequest → AddMessageRequest → Type 0
Keeps r' r = (r'.promise ≡ r.promise) × (r'.message_id ≡ r.message_id) × (r'.message ≡ r.message)

send_request-Keeps : (r : AddMessageRequest) → Keeps (send_request_to_secondaries r).0 r
send_request-Keeps r = let f = send_request_frame r in rw (f.1) (refl, refl, refl)

go_on-Keeps : (r : AddMessageRequest) → Keeps (go_on r).0 r
unfolding go_on
go_on-Keeps r = elim (Bool-cases (AddMessageRequest.all_secondaries_successfully_answered r)) [
  | inl all ↦ rw all (refl, refl, refl)
  | inr more ↦ rw more (send_request-Keeps r)
]

mark_success_new :
    (r : AddMessageRequest)
    → r.promise_filled ≡ false
    → ((request_mark_success r).promise ≡ set_value ∷ r.promise)
      × ((request_mark_success r).message_id ≡ r.message_id)
      × ((request_mark_success r).message ≡ r.message)
unfolding request_mark_success
mark_success_new r f = rw (f, request_mark_success) (refl, refl, refl)

-- A request before any answer: the promise is set at once where nothing has to be confirmed.
proceed_new :
    (r : AddMessageRequest)
    → r.promise_filled ≡ false
    → r.promise ≡ []
    → satisfied_write_concern r.statuses ≡ 0
    → ((proceed r).0.promise ≡ (if leb r.write_concern 0 then set_value ∷ [] else []))
      × ((proceed r).0.message_id ≡ r.message_id)
      × ((proceed r).0.message ≡ r.message)
unfolding proceed
proceed_new r f p none_yet = elim (Bool-cases (leb r.write_concern 0)) [
  | inl zero_concern ↦
      let met : leb r.write_concern (satisfied_write_concern r.statuses) ≡ true =
        ground (arith, zero_concern, none_yet) in
      let marked = mark_success_new r f in
      let kept = go_on-Keeps (request_mark_success r) in
      rw (met, zero_concern, proceed)
        (kept.0 ∙ marked.0 ∙ ap (λ l. set_value ∷ l) p, kept.1 ∙ marked.1, kept.2 ∙ marked.2)
  | inr some_concern ↦
      let unmet : leb r.write_concern (satisfied_write_concern r.statuses) ≡ false =
        ground (arith, some_concern, none_yet) in
      let kept = send_request-Keeps r in
      rw (unmet, some_concern, proceed) (kept.0 ∙ p, kept.1, kept.2)
]

-- What addMessage() does, for a master whose storage holds `log`.
pub record Accepts (m : MasterNode) (log : List Bytes) (message : Bytes) (write_concern : ℕ)
    : Type 0 where
  pub stored : IsLog (add_message message write_concern m).node.storage (log ++ message ∷ [])
  pub same_secondaries : (add_message message write_concern m).node.secondaries ≡ m.secondaries
  pub id : (add_message message write_concern m).request.message_id ≡ length log
  pub text : (add_message message write_concern m).request.message ≡ message
  pub unconfirmed :
      write_concern ≤ 1
      → ((add_message message write_concern m).future ≡ ready)
        × ((add_message message write_concern m).request.promise ≡ set_value ∷ [])
  pub confirmed :
      1 < write_concern
      → ((add_message message write_concern m).future ≡ of_request)
        × ((add_message message write_concern m).request.promise ≡ [])

-- On a master whose storage holds `log` of fewer than 2^64 - 1 messages, addMessage() appends the
-- message to the log, and the request that it runs carries the message under the id length log.
-- With a write concern of 1 or less it returns a ready future, and the promise of the request is set
-- at once; with a larger one it returns the future of the request, whose promise is still open.
pub add_message-Accepts :
    (m : MasterNode) (log : List Bytes) (message : Bytes) (write_concern : ℕ)
    → length log + 1 < u64_mod
    → IsLog m.storage log
    → Accepts m log message write_concern
unfolding add_message start update_data retain satisfied_write_concern
add_message-Accepts m log message write_concern small v =
    let a = add_message-Appends m.storage log message small v in
    let stored = Storage.add_message message m.storage in
    let request : AddMessageRequest =
      record (AddMessageRequest.create stored.0 stored.1 (request_concern write_concern)) {
        secondaries_snapshot = ids_of (secondaries_snapshot m);
      } in
    let new = proceed_new request refl refl refl in
    record {
      stored = a.after;
      same_secondaries = refl;
      id = new.1 ∙ a.id;
      text = new.2 ∙ a.view;
      unconfirmed = λ h. (ground (arith, h), new.0 ∙ ground (arith, h));
      confirmed = λ h. (ground (arith, h), new.0 ∙ ground (arith, h));
    }
