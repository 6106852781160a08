-- ===== src/Proto/Endpoint/Replies.antt =====
-- libs/proto: the whole way of a call between two endpoints, and of its answer.
use mathlib.Core.List.{append_assoc, append-nil}
use distributed_systems_hw.Base.{
  ℕ, ◌<◌, ◌≡◌, refl, sym, ap, ◌∙◌, false, none, some, List, [], ◌∷◌, ◌++◌, arith, length, All,
  u64_mod, Bytes,
}
use distributed_systems_hw.Base.Maps.{Map, find, insert, find-insert}
use distributed_systems_hw.Proto.HostBytes.{to_bytes}
use distributed_systems_hw.Proto.Platform.{Platform, returned}
use distributed_systems_hw.Proto.Deserializer.{view}
use distributed_systems_hw.Proto.Serializer.{
  Sequence, serialize_int, serialize_string, joined, joined-append,
}
use distributed_systems_hw.Proto.Frame.{construct_response_header}
use distributed_systems_hw.Proto.Request.{Request}
use distributed_systems_hw.Proto.Request.RoundTrip.{Fits}
use distributed_systems_hw.Proto.Response.{Response, serialize_payload, serialize_items}
use distributed_systems_hw.Proto.OutcomingContext
use distributed_systems_hw.Proto.OutcomingContext.{
  Outcome, status, messages, timestamp, ready, fill,
}
use distributed_systems_hw.Proto.OutcomingRequests
use distributed_systems_hw.Proto.OutcomingRequests.{
  request_frame, send_request_impl, timeout_timer, delayed_write,
}
use distributed_systems_hw.Proto.OutcomingRequests.Answers.{
  Answers, with_status, with_messages, with_pong, with_ready, frame_bytes, drop_id, answer_settles,
}
use distributed_systems_hw.Proto.IncomingContext
use distributed_systems_hw.Proto.IncomingContext.{Kind, Value, response_of}
use distributed_systems_hw.Proto.IncomingRequests
use distributed_systems_hw.Proto.IncomingRequests.{
  response_frame, forget, alive_as, register_context, on_promise_done,
}
use distributed_systems_hw.Proto.IncomingRequests.Runs.{done_alive}
use distributed_systems_hw.Proto.Endpoint.{on_request_frame}
use distributed_systems_hw.Proto.Endpoint.Calls.{signal_of, kind_of, frame_of, request_arrives}

-- What is written behind `seq` and `first` is written behind `first` alone, and `seq` stays in front.
items_behind :
    (sizes : List ℕ) (views : List Bytes) (seq first : Sequence)
    → serialize_items sizes views (seq ++ first) ≡ (seq ++ first) ++ serialize_items sizes views []
    → serialize_items sizes views first ≡ first ++ serialize_items sizes views []
    → serialize_items sizes views (seq ++ first) ≡ seq ++ serialize_items sizes views first
items_behind sizes views seq first e f =
    e
    ∙ append_assoc seq first (serialize_items sizes views [])
    ∙ ap (λ (l : Sequence). seq ++ l) (sym f)

serialize_items-append :
    (sizes : List ℕ) (views : List Bytes) (seq : Sequence)
    → serialize_items sizes views seq ≡ seq ++ serialize_items sizes views []
unfolding serialize_items serialize_int serialize_string
serialize_items-append [] views seq = sym (append-nil seq)
serialize_items-append (size ∷ sizes) [] seq = sym (append-nil seq)
serialize_items-append (size ∷ sizes) (item ∷ views) seq =
    ap (serialize_items sizes views) (append_assoc seq (to_bytes 8 size ∷ []) (item ∷ []))
    ∙ items_behind sizes views seq (to_bytes 8 size ∷ item ∷ [])
        (serialize_items-append sizes views (seq ++ to_bytes 8 size ∷ item ∷ []))
        (serialize_items-append sizes views (to_bytes 8 size ∷ item ∷ []))

serialize_payload-append :
    (r : Response) (seq : Sequence) → serialize_payload r seq ≡ seq ++ serialize_payload r []
unfolding serialize_payload serialize_int
serialize_payload-append (Response.add_message s) seq = refl
serialize_payload-append (Response.get_messages r) seq =
    items_behind r.sizes r.views seq (to_bytes 8 r.messages_num ∷ [])
      (serialize_items-append r.sizes r.views (seq ++ to_bytes 8 r.messages_num ∷ []))
      (serialize_items-append r.sizes r.views (to_bytes 8 r.messages_num ∷ []))
serialize_payload-append (Response.pong t) seq = refl
serialize_payload-append Response.secondary_node_ready seq = sym (append-nil seq)

-- The frame of a response, as its bytes.
response_bytes : (id : ℕ) (r : Response) → joined (response_frame id r) ≡ frame_bytes id r
response_bytes id r =
    ap joined (serialize_payload-append r (construct_response_header id))
    ∙ joined-append (construct_response_header id) (serialize_payload r [])

-- The context that waits for the answer to a request, and what it is set to for a value.
abbrev pub waiting_kind : Request → OutcomingContext.Kind
waiting_kind (Request.add_message id message) = OutcomingContext.for_add_message
waiting_kind (Request.get_messages start) = OutcomingContext.for_get_messages
waiting_kind (Request.ping t) = OutcomingContext.for_ping
waiting_kind (Request.secondary_node_ready name) = OutcomingContext.for_secondary_node_ready

abbrev pub outcome_of : (kind : Kind) → Value kind → Outcome
outcome_of Kind.add_message s = status s
outcome_of Kind.get_messages ms = messages ms
outcome_of Kind.ping t = timestamp t
outcome_of Kind.secondary_node_ready done = ready

-- The value fits the wire: its numbers 64 bits, and its count what the other side can reserve.
abbrev pub Sendable : ⦃p : Platform⦄ → (kind : Kind) → Value kind → Type 0
Sendable Kind.add_message s = Unit
Sendable ⦃p⦄ Kind.get_messages ms =
    (length ms < u64_mod)
    × All (λ m. length m < u64_mod) ms
    × (p.reserve_throws (length ms) ≡ false)
Sendable Kind.ping t = t < u64_mod
Sendable Kind.secondary_node_ready done = Unit

response_of-Answers :
    ⦃p : Platform⦄
    → (r : Request) (v : Value (kind_of r)) → Sendable (kind_of r) v
    → Answers (waiting_kind r) (response_of (kind_of r) v) (outcome_of (kind_of r) v)
response_of-Answers (Request.add_message id message) v h = with_status v
response_of-Answers (Request.get_messages start) v h = with_messages v (h.0) (h.1) (h.2)
response_of-Answers (Request.ping t) v h = with_pong v h
response_of-Answers (Request.secondary_node_ready name) v h = with_ready

alive_as-insert :
    (handle id : ℕ) (kind : Kind) (m : Map IncomingContext.Context)
    → find id m ≡ none
    → alive_as handle m ≡ none
    → alive_as handle (insert id (IncomingContext.create handle kind) m) ≡ some id
unfolding find insert
alive_as-insert handle id kind [] f a = ground arith
alive_as-insert handle id kind ((j, c) ∷ m) f a =
    ground (arith, alive_as-insert handle id kind m, f, a)

registered :
    (handle id : ℕ) (kind : Kind) (m : IncomingRequests.Manager)
    → find id m.registered_contexts ≡ none
    → alive_as handle m.registered_contexts ≡ none
    → alive_as handle
        (register_context id (IncomingContext.create handle kind) m).registered_contexts
      ≡ some id
unfolding register_context
registered handle id kind m f a =
    rw (f, register_context) (alive_as-insert handle id kind m.registered_contexts f a)

module _ (r : Request) (client_handle server_handle : ℕ) (client : OutcomingRequests.Manager)
    (server : IncomingRequests.Manager) where
  abbrev pub id : ℕ
  id = client.request_id_counter

  abbrev pub waiting : OutcomingContext.Context
  waiting = OutcomingContext.create client_handle (waiting_kind r)

  abbrev pub asking : OutcomingRequests.Manager
  asking = (send_request_impl r waiting client).manager

  abbrev pub asked : IncomingRequests.Manager
  asked = register_context id (IncomingContext.create server_handle (kind_of r)) server

  -- The four stations of a call that is answered with `v`.
  pub record Answered ⦃p : Platform⦄ (v : Value (kind_of r)) : Type 0 where
    pub sent :
        (send_request_impl r waiting client).effects
        ≡ timeout_timer id ∷ delayed_write id (request_frame id r) ∷ []
    pub parsed :
        IncomingRequests.on_incoming_frame (view (joined (request_frame id r)))
        ≡ some (frame_of id r)
    pub emitted :
        on_request_frame server_handle (frame_of id r) server
        ≡ (asked, some (signal_of r server_handle))
    pub replied :
        on_promise_done server_handle (kind_of r) (some v) asked
        ≡ (forget id asked, response_frame id (response_of (kind_of r) v) ∷ [])
    pub settled :
        OutcomingRequests.on_incoming_frame
          (view (joined (response_frame id (response_of (kind_of r) v))))
          asking
        ≡ returned (drop_id id asking, fill (outcome_of (kind_of r) v) waiting ∷ [])

send_new :
    (r : Request) (c : OutcomingContext.Context) (m : OutcomingRequests.Manager)
    → find m.request_id_counter m.pending_requests ≡ none
    → ((send_request_impl r c m).effects
        ≡ timeout_timer m.request_id_counter
          ∷ delayed_write m.request_id_counter (request_frame m.request_id_counter r)
          ∷ [])
      × (find m.request_id_counter (send_request_impl r c m).manager.pending_requests ≡ some c)
unfolding send_request_impl
send_new r c m e = (
  rw (e, send_request_impl) refl,
  rw (e, send_request_impl)
      (ground
        (arith, e, find-insert m.request_id_counter m.request_id_counter c m.pending_requests)),
)

-- A request that one endpoint sends under an id below 2^64 that is free on both sides, with numbers
-- that fit 64 bits, arrives at the other one as its signal with the same arguments; and when the
-- promise that came with the signal is set to a value that fits the wire, the frame that is written
-- then sets the future of the request to that value, and the request is erased on both sides.
pub call-Answered :
    ⦃p : Platform⦄
    → (r : Request) (client_handle server_handle : ℕ) (client : OutcomingRequests.Manager)
      (server : IncomingRequests.Manager) (v : Value (kind_of r))
    → client.request_id_counter < u64_mod
    → find client.request_id_counter client.pending_requests ≡ none
    → find client.request_id_counter server.registered_contexts ≡ none
    → alive_as server_handle server.registered_contexts ≡ none
    → Fits r
    → Sendable (kind_of r) v
    → Answered r client_handle server_handle client server v
call-Answered r ch sh client server v small free_client free_server new fits sendable =
    let i = client.request_id_counter in
    let w = waiting r ch sh client server in
    let s = send_new r w client free_client in
    let a = request_arrives i sh r server small fits in
    record {
      sent = s.0;
      parsed = a.0;
      emitted = a.1;
      replied =
          done_alive sh (kind_of r) (some v) (asked r ch sh client server) i
            (registered sh i (kind_of r) server free_server new);
      settled =
          ap
            (λ (b : Bytes).
              OutcomingRequests.on_incoming_frame (view b) (asking r ch sh client server))
            (response_bytes i (response_of (kind_of r) v))
          ∙ (answer_settles i (asking r ch sh client server) w (response_of (kind_of r) v)
              (outcome_of (kind_of r) v) small (s.1) (refl, refl)
              (response_of-Answers r v sendable)).0;
    }
