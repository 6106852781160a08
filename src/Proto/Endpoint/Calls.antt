-- ===== src/Proto/Endpoint/Calls.antt =====
-- libs/proto: a call over the wire, from the send_ function of one endpoint to the signal of the
-- other, and from the promise that came with the signal back to the future of the send_ function.
use mathlib.Core.List.{append_assoc}
use Prim.Native.Nat.{min, max}
use distributed_systems_hw.Base.{
  ℕ, ◌<◌, ◌≤◌, ◌≡◌, refl, sym, ap, ◌∙◌, Option, some, [], ◌∷◌, ◌++◌, arith, u64_mod, Bytes,
}
use distributed_systems_hw.Proto.HostBytes.{to_bytes}
use distributed_systems_hw.Proto.Codes.{OpCode}
use distributed_systems_hw.Proto.Deserializer.{view}
use distributed_systems_hw.Proto.Serializer.{
  Sequence, serialize_int, serialize_string, joined, joined-append,
}
use distributed_systems_hw.Proto.Frame.{RequestFrame, parse_event_type, construct_request_header}
use distributed_systems_hw.Proto.Frame.RoundTrip.{parse-construct_request, event-construct_request}
use distributed_systems_hw.Proto.Request
use distributed_systems_hw.Proto.Request.{Request, op_code, serialize_payload, from_payload}
use distributed_systems_hw.Proto.Request.RoundTrip.{Fits, payload_bytes, from-serialize_payload}
use distributed_systems_hw.Proto.IncomingContext
use distributed_systems_hw.Proto.IncomingContext.{Kind}
use distributed_systems_hw.Proto.IncomingRequests
use distributed_systems_hw.Proto.IncomingRequests.{on_event, on_incoming_frame, register_context}
use distributed_systems_hw.Proto.OutcomingRequests.{request_frame}
use distributed_systems_hw.Proto.Endpoint.{
  Random, create_bounds, choose_send_delay, on_add_message, on_get_messages, on_ping,
  on_secondary_node_ready, Incoming, incoming_add_message, incoming_get_messages, incoming_ping,
  incoming_secondary_node_ready, dispatch, on_request_frame,
}

-- The signal and the context that a request leads to on the other side.
abbrev pub signal_of : Request → ℕ → Incoming
signal_of (Request.add_message id message) promise = incoming_add_message id message promise
signal_of (Request.get_messages start) promise = incoming_get_messages start promise
signal_of (Request.ping timestamp) promise = incoming_ping timestamp promise
signal_of (Request.secondary_node_ready name) promise = incoming_secondary_node_ready name promise

abbrev pub kind_of : Request → Kind
kind_of (Request.add_message id message) = Kind.add_message
kind_of (Request.get_messages start) = Kind.get_messages
kind_of (Request.ping timestamp) = Kind.ping
kind_of (Request.secondary_node_ready name) = Kind.secondary_node_ready

serialize_payload-append :
    (r : Request) (seq : Sequence) → serialize_payload r seq ≡ seq ++ serialize_payload r []
unfolding serialize_payload serialize_int serialize_string
serialize_payload-append (Request.add_message id message) seq =
    append_assoc seq (to_bytes 8 id ∷ []) (message ∷ [])
serialize_payload-append (Request.get_messages start) seq = refl
serialize_payload-append (Request.ping timestamp) seq = refl
serialize_payload-append (Request.secondary_node_ready name) seq = refl

pub request_bytes :
    (id : ℕ) (r : Request)
    → joined (request_frame id r)
      ≡ joined (construct_request_header id (op_code r)) ++ payload_bytes r
request_bytes id r =
    ap joined (serialize_payload-append r (construct_request_header id (op_code r)))
    ∙ joined-append (construct_request_header id (op_code r)) (serialize_payload r [])

dispatch-signal_of :
    (handle id : ℕ) (r : Request) (m : IncomingRequests.Manager)
    → Fits r
    → on_request_frame handle
        (record { request_id = id; op_code = op_code r; payload = view (payload_bytes r) })
        m
      ≡ (
        register_context id (IncomingContext.create handle (kind_of r)) m,
        some (signal_of r handle),
      )
unfolding on_request_frame from_payload
dispatch-signal_of handle id (Request.add_message i message) m h =
    ap (on_add_message handle id m) (from-serialize_payload (Request.add_message i message) h)
dispatch-signal_of handle id (Request.get_messages start) m h =
    ap (on_get_messages handle id m) (from-serialize_payload (Request.get_messages start) h)
dispatch-signal_of handle id (Request.ping timestamp) m h =
    ap (on_ping handle id m) (from-serialize_payload (Request.ping timestamp) h)
dispatch-signal_of handle id (Request.secondary_node_ready name) m h =
    ap (on_secondary_node_ready handle id m)
      (from-serialize_payload (Request.secondary_node_ready name) h)

abbrev pub frame_of : ℕ → Request → RequestFrame
frame_of id r = record { request_id = id; op_code = op_code r; payload = view (payload_bytes r) }

-- The frame that a request is sent in, with an id below 2^64 and numbers that fit 64 bits, is read
-- by the other side as a frame with that id, which emits the signal of the request with its
-- arguments, and registers a context of its kind under the id.
pub request_arrives :
    (id handle : ℕ) (r : Request) (m : IncomingRequests.Manager)
    → id < u64_mod
    → Fits r
    → (on_incoming_frame (view (joined (request_frame id r))) ≡ some (frame_of id r))
      × (on_request_frame handle (frame_of id r) m ≡ (
        register_context id (IncomingContext.create handle (kind_of r)) m,
        some (signal_of r handle),
      ))
unfolding on_incoming_frame on_event
request_arrives id handle r m h fits = (
  ap (λ (b : Bytes). on_event (parse_event_type (view b)) (view b)) (request_bytes id r)
      ∙ ap
          (λ e.
            on_event e (view (joined (construct_request_header id (op_code r)) ++ payload_bytes r)))
          (event-construct_request id (op_code r) (payload_bytes r))
      ∙ parse-construct_request id (op_code r) (payload_bytes r) h,
  dispatch-signal_of handle id r m fits,
)

-- What a parsed request is when its case emits a signal.
abbrev Origin : ℕ → Option Request → Incoming → Type 0
Origin handle parsed s = (r : Request) × (parsed ≡ some r) × (s ≡ signal_of r handle)

module _ (handle id : ℕ) (m : IncomingRequests.Manager) (s : Incoming) where
  emitted_add_message :
      (parsed : Option Request)
      → (on_add_message handle id m parsed).1 ≡ some s
      → Origin handle parsed s
  emitted_add_message (some (Request.add_message i message)) e =
      (Request.add_message i message, refl, sym (cc))
  emitted_add_message other e = absurd (cc)

  emitted_get_messages :
      (parsed : Option Request)
      → (on_get_messages handle id m parsed).1 ≡ some s
      → Origin handle parsed s
  emitted_get_messages (some (Request.get_messages start)) e =
      (Request.get_messages start, refl, sym (cc))
  emitted_get_messages other e = absurd (cc)

  emitted_ping :
      (parsed : Option Request) → (on_ping handle id m parsed).1 ≡ some s → Origin handle parsed s
  emitted_ping (some (Request.ping timestamp)) e = (Request.ping timestamp, refl, sym (cc))
  emitted_ping other e = absurd (cc)

  emitted_secondary_node_ready :
      (parsed : Option Request)
      → (on_secondary_node_ready handle id m parsed).1 ≡ some s
      → Origin handle parsed s
  emitted_secondary_node_ready (some (Request.secondary_node_ready name)) e =
      (Request.secondary_node_ready name, refl, sym (cc))
  emitted_secondary_node_ready other e = absurd (cc)

-- Whatever the peer sends, a signal is emitted only for a request that its frame holds: a parser of
-- the operation of the frame read it from the payload.
emitted_of :
    (handle : ℕ) (op : OpCode) (f : RequestFrame) (m : IncomingRequests.Manager) {s : Incoming}
    → (dispatch handle op f m).1 ≡ some s
    → (r : Request) × (from_payload op f.payload ≡ some r) × (s ≡ signal_of r handle)
unfolding dispatch from_payload
emitted_of handle OpCode.add_message f m {s} e =
    emitted_add_message handle f.request_id m s (Request.add_message_from_payload f.payload) e
emitted_of handle OpCode.get_messages f m {s} e =
    emitted_get_messages handle f.request_id m s (Request.get_messages_from_payload f.payload) e
emitted_of handle OpCode.ping_pong f m {s} e =
    emitted_ping handle f.request_id m s (Request.ping_from_payload f.payload) e
emitted_of handle OpCode.secondary_node_ready f m {s} e =
    emitted_secondary_node_ready handle f.request_id m s
      (Request.secondary_node_ready_from_payload f.payload) e

-- What uniform_int_distribution draws lies between the bounds, given in either order.
delay_in_bounds :
    (random : Random) (a b : ℕ)
    → ((lo hi : ℕ) → lo ≤ hi → (lo ≤ random.draw lo hi) × (random.draw lo hi ≤ hi))
    → ((create_bounds (a, b)).0 ≤ (create_bounds (a, b)).1)
      × (min a b ≤ choose_send_delay random (create_bounds (a, b)))
      × (choose_send_delay random (create_bounds (a, b)) ≤ max a b)
unfolding create_bounds choose_send_delay
delay_in_bounds random a b within = ground (arith, within a b, within b a)
