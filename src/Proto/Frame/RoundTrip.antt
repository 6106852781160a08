-- ===== src/Proto/Frame/RoundTrip.antt =====
-- A frame parses to the header that it was built with, and only such frames parse.
use mathlib.Core.List.{append_assoc, append-nil}
use distributed_systems_hw.Base.{
  ℕ, ◌^◌, ◌<◌, ◌≡◌, refl, sym, ap, ◌∙◌, ◌++◌, Option, none, some, arith, All, Bytes, IsByte,
  u64_mod,
}
use distributed_systems_hw.Proto.HostBytes.{to_bytes}
use distributed_systems_hw.Proto.Deserializer.{view, Deserializer, leftover}
use distributed_systems_hw.Proto.Deserializer.Reads.{deserialize_int-to_bytes}
use distributed_systems_hw.Proto.Parser.Ints.{int_read}
use distributed_systems_hw.Proto.Serializer.{serialize_int, joined}
use distributed_systems_hw.Proto.Codes.{
  EventType, request, response, event_of, OpCode, event_code, op_code_byte, op_code_of-byte,
  op_code_of-some,
}
use distributed_systems_hw.Proto.Parser.{
  return, parse, value, read_step, valid_step, valid_of, rest_step,
}
use distributed_systems_hw.Proto.Frame.{
  event_is, RequestFrame, parse_request_frame, parse_event_type, parse_response_frame,
  construct_request_header, construct_response_header,
}

request_bytes :
    (id : ℕ) (op : OpCode) (payload : Bytes)
    → joined (construct_request_header id op) ++ payload
      ≡ to_bytes 1 0 ++ (to_bytes 8 id ++ (to_bytes 1 (op_code_byte op) ++ payload))
unfolding construct_request_header serialize_int
request_bytes id op payload = simp (append_assoc, append-nil)

response_bytes :
    (id : ℕ) (payload : Bytes)
    → joined (construct_response_header id) ++ payload ≡ to_bytes 1 1 ++ (to_bytes 8 id ++ payload)
unfolding construct_response_header serialize_int
response_bytes id payload = simp (append_assoc, append-nil)

op_code-small : (op : OpCode) → op_code_byte op < 256 ^ 1
op_code-small op = ground arith

-- parseRequestFrame gives back the id, the operation and the payload of a frame whose header
-- constructRequestHeaderWoOwnership built, for every 64-bit id and every payload.
pub parse-construct_request :
    (id : ℕ) (op : OpCode) (payload : Bytes)
    → id < u64_mod
    → parse_request_frame (view (joined (construct_request_header id op) ++ payload))
      ≡ some (record { request_id = id; op_code = op; payload = view payload })
unfolding parse_request_frame parse leftover return
parse-construct_request id op payload h =
    ap parse_request_frame (ap view (request_bytes id op payload))
    ∙ ap value (
        read_step _ _ (deserialize_int-to_bytes 1 0 _ (omega arith))
        ∙ valid_step _ _ _ refl
        ∙ read_step _ _ (deserialize_int-to_bytes 8 id _ h)
        ∙ read_step _ _ (deserialize_int-to_bytes 1 (op_code_byte op) payload (op_code-small op))
        ∙ valid_step _ _ _ (op_code_of-byte op)
        ∙ rest_step _ _)

-- parseResponseFrame gives back the id and the payload of a frame whose header
-- constructResponseHeaderWoOwnership built, for every 64-bit id and every payload.
pub parse-construct_response :
    (id : ℕ) (payload : Bytes)
    → id < u64_mod
    → parse_response_frame (view (joined (construct_response_header id) ++ payload))
      ≡ some (record { request_id = id; payload = view payload })
unfolding parse_response_frame parse leftover return
parse-construct_response id payload h =
    ap parse_response_frame (ap view (response_bytes id payload))
    ∙ ap value (
        read_step _ _ (deserialize_int-to_bytes 1 1 _ (omega arith))
        ∙ valid_step _ _ _ refl
        ∙ read_step _ _ (deserialize_int-to_bytes 8 id _ h)
        ∙ rest_step _ _)

pub event-construct_response :
    (id : ℕ) (payload : Bytes)
    → parse_event_type (view (joined (construct_response_header id) ++ payload)) ≡ some response
unfolding parse_event_type
event-construct_response id payload =
    ap parse_event_type (ap view (response_bytes id payload))
    ∙ ap (λ (r : Option ℕ × Deserializer). elim r.0 [ none ↦ none | some code ↦ event_of code ])
        (deserialize_int-to_bytes 1 1 (to_bytes 8 id ++ payload) (omega arith))

pub event-construct_request :
    (id : ℕ) (op : OpCode) (payload : Bytes)
    → parse_event_type (view (joined (construct_request_header id op) ++ payload)) ≡ some request
unfolding parse_event_type
event-construct_request id op payload =
    ap parse_event_type (ap view (request_bytes id op payload))
    ∙ ap (λ (r : Option ℕ × Deserializer). elim r.0 [ none ↦ none | some code ↦ event_of code ])
        (deserialize_int-to_bytes 1 0 (to_bytes 8 id ++ (to_bytes 1 (op_code_byte op) ++ payload))
          (omega arith))

-- What a buffer that parses as a request frame looks like.
pub record Framed (bytes : Bytes) (f : RequestFrame) : Type 0 where
  pub payload : Bytes
  pub shown : f.payload ≡ view payload
  pub fits : f.request_id < u64_mod
  pub shape : bytes ≡ joined (construct_request_header f.request_id f.op_code) ++ payload

event_is-lem : (e : EventType) (n : ℕ) {u : Unit {0}} → event_is e n ≡ some u → n ≡ event_code e
event_is-lem e n h = ground arith

value_of :
    {A : Type 0} (o : Option (A × Deserializer)) {a : A}
    → value o ≡ some a
    → (d : Deserializer) × (o ≡ some (a, d))
value_of none e = cc
value_of (some (b, d)) e = (d, ground (arith, e))

assemble :
    (bytes b1 b2 b3 : Bytes) (event id code : ℕ) (op : OpCode) (f : RequestFrame)
    → bytes ≡ to_bytes 1 event ++ b1
    → b1 ≡ to_bytes 8 id ++ b2
    → b2 ≡ to_bytes 1 code ++ b3
    → event ≡ 0
    → code ≡ op_code_byte op
    → id < u64_mod
    → some (record { request_id = id; op_code = op; payload = view b3 }) ≡ some f
    → Framed bytes f
assemble bytes b1 b2 b3 event id code op f e1 e2 e3 is_event is_code fits whole =
    let shown : record { request_id = id; op_code = op; payload = view b3 } ≡ f =
      ground (arith, whole) in
    let shape : bytes ≡ joined (construct_request_header id op) ++ b3 =
      rw (e1, e2, e3, is_event, is_code) (sym (request_bytes id op b3)) in
    record {
      payload = b3;
      shown = sym (ap (λ (r : RequestFrame). r.payload) shown);
      fits = rw (ap (λ (r : RequestFrame). r.request_id) shown) at fits;
      shape =
          shape
          ∙ ap
              (λ (r : RequestFrame). joined (construct_request_header r.request_id r.op_code) ++ b3)
              shown;
    }

-- parseRequestFrame accepts bytes only if they are a header that constructRequestHeaderWoOwnership
-- builds for the id and the operation that it returns, followed by the payload that it returns.
pub parse_request-Framed :
    (bytes : Bytes) (f : RequestFrame)
    → All IsByte bytes
    → parse_request_frame (view bytes) ≡ some f
    → Framed bytes f
unfolding parse_request_frame parse return leftover
parse_request-Framed bytes f whole e =
    let (last, run) = value_of _ e in
    let first = int_read 1 _ bytes whole run in
    let (_, is_request, run1) = valid_of _ _ _ first.then in
    let second = int_read 8 _ first.back first.rest_whole run1 in
    let third = int_read 1 _ second.back second.rest_whole second.then in
    let (op, is_op, run2) = valid_of _ _ _ third.then in
    assemble bytes first.back second.back third.back first.value second.value third.value op f
      first.split second.split third.split (event_is-lem request first.value is_request)
      (op_code_of-some third.value op is_op) second.fits (ap value (sym (rest_step _ _) ∙ run2))
