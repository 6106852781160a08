-- ===== src/Tests/Endpoints.antt =====
-- Requests between two endpoints, and the requests of a peer that are answered in another order.
use distributed_systems_hw.Base.{◌≡◌, refl, true, List, [], ◌∷◌, some, none, arith, ltb, Bytes}
use distributed_systems_hw.Base.Maps.{find}
use distributed_systems_hw.Proto.HostBytes.{from_bytes}
use distributed_systems_hw.Proto.Codes.{OpCode, ok}
use distributed_systems_hw.Proto.Platform.{Platform}
use distributed_systems_hw.Proto.Deserializer.{
  view, get_memory_and_advance, deserialize_int, at_end,
}
use distributed_systems_hw.Proto.Parser.{◌>>=◌, read, return, parse, check}
use distributed_systems_hw.Proto.Frame.{RequestFrame}
use distributed_systems_hw.Proto.Request.{Request, get_messages_from_payload}
use distributed_systems_hw.Proto.OutcomingRequests
use distributed_systems_hw.Proto.OutcomingRequests.{request_frame}
use distributed_systems_hw.Proto.IncomingContext
use distributed_systems_hw.Proto.IncomingContext.{Kind}
use distributed_systems_hw.Proto.IncomingRequests
use distributed_systems_hw.Proto.IncomingRequests.{on_incoming_frame, register_context}
use distributed_systems_hw.Proto.IncomingRequests.Runs.{
  Event, register, done, IsBalanced, run_all, idle, answered_once,
}
use distributed_systems_hw.Proto.Endpoint.{incoming_get_messages, dispatch}
use distributed_systems_hw.Proto.Endpoint.Replies.{Answered, call-Answered}

instance abbrev small : Platform
small = record { reserve_throws = λ n. ltb 1000 n; allocates = λ n. true }

abbrev events : List Event
events =
    register 4 (IncomingContext.create 60 Kind.ping)
    ∷ register 5 (IncomingContext.create 61 Kind.add_message)
    ∷ register 5 (IncomingContext.create 62 Kind.add_message)
    ∷ done 61 Kind.add_message (some ok)
    ∷ done 60 Kind.ping none
    ∷ done 60 Kind.ping (some 3)
    ∷ []

answered_once_example : IsBalanced (run_all events idle)
answered_once_example = answered_once events

abbrev hi : Bytes
hi = 104 ∷ 105 ∷ []

abbrev asks : RequestFrame
asks = record {
  request_id = 1;
  op_code = OpCode.get_messages;
  payload = view (7 ∷ 0 ∷ 0 ∷ 0 ∷ 0 ∷ 0 ∷ 0 ∷ 0 ∷ []);
}

emits :
    (dispatch 60 OpCode.get_messages asks IncomingRequests.empty).1
    ≡ some (incoming_get_messages 7 60)
unfolding dispatch get_messages_from_payload parse ◌>>=◌ read return check at_end deserialize_int
    get_memory_and_advance from_bytes
emits = refl

call-Answered_example :
    Answered
      (Request.get_messages 2)
      50
      60
      OutcomingRequests.empty
      IncomingRequests.empty
      (hi ∷ hi ∷ [])
unfolding find
call-Answered_example =
    call-Answered (Request.get_messages 2) 50 60 OutcomingRequests.empty IncomingRequests.empty
      (hi ∷ hi ∷ []) (omega arith) refl refl refl (omega arith)
      (omega arith, (omega arith, (omega arith, tt)), refl)
