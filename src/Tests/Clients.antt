-- ===== src/Tests/Clients.antt =====
-- Requests of clients, with a small json: every body but the empty one parses, to one that has a
-- write concern of 2 and a message.
use distributed_systems_hw.Base.{◌≡◌, refl, true, false, some, none, [], ◌∷◌, length, Bytes}
use distributed_systems_hw.Master.MasterNode
use distributed_systems_hw.Master.MasterNode.{MasterNode}
use distributed_systems_hw.Master.HttpSession.{parse_new_message}
use distributed_systems_hw.Master.HttpSession.Answers.{IsAnswer, respond, succeeds, answer-IsAnswer}
use distributed_systems_hw.NetUtils.Json.{Json, Tried, value, error, pos, bytes}
use distributed_systems_hw.NetUtils.HttpSession.{Request, get, post, create}
use distributed_systems_hw.NetUtils.IoContextPool as IoContextPool
use distributed_systems_hw.NetUtils.SocketAcceptor.{random, run, create as acceptor}
use distributed_systems_hw.NetUtils.SocketAcceptor.Turns.{Serves, accept_all, run-Serves}
use distributed_systems_hw.Tests.Systems.{up}

abbrev parse_body : Bytes → Tried Bytes
parse_body [] = error (bytes "empty")
parse_body (b ∷ rest) = value (b ∷ rest)

abbrev json : Json
json = record {
  Value = Bytes;
  Entries = Bytes;
  parse = parse_body;
  as_object = λ v. value v;
  at_key = λ entries key. value entries;
  as_int64 = λ v. value (pos 2);
  as_string = λ v. value v;
  serialize = λ array. length array ∷ [];
}

abbrev posting : Request
posting = record { version = 11; method = post; target = "/newMessage"; body = 104 ∷ [] }

abbrev reading : Request
reading = record { version = 11; method = get; target = "/messages"; body = [] }

answer-IsAnswer_example :
    IsAnswer posting
      (succeeds json none true (some MasterNode.create) posting)
      (respond json none true (some MasterNode.create) (create posting))
answer-IsAnswer_example = answer-IsAnswer json none true posting (some MasterNode.create)

post_accepted : succeeds json none true (some MasterNode.create) posting ≡ true
unfolding parse_new_message
post_accepted = refl

abbrev serving : MasterNode
serving = record MasterNode.create { storage = up.master }

run-Serves_example : Serves (false ∷ false ∷ false ∷ true ∷ []) 0 2 (
    accept_all
      (false ∷ false ∷ false ∷ true ∷ [])
      (run (acceptor random (IoContextPool.construct 2))))
unfolding IoContextPool.construct
run-Serves_example = run-Serves (false ∷ false ∷ false ∷ true ∷ []) (IoContextPool.construct 2)

three_turns :
    (accept_all
      (false ∷ false ∷ false ∷ true ∷ [])
      (run (acceptor random (IoContextPool.construct 2)))).1
    ≡ 0 ∷ 1 ∷ 0 ∷ []
unfolding IoContextPool.construct IoContextPool.get_next accept_all run
three_turns = refl
