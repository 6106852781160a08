-- ===== src/Proto/IncomingRequests/Runs.antt =====
-- libs/proto/src/incomingrequestsmanager: any sequence of requests and of promises that are done.
use distributed_systems_hw.Base.{
  ℕ, suc, ◌+◌, ◌≡◌, refl, ap, Option, none, some, List, [], ◌∷◌, ◌++◌, arith, ◌==◌, if◌then◌else◌,
  Bool-cases, Option-cases, inl, inr,
}
use distributed_systems_hw.Base.Maps.{
  Map, find, erase, UniqueKeys, insert-UniqueKeys, erase-UniqueKeys, find-insert, find-erase,
}
use distributed_systems_hw.Proto.Serializer.{Sequence}
use distributed_systems_hw.Proto.Response.{Response}
use distributed_systems_hw.Proto.IncomingContext.{Context, Kind, Value, response_of}
use distributed_systems_hw.Proto.IncomingRequests.{
  Manager, empty, response_frame, register_context, forget, alive_as, on_response_received,
  on_invalid_response_received, on_signal, on_promise_done,
}

-- What happens to a manager: a context is registered under an id, or the promise of one is done.
pub data Event : Type 0 where
  register : (response_id : ℕ) → Context → Event
  done : (handle : ℕ) → (kind : Kind) → Option (Value kind) → Event

-- A manager with the ids of the requests that it took and of those that it dropped because their
-- promise was broken, the responses that it was given, and the frames that it wrote.
pub record Run : Type 0 where
  pub manager : Manager
  pub taken : List ℕ
  pub answered : List (ℕ × Response)
  pub dropped : List ℕ
  pub written : List Sequence

abbrev pub idle : Run
idle = record { manager = empty; taken = []; answered = []; dropped = []; written = [] }

abbrev pub take_note : Option Context → ℕ → Run → Run
take_note none response_id run = record run { taken = response_id ∷ run.taken }
take_note (some other) response_id run = run

abbrev pub answer_note : (kind : Kind) → Option (Value kind) → ℕ → Run → Run
answer_note kind none response_id run = record run { dropped = response_id ∷ run.dropped }
answer_note kind (some value) response_id run = record run {
  answered = (response_id, response_of kind value) ∷ run.answered;
}

abbrev pub done_note : (kind : Kind) → Option (Value kind) → Option ℕ → Run → Run
done_note kind value none run = run
done_note kind value (some response_id) run = answer_note kind value response_id run

abbrev pub react : Event → Run → Run
react (register response_id context) run =
    take_note (find response_id run.manager.registered_contexts) response_id
      (record run { manager = register_context response_id context run.manager })
react (done handle kind value) run =
    let out = on_promise_done handle kind value run.manager in
    done_note kind value (alive_as handle run.manager.registered_contexts)
      (record run { manager = out.0; written = out.1 ++ run.written })

abbrev pub run_all : List Event → Run → Run
run_all [] run = run
run_all (e ∷ events) run = run_all events (react e run)

abbrev pub occurs : ℕ → List ℕ → ℕ
occurs i [] = 0
occurs i (x ∷ xs) = if x == i then suc (occurs i xs) else occurs i xs

abbrev pub answers : ℕ → List (ℕ × Response) → ℕ
answers i [] = 0
answers i ((x, r) ∷ rest) = if x == i then suc (answers i rest) else answers i rest

abbrev pub frames : List (ℕ × Response) → List Sequence
frames [] = []
frames ((x, r) ∷ rest) = response_frame x r ∷ frames rest

abbrev pub waits : Option Context → ℕ
waits none = 0
waits (some c) = 1

-- Every request that was taken was answered or dropped, once, or waits, and what was written are the
-- frames of the answers under the ids of their requests.
pub record IsBalanced (run : Run) : Type 0 where
  pub unique : UniqueKeys run.manager.registered_contexts
  pub balance :
      (i : ℕ)
      → occurs i run.taken
        ≡ answers i run.answered
          + occurs i run.dropped
          + waits (find i run.manager.registered_contexts)
  pub wrote : run.written ≡ frames run.answered

alive_as-present :
    (handle response_id : ℕ) (m : Map Context)
    → alive_as handle m ≡ some response_id
    → (c : Context) × (find response_id m ≡ some c)
unfolding find
alive_as-present handle response_id [] e = absurd (ground (arith, e))
alive_as-present handle response_id ((j, c) ∷ m) e = elim (Bool-cases (j == response_id)) [
  | inl same ↦ (c, ground (arith, same))
  | inr other ↦
      let (d, f) = alive_as-present handle response_id m (ground (arith, e, other)) in
      (d, ground (arith, other, f))
]

register-IsBalanced :
    (response_id : ℕ) (c : Context) (run : Run)
    → IsBalanced run
    → IsBalanced (react (register response_id c) run)
unfolding register_context
register-IsBalanced response_id c run b =
    elim (Option-cases (find response_id run.manager.registered_contexts)) [
      | inl e ↦
          rw (e, register_context)
            (record {
              unique = insert-UniqueKeys response_id c run.manager.registered_contexts b.unique;
              balance = λ i. ground (
                arith,
                b.balance i,
                e,
                find-insert i response_id c run.manager.registered_contexts,
              );
              wrote = b.wrote;
            })
      | inr (other, e) ↦ rw (e, register_context) b
    ]

abbrev written_for : (kind : Kind) → Option (Value kind) → ℕ → List Sequence
written_for kind none response_id = []
written_for kind (some value) response_id = response_frame response_id (response_of kind value) ∷ []

-- What a promise that is done leads to.
pub done_alive :
    (handle : ℕ) (kind : Kind) (value : Option (Value kind)) (m : Manager) (response_id : ℕ)
    → alive_as handle m.registered_contexts ≡ some response_id
    → on_promise_done handle kind value m
      ≡ (forget response_id m, written_for kind value response_id)
unfolding on_promise_done on_signal on_response_received on_invalid_response_received
done_alive handle kind none m response_id e = rw (e, on_promise_done) refl
done_alive handle kind (some v) m response_id e = rw (e, on_promise_done) refl

done_gone :
    (handle : ℕ) (kind : Kind) (value : Option (Value kind)) (m : Manager)
    → alive_as handle m.registered_contexts ≡ none
    → on_promise_done handle kind value m ≡ (m, [])
unfolding on_promise_done
done_gone handle kind value m e = rw (e, on_promise_done) refl

forget-balance :
    (i response_id : ℕ) (m : Map Context) (c : Context)
    → find response_id m ≡ some c
    → waits (find i m) ≡ (if response_id == i then 1 else 0) + waits (find i (erase response_id m))
forget-balance i response_id m c e = ground (arith, e, find-erase i response_id m)

answer_note-IsBalanced :
    (kind : Kind) (value : Option (Value kind)) (response_id : ℕ) (run : Run) (c : Context)
    → find response_id run.manager.registered_contexts ≡ some c
    → IsBalanced run
    → IsBalanced (
        answer_note kind value response_id (record run {
          manager = forget response_id run.manager;
          written = written_for kind value response_id ++ run.written;
        }))
answer_note-IsBalanced kind none response_id run c f b = record {
  unique = erase-UniqueKeys response_id run.manager.registered_contexts b.unique;
  balance = λ i.
      ground (arith, b.balance i, forget-balance i response_id run.manager.registered_contexts c f);
  wrote = b.wrote;
}
answer_note-IsBalanced kind (some v) response_id run c f b = record {
  unique = erase-UniqueKeys response_id run.manager.registered_contexts b.unique;
  balance = λ i.
      ground (arith, b.balance i, forget-balance i response_id run.manager.registered_contexts c f);
  wrote = ap (λ l. response_frame response_id (response_of kind v) ∷ l) b.wrote;
}

done-IsBalanced :
    (handle : ℕ) (kind : Kind) (value : Option (Value kind)) (run : Run)
    → IsBalanced run
    → IsBalanced (react (done handle kind value) run)
done-IsBalanced handle kind value run b =
    elim (Option-cases (alive_as handle run.manager.registered_contexts)) [
      | inl e ↦ rw (e, done_gone handle kind value run.manager e) b
      | inr (response_id, e) ↦
          let (c, f) = alive_as-present handle response_id run.manager.registered_contexts e in
          rw (e, done_alive handle kind value run.manager response_id e)
            (answer_note-IsBalanced kind value response_id run c f b)
    ]

react-IsBalanced : (e : Event) (run : Run) → IsBalanced run → IsBalanced (react e run)
react-IsBalanced (register response_id c) run b = register-IsBalanced response_id c run b
react-IsBalanced (done handle kind value) run b = done-IsBalanced handle kind value run b

run-IsBalanced :
    (events : List Event) (run : Run) → IsBalanced run → IsBalanced (run_all events run)
run-IsBalanced [] run b = b
run-IsBalanced (e ∷ events) run b = run-IsBalanced events (react e run) (react-IsBalanced e run b)

-- For every sequence of requests of the peer and of promises that are done, in any order, with a
-- value or broken, and also more than once: under each id a request that was taken was answered
-- once, or dropped once because its promise was broken, or still waits; and the frames
-- that were written are those of the answers, each under the id of its request.
pub answered_once : (events : List Event) → IsBalanced (run_all events idle)
unfolding find
answered_once events =
    run-IsBalanced events idle (record { unique = tt; balance = λ i. omega arith; wrote = refl })
