-- ===== src/System/Steps.antt =====
-- The master's messages and what a secondary has of them: what each event between the two keeps.
use distributed_systems_hw.Base.{
  ℕ, suc, ◌+◌, ◌≤◌, ◌<◌, ◌≡◌, sym, ap, ◌∙◌, ◌≢◌, inl, inr, none, some, List, [], ◌∷◌, ◌++◌, true,
  false, if◌then◌else◌, arith, length, take, drop, length-append, take-append_left, take_all, ◌*◌,
  get_elem?-append_left, get_elem?-below, Bytes, u64_mod, Bool-cases, ◌==◌,
}
use distributed_systems_hw.Base.Maps.{
  Map, get_or, find, insert, assign, find-insert, find-assign_all,
}
use distributed_systems_hw.Master.Storage as MasterStorage
use distributed_systems_hw.Master.Storage.Log.{IsLog, add_message-Appends, chunk-eq-drop}
use distributed_systems_hw.Secondary.Storage.{add_message, get_first_gap}
use distributed_systems_hw.Secondary.Storage.Replica.{From, gap-eq-length-chunk}
use distributed_systems_hw.Secondary.Storage.CatchUp.{gap-le}
use distributed_systems_hw.Secondary.Storage.Answers.{Holds}
use distributed_systems_hw.Secondary.MasterSession.{run, ask_for_messages, on_incoming_add_message}
use distributed_systems_hw.Secondary.SecondaryNode.{
  disconnect_master_session, emit, emit_all, run_master_session, on_connect, is_current,
  add_message_arrived,
}
use distributed_systems_hw.System.{Asked, World, commit}

-- A request of a session: what is below its start is stored, and its answer is the master's messages
-- from there on, as many as there were.
pub record Pending (log : List Bytes) (messages : Map Bytes) (a : Asked) : Type 0 where
  pub held : Holds a.gap messages
  pub reply :
      (answer : List Bytes) (had : ℕ)
      → a.reply ≡ some (answer, had)
      → (had ≤ length log) × (answer ≡ drop a.gap (take had log))

pub record IsReplica (w : World) : Type 0 where
  pub master : IsLog w.master w.log
  pub from : From w.log w.node.storage.messages
  pub caught : w.node.operational ≡ true → Holds w.caught w.node.storage.messages
  pub asked :
      (handle : ℕ) (a : Asked)
      → find handle w.asked ≡ some a
      → Pending w.log w.node.storage.messages a

pub Pending-kept :
    {log : List Bytes} {before after : Map Bytes} (a : Asked)
    → ((i : ℕ) → find i before ≢ none → find i after ≢ none)
    → Pending log before a
    → Pending log after a
Pending-kept a kept p = record { held = λ i h. kept i (p.held i h); reply = p.reply }

module _ {w : World} (small : length w.node.storage.messages + 2 * length w.log < u64_mod)
    (r : IsReplica w) where
  pub posted-IsReplica :
      (message : Bytes)
      → length w.log + 1 < u64_mod
      → IsReplica (record w {
        master = (MasterStorage.add_message message w.master).2;
        log = w.log ++ message ∷ [];
      })
  posted-IsReplica message room = record {
    master = (add_message-Appends w.master w.log message room r.master).after;
    from = λ i v e.
        let here = r.from i v e in
        get_elem?-append_left w.log (message ∷ []) i (get_elem?-below w.log i here) ∙ here;
    caught = r.caught;
    asked = λ h a e.
        let p = r.asked h a e in
        record {
          held = p.held;
          reply = λ answer had f.
              let q = p.reply answer had f in
              (
                omega (arith, q.0, length-append w.log (message ∷ [])),
                q.1 ∙ ap (drop a.gap) (sym (take-append_left had w.log (message ∷ []) q.0)),
              );
        };
  }

  pub asks :
      Pending w.log w.node.storage.messages
        (record { gap = get_first_gap w.node.storage; reply = none })
  asks = record {
    held = (gap-eq-length-chunk w.node.storage (omega arith)).2;
    reply = λ answer had e. cc;
  }

  pub connected-IsReplica :
      (k : ℕ)
      → IsReplica (
          commit
            (on_connect false w.sessions w.node)
            (record w { attempts = k; sessions = suc w.sessions }))
  unfolding on_connect run_master_session emit_all emit disconnect_master_session run
      ask_for_messages
  connected-IsReplica k = record {
    master = r.master;
    from = r.from;
    caught = λ e. cc;
    asked =
        find-assign_all (Pending w.log w.node.storage.messages) w.sessions _ w.asked r.asked asks;
  }

  pub master_answered-IsReplica :
      (handle : ℕ) (a : Asked)
      → find handle w.asked ≡ some a
      → IsReplica (record w {
        asked =
            assign handle
              (record a {
                reply = some (MasterStorage.get_contiguous_chunk w.master a.gap, length w.log);
              })
              w.asked;
      })
  master_answered-IsReplica handle a e = record {
    master = r.master;
    from = r.from;
    caught = r.caught;
    asked =
        find-assign_all (Pending w.log w.node.storage.messages) handle _ w.asked r.asked (record {
          held = (r.asked handle a e).held;
          reply = λ answer had f.
              let here : MasterStorage.get_contiguous_chunk w.master a.gap ≡ answer =
                ground (arith, f) in
              let all : length w.log ≡ had = ground (arith, f) in
              let within = gap-le [] w.log w.node.storage r.from a.gap (r.asked handle a e).held in
              (
                omega (arith, all),
                sym here
                    ∙ chunk-eq-drop w.master w.log a.gap (omega (arith, within)) r.master
                    ∙ ap (drop a.gap) (
                        sym (take_all (length w.log) w.log (omega arith))
                        ∙ ap (λ (n : ℕ). take n w.log) all),
              );
        });
  }

  pub message_arrived-IsReplica :
      (handle id : ℕ) (message : Bytes) (promise : ℕ)
      → find id w.master.messages ≡ some message
      → IsReplica (commit (add_message_arrived handle id message promise w.node) w)
  unfolding add_message_arrived emit_all emit on_incoming_add_message add_message
  message_arrived-IsReplica handle id message promise e =
      elim (Bool-cases (is_current handle w.node.session)) [
        | inr old ↦ rw old r
        | inl current ↦ rw current (record {
          master = r.master;
          from = λ i v f. ground (arith, f, e, r.from i v, r.master.entries id, at i);
          caught = λ f i h. kept i (r.caught f i h);
          asked = λ h a f. Pending-kept a kept (r.asked h a f);
        })
      ]
    where
      at :
          (i : ℕ)
          → find i (insert id message w.node.storage.messages) ≡ (
              if id == i
              then some (get_or (find i w.node.storage.messages) message)
              else find i w.node.storage.messages)
      at i = find-insert i id message w.node.storage.messages

      kept :
          (i : ℕ)
          → find i w.node.storage.messages ≢ none
          → find i (insert id message w.node.storage.messages) ≢ none
      kept i there lost = ground (arith, there, lost, at i)
