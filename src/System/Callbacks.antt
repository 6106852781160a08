-- ===== src/System/Callbacks.antt =====
-- The callbacks of a secondary's session: what each keeps of its messages and the master's.
use distributed_systems_hw.Base.{
  ℕ, ◌+◌, ◌<◌, ◌≡◌, inl, inr, none, some, List, Bool, true, false, if◌then◌else◌, arith, length,
  ◌*◌, Bytes, u64_mod, Bool-cases,
}
use distributed_systems_hw.Base.Maps.{find, erase, find-erase, find-assign_all}
use distributed_systems_hw.Secondary.Storage.{add_messages}
use distributed_systems_hw.Secondary.Storage.Answers.{IsFilled, answer-IsFilled}
use distributed_systems_hw.Secondary.MasterSession.{
  ask_for_messages, notify_operational, on_messages, on_ready_acknowledged, on_endpoint_invalidated,
  on_incoming_ping,
}
use distributed_systems_hw.Secondary.SecondaryNode.{
  disconnect_master_session, on_session_invalidated, on_session_operational, emit, emit_all,
  is_current, messages_answered, ready_answered, endpoint_invalidated, ping_arrived,
}
use distributed_systems_hw.System.{Asked, World, commit}
use distributed_systems_hw.System.Steps.{Pending, IsReplica, Pending-kept, asks}

module _ {w : World} (small : length w.node.storage.messages + 2 * length w.log < u64_mod)
    (r : IsReplica w) where
  pub answered-IsReplica :
      (handle : ℕ) (a : Asked) (answer : List Bytes) (had : ℕ)
      → find handle w.asked ≡ some a
      → a.reply ≡ some (answer, had)
      → IsReplica (
          commit (messages_answered handle a.gap (some answer) w.node) (record w {
            asked = erase handle w.asked;
            caught = if is_current handle w.node.session then had else w.caught;
          }))
  unfolding messages_answered emit_all emit on_messages notify_operational on_session_operational
  answered-IsReplica handle a answer had e f =
      elim (Bool-cases (is_current handle w.node.session)) [
        | inr old ↦
            rw old (record { master = r.master; from = r.from; caught = r.caught; asked = erased })
        | inl current ↦ rw current (record {
          master = r.master;
          from = taken.from;
          caught = λ g. taken.holds;
          asked = λ h b g. Pending-kept b taken.kept (erased h b g);
        })
      ]
    where
      p : Pending w.log w.node.storage.messages a
      p = r.asked handle a e

      erased :
          (h : ℕ) (b : Asked)
          → find h (erase handle w.asked) ≡ some b
          → Pending w.log w.node.storage.messages b
      erased h b g = r.asked h b (ground (arith, g, find-erase h handle w.asked))

      taken :
          IsFilled w.log had w.node.storage.messages
            (add_messages a.gap answer w.node.storage).messages
      taken =
          let q = p.reply answer had f in
          rw (q.1) (answer-IsFilled w.log had a.gap w.node.storage r.from p.held q.0 (omega arith))

  pub unanswered-IsReplica :
      (handle : ℕ) (a : Asked)
      → IsReplica (
          commit
            (messages_answered handle a.gap none w.node)
            (record w { asked = erase handle w.asked }))
  unfolding messages_answered emit_all emit on_messages ask_for_messages
  unanswered-IsReplica handle a = elim (Bool-cases (is_current handle w.node.session)) [
    | inr old ↦
        rw old (record { master = r.master; from = r.from; caught = r.caught; asked = erased })
    | inl current ↦ rw current (record {
      master = r.master;
      from = r.from;
      caught = r.caught;
      asked =
          find-assign_all (Pending w.log w.node.storage.messages) handle _ (erase handle w.asked)
            erased (asks small r);
    })
  ]
    where
      erased :
          (h : ℕ) (b : Asked)
          → find h (erase handle w.asked) ≡ some b
          → Pending w.log w.node.storage.messages b
      erased h b g = r.asked h b (ground (arith, g, find-erase h handle w.asked))

  pub acknowledged-IsReplica :
      (handle : ℕ) (received : Bool) → IsReplica (commit (ready_answered handle received w.node) w)
  unfolding ready_answered emit_all emit on_ready_acknowledged notify_operational
  acknowledged-IsReplica handle received = elim (Bool-cases (is_current handle w.node.session)) [
    | inr old ↦ rw old r
    | inl current ↦ rw current (again received)
  ]
    where
      again :
          (b : Bool)
          → IsReplica
              (commit (emit_all handle (on_ready_acknowledged w.node.friendly_name b) w.node) w)
      again true = r
      again false = r

  pub invalidated-IsReplica :
      (handle : ℕ) → IsReplica (commit (endpoint_invalidated handle w.node) w)
  unfolding endpoint_invalidated emit_all emit on_endpoint_invalidated on_session_invalidated
      disconnect_master_session
  invalidated-IsReplica handle = elim (Bool-cases (is_current handle w.node.session)) [
    | inr old ↦ rw old r
    | inl current ↦
        rw current (record { master = r.master; from = r.from; caught = λ e. cc; asked = r.asked })
  ]

  pub pinged-IsReplica :
      (handle now promise : ℕ) → IsReplica (commit (ping_arrived handle now promise w.node) w)
  unfolding ping_arrived emit_all emit on_incoming_ping
  pinged-IsReplica handle now promise = elim (Bool-cases (is_current handle w.node.session)) [
    | inr old ↦ rw old r
    | inl current ↦ rw current r
  ]
