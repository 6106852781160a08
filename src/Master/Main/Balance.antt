-- ===== src/Master/Main/Balance.antt =====
-- app/master-node/main.cpp: how the secondaries of a server are spread over its contexts.
use mathlib.Core.List.{append-nil}
use distributed_systems_hw.Base.{
  ℕ, ◌+◌, ◌<◌, ◌≤◌, ◌≡◌, Bool, true, false, Option, none, some, List, [], ◌∷◌, ◌++◌, arith, ◌==◌,
  inl, inr, Bool-cases,
}
use distributed_systems_hw.Proto.Platform.{returned}
use distributed_systems_hw.NetUtils.IoContextPool.{Pool, get_least_loaded}
use distributed_systems_hw.NetUtils.IoContextPool.Load.{
  occurs, IsCounted, chosen-IsEmptiest, occurs-append,
}
use distributed_systems_hw.NetUtils.SocketAcceptor.{
  Acceptor, Policy, random, missing, least_loaded, accept_one, on_accept,
}
use distributed_systems_hw.NetUtils.SocketAcceptor as SocketAcceptor
use distributed_systems_hw.Master.MasterNode.{add_secondary_impl}
use distributed_systems_hw.Master.Main.{CmdArgs, Server, set_up, on_secondary_socket, add_posted}
use distributed_systems_hw.Master.Main.Serving.{
  values, of_option, guards_of, set_up-begun, Reach, begin, accepted, failed, added, lost, ready,
}
use distributed_systems_hw.Master.Main.Counts.{occurs_three, taken_occurs}
use distributed_systems_hw.Master.Main.Guards.{Inv, next_free, reached-Inv}

-- No context has two guards more than another.
abbrev pub Balanced : ℕ → List ℕ → Type 0
Balanced size guards = (c d : ℕ) → c < size → d < size → occurs c guards ≤ occurs d guards + 1

module _ (posted held : List ℕ) where
  accept-Balanced :
      (policy : Policy) (pool : Pool) (accepting : Option ℕ)
      → policy ≡ least_loaded
      → IsCounted pool (of_option accepting ++ posted ++ held)
      → Balanced pool.size (of_option accepting ++ posted ++ held)
      → let out =
          on_accept false (record { policy = policy; pool = pool; accepting = accepting }) in
        Balanced out.0.pool.size (of_option out.0.accepting ++ (posted ++ out.1) ++ held)
  unfolding on_accept accept_one get_least_loaded
  accept-Balanced random pool accepting e v b = cc
  accept-Balanced missing pool accepting e v b = cc
  accept-Balanced least_loaded pool none e v b = rw (append-nil posted) b
  accept-Balanced least_loaded pool (some x) e v b =
      let chosen = chosen-IsEmptiest pool (x ∷ posted ++ held) v in more chosen.least
    where
      before : List ℕ
      before = x ∷ posted ++ held

      moved : (c : ℕ) → occurs c ((posted ++ x ∷ []) ++ held) ≡ occurs c before
      moved c = ground (arith, occurs_three c posted (x ∷ []) held, occurs-append c posted held)

      more :
          ((d : ℕ) → d < pool.size → occurs (get_least_loaded pool).0 before ≤ occurs d before)
          → Balanced pool.size ((get_least_loaded pool).0 ∷ (posted ++ x ∷ []) ++ held)
      more least c d h k = elim (Bool-cases ((get_least_loaded pool).0 == c)) [
        | inl same ↦ ground (arith, same, least d k, moved c, moved d)
        | inr other ↦ ground (arith, other, b c d h k, moved c, moved d)
      ]

added-Balanced :
    {s : Server}
    → Inv s
    → Balanced s.acceptor.pool.size (guards_of s)
    → Balanced (add_posted s).acceptor.pool.size (guards_of (add_posted s))
unfolding add_posted add_secondary_impl
added-Balanced {s} i b = by_posted s.posted i b
  where
    by_posted :
        (posted : List ℕ)
        → let t : Server = record s { posted = posted } in
          Inv t
          → Balanced t.acceptor.pool.size (guards_of t)
          → Balanced (add_posted t).acceptor.pool.size (guards_of (add_posted t))
    by_posted [] i b = b
    by_posted (x ∷ rest) i b =
        let same =
          taken_occurs s.acceptor.accepting s.node.secondary_id_counter x rest s.guards
            (next_free i) in
        λ c d h k. omega (arith, b c d h k, same c, same d)

begin-Balanced :
    (reserve_throws can_listen : ℕ → Bool) (args : CmdArgs) (s : Server)
    → set_up reserve_throws can_listen args ≡ returned s
    → Balanced s.acceptor.pool.size (guards_of s)
unfolding SocketAcceptor.run accept_one
begin-Balanced reserve_throws can_listen args s e c d h k =
    let (a, node_created, p, g) = set_up-begun reserve_throws can_listen args s e in
    rw (← a, ← p, ← g) (ground arith)

-- Of a server on which no accept fails and no secondary is lost, while fewer than 2^64 secondaries
-- connect and fewer than 2^64 - 1 guards are alive: of two contexts of its pool neither has more than
-- one guard more than the other. Each secondary has one, each socket on its way to the node, and the
-- accept that waits.
pub calm-Balanced : {s : Server} → Reach true s → Balanced s.acceptor.pool.size (guards_of s)
unfolding on_secondary_socket
calm-Balanced (begin reserve_throws can_listen args s e) =
    begin-Balanced reserve_throws can_listen args s e
calm-Balanced (accepted {s} before small) =
    let i = reached-Inv before in
    accept-Balanced s.posted (values s.guards) s.acceptor.policy s.acceptor.pool
      s.acceptor.accepting i.policy i.counted (calm-Balanced before)
calm-Balanced (failed wild before) = cc
calm-Balanced (added before small) = added-Balanced (reached-Inv before) (calm-Balanced before)
calm-Balanced (lost id wild before) = cc
calm-Balanced (ready id name before) = calm-Balanced before
