-- ===== src/Master/Main/Launch.antt =====
-- app/master-node/main.cpp: what a command line comes to.
use distributed_systems_hw.Base.{
  not, ◌&&◌, Bool-cases, ℕ, ◌≡◌, ◌≢◌, ◌⊎◌, refl, inl, inr, Bool, true, false, Option, none, some,
  [], arith, Bytes,
}
use distributed_systems_hw.Base.Maps.{get_or}
use distributed_systems_hw.CmdLine.{Start, exits, starts, leaves, clashes}
use distributed_systems_hw.NetUtils.IoContextPool as IoContextPool
use distributed_systems_hw.NetUtils.IoContextPool.{
  at_least_one, Pool, get_next, get_least_loaded, run_in_separate_threads,
}
use distributed_systems_hw.NetUtils.SocketAcceptor as SocketAcceptor
use distributed_systems_hw.NetUtils.SocketAcceptor.{accept_one, random, least_loaded}
use distributed_systems_hw.Master.MasterNode as MasterNode
use distributed_systems_hw.Master.Main.{Options, Server, notify, read_cmd_args, set_up, launch}

-- A server that has been set up on these ports, with so many workers.
pub record IsUp (http_port comm_port http_workers comm_workers : ℕ) (s : Server) : Type 0 where
  pub ports : (s.http_port ≡ http_port) × (s.comm_port ≡ comm_port)
  pub http_size : s.http_acceptor.pool.size ≡ http_workers
  pub http_threads : s.http_acceptor.pool.worker_threads ≡ http_workers
  pub comm_size : s.acceptor.pool.size ≡ at_least_one comm_workers
  pub comm_threads : s.acceptor.pool.worker_threads ≡ at_least_one comm_workers
  pub apart : s.node_context ≢ s.acceptor_context
  pub policies : (s.acceptor.policy ≡ least_loaded) × (s.http_acceptor.policy ≡ random)
  pub accepts : (s.acceptor.accepting ≢ none) × (s.http_acceptor.accepting ≢ none)
  pub nobody : (s.node ≡ MasterNode.create) × (s.posted ≡ []) × (s.guards ≡ [])

module _ (reserve_throws can_listen : ℕ → Bool) where
  -- The pools of 3 and 2 contexts and that of the secondaries can be made.
  abbrev pub makes_pools : ℕ → Bool
  makes_pools comm_workers =
      not (reserve_throws 3)
      && (not (reserve_throws 2) && not (reserve_throws (at_least_one comm_workers)))

  -- What main() comes to with the options that it reads.
  pub data Launched (o : Options) : Start Server → Type 0 where
    helped : o.help ≡ true → Launched o exits
    refused : o.help ≡ false → (o.http_port ≡ none) ⊎ (o.comm_port ≡ none) → Launched o leaves
    crowded : o.help ≡ false → makes_pools (get_or o.comm_workers 3) ≡ false → Launched o leaves
    deaf :
        (p q : ℕ)
        → o.help ≡ false
        → (o.http_port ≡ some p) × (o.comm_port ≡ some q)
        → (can_listen p ≡ false) ⊎ (can_listen q ≡ false) ⊎ ((p ≡ q) × (p ≢ 0))
        → Launched o leaves
    running :
        (p q : ℕ) (s : Server)
        → o.help ≡ false
        → (o.http_port ≡ some p) × (o.comm_port ≡ some q)
        → (can_listen p ≡ true) × (can_listen q ≡ true) × (p ≡ q → p ≡ 0)
        → makes_pools (get_or o.comm_workers 3) ≡ true
        → IsUp p q 3 (get_or o.comm_workers 3) s
        → Launched o (starts s)

  abbrev options_of : Bool → Option Bytes → Option ℕ → Option ℕ → Option ℕ → Option ℕ → Options
  options_of help name http_port comm_port http_workers comm_workers = record {
    help = help;
    name = name;
    http_port = http_port;
    comm_port = comm_port;
    http_workers = http_workers;
    comm_workers = comm_workers;
  }

  up :
      (p q : ℕ) (name : Option Bytes) (http_workers comm_workers : Option ℕ)
      → let o : Options = options_of false name (some p) (some q) http_workers comm_workers in
        Launched o (launch reserve_throws can_listen (some o))
  unfolding launch read_cmd_args notify set_up run_in_separate_threads IoContextPool.create
      IoContextPool.construct get_next SocketAcceptor.run accept_one get_least_loaded
  up p q name http_workers comm_workers = elim (Bool-cases (reserve_throws 3)) [
    | inl a ↦ rw a (crowded refl (rw a refl))
    | inr a ↦ elim (Bool-cases (reserve_throws 2)) [
      | inl b ↦ rw (a, b) (crowded refl (rw (a, b) refl))
      | inr b ↦ elim (Bool-cases (reserve_throws (at_least_one (get_or comm_workers 3)))) [
        | inl c ↦ rw (a, b, c) (crowded refl (rw (a, b, c) refl))
        | inr c ↦ elim (Bool-cases (can_listen q)) [
          | inr e ↦ rw (a, b, c, e) (deaf p q refl (refl, refl) (inr (inl e)))
          | inl e ↦ elim (Bool-cases (clashes q p)) [
            | inl k ↦
                rw (a, b, c, e, k)
                  (deaf p q refl (refl, refl) (inr (inr (ground (arith, k), ground (arith, k)))))
            | inr k ↦ elim (Bool-cases (can_listen p)) [
              | inr f ↦ rw (a, b, c, e, k, f) (deaf p q refl (refl, refl) (inl f))
              | inl f ↦
                  rw (a, b, c, e, k, f)
                    (running p q _ refl (refl, refl) (f, e, λ h. ground (arith, k, h))
                      (rw (a, b, c) refl)
                      (record {
                        ports = (refl, refl);
                        http_size = refl;
                        http_threads = refl;
                        comm_size = refl;
                        comm_threads = refl;
                        apart = λ h. ground (arith, h);
                        policies = (refl, refl);
                        accepts = (λ h. cc, λ h. cc);
                        nobody = (refl, refl, refl);
                      }))
            ]
          ]
        ]
      ]
    ]
  ]

  -- Of a command line that boost can read: with --help main() exits; without it, it is left by an
  -- exception when one of the ports is missing or cannot be listened on, both are the same and not 0,
  -- or a pool cannot be made, and otherwise both
  -- acceptors wait on these ports. Then the pool of http sockets has 3 contexts, whatever
  -- --http-workers says, and that of secondaries as many as --comm-workers says, 3 by default and
  -- at least one; each context has its thread, the node and the acceptor of secondaries run on
  -- different contexts, and there are no secondaries.
  pub launch-Launched : (o : Options) → Launched o (launch reserve_throws can_listen (some o))
  unfolding launch read_cmd_args notify
  launch-Launched o = by_ports o.help o.name o.http_port o.comm_port o.http_workers o.comm_workers
    where
      by_ports :
          (help : Bool) (name : Option Bytes) (p q http_workers comm_workers : Option ℕ)
          → let o : Options = options_of help name p q http_workers comm_workers in
            Launched o (launch reserve_throws can_listen (some o))
      by_ports true name none q http_workers comm_workers = helped refl
      by_ports true name (some p) none http_workers comm_workers = helped refl
      by_ports true name (some p) (some q) http_workers comm_workers = helped refl
      by_ports false name none q http_workers comm_workers = refused refl (inl refl)
      by_ports false name (some p) none http_workers comm_workers = refused refl (inr refl)
      by_ports false name (some p) (some q) http_workers comm_workers =
          up p q name http_workers comm_workers
