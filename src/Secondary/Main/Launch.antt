-- ===== src/Secondary/Main/Launch.antt =====
-- app/secondary-node/main.cpp: what a command line comes to.
use distributed_systems_hw.Base.{
  ℕ, ◌≡◌, ◌≢◌, ◌⊎◌, refl, inl, inr, Bool, true, false, Option, none, some, [], ◌∷◌, Bytes,
  Bool-cases,
}
use distributed_systems_hw.Base.Maps.{get_or}
use distributed_systems_hw.CmdLine.{Start, exits, starts, leaves}
use distributed_systems_hw.NetUtils.IoContextPool as IoContextPool
use distributed_systems_hw.NetUtils.IoContextPool.{at_least_one, get_next, run_in_separate_threads}
use distributed_systems_hw.NetUtils.SocketAcceptor as SocketAcceptor
use distributed_systems_hw.NetUtils.SocketAcceptor.{accept_one, random}
use distributed_systems_hw.NetUtils.Json.{bytes}
use distributed_systems_hw.Secondary.SecondaryNode.{connect}
use distributed_systems_hw.Secondary.Main.{Options, Server, notify, read_cmd_args, set_up, launch}

-- A server with so many http workers, whose node is about to connect for the first time.
pub record IsUp (http_port http_workers : ℕ) (name : Bytes) (s : Server) : Type 0 where
  pub port : s.http_port ≡ http_port
  pub http_size : s.http_acceptor.pool.size ≡ at_least_one http_workers
  pub http_threads : s.http_acceptor.pool.worker_threads ≡ at_least_one http_workers
  pub accepts : (s.http_acceptor.policy ≡ random) × (s.http_acceptor.accepting ≢ none)
  pub named : s.node.friendly_name ≡ name
  pub alone : (s.node.session ≡ none) × (s.node.operational ≡ false)
  pub connects : s.actions ≡ connect ∷ []

module _ (is_address : Bytes → Bool) (reserve_throws can_listen : ℕ → Bool) where
  -- What main() comes to with the options that it reads.
  pub data Begun (o : Options) : Start Server → Type 0 where
    helped : o.help ≡ true → Begun o exits
    refused :
        o.help ≡ false
        → (o.http_port ≡ none) ⊎ (o.master_ip ≡ none) ⊎ (o.master_comm_port ≡ none)
        → Begun o leaves
    misdirected :
        (ip : Bytes) (p : ℕ)
        → o.help ≡ false
        → (o.master_ip ≡ some ip) × (o.http_port ≡ some p)
        → (is_address ip ≡ false) ⊎ (can_listen p ≡ false)
        → Begun o leaves
    crowded :
        o.help ≡ false
        → (reserve_throws (at_least_one (get_or o.http_workers 3)) ≡ true)
          ⊎ (reserve_throws 1 ≡ true)
        → Begun o leaves
    running :
        (ip : Bytes) (p : ℕ) (s : Server)
        → o.help ≡ false
        → (o.master_ip ≡ some ip) × (o.http_port ≡ some p) × (o.master_comm_port ≢ none)
        → (is_address ip ≡ true) × (can_listen p ≡ true)
        → (reserve_throws (at_least_one (get_or o.http_workers 3)) ≡ false)
          × (reserve_throws 1 ≡ false)
        → IsUp p (get_or o.http_workers 3) (get_or o.name (bytes "secondary")) s
        → Begun o (starts s)

  abbrev options_of : Bool → Option Bytes → Option ℕ → Option ℕ → Option Bytes → Option ℕ → Options
  options_of help name http_port http_workers master_ip master_comm_port = record {
    help = help;
    name = name;
    http_port = http_port;
    http_workers = http_workers;
    master_ip = master_ip;
    master_comm_port = master_comm_port;
  }

  up :
      (name : Option Bytes) (p q : ℕ) (http_workers : Option ℕ) (ip : Bytes)
      → let o : Options = options_of false name (some p) http_workers (some ip) (some q) in
        Begun o (launch is_address reserve_throws can_listen (some o))
  unfolding launch read_cmd_args notify set_up run_in_separate_threads IoContextPool.create
      IoContextPool.construct get_next SocketAcceptor.run accept_one
  up name p q http_workers ip = elim (Bool-cases (is_address ip)) [
    | inr e ↦ rw e (misdirected ip p refl (refl, refl) (inl e))
    | inl e ↦ elim (Bool-cases (reserve_throws (at_least_one (get_or http_workers 3)))) [
      | inl a ↦ rw (e, a) (crowded refl (inl a))
      | inr a ↦ elim (Bool-cases (reserve_throws 1)) [
        | inl b ↦ rw (e, a, b) (crowded refl (inr b))
        | inr b ↦ elim (Bool-cases (can_listen p)) [
          | inr f ↦ rw (e, a, b, f) (misdirected ip p refl (refl, refl) (inr f))
          | inl f ↦
              rw (e, a, b, f)
                (running ip p _ refl (refl, refl, λ h. cc) (e, f) (a, b)
                  (record {
                    port = refl;
                    http_size = refl;
                    http_threads = refl;
                    accepts = (refl, λ h. cc);
                    named = refl;
                    alone = (refl, refl);
                    connects = refl;
                  }))
        ]
      ]
    ]
  ]

  -- Of a command line that boost can read: with --help main() exits; without it, it is left by an
  -- exception when one of the ports or the address of the master is missing, the address is none, a
  -- pool cannot be made, or the http port cannot be listened on, and otherwise the acceptor waits on this port. Then the pool
  -- of http sockets has as many contexts, each with its thread, as --http-workers says, 3 by default
  -- and at least one, and the node has the name given, or "secondary", no session, and is about to
  -- connect.
  pub launch-Begun : (o : Options) → Begun o (launch is_address reserve_throws can_listen (some o))
  unfolding launch read_cmd_args notify
  launch-Begun o =
      by_options o.help o.name o.http_port o.http_workers o.master_ip o.master_comm_port
    where
      by_options :
          (help : Bool) (name : Option Bytes) (p http_workers : Option ℕ) (ip : Option Bytes)
          (q : Option ℕ)
          → let o : Options = options_of help name p http_workers ip q in
            Begun o (launch is_address reserve_throws can_listen (some o))
      by_options true name none w ip q = helped refl
      by_options true name (some p) w none q = helped refl
      by_options true name (some p) w (some ip) none = helped refl
      by_options true name (some p) w (some ip) (some q) = helped refl
      by_options false name none w ip q = refused refl (inl refl)
      by_options false name (some p) w none q = refused refl (inr (inl refl))
      by_options false name (some p) w (some ip) none = refused refl (inr (inr refl))
      by_options false name (some p) w (some ip) (some q) = up name p q w ip
