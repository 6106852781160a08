-- ===== src/Master/Main/Serving.antt =====
-- app/master-node/main.cpp: the secondaries of a server that runs, and the contexts of its pool.
use distributed_systems_hw.Base.{
  ℕ, ◌+◌, ◌<◌, ◌≤◌, ◌≡◌, refl, inl, inr, Bool, true, false, Option, none, some, List, [], ◌∷◌, ◌++◌,
  arith, length, ◌==◌, Bool-cases, Bytes, u64_mod,
}
use distributed_systems_hw.Base.Maps.{Map, find, assign, erase, UniqueKeys}
use distributed_systems_hw.Proto.Platform.{returned}
use distributed_systems_hw.CmdLine.{clashes}
use distributed_systems_hw.NetUtils.IoContextPool.{at_least_one, Pool, get_least_loaded, dec_load}
use distributed_systems_hw.NetUtils.IoContextPool.Load.{occurs}
use distributed_systems_hw.NetUtils.IoContextPool as IoContextPool
use distributed_systems_hw.NetUtils.IoContextPool.{run_in_separate_threads}
use distributed_systems_hw.NetUtils.SocketAcceptor as SocketAcceptor
use distributed_systems_hw.Master.MasterNode as MasterNode
use distributed_systems_hw.NetUtils.SocketAcceptor.{
  Acceptor, least_loaded, accept_one, give_up, on_accept,
}
use distributed_systems_hw.Master.MasterNode.{
  MasterNode, add_secondary_impl, on_invalidated, on_incoming_secondary_node_ready,
}
use distributed_systems_hw.Master.Main.{
  CmdArgs, Server, set_up, on_secondary_socket, add_posted, on_secondary_invalidated,
}

abbrev pub values : Map ℕ → List ℕ
values [] = []
values ((k, v) ∷ m) = v ∷ values m

abbrev pub of_option : Option ℕ → List ℕ
of_option none = []
of_option (some c) = c ∷ []

-- The contexts of the guards that are alive: of the async_accept that waits, of the calls that are
-- posted, and of the secondaries.
abbrev pub guards_of : Server → List ℕ
guards_of s = of_option s.acceptor.accepting ++ s.posted ++ values s.guards

-- The states of a server that runs; of a calm one no accept fails and no secondary is lost. Fewer
-- than 2^64 secondaries connect.
pub data Reach (calm : Bool) : Server → Type 0 where
  begin :
      (reserve_throws can_listen : ℕ → Bool) (args : CmdArgs) (s : Server)
      → set_up reserve_throws can_listen args ≡ returned s
      → Reach calm s
  accepted :
      {s : Server}
      → Reach calm s
      → length (guards_of s) + 2 < u64_mod
      → Reach calm (on_secondary_socket false s)
  failed : {s : Server} → calm ≡ false → Reach calm s → Reach calm (on_secondary_socket true s)
  added :
      {s : Server}
      → Reach calm s
      → s.node.secondary_id_counter + 1 < u64_mod
      → Reach calm (add_posted s)
  lost :
      {s : Server}
      → (id : ℕ) → calm ≡ false
      → Reach calm s
      → Reach calm (on_secondary_invalidated id s)
  ready :
      {s : Server}
      → (id : ℕ) (name : Bytes) → Reach calm s
      → Reach calm (record s { node = (on_incoming_secondary_node_ready id name s.node).0 })

-- A pool that runs in separate threads.
abbrev pub threaded : Pool → Pool
threaded p = record p { worker_threads = p.size; work_guards = p.size }

-- The acceptor of secondaries behind run().
abbrev pub begun : ℕ → Acceptor
begun comm_workers =
    SocketAcceptor.run
      (SocketAcceptor.create least_loaded (threaded (IoContextPool.construct comm_workers)))

pub set_up-begun :
    (reserve_throws can_listen : ℕ → Bool) (args : CmdArgs) (s : Server)
    → set_up reserve_throws can_listen args ≡ returned s
    → (begun args.comm_workers ≡ s.acceptor)
      × (MasterNode.create ≡ s.node)
      × ([] ≡ s.posted)
      × ([] ≡ s.guards)
unfolding set_up run_in_separate_threads IoContextPool.create IoContextPool.construct
set_up-begun reserve_throws can_listen args s e = elim (Bool-cases (reserve_throws 3)) [
  | inl a ↦ absurd (cc (rw a at e))
  | inr a ↦ elim (Bool-cases (reserve_throws 2)) [
    | inl b ↦ absurd (cc (rw (a, b) at e))
    | inr b ↦ elim (Bool-cases (reserve_throws (at_least_one args.comm_workers))) [
      | inl w ↦ absurd (cc (rw (a, b, w) at e))
      | inr w ↦ elim (Bool-cases (can_listen args.comm_port)) [
        | inr c ↦ absurd (cc (rw (a, b, w, c) at e))
        | inl c ↦ elim (Bool-cases (clashes args.comm_port args.http_port)) [
          | inl k ↦ absurd (cc (rw (a, b, w, c, k) at e))
          | inr k ↦ elim (Bool-cases (can_listen args.http_port)) [
            | inr h ↦ absurd (cc (rw (a, b, w, c, k, h) at e))
            | inl h ↦ let f = rw (a, b, w, c, k, h) at e in (cc, cc, cc, cc)
          ]
        ]
      ]
    ]
  ]
]

pub occurs-assign :
    (c k v : ℕ) (m : Map ℕ)
    → find k m ≡ none
    → occurs c (values (assign k v m)) ≡ occurs c (v ∷ values m)
unfolding find assign
occurs-assign c k v [] e = refl
occurs-assign c k v ((j, w) ∷ m) e = ground (arith, e, occurs-assign c k v m)

pub length-assign :
    (k v : ℕ) (m : Map ℕ) → find k m ≡ none → length (values (assign k v m)) ≡ length (values m) + 1
unfolding find assign
length-assign k v [] e = omega arith
length-assign k v ((j, w) ∷ m) e = ground (arith, e, length-assign k v m)

pub erase-absent : (k : ℕ) (m : Map ℕ) → find k m ≡ none → erase k m ≡ m
unfolding find erase
erase-absent k [] e = refl
erase-absent k ((j, w) ∷ m) e = ground (arith, e, erase-absent k m)

pub occurs-erase :
    (c k v : ℕ) (m : Map ℕ)
    → UniqueKeys m
    → find k m ≡ some v
    → occurs c (values m) ≡ occurs c (v ∷ values (erase k m))
unfolding find erase
occurs-erase c k v [] u e = cc
occurs-erase c k v ((j, w) ∷ m) u e = elim (Bool-cases (j == k)) [
  | inl same ↦
      let here : erase k m ≡ m = erase-absent k m (ground (arith, u.0, same)) in
      ground (arith, same, e, here)
  | inr other ↦ ground (arith, other, e, occurs-erase c k v m u.1)
]

pub length-erase : (k : ℕ) (m : Map ℕ) → length (values (erase k m)) ≤ length (values m)
unfolding erase
length-erase k [] = omega arith
length-erase k ((j, w) ∷ m) = ground (arith, length-erase k m)
