-- ===== src/Master/Main.antt =====
-- app/master-node/main.cpp: the options, what main() makes of them, and the callback of the acceptor
-- of secondaries.
pub mod Launch
pub mod Serving
pub mod Counts
pub mod Guards
pub mod Balance
use distributed_systems_hw.Base.{
  ℕ, Bool, true, false, Option, none, some, List, [], ◌∷◌, ◌++◌, if◌then◌else◌, Bytes,
}
use distributed_systems_hw.Base.Maps.{Map, find, assign, erase, get_or}
use distributed_systems_hw.Proto.Platform.{Exec, returned, thrown, ◌>>=◌}
use distributed_systems_hw.CmdLine.{
  Start, exits, starts, leaves, required, of_exec, listen, listen_beside,
}
use distributed_systems_hw.NetUtils.IoContextPool as IoContextPool
use distributed_systems_hw.NetUtils.IoContextPool.{
  Pool, get_next, dec_load, run_in_separate_threads,
}
use distributed_systems_hw.NetUtils.SocketAcceptor as SocketAcceptor
use distributed_systems_hw.NetUtils.SocketAcceptor.{Acceptor, random, least_loaded, on_accept}
use distributed_systems_hw.NetUtils.Json.{bytes}
use distributed_systems_hw.Master.MasterNode as MasterNode
use distributed_systems_hw.Master.MasterNode.{MasterNode, add_secondary_impl, on_invalidated}

-- What the command line gives for each option.
pub record Options : Type 0 where
  pub help : Bool
  pub name : Option Bytes
  pub http_port : Option ℕ
  pub comm_port : Option ℕ
  pub http_workers : Option ℕ
  pub comm_workers : Option ℕ

-- struct CmdArgs
pub record CmdArgs : Type 0 where
  pub node_name : Bytes
  pub http_port : ℕ
  pub comm_port : ℕ
  pub http_workers : ℕ
  pub comm_workers : ℕ

-- notify(), by the descriptions of the options.
unfoldable pub notify : Options → Exec CmdArgs
notify o = do
  http_port ← required o.http_port
  comm_port ← required o.comm_port
  returned (record {
    node_name = get_or o.name [];
    http_port = http_port;
    comm_port = comm_port;
    http_workers = get_or o.http_workers 3;
    comm_workers = get_or o.comm_workers 3;
  })

-- readCmdArgs()
unfoldable pub read_cmd_args : Option Options → Start CmdArgs
unfolding notify
read_cmd_args none = leaves
read_cmd_args (some o) = elim (notify o) [
  | returned args ↦ if o.help then exits else starts args
  | thrown ↦ if o.help then exits else leaves
]

-- What main() holds: the name that it logs under, the pools, the acceptors and
-- their ports, the contexts of
-- utilityPool that the node and the acceptor of secondaries run on, and the node. `posted` are the
-- contexts of the calls of addSecondary() that were posted and have not run, and `guards` the
-- contexts of the load guards that the secondaries hold.
pub record Server : Type 0 where
  pub log_name : Bytes
  pub utility_pool : Pool
  pub node_context : ℕ
  pub acceptor_context : ℕ
  pub node : MasterNode
  pub comm_port : ℕ
  pub acceptor : Acceptor
  pub http_port : ℕ
  pub http_acceptor : Acceptor
  pub posted : List ℕ
  pub guards : Map ℕ

abbrev name_or_default : Bytes → Bytes
name_or_default [] = bytes "master-node"
name_or_default (b ∷ rest) = b ∷ rest

-- `reserve_throws` says for which numbers of contexts a pool cannot be made, and `can_listen` for
-- which ports the socket of an acceptor can be opened and bound, where the other acceptor has not
-- bound the port.
module _ (reserve_throws can_listen : ℕ → Bool) where
  -- main(), to where both acceptors run.
  unfoldable pub set_up : CmdArgs → Exec Server
  set_up args = do
    made_http ← IoContextPool.create reserve_throws 3
    http_workers_pool ← run_in_separate_threads true made_http
    made_utility ← IoContextPool.create reserve_throws 2
    utility_pool ← run_in_separate_threads true made_utility
    let for_node = get_next utility_pool
    made_secondaries ← IoContextPool.create reserve_throws args.comm_workers
    secondaries_pool ← run_in_separate_threads true made_secondaries
    let for_acceptor = get_next for_node.1
    comm_port ← listen can_listen args.comm_port
    http_port ← listen_beside can_listen comm_port args.http_port
    returned (record {
      log_name = name_or_default args.node_name;
      utility_pool = for_acceptor.1;
      node_context = for_node.0;
      acceptor_context = for_acceptor.0;
      node = MasterNode.create;
      comm_port = comm_port;
      acceptor = SocketAcceptor.run (SocketAcceptor.create least_loaded secondaries_pool);
      http_port = http_port;
      http_acceptor = SocketAcceptor.run (SocketAcceptor.create random http_workers_pool);
      posted = [];
      guards = [];
    })

  -- main()
  unfoldable pub launch : Option Options → Start Server
  unfolding read_cmd_args set_up
  launch o = elim (read_cmd_args o) [
    | exits ↦ exits
    | starts args ↦ of_exec (set_up args)
    | leaves ↦ leaves
  ]

-- The end of an async_accept of the acceptor of secondaries: its callback posts addSecondaryImpl().
-- main() holds the node as long as it runs, so that weakMasterNode.lock() finds it.
unfoldable pub on_secondary_socket : Bool → Server → Server
on_secondary_socket error s =
    let accepted = on_accept error s.acceptor in
    record s { acceptor = accepted.0; posted = s.posted ++ accepted.1 }

-- What addSecondary() has posted first runs: the secondary takes the guard.
unfoldable pub add_posted : Server → Server
add_posted s = elim s.posted [
  | [] ↦ s
  | context ∷ rest ↦
      let added = add_secondary_impl s.node in
      record s { node = added.0; posted = rest; guards = assign added.1 context s.guards }
]

abbrev drop_guard : Option ℕ → Acceptor → Acceptor
drop_guard none a = a
drop_guard (some context) a = record a { pool = dec_load context a.pool }

-- onInvalidated() of the node: the guard dies with the secondary.
unfoldable pub on_secondary_invalidated : ℕ → Server → Server
on_secondary_invalidated id s = record s {
  node = (on_invalidated id s.node).0;
  acceptor = drop_guard (find id s.guards) s.acceptor;
  guards = erase id s.guards;
}
