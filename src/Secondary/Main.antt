-- ===== src/Secondary/Main.antt =====
-- app/secondary-node/main.cpp: the options, and what main() makes of them.
pub mod Launch
use distributed_systems_hw.Base.{
  ℕ, Bool, true, false, Option, none, some, List, [], ◌∷◌, if◌then◌else◌, Bytes,
}
use distributed_systems_hw.Base.Maps.{get_or}
use distributed_systems_hw.Proto.Platform.{Exec, returned, thrown, ◌>>=◌}
use distributed_systems_hw.CmdLine.{Start, exits, starts, leaves, required, of_exec, listen}
use distributed_systems_hw.NetUtils.IoContextPool as IoContextPool
use distributed_systems_hw.NetUtils.IoContextPool.{Pool, get_next, run_in_separate_threads}
use distributed_systems_hw.NetUtils.SocketAcceptor as SocketAcceptor
use distributed_systems_hw.NetUtils.SocketAcceptor.{Acceptor, random}
use distributed_systems_hw.NetUtils.Json.{bytes}
use distributed_systems_hw.Secondary.SecondaryNode as SecondaryNode
use distributed_systems_hw.Secondary.SecondaryNode.{SecondaryNode, Action, reconnect_to_master}

-- What the command line gives for each option.
pub record Options : Type 0 where
  pub help : Bool
  pub name : Option Bytes
  pub http_port : Option ℕ
  pub http_workers : Option ℕ
  pub master_ip : Option Bytes
  pub master_comm_port : Option ℕ

-- struct CmdArgs
pub record CmdArgs : Type 0 where
  pub node_name : Bytes
  pub master_ip : Bytes
  pub master_comm_port : ℕ
  pub http_workers : ℕ
  pub http_port : ℕ

-- notify(), by the descriptions of the options.
unfoldable pub notify : Options → Exec CmdArgs
notify o = do
  http_port ← required o.http_port
  master_ip ← required o.master_ip
  master_comm_port ← required o.master_comm_port
  returned (record {
    node_name = get_or o.name (bytes "secondary");
    master_ip = master_ip;
    master_comm_port = master_comm_port;
    http_workers = get_or o.http_workers 3;
    http_port = http_port;
  })

-- readCmdArgs()
unfoldable pub read_cmd_args : Option Options → Start CmdArgs
unfolding notify
read_cmd_args none = leaves
read_cmd_args (some o) = elim (notify o) [
  | returned args ↦ if o.help then exits else starts args
  | thrown ↦ if o.help then exits else leaves
]

-- Constants::kMasterReconnectTimeout
abbrev master_reconnect_timeout : ℕ
master_reconnect_timeout = 3000

-- What main() holds: the node and what it does first, utilityPool and the context of it that the
-- acceptor of http sockets runs on, and that acceptor with its port.
pub record Server : Type 0 where
  pub node : SecondaryNode
  pub actions : List Action
  pub utility_pool : Pool
  pub acceptor_context : ℕ
  pub http_port : ℕ
  pub http_acceptor : Acceptor

-- boost::asio::ip::address::from_string takes the addresses for which `is_address` is true, and
-- throws for others; `can_listen` says for which ports the socket of an acceptor can be opened and
-- bound, and `reserve_throws` for which numbers of contexts a pool cannot be made.
module _ (is_address : Bytes → Bool) (reserve_throws can_listen : ℕ → Bool) where
  -- The address of the master.
  abbrev from_string : Bytes → Exec Bytes
  from_string ip = if is_address ip then returned ip else thrown

  -- main(), to where the acceptor runs.
  unfoldable pub set_up : CmdArgs → Exec Server
  set_up args = do
    address ← from_string args.master_ip
    let node = SecondaryNode.create args.node_name master_reconnect_timeout
    made_http ← IoContextPool.create reserve_throws args.http_workers
    http_workers_pool ← run_in_separate_threads true made_http
    made_utility ← IoContextPool.create reserve_throws 1
    utility_pool ← run_in_separate_threads true made_utility
    let for_acceptor = get_next utility_pool
    http_port ← listen can_listen args.http_port
    returned (record {
      node = node;
      actions = reconnect_to_master;
      utility_pool = for_acceptor.1;
      acceptor_context = for_acceptor.0;
      http_port = http_port;
      http_acceptor = SocketAcceptor.run (SocketAcceptor.create random http_workers_pool);
    })

  -- main()
  unfoldable pub launch : Option Options → Start Server
  unfolding read_cmd_args set_up
  launch o = elim (read_cmd_args o) [
    | exits ↦ exits
    | starts args ↦ of_exec (set_up args)
    | leaves ↦ leaves
  ]
