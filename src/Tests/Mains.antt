-- ===== src/Tests/Mains.antt =====
-- A master with two internal communication threads that three secondaries connect to, one of which
-- is lost, the command lines of both applications, and the logger.
use distributed_systems_hw.Base.{
  ltb, ℕ, ◌≡◌, ◌==◌, refl, Bool, true, false, none, some, [], ◌∷◌, arith, Bytes,
}
use distributed_systems_hw.Base.Maps.{find, assign}
use distributed_systems_hw.Proto.Platform.{returned}
use distributed_systems_hw.CmdLine.{exits, leaves}
use distributed_systems_hw.NetUtils.IoContextPool.{
  create, construct, get_next, get_least_loaded, smallest_loop, increase, dec_loop, dec_load,
  run_in_separate_threads,
}
use distributed_systems_hw.NetUtils.SocketAcceptor.{random, least_loaded, accept_one, on_accept}
use distributed_systems_hw.NetUtils.SocketAcceptor as SocketAcceptor
use distributed_systems_hw.NetUtils.Json.{bytes}
use distributed_systems_hw.Master.MasterNode.{add_secondary_impl, on_invalidated}
use distributed_systems_hw.Master.MasterNode as MasterNode
use distributed_systems_hw.Master.Main.{
  Options, CmdArgs, Server, notify, read_cmd_args, set_up, launch, on_secondary_socket, add_posted,
  on_secondary_invalidated,
}
use distributed_systems_hw.Master.Main.Launch.{Launched, launch-Launched}
use distributed_systems_hw.Master.Main.Serving.{guards_of, Reach, begin, accepted, added, lost}
use distributed_systems_hw.Master.Main.Guards.{IsShared, reached-IsShared}
use distributed_systems_hw.Master.Main.Balance.{Balanced, calm-Balanced}
use distributed_systems_hw.Logger.{
  debug, info, setup, passes, extract_base_name, extract_base_name_impl,
}
use distributed_systems_hw.Secondary.Main as Secondary
use distributed_systems_hw.Secondary.Main.Launch.{Begun, launch-Begun}

abbrev throws : ℕ → Bool
throws n = ltb 1000000 n

abbrev free : ℕ → Bool
free port = true

abbrev given : Options
given = record {
  help = false;
  name = none;
  http_port = some 8080;
  comm_port = some 9090;
  http_workers = some 8;
  comm_workers = some 2;
}

launch-Launched_example : Launched throws free given (launch throws free (some given))
launch-Launched_example = launch-Launched throws free given

-- Help is shown also when nothing else is given, and not when nothing is given at all.
abbrev nothing : Options
nothing = record {
  help = false;
  name = none;
  http_port = none;
  comm_port = none;
  http_workers = none;
  comm_workers = none;
}

asked_for_help : launch throws free (some (record nothing { help = true })) ≡ exits
unfolding launch read_cmd_args notify
asked_for_help = refl

asked_for_nothing : launch throws free (some nothing) ≡ leaves
unfolding launch read_cmd_args notify
asked_for_nothing = refl

abbrev args : CmdArgs
args = record {
  node_name = [];
  http_port = 8080;
  comm_port = 9090;
  http_workers = 8;
  comm_workers = 2;
}

abbrev up : Server
up = record {
  log_name = bytes "master-node";
  utility_pool = record {
    size = 2;
    next_counter = 2;
    load = 0 ∷ 0 ∷ [];
    worker_threads = 2;
    work_guards = 2;
  };
  node_context = 0;
  acceptor_context = 1;
  node = MasterNode.create;
  comm_port = 9090;
  acceptor = record {
    policy = least_loaded;
    pool = record {
      size = 2;
      next_counter = 0;
      load = 1 ∷ 0 ∷ [];
      worker_threads = 2;
      work_guards = 2;
    };
    accepting = some 0;
  };
  http_port = 8080;
  http_acceptor = record {
    policy = random;
    pool = record {
      size = 3;
      next_counter = 1;
      load = 0 ∷ 0 ∷ 0 ∷ [];
      worker_threads = 3;
      work_guards = 3;
    };
    accepting = some 0;
  };
  posted = [];
  guards = [];
}

set_up_lem : set_up throws free args ≡ returned up
unfolding set_up run_in_separate_threads create construct get_next SocketAcceptor.run accept_one
    get_least_loaded smallest_loop increase
set_up_lem = refl

abbrev connect_one : Server → Server
connect_one s = add_posted (on_secondary_socket false s)

abbrev three : Server
three = connect_one (connect_one (connect_one up))

three-Reach : {calm : Bool} → Reach calm three
unfolding on_secondary_socket add_posted on_accept accept_one get_least_loaded smallest_loop
    increase add_secondary_impl assign
three-Reach =
    added
      (accepted
        (added
          (accepted
            (added (accepted (begin throws free args up set_up_lem) (omega arith)) (omega arith))
            (omega arith))
          (omega arith))
        (omega arith))
      (omega arith)

calm-Balanced_example : Balanced three.acceptor.pool.size (guards_of three)
calm-Balanced_example = calm-Balanced three-Reach

reached-IsShared_example : IsShared (on_secondary_invalidated 1 three)
reached-IsShared_example = reached-IsShared {calm = false} (lost 1 refl three-Reach)

loads_after : (on_secondary_invalidated 1 three).acceptor.pool.load ≡ 2 ∷ 1 ∷ []
unfolding on_secondary_invalidated on_secondary_socket add_posted on_accept accept_one
    get_least_loaded smallest_loop increase add_secondary_impl assign find dec_load dec_loop
loads_after = refl

abbrev joining : Secondary.Options
joining = record {
  help = false;
  name = none;
  http_port = some 8081;
  http_workers = none;
  master_ip = some (bytes "127.0.0.1");
  master_comm_port = some 9090;
}

abbrev is_local : Bytes → Bool
is_local [] = false
is_local (b ∷ rest) = b == 49

launch-Begun_example :
    Begun is_local throws free joining (Secondary.launch is_local throws free (some joining))
launch-Begun_example = launch-Begun is_local throws free joining

shown_name : extract_base_name (bytes "app/main.cpp") ≡ returned (bytes "main.cpp")
unfolding extract_base_name extract_base_name_impl
shown_name = refl

-- A second setup() changes nothing, and a record below the severity of the first one is dropped.
set_up_once :
    setup (bytes "b") debug (setup (bytes "a") info none)
    ≡ some (record { program_name = bytes "a"; min_severity = info })
unfolding setup
set_up_once = refl

dropped_below : passes (record { program_name = []; min_severity = info }) (some debug) ≡ false
unfolding passes
dropped_below = refl
