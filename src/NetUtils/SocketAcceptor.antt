-- ===== src/NetUtils/SocketAcceptor.antt =====
-- libs/net-utils/src/socketacceptor.cpp: sockets that are accepted one after the other, each on a
-- context of the pool. Sockets are not named: there is one for each call of the callback.
pub mod Turns
use distributed_systems_hw.Base.{ℕ, Bool, true, false, Option, none, some, List, [], ◌∷◌}
use distributed_systems_hw.NetUtils.IoContextPool.{Pool, get_next, get_least_loaded, dec_load}

-- The callback that the constructor was given, and so the policy; without one run() does nothing.
pub data Policy : Type 0 where
  random least_loaded missing : Policy

-- The policy, the pool, and the context of the async_accept that waits.
pub record Acceptor : Type 0 where
  pub policy : Policy
  pub pool : Pool
  pub accepting : Option ℕ

-- create()
abbrev pub create : Policy → Pool → Acceptor
create policy pool = record { policy = policy; pool = pool; accepting = none }

-- acceptOne(), for either policy: the context, behind which stands a guard for the second one.
unfoldable pub accept_one : Policy → Acceptor → Acceptor
accept_one random a =
    let (context, pool) = get_next a.pool in record a { pool = pool; accepting = some context }
accept_one least_loaded a =
    let (context, pool) = get_least_loaded a.pool in
    record a { pool = pool; accepting = some context }
accept_one missing a = a

-- run()
unfoldable pub run : Acceptor → Acceptor
unfolding accept_one
run a = accept_one a.policy a

-- What an error leaves: the guard of the second policy dies with the callback.
unfoldable pub give_up : Policy → ℕ → Acceptor → Acceptor
give_up least_loaded context a = record a { pool = dec_load context a.pool; accepting = none }
give_up _ context a = record a { accepting = none }

-- The callback of the async_accept that waits, with an error or not: the state, and the contexts
-- that new_socket_callback_fn is called with.
unfoldable pub on_accept : Bool → Acceptor → Acceptor × List ℕ
unfolding accept_one give_up
on_accept error a = elim a.accepting [
  | none ↦ (a, [])
  | some context ↦ elim error [
    | true ↦ (give_up a.policy context a, [])
    | false ↦ (accept_one a.policy a, context ∷ [])
  ]
]
