-- ===== src/NetUtils/SocketAcceptor/Turns.antt =====
-- libs/net-utils/src/socketacceptor.cpp: which contexts the sockets are given, and when it ends.
use distributed_systems_hw.Base.{
  ℕ, zero, suc, ◌%◌, ◌≡◌, refl, ap, ◌≢◌, Bool, true, false, none, some, List, [], ◌∷◌, ◌++◌,
  next_u64,
}
use distributed_systems_hw.NetUtils.IoContextPool.{Pool, get_next}
use distributed_systems_hw.NetUtils.SocketAcceptor.{
  random, Acceptor, create, accept_one, run, give_up, on_accept,
}

-- The callbacks that come, each with an error or not: the state, and the contexts in order.
unfoldable pub accept_all : List Bool → Acceptor → Acceptor × List ℕ
unfolding on_accept
accept_all [] a = (a, [])
accept_all (error ∷ rest) a =
    let first = on_accept error a in
    let others = accept_all rest first.0 in (others.0, first.1 ++ others.1)

-- The outcomes before the first error.
abbrev pub before_error : List Bool → ℕ
before_error [] = 0
before_error (true ∷ rest) = 0
before_error (false ∷ rest) = suc (before_error rest)

abbrev pub has_error : List Bool → Bool
has_error [] = false
has_error (true ∷ rest) = true
has_error (false ∷ rest) = has_error rest

-- `n` turns of `size` contexts, from a counter on.
abbrev pub turns : ℕ → ℕ → ℕ → List ℕ
turns zero counter size = []
turns (suc n) counter size = counter % size ∷ turns n (next_u64 counter) size

-- An acceptor whose next socket is on the context of `counter`, and one that has stopped.
abbrev waits_at : ℕ → Pool → Acceptor
waits_at counter pool = record {
  policy = random;
  pool = record pool { next_counter = next_u64 counter };
  accepting = some (counter % pool.size);
}

abbrev stopped : Acceptor → Acceptor
stopped a = record a { accepting = none }

accept_all-stopped :
    (errors : List Bool) (a : Acceptor) → accept_all errors (stopped a) ≡ (stopped a, [])
unfolding accept_all on_accept
accept_all-stopped [] a = refl
accept_all-stopped (error ∷ rest) a = accept_all-stopped rest a

-- What the callbacks come to, from a counter on.
pub record Serves (errors : List Bool) (counter size : ℕ) (out : Acceptor × List ℕ) : Type 0 where
  pub contexts : out.1 ≡ turns (before_error errors) counter size
  pub ended : has_error errors ≡ true → out.0.accepting ≡ none
  pub going : has_error errors ≡ false → out.0.accepting ≢ none

accept_all-Serves :
    (errors : List Bool) (counter : ℕ) (pool : Pool)
    → Serves errors counter pool.size (accept_all errors (waits_at counter pool))
unfolding accept_all on_accept accept_one get_next give_up
accept_all-Serves [] counter pool = record { contexts = refl; ended = λ e. cc; going = λ e f. cc }
accept_all-Serves (true ∷ rest) counter pool =
    let e = accept_all-stopped rest (waits_at counter pool) in
    record { contexts = rw e refl; ended = λ f. rw e refl; going = λ f. cc }
accept_all-Serves (false ∷ rest) counter pool =
    let s = accept_all-Serves rest (next_u64 counter) pool in
    record {
      contexts = ap (◌∷◌ (counter % pool.size)) s.contexts;
      ended = s.ended;
      going = s.going;
    }

-- An acceptor with the first policy gives the sockets that come before the first error the contexts
-- of its pool in turn, from the pool's counter on, one each; after an error it gives out no more and
-- waits for no socket, and without one it still waits for the next.
pub run-Serves :
    (errors : List Bool) (pool : Pool)
    → Serves errors pool.next_counter pool.size (accept_all errors (run (create random pool)))
unfolding run accept_one get_next
run-Serves errors pool = accept_all-Serves errors pool.next_counter pool
