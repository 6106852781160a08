-- ===== src/Master/Main/Counts.antt =====
-- app/master-node/main.cpp: what each event does to the guards of the pool of secondaries.
use mathlib.Core.List.{append-nil}
use distributed_systems_hw.Base.{
  ℕ, ◌+◌, ◌<◌, ◌≡◌, refl, inl, inr, Bool, true, false, Option, none, some, List, [], ◌∷◌, ◌++◌,
  arith, length, length-append, ◌==◌, if◌then◌else◌, Option-cases, u64_mod,
}
use distributed_systems_hw.Base.Maps.{Map, find, assign, erase, UniqueKeys}
use distributed_systems_hw.NetUtils.IoContextPool.{Pool}
use distributed_systems_hw.NetUtils.IoContextPool.Load.{
  occurs, IsCounted, occurs-remove, acquired-IsCounted, released-IsCounted, same-IsCounted,
  occurs-append,
}
use distributed_systems_hw.NetUtils.SocketAcceptor.{
  Acceptor, Policy, random, missing, least_loaded, accept_one, give_up, on_accept,
}
use distributed_systems_hw.Master.Main.{drop_guard}
use distributed_systems_hw.Master.Main.Serving.{
  values, of_option, occurs-assign, occurs-erase, length-erase, erase-absent,
}

pub occurs_three :
    (d : ℕ) (xs ys zs : List ℕ)
    → occurs d (xs ++ ys ++ zs) ≡ occurs d xs + occurs d ys + occurs d zs
occurs_three d xs ys zs = omega (arith, occurs-append d (xs ++ ys) zs, occurs-append d xs ys)

pub length_three : (xs ys zs : List ℕ) → length (xs ++ ys ++ zs) ≡ length xs + length ys + length zs
length_three xs ys zs = omega (arith, length-append (xs ++ ys) zs, length-append xs ys)

module _ (posted held : List ℕ) where
  -- What the guards are when an acceptor has called back with some contexts.
  abbrev pub Counts : Acceptor × List ℕ → Type 0
  Counts (a, calls) =
      (a.policy ≡ least_loaded)
      × IsCounted a.pool (of_option a.accepting ++ (posted ++ calls) ++ held)

  pub accept-Counts :
      (error : Bool) (policy : Policy) (pool : Pool) (accepting : Option ℕ)
      → policy ≡ least_loaded
      → IsCounted pool (of_option accepting ++ posted ++ held)
      → (error ≡ false → length (of_option accepting ++ posted ++ held) + 2 < u64_mod)
      → Counts (on_accept error (record { policy = policy; pool = pool; accepting = accepting }))
  unfolding on_accept accept_one give_up
  accept-Counts error random pool accepting e v h = cc
  accept-Counts error missing pool accepting e v h = cc
  accept-Counts error least_loaded pool none e v h = (refl, rw (append-nil posted) v)
  accept-Counts true least_loaded pool (some c) e v h = (
    refl,
    rw (append-nil posted) (
        same-IsCounted (released-IsCounted c v (ground arith))
          (λ d. ground (arith, occurs-remove c d (c ∷ posted ++ held))) (omega (arith, v.few))),
  )
  accept-Counts false least_loaded pool (some c) e v h = (
    refl,
    same-IsCounted (acquired-IsCounted v (h refl))
        (λ d. ground (
          arith,
          occurs_three d (posted ++ c ∷ []) held [],
          occurs-append d posted (c ∷ []),
          occurs-append d (posted ++ c ∷ []) held,
          occurs-append d posted held,
        ))
        (omega (
          arith,
          h refl,
          length-append (posted ++ c ∷ []) held,
          length-append posted (c ∷ []),
          length-append posted held,
        )),
  )

pub dropped-Counts :
    (a : Acceptor) (posted : List ℕ) (guards : Map ℕ) (id : ℕ)
    → a.policy ≡ least_loaded
    → UniqueKeys guards
    → IsCounted a.pool (of_option a.accepting ++ posted ++ values guards)
    → ((drop_guard (find id guards) a).policy ≡ least_loaded)
      × IsCounted (drop_guard (find id guards) a).pool (
          of_option (drop_guard (find id guards) a).accepting ++ posted ++ values (erase id guards))
dropped-Counts a posted guards id p u v = elim (Option-cases (find id guards)) [
  | inl e ↦ rw (e, erase-absent id guards e) (p, v)
  | inr (c, e) ↦
      let alive : List ℕ = of_option a.accepting ++ posted ++ values guards in
      let left : List ℕ = of_option a.accepting ++ posted ++ values (erase id guards) in
      let one : ((d : ℕ) → occurs d alive ≡ occurs d left + (if c == d then 1 else 0)) = (λ d.
        ground (
          arith,
          occurs_three d (of_option a.accepting) posted (values guards),
          occurs_three d (of_option a.accepting) posted (values (erase id guards)),
          occurs-erase d id c guards u e,
        )) in
      let there : 0 < occurs c alive = ground (arith, one c) in
      rw e (
        p,
        same-IsCounted (released-IsCounted c v there)
            (λ d. ground (arith, one d, occurs-remove c d alive there))
            (omega (
              arith,
              v.few,
              length_three (of_option a.accepting) posted (values guards),
              length_three (of_option a.accepting) posted (values (erase id guards)),
              length-erase id guards,
            )),
      )
]

pub threads-IsCounted :
    (p : Pool) (guards : List ℕ) (threads work : ℕ)
    → IsCounted p guards
    → IsCounted (record p { work_guards = work; worker_threads = threads }) guards
threads-IsCounted p guards threads work v = record {
  some_context = v.some_context;
  sized = v.sized;
  counted = v.counted;
  few = v.few;
}

-- A posted call that runs: the secondary takes its guard.
pub taken_occurs :
    (accepting : Option ℕ) (id c : ℕ) (rest : List ℕ) (guards : Map ℕ)
    → find id guards ≡ none
    → (d : ℕ)
    → occurs d (of_option accepting ++ (c ∷ rest) ++ values guards)
      ≡ occurs d (of_option accepting ++ rest ++ values (assign id c guards))
taken_occurs accepting id c rest guards free d = ground (
  arith,
  occurs_three d (of_option accepting) (c ∷ rest) (values guards),
  occurs_three d (of_option accepting) rest (values (assign id c guards)),
  occurs-assign d id c guards free,
)
