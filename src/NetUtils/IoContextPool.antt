-- ===== src/NetUtils/IoContextPool.antt =====
-- libs/net-utils/src/iocontextpool.cpp: a context of the pool is its index in contexts_.
pub mod Smallest
pub mod Load
use distributed_systems_hw.Base.{
  ℕ, zero, suc, ◌+◌, ◌-◌, ◌%◌, Bool, true, false, not, ◌||◌, Option, none, some, List, [], ◌∷◌, leb,
  ltb, ◌==◌, if◌then◌else◌, length, u64_mod, next_u64,
}
use distributed_systems_hw.Proto.Platform.{Exec, returned, thrown}

-- The members of IOContextPool; of the threads and the work guards their numbers.
pub record Pool : Type 0 where
  pub size : ℕ
  pub next_counter : ℕ
  pub load : List ℕ
  pub worker_threads : ℕ
  pub work_guards : ℕ

-- load_.resize(n, 0)
abbrev pub zeros : ℕ → List ℕ
zeros zero = []
zeros (suc n) = 0 ∷ zeros n

-- max<size_t>(size, 1)
abbrev pub at_least_one : ℕ → ℕ
at_least_one size = if size == 0 then 1 else size

-- The members that the constructor leaves: 1 is taken for a size of 0.
unfoldable pub construct : ℕ → Pool
construct size =
    let n = at_least_one size in
    record { size = n; next_counter = 0; load = zeros n; worker_threads = 0; work_guards = 0 }

-- create(): std::vector::reserve throws std::length_error or std::bad_alloc for the numbers of
-- contexts for which `reserve_throws` is true.
unfoldable pub create : (ℕ → Bool) → ℕ → Exec Pool
unfolding construct
create reserve_throws size =
    if reserve_throws (at_least_one size) then thrown else returned (construct size)

-- getNext()
unfoldable pub get_next : Pool → ℕ × Pool
get_next p = (p.next_counter % p.size, record p { next_counter = next_u64 p.next_counter })

-- The loop of getLeastLoaded() over the loads from index `i` on.
unfoldable pub smallest_loop : List ℕ → ℕ → ℕ → ℕ → ℕ
smallest_loop [] i smallest_load smallest_load_index = smallest_load_index
smallest_loop (l ∷ load) i smallest_load smallest_load_index =
    smallest_loop load (i + 1) (if leb smallest_load l then smallest_load else l)
      (if leb smallest_load l then smallest_load_index else i)

-- ++load_[i]
unfoldable pub increase : ℕ → List ℕ → List ℕ
increase i [] = []
increase zero (l ∷ load) = next_u64 l ∷ load
increase (suc i) (l ∷ load) = l ∷ increase i load

-- getLeastLoaded(): the context of the guard, and the new state.
unfoldable pub get_least_loaded : Pool → ℕ × Pool
unfolding smallest_loop increase
get_least_loaded p =
    let index = smallest_loop p.load 0 (u64_mod - 1) 0 in
    (index, record p { load = increase index p.load })

-- The loop of decLoad() over the loads from index `i` on.
unfoldable pub dec_loop : ℕ → ℕ → List ℕ → List ℕ
dec_loop context i [] = []
dec_loop context i (l ∷ load) =
    (if not (i == context) then l else if ltb 0 l then l - 1 else l) ∷ dec_loop context (i + 1) load

-- decLoad()
unfoldable pub dec_load : ℕ → Pool → Pool
unfolding dec_loop
dec_load context p = record p { load = dec_loop context 0 p.load }

-- LoadGuard::~LoadGuard(); none is a pool that is gone.
unfoldable pub drop_guard : ℕ → Option Pool → Option Pool
unfolding dec_load
drop_guard context none = none
drop_guard context (some p) = some (dec_load context p)

-- runInSeparateThreads(): with std::runtime_error when the pool runs already.
unfoldable pub run_in_separate_threads : Bool → Pool → Exec Pool
run_in_separate_threads forever p =
    if not (p.worker_threads == 0) || not (p.work_guards == 0)
    then thrown
    else returned
        (record p { work_guards = if forever then p.size else 0; worker_threads = p.size })

-- stop(), behind the joins of the threads.
unfoldable pub stop : Pool → Pool
stop p = record p { worker_threads = 0; work_guards = 0 }

-- The destructor.
unfoldable pub destroy : Pool → Pool
unfolding stop
destroy p = if p.worker_threads == 0 then p else stop p
