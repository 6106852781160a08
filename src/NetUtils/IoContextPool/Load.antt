-- ===== src/NetUtils/IoContextPool/Load.antt =====
-- libs/net-utils/src/iocontextpool.cpp: what load_ counts, and which context is chosen.
use distributed_systems_hw.Base.{
  ℕ, zero, suc, ◌+◌, ◌-◌, ◌<◌, ◌≤◌, ◌≡◌, inl, inr, ◌∙◌, some, List, [], ◌∷◌, ◌++◌, arith, ◌==◌,
  if◌then◌else◌, length, get_elem?, get_elem?-below, All, u64_mod,
}
use distributed_systems_hw.NetUtils.IoContextPool.{
  Pool, construct, smallest_loop, get_least_loaded, dec_load,
}
use distributed_systems_hw.NetUtils.IoContextPool.Smallest.{
  smallest_loop-Smallest, get_elem?-increase, length-increase, length-dec_loop, get_elem?-dec_loop,
  length-zeros, get_elem?-zeros,
}

-- How often a context stands among guards, and the guards without one of them.
abbrev pub occurs : ℕ → List ℕ → ℕ
occurs c [] = 0
occurs c (x ∷ xs) = if x == c then suc (occurs c xs) else occurs c xs

abbrev pub remove : ℕ → List ℕ → List ℕ
remove c [] = []
remove c (x ∷ xs) = let rest = remove c xs in if x == c then xs else x ∷ rest

-- There is a context, and the load of each context is the number of guards that are alive for it.
pub record IsCounted (p : Pool) (guards : List ℕ) : Type 0 where
  pub some_context : 0 < p.size
  pub sized : length p.load ≡ p.size
  pub counted : (c : ℕ) → c < p.size → get_elem? p.load c ≡ some (occurs c guards)
  pub few : length guards + 1 < u64_mod

occurs-le : (c : ℕ) (xs : List ℕ) → occurs c xs ≤ length xs
occurs-le c [] = omega arith
occurs-le c (x ∷ xs) = ground (arith, occurs-le c xs)

pub occurs-remove :
    (c d : ℕ) (xs : List ℕ)
    → 0 < occurs c xs
    → occurs d xs ≡ occurs d (remove c xs) + (if c == d then 1 else 0)
occurs-remove c d [] h = absurd (omega arith)
occurs-remove c d (x ∷ xs) h = ground (arith, occurs-remove c d xs)

length-remove-le : (c : ℕ) (xs : List ℕ) → length (remove c xs) ≤ length xs
length-remove-le c [] = omega arith
length-remove-le c (x ∷ xs) = ground (arith, length-remove-le c xs)

-- What getLeastLoaded() chooses: a context that there is, none of which has less load.
pub record IsEmptiest (p : Pool) (guards : List ℕ) (c : ℕ) : Type 0 where
  pub exists : c < p.size
  pub least : (d : ℕ) → d < p.size → occurs c guards ≤ occurs d guards

All-get_elem? :
    (m j l : ℕ) (load : List ℕ) → All (λ k. m ≤ k) load → get_elem? load j ≡ some l → m ≤ l
All-get_elem? m j l [] a e = absurd (ground (arith, e))
All-get_elem? m zero l (x ∷ load) a e = ground (arith, e, a.0)
All-get_elem? m (suc j) l (x ∷ load) a e = All-get_elem? m j l load (a.1) e

pub chosen-IsEmptiest :
    (p : Pool) (guards : List ℕ) → IsCounted p guards → IsEmptiest p guards (get_least_loaded p).0
unfolding get_least_loaded
chosen-IsEmptiest p guards v = elim (smallest_loop-Smallest p.load 0 (u64_mod - 1) 0) [
  | inl (e, a) ↦
      let first = v.counted 0 v.some_context in
      absurd (
        omega (
          arith,
          All-get_elem? (u64_mod - 1) 0 (occurs 0 guards) p.load (a) first,
          occurs-le 0 guards,
          v.few,
        ))
  | inr (m, less, (found, above, a)) ↦
      let index : ℕ = smallest_loop p.load 0 (u64_mod - 1) 0 in
      let same : index - 0 ≡ index = omega arith in
      let there : get_elem? p.load index ≡ some m = rw⁻¹ same found in
      let inside : index < p.size =
        omega (arith, get_elem?-below p.load index {x = m} there, v.sized) in
      let here : occurs index guards ≡ m = ground (arith, v.counted index inside, there) in
      record {
        exists = inside;
        least = λ d h.
            omega (arith, here, All-get_elem? m d (occurs d guards) p.load a (v.counted d h));
      }
]

pub created-IsCounted : (size : ℕ) → IsCounted (construct size) []
unfolding construct
created-IsCounted size =
    let n : ℕ = if size == 0 then 1 else size in
    record {
      some_context = ground arith;
      sized = length-zeros n;
      counted = λ c h. get_elem?-zeros n c h;
      few = omega arith;
    }

pub acquired-IsCounted :
    {p : Pool} {guards : List ℕ}
    → IsCounted p guards
    → length guards + 2 < u64_mod
    → IsCounted (get_least_loaded p).1 ((get_least_loaded p).0 ∷ guards)
unfolding get_least_loaded
acquired-IsCounted {p} {guards} v h =
    let chosen = chosen-IsEmptiest p guards v in
    let index : ℕ = smallest_loop p.load 0 (u64_mod - 1) 0 in
    let n = v.counted index chosen.exists in
    let few = occurs-le index guards in
    record {
      some_context = v.some_context;
      sized = length-increase index p.load ∙ v.sized;
      counted = λ c b.
          ground
            (arith, get_elem?-increase index c p.load (occurs index guards) n, v.counted c b, few);
      few = omega arith;
    }

pub released-IsCounted :
    {p : Pool} {guards : List ℕ}
    → (c : ℕ) → IsCounted p guards
    → 0 < occurs c guards
    → IsCounted (dec_load c p) (remove c guards)
unfolding dec_load
released-IsCounted {p} {guards} c v h = record {
  some_context = v.some_context;
  sized = length-dec_loop c 0 p.load ∙ v.sized;
  counted = λ d b.
      ground (arith, get_elem?-dec_loop c 0 d p.load, v.counted d b, occurs-remove c d guards h);
  few = omega (arith, v.few, length-remove-le c guards);
}

-- The order of the guards does not matter.
pub same-IsCounted :
    {p : Pool} {guards others : List ℕ}
    → IsCounted p guards
    → ((c : ℕ) → occurs c guards ≡ occurs c others)
    → length others + 1 < u64_mod
    → IsCounted p others
same-IsCounted v same fewer = record {
  some_context = v.some_context;
  sized = v.sized;
  counted = λ c h. ground (arith, v.counted c h, same c);
  few = fewer;
}

pub occurs-append : (c : ℕ) (xs ys : List ℕ) → occurs c (xs ++ ys) ≡ occurs c xs + occurs c ys
occurs-append c [] ys = omega arith
occurs-append c (x ∷ xs) ys = ground (arith, occurs-append c xs ys)
