-- ===== src/Logger.antt =====
-- libs/logger: severities, the filter of the sink, and the file name that a line shows. The sink, its
-- formatter and the attributes of records are boost's.
use distributed_systems_hw.Base.{
  ℕ, zero, suc, ◌+◌, ◌≤◌, ◌≡◌, refl, Bool, true, false, Option, none, some, [], ◌∷◌, ◌++◌, arith,
  ◌==◌, if◌then◌else◌, leb, length, get_elem?, drop, length-append, get_elem?-some, Option-cases,
  inl, inr, Bytes, ap,
}
use distributed_systems_hw.Proto.Platform.{Exec, returned, thrown}
use Prim.Native.String.{String}

-- enum class Severity
pub data Severity : Type 0 where
  debug info warning error : Severity

abbrev level : Severity → ℕ
level debug = 0
level info = 1
level warning = 2
level error = 3

-- operator<<
abbrev show_severity : Severity → String
show_severity debug = "DBG "
show_severity info = "Info"
show_severity warning = "Warn"
show_severity error = "ERR!"

-- The sink that setup() adds, if there is one.
pub record Sink : Type 0 where
  pub program_name : Bytes
  pub min_severity : Severity

-- setup()
unfoldable pub setup : Bytes → Severity → Option Sink → Option Sink
setup program_name min_severity none =
    some (record { program_name = program_name; min_severity = min_severity })
setup program_name min_severity (some sink) = some sink

-- teardown(): without a sink there is nothing to do.
abbrev pub teardown : Option Sink → Option Sink
teardown sink = none

-- The filter, on a record with a severity or without one.
unfoldable pub passes : Sink → Option Severity → Bool
passes sink none = leb (level sink.min_severity) (level sink.min_severity)
passes sink (some severity) = leb (level sink.min_severity) (level severity)

-- extractBaseNameImpl(s, i) with `left` characters before the last i: at() throws where none is left,
-- as its index wraps around then. '/' is 47.
unfoldable pub extract_base_name_impl : Bytes → ℕ → Exec Bytes
extract_base_name_impl s zero = thrown
extract_base_name_impl s (suc left) = elim (get_elem? s left) [
  | none ↦ thrown
  | some c ↦
      let rest = extract_base_name_impl s left in
      if c == 47 then returned (drop (suc left) s) else rest
]

-- extractBaseName()
unfoldable pub extract_base_name : Bytes → Exec Bytes
unfolding extract_base_name_impl
extract_base_name s = extract_base_name_impl s (length s)

abbrev has_slash : Bytes → Bool
has_slash [] = false
has_slash (c ∷ s) = if c == 47 then true else has_slash s

at-append :
    (xs : Bytes) (ys : Bytes) (i : ℕ) → get_elem? (xs ++ ys) (length xs + i) ≡ get_elem? ys i
at-append [] ys i = ap (get_elem? ys) (omega arith)
at-append (x ∷ xs) ys i =
    let e : suc (length xs) + i ≡ suc (length xs + i) = omega arith in rw e (at-append xs ys i)

plain_at : (s : Bytes) (i c : ℕ) → has_slash s ≡ false → get_elem? s i ≡ some c → (c == 47) ≡ false
plain_at [] i c e f = cc
plain_at (x ∷ s) zero c e f = ground (arith, e, f)
plain_at (x ∷ s) (suc i) c e f = plain_at s i c (ground (arith, e)) f

drop_behind :
    (dir : Bytes) (c : ℕ) (name : Bytes) → drop (suc (length dir)) (dir ++ c ∷ name) ≡ name
drop_behind [] c name = refl
drop_behind (x ∷ dir) c name = drop_behind dir c name

-- The file name behind the last '/' of a path.
base_name_lem :
    (dir name : Bytes)
    → has_slash name ≡ false
    → extract_base_name (dir ++ 47 ∷ name) ≡ returned name
unfolding extract_base_name extract_base_name_impl
base_name_lem dir name e =
    let n : length (dir ++ 47 ∷ name) ≡ suc (length dir + length name) =
      omega (arith, length-append dir (47 ∷ name)) in
    rw n (loop (length name) (omega arith))
  where
    loop :
        (j : ℕ)
        → j ≤ length name
        → extract_base_name_impl (dir ++ 47 ∷ name) (suc (length dir + j)) ≡ returned name
    loop zero h =
        let same : length dir + 0 ≡ length dir = omega arith in
        let here : get_elem? (dir ++ 47 ∷ name) (length dir) ≡ some 47 =
          rw same at (at-append dir (47 ∷ name) 0) in
        rw same (rw (here, extract_base_name_impl) (ap returned (drop_behind dir 47 name)))
    loop (suc j) h =
        let same : length dir + suc j ≡ suc (length dir + j) = omega arith in
        let here : get_elem? (dir ++ 47 ∷ name) (suc (length dir + j)) ≡ get_elem? name j =
          rw same at (at-append dir (47 ∷ name) (suc j)) in
        let (c, f) = get_elem?-some name j h in
        rw same (rw (here, f, plain_at name j c e f, extract_base_name_impl) (loop j (omega arith)))

-- A path without one makes it throw.
no_slash_throws : (s : Bytes) → has_slash s ≡ false → extract_base_name s ≡ thrown
unfolding extract_base_name extract_base_name_impl
no_slash_throws s e = loop (length s)
  where
    loop : (left : ℕ) → extract_base_name_impl s left ≡ thrown
    loop zero = refl
    loop (suc left) = elim (Option-cases (get_elem? s left)) [
      | inl f ↦ rw (f, extract_base_name_impl) refl
      | inr (c, f) ↦ rw (f, plain_at s left c e f, extract_base_name_impl) (loop left)
    ]
