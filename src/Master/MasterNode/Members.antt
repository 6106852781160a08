-- ===== src/Master/MasterNode/Members.antt =====
-- app/master-node/masternode: which secondaries the master knows, and in which state.
use distributed_systems_hw.Base.{
  ℕ, ◌+◌, ◌<◌, ◌≤◌, ◌≡◌, ◌≢◌, ◌⊎◌, inl, inr, refl, Bool, true, false, none, some, List, [], ◌∷◌,
  arith, if◌then◌else◌, ◌==◌, Bool-cases, Option-cases, Bytes, u64_mod,
}
use distributed_systems_hw.Base.Maps.{
  find, assign, find-assign, find-erase, UniqueKeys, assign-UniqueKeys, erase-UniqueKeys,
}
use distributed_systems_hw.Master.MasterNode.{
  MasterNode, SecondaryNode, registering, operational, create, create_node, set_friendly_name,
  set_operational, add_secondary_impl, on_invalidated, on_incoming_secondary_node_ready,
}

-- The states of a master, with how many secondaries have connected so far and the ids that were
-- invalidated; fewer than 2^64 connect.
pub data Reach : MasterNode → ℕ → List ℕ → Type 0 where
  begin : Reach create 0 []
  connected :
      {m : MasterNode} {n : ℕ} {gone : List ℕ}
      → Reach m n gone
      → n + 1 < u64_mod
      → Reach (add_secondary_impl m).0 (n + 1) gone
  lost :
      {m : MasterNode} {n : ℕ} {gone : List ℕ}
      → (id : ℕ) → Reach m n gone
      → id < n
      → Reach (on_invalidated id m).0 n (id ∷ gone)
  ready :
      {m : MasterNode} {n : ℕ} {gone : List ℕ}
      → (id : ℕ) → (name : Bytes) → Reach m n gone
      → Reach (on_incoming_secondary_node_ready id name m).0 n gone

abbrev pub stands_in : ℕ → List ℕ → Bool
stands_in id [] = false
stands_in id (x ∷ xs) = if x == id then true else stands_in id xs

-- A node under its own id is registering without a name, or operational with one.
abbrev pub GoodNode : ℕ → SecondaryNode → Type 0
GoodNode id node =
    (node.id ≡ id)
    × (((node.state ≡ registering) × (node.friendly_name ≡ none))
        ⊎ ((node.state ≡ operational) × ((name : Bytes) × (node.friendly_name ≡ some name))))

-- The ids given out are those below n; a secondary is in the map exactly from when it connects until
-- it is invalidated.
pub record IsGood (m : MasterNode) (n : ℕ) (gone : List ℕ) : Type 0 where
  pub counted : m.secondary_id_counter ≡ n
  pub unique : UniqueKeys m.secondaries
  pub known : (id : ℕ) → stands_in id gone ≡ true → id < n
  pub present : (id : ℕ) → id < n → stands_in id gone ≡ false → find id m.secondaries ≢ none
  pub absent : (id : ℕ) → (n ≤ id) ⊎ (stands_in id gone ≡ true) → find id m.secondaries ≡ none
  pub good : (id : ℕ) (node : SecondaryNode) → find id m.secondaries ≡ some node → GoodNode id node

add-IsGood :
    {m : MasterNode} {n : ℕ} {gone : List ℕ}
    → IsGood m n gone
    → n + 1 < u64_mod
    → IsGood (add_secondary_impl m).0 (n + 1) gone
unfolding add_secondary_impl
add-IsGood {m} {n} {gone} g h = record {
  counted = omega (arith, g.counted);
  unique =
      assign-UniqueKeys m.secondary_id_counter (create_node m.secondary_id_counter) m.secondaries
        g.unique;
  known = λ id s. omega (arith, g.known id s);
  present = λ id b s. ground (arith, at id, g.present id, g.counted);
  absent = absent;
  good = λ id node e. good id node e;
}
  where
    at :
        (id : ℕ)
        → find id (assign m.secondary_id_counter (create_node m.secondary_id_counter) m.secondaries)
          ≡ (if m.secondary_id_counter == id
              then some (create_node m.secondary_id_counter)
              else find id m.secondaries)
    at id = find-assign id m.secondary_id_counter (create_node m.secondary_id_counter) m.secondaries

    absent :
        (id : ℕ)
        → (n + 1 ≤ id) ⊎ (stands_in id gone ≡ true)
        → find id (assign m.secondary_id_counter (create_node m.secondary_id_counter) m.secondaries)
          ≡ none
    absent id (inl above) = ground (arith, at id, g.absent id (inl (omega arith)), g.counted)
    absent id (inr s) = ground (arith, at id, g.absent id (inr s), g.counted, g.known id s)

    good :
        (id : ℕ) (node : SecondaryNode)
        → find id (assign m.secondary_id_counter (create_node m.secondary_id_counter) m.secondaries)
          ≡ some node
        → GoodNode id node
    good id node e = elim (Bool-cases (m.secondary_id_counter == id)) [
      | inl same ↦
          let this : create_node m.secondary_id_counter ≡ node = ground (arith, e, at id, same) in
          rw⁻¹ this (ground (arith, same), inl (refl, refl))
      | inr other ↦ g.good id node (ground (arith, e, at id, other))
    ]

lost-IsGood :
    {m : MasterNode} {n : ℕ} {gone : List ℕ}
    → (id : ℕ) → IsGood m n gone
    → id < n
    → IsGood (on_invalidated id m).0 n (id ∷ gone)
unfolding on_invalidated
lost-IsGood {m} {n} {gone} id g below = elim (Option-cases (find id m.secondaries)) [
  | inl e ↦
      rw (e, on_invalidated)
        (record {
          counted = g.counted;
          unique = g.unique;
          known = λ j s. ground (arith, g.known j, s, below);
          present = λ j b s. ground (arith, g.present j b, s);
          absent = λ j b. ground (arith, g.absent j, b, e);
          good = g.good;
        })
  | inr (node, e) ↦
      rw (e, on_invalidated)
        (record {
          counted = g.counted;
          unique = erase-UniqueKeys id m.secondaries g.unique;
          known = λ j s. ground (arith, g.known j, s, below);
          present = λ j b s. ground (arith, g.present j b, s, find-erase j id m.secondaries);
          absent = λ j b. ground (arith, g.absent j, b, find-erase j id m.secondaries);
          good = λ j other f. ground (arith, g.good j other, f, find-erase j id m.secondaries);
        })
]

ready-IsGood :
    {m : MasterNode} {n : ℕ} {gone : List ℕ}
    → (id : ℕ) (name : Bytes) → IsGood m n gone
    → IsGood (on_incoming_secondary_node_ready id name m).0 n gone
unfolding on_incoming_secondary_node_ready
ready-IsGood {m} {n} {gone} id name g = elim (Option-cases (find id m.secondaries)) [
  | inl e ↦ rw (e, on_incoming_secondary_node_ready) g
  | inr (node, e) ↦
      let now : SecondaryNode = set_operational (set_friendly_name name node) in
      let at : ((j : ℕ)
          → find j (assign id now m.secondaries)
            ≡ (if id == j then some now else find j m.secondaries)) =
        (λ j. find-assign j id now m.secondaries) in
      rw (e, on_incoming_secondary_node_ready)
        (record {
          counted = g.counted;
          unique = assign-UniqueKeys id now m.secondaries g.unique;
          known = g.known;
          present = λ j b s. ground (arith, g.present j b s, at j);
          absent = λ j b. ground (arith, g.absent j b, at j, e);
          good = λ j other f. elim (Bool-cases (id == j)) [
            | inl same ↦
                let this : now ≡ other = ground (arith, f, at j, same) in
                rw⁻¹ this (ground (arith, g.good id node e, same), inr (refl, (name, refl)))
            | inr different ↦ g.good j other (ground (arith, f, at j, different))
          ];
        })
]

-- For a master that fewer than 2^64 secondaries have connected to: no two secondaries have the same
-- id, and no id is given out again after its secondary was invalidated. A secondary is known exactly
-- from when it connects until it is invalidated; meanwhile it is REGISTERING without a name, or
-- OPERATIONAL with one, and never INVALIDATED.
pub reached-IsGood : {m : MasterNode} {n : ℕ} {gone : List ℕ} → Reach m n gone → IsGood m n gone
unfolding find
reached-IsGood begin = record {
  counted = refl;
  unique = tt;
  known = λ id s. ground (arith, s);
  present = λ id b s. absurd (omega arith);
  absent = λ id b. refl;
  good = λ id node e. ground (arith, e);
}
reached-IsGood (connected before h) = add-IsGood (reached-IsGood before) h
reached-IsGood (lost id before below) = lost-IsGood id (reached-IsGood before) below
reached-IsGood (ready id name before) = ready-IsGood id name (reached-IsGood before)
