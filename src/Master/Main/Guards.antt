-- ===== src/Master/Main/Guards.antt =====
-- app/master-node/main.cpp: what the loads of a server's pool count.
use distributed_systems_hw.Base.{
  is_some, ℕ, ◌+◌, ◌<◌, ◌≡◌, ◌↔◌, refl, inl, inr, Bool, true, false, Option, none, some, List, [],
  ◌∷◌, arith, length, ◌==◌, if◌then◌else◌, Option-cases, Bytes, u64_mod, get_elem?, ap, ◌∙◌, sym,
}
use distributed_systems_hw.Base.Maps.{
  find, assign, find-assign, find-erase, UniqueKeys, assign-UniqueKeys, erase-UniqueKeys,
}
use distributed_systems_hw.Proto.Platform.{returned}
use distributed_systems_hw.NetUtils.IoContextPool.{Pool, get_least_loaded, dec_load}
use distributed_systems_hw.NetUtils.IoContextPool.Load.{
  occurs, IsCounted, acquired-IsCounted, same-IsCounted,
}
use distributed_systems_hw.NetUtils.SocketAcceptor.{
  Acceptor, Policy, random, missing, least_loaded, accept_one, give_up, on_accept,
}
use distributed_systems_hw.Master.MasterNode.{
  MasterNode, create_node, set_friendly_name, set_operational, add_secondary_impl, on_invalidated,
  on_incoming_secondary_node_ready,
}
use distributed_systems_hw.Master.MasterNode.Members as Members
use distributed_systems_hw.Master.MasterNode.Members.{IsGood, reached-IsGood}
use distributed_systems_hw.Master.Main.Counts.{
  taken_occurs, length_three, accept-Counts, dropped-Counts, threads-IsCounted,
}
use distributed_systems_hw.Master.Main.{
  CmdArgs, Server, set_up, on_secondary_socket, add_posted, on_secondary_invalidated,
}
use distributed_systems_hw.NetUtils.IoContextPool as IoContextPool
use distributed_systems_hw.NetUtils.IoContextPool.{run_in_separate_threads}
use distributed_systems_hw.NetUtils.SocketAcceptor as SocketAcceptor
use distributed_systems_hw.NetUtils.IoContextPool.Load.{created-IsCounted}
use distributed_systems_hw.Master.Main.Serving.{
  values, of_option, guards_of, set_up-begun, Reach, begin, accepted, failed, added, lost, ready,
  length-assign,
}

pub record Inv (s : Server) : Type 0 where
  pub policy : s.acceptor.policy ≡ least_loaded
  pub counted : IsCounted s.acceptor.pool (guards_of s)
  pub unique : UniqueKeys s.guards
  pub keys : (id : ℕ) → is_some (find id s.guards) ≡ is_some (find id s.node.secondaries)
  pub known : ℕ
  pub gone : List ℕ
  pub members : Members.Reach s.node known gone

socket-Inv :
    (error : Bool) {s : Server}
    → Inv s
    → (error ≡ false → length (guards_of s) + 2 < u64_mod)
    → Inv (on_secondary_socket error s)
unfolding on_secondary_socket
socket-Inv error {s} i small =
    let c =
      accept-Counts s.posted (values s.guards) error s.acceptor.policy s.acceptor.pool
        s.acceptor.accepting i.policy i.counted small in
    record {
      policy = c.0;
      counted = c.1;
      unique = i.unique;
      keys = i.keys;
      known = i.known;
      gone = i.gone;
      members = i.members;
    }

-- No secondary holds a guard under the next id.
pub next_free : {s : Server} → Inv s → find s.node.secondary_id_counter s.guards ≡ none
next_free {s} i =
    let good = reached-IsGood i.members in
    let id = s.node.secondary_id_counter in
    let absent = good.absent id (inl (omega (arith, good.counted))) in
    ground (arith, absent, i.keys id)

added-Inv : {s : Server} → Inv s → s.node.secondary_id_counter + 1 < u64_mod → Inv (add_posted s)
unfolding add_posted add_secondary_impl
added-Inv {s} i small = by_posted s.posted i
  where
    by_posted :
        (posted : List ℕ)
        → Inv (record s { posted = posted })
        → Inv (add_posted (record s { posted = posted }))
    by_posted [] i = i
    by_posted (c ∷ rest) i =
        let good = reached-IsGood i.members in
        let id = s.node.secondary_id_counter in
        let free = next_free i in
        record {
          policy = i.policy;
          counted =
              same-IsCounted i.counted (taken_occurs s.acceptor.accepting id c rest s.guards free) (
                omega (
                  arith,
                  i.counted.few,
                  length_three (of_option s.acceptor.accepting) (c ∷ rest) (values s.guards),
                  length_three (of_option s.acceptor.accepting) rest
                      (values (assign id c s.guards)),
                  length-assign id c s.guards free,
                ));
          unique = assign-UniqueKeys id c s.guards i.unique;
          keys = λ j. ground (
            arith,
            i.keys j,
            find-assign j id c s.guards,
            find-assign j id (create_node id) s.node.secondaries,
          );
          known = i.known + 1;
          gone = i.gone;
          members = Members.connected i.members (omega (arith, good.counted, small));
        }

find-invalidated :
    (j id : ℕ) (m : MasterNode)
    → find j (on_invalidated id m).0.secondaries ≡ (if id == j then none else find j m.secondaries)
unfolding on_invalidated
find-invalidated j id m = elim (Option-cases (find id m.secondaries)) [
  | inl e ↦ rw (e, on_invalidated) (ground (arith, e))
  | inr (x, e) ↦ rw (e, on_invalidated) (find-erase j id m.secondaries)
]

invalidated-Reach :
    {m : MasterNode} {n : ℕ} {gone : List ℕ} (id : ℕ)
    → Members.Reach m n gone
    → (others : List ℕ) × Members.Reach (on_invalidated id m).0 n others
unfolding on_invalidated
invalidated-Reach {m} {n} {gone} id reach = elim (Option-cases (find id m.secondaries)) [
  | inl e ↦ rw (e, on_invalidated) (gone, reach)
  | inr (x, e) ↦
      let good = reached-IsGood reach in
      (id ∷ gone, Members.lost id reach (ground (arith, e, good.absent id)))
]

lost-Inv : {s : Server} (id : ℕ) → Inv s → Inv (on_secondary_invalidated id s)
unfolding on_secondary_invalidated
lost-Inv {s} id i =
    let (others, reach) = invalidated-Reach id i.members in
    let c = dropped-Counts s.acceptor s.posted s.guards id i.policy i.unique i.counted in
    record {
      policy = c.0;
      counted = c.1;
      unique = erase-UniqueKeys id s.guards i.unique;
      keys = λ j. ground (arith, i.keys j, find-erase j id s.guards, find-invalidated j id s.node);
      known = i.known;
      gone = others;
      members = reach;
    }

ready-Inv :
    {s : Server} (id : ℕ) (name : Bytes)
    → Inv s
    → Inv (record s { node = (on_incoming_secondary_node_ready id name s.node).0 })
unfolding on_incoming_secondary_node_ready
ready-Inv {s} id name i = record {
  policy = i.policy;
  counted = i.counted;
  unique = i.unique;
  keys = λ j. i.keys j ∙ sym (same_keys j);
  known = i.known;
  gone = i.gone;
  members = Members.ready id name i.members;
}
  where
    same_keys :
        (j : ℕ)
        → is_some (find j (on_incoming_secondary_node_ready id name s.node).0.secondaries)
          ≡ is_some (find j s.node.secondaries)
    same_keys j = elim (Option-cases (find id s.node.secondaries)) [
      | inl e ↦ rw (e, on_incoming_secondary_node_ready) refl
      | inr (x, e) ↦
          rw (e, on_incoming_secondary_node_ready)
            (ground (
              arith,
              e,
              find-assign j id (set_operational (set_friendly_name name x)) s.node.secondaries,
            ))
    ]

begin-Inv :
    (reserve_throws can_listen : ℕ → Bool) (args : CmdArgs) (s : Server)
    → set_up reserve_throws can_listen args ≡ returned s
    → Inv s
unfolding SocketAcceptor.run accept_one find
begin-Inv reserve_throws can_listen args s e =
    let (a, node_created, p, g) = set_up-begun reserve_throws can_listen args s e in
    let n = (IoContextPool.construct args.comm_workers).size in
    let v =
      threads-IsCounted (IoContextPool.construct args.comm_workers) [] n n
        (created-IsCounted args.comm_workers) in
    record {
      policy = sym (ap (λ (x : Acceptor). x.policy) a);
      counted = rw (← a, ← p, ← g) (acquired-IsCounted v (omega arith));
      unique = rw (← g) tt;
      keys = λ j. rw (← g, ← node_created) refl;
      known = 0;
      gone = [];
      members = rw (← node_created) Members.begin;
    }

pub reached-Inv : {calm : Bool} {s : Server} → Reach calm s → Inv s
reached-Inv (begin reserve_throws can_listen args s e) =
    begin-Inv reserve_throws can_listen args s e
reached-Inv (accepted before small) = socket-Inv false (reached-Inv before) (λ e. small)
reached-Inv (failed wild before) = socket-Inv true (reached-Inv before) (λ e. cc)
reached-Inv (added before small) = added-Inv (reached-Inv before) small
reached-Inv (lost id wild before) = lost-Inv id (reached-Inv before)
reached-Inv (ready id name before) = ready-Inv id name (reached-Inv before)

-- What the pool and the node of a server know of its secondaries.
pub record IsShared (s : Server) : Type 0 where
  pub some_context : 0 < s.acceptor.pool.size
  pub loads :
      (c : ℕ)
      → c < s.acceptor.pool.size
      → get_elem? s.acceptor.pool.load c ≡ some (occurs c (guards_of s))
  pub held : (id : ℕ) → (find id s.guards ≡ none) ↔ (find id s.node.secondaries ≡ none)

is_some_both :
    {A B : Type 0} (x : Option A) (y : Option B) → is_some x ≡ is_some y → (x ≡ none) ↔ (y ≡ none)
is_some_both x y e = (λ f. ground (arith, e, f), λ f. ground (arith, e, f))

-- Of a server with any number of internal communication threads, while fewer than 2^64 secondaries
-- connect and fewer than 2^64 - 1 guards are alive: whatever sockets are accepted, fail to be, and are
-- lost, the load of each context of its pool is the number of secondaries that run on it, of sockets
-- on their way to the node, and of the accept that waits; and exactly the secondaries that the node
-- knows hold a guard.
pub reached-IsShared : {calm : Bool} {s : Server} → Reach calm s → IsShared s
reached-IsShared reach =
    let i = reached-Inv reach in
    record {
      some_context = i.counted.some_context;
      loads = i.counted.counted;
      held = λ id. is_some_both _ _ (i.keys id);
    }
