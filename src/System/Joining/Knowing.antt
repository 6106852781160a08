-- ===== src/System/Joining/Knowing.antt =====
-- What a secondary has of the master's messages while it asks for them, and what each event keeps.
use mathlib.Core.List.{append-nil}
use distributed_systems_hw.Base.{
  is_some, ℕ, ◌≤◌, ◌<◌, ◌≡◌, ◌≢◌, refl, sym, ap, ◌∙◌, inl, inr, Bool, true, Option, none, some,
  List, [], ◌∷◌, ◌++◌, arith, length, get_elem?, take, drop, take_all, take-append_left,
  length-append, get_elem?-append_left, get_elem?-below, take-drop_run, Bytes, u64_mod, Bool-cases,
  Option-cases, ◌*◌,
}
use distributed_systems_hw.Base.Maps.{Map, find, insert, find-insert}
use distributed_systems_hw.Master.Storage as MasterStorage
use distributed_systems_hw.Master.Storage.{fetch_id, store_message}
use distributed_systems_hw.Master.Storage.Log.{chunk-eq-drop}
use distributed_systems_hw.Master.Storage.Writers as Writers
use distributed_systems_hw.Master.Storage.Writers.{
  Writers, fetch, store, Reach-Inv, Reach-IsLog, chunk-take,
}
use distributed_systems_hw.Secondary.Storage as SecondaryStorage
use distributed_systems_hw.Secondary.Storage.{Storage, add_messages}
use distributed_systems_hw.Secondary.Storage.Replica.{From, gap-eq-length-chunk}
use distributed_systems_hw.Secondary.Storage.CatchUp.{gap-le}
use distributed_systems_hw.Secondary.Storage.Answers.{Holds, IsFilled, answer-IsFilled}
use distributed_systems_hw.System.Joining.{Reply, is_nil}

-- What a step of a writer leaves: a longer log, and what was stored.
pub record Grown (w v : Writers) : Type 0 where
  pub new : List Bytes
  pub log : v.log ≡ w.log ++ new
  pub kept :
      (i : ℕ) (x : Bytes) → find i w.storage.messages ≡ some x → find i v.storage.messages ≡ some x

pub Step-Grown : {w v : Writers} → Writers.Step w v → Grown w v
unfolding fetch_id store_message
Step-Grown {w} (fetch message) = record { new = message ∷ []; log = refl; kept = λ i x e. e }
Step-Grown {w} (store id message e) = record {
  new = [];
  log = sym (append-nil w.log);
  kept = λ i x f. ground (arith, f, find-insert i id message w.storage.messages);
}

pub stored-log :
    {w : Writers}
    → Writers.Reach w
    → length w.log < u64_mod
    → (i : ℕ) (x : Bytes) → find i w.storage.messages ≡ some x
    → get_elem? w.log i ≡ some x
stored-log reach h i x e = ground (arith, e, (Reach-Inv reach).placed h i)

module _ (id : ℕ) where
  -- An answer to a request that starts at `gap` is a run of the log from there on; it goes beyond the
  -- message if that was stored and nothing on its way when it was made.
  pub record IsRun (log : List Bytes) (gap : ℕ) (r : Reply) : Type 0 where
    pub had : ℕ
    pub within : had ≤ length log
    pub run : r.messages ≡ drop gap (take had log)
    pub beyond : r.with_message ≡ true → r.settled ≡ true → id < had

  pub record Knows (log : List Bytes) (messages : Map Bytes) (asked : Option ℕ)
      (reply taken : Option Reply) (confirmed : Bool) : Type 0 where
    pub from : From log messages
    pub asking : (gap : ℕ) → asked ≡ some gap → Holds gap messages
    pub replying : (gap : ℕ) (r : Reply) → asked ≡ some gap → reply ≡ some r → IsRun log gap r
    pub taking :
        (r : Reply)
        → taken ≡ some r
        → r.with_message ≡ true
        → r.settled ≡ true
        → find id messages ≢ none
    pub confirming : confirmed ≡ true → find id messages ≢ none

  module _ {log : List Bytes} {store : Storage} {asked : Option ℕ} {reply taken : Option Reply}
      {confirmed : Bool} (k : Knows log store.messages asked reply taken confirmed) where
    pub grown-Knows :
        (new : List Bytes) → Knows (log ++ new) store.messages asked reply taken confirmed
    grown-Knows new = record {
      from = λ i v e.
          let here = k.from i v e in
          get_elem?-append_left log new i (get_elem?-below log i here) ∙ here;
      asking = k.asking;
      replying = λ gap r e f.
          let run = k.replying gap r e f in
          record {
            had = run.had;
            within = omega (arith, run.within, length-append log new);
            run = run.run ∙ ap (drop gap) (sym (take-append_left run.had log new run.within));
            beyond = run.beyond;
          };
      taking = k.taking;
      confirming = k.confirming;
    }

    pub asked-Knows :
        length store.messages < u64_mod
        → Knows log store.messages
            (some (SecondaryStorage.get_first_gap store))
            none
            taken
            confirmed
    asked-Knows small = record {
      from = k.from;
      asking = λ gap e i h. (gap-eq-length-chunk store small).2 i (ground (arith, e, h));
      replying = λ gap r e f. cc;
      taking = k.taking;
      confirming = k.confirming;
    }

    pub replied-Knows :
        (gap : ℕ) (r : Reply)
        → asked ≡ some gap
        → IsRun log gap r
        → Knows log store.messages asked (some r) taken confirmed
    replied-Knows gap r e run = record {
      from = k.from;
      asking = k.asking;
      replying = λ g q f h.
          let same_gap : gap ≡ g = ground (arith, e, f) in
          let same : r ≡ q = ground (arith, h) in rw (← same_gap, ← same) run;
      taking = k.taking;
      confirming = k.confirming;
    }

    pub took-Knows :
        (gap : ℕ) (r : Reply)
        → asked ≡ some gap
        → reply ≡ some r
        → length log < u64_mod
        → Knows log (add_messages gap r.messages store).messages none none (some r) confirmed
    took-Knows gap r e f small =
        let run = k.replying gap r e f in
        let filled : IsFilled log run.had store.messages
            (add_messages gap r.messages store).messages =
          rw (run.run)
            (answer-IsFilled log run.had gap store k.from (k.asking gap e) run.within small) in
        record {
          from = filled.from;
          asking = λ g h. cc;
          replying = λ g q h l. cc;
          taking = λ q h with_message settled.
              let same : r ≡ q = ground (arith, h) in
              filled.holds id (
                run.beyond (ap (λ (x : Reply). x.with_message) same ∙ with_message)
                  (ap (λ (x : Reply). x.settled) same ∙ settled));
          confirming = λ h. filled.kept id (k.confirming h);
        }

    pub message-Knows :
        (i : ℕ) (v : Bytes)
        → get_elem? log i ≡ some v
        → Knows log (SecondaryStorage.add_message i v store).messages asked reply taken confirmed
    unfolding SecondaryStorage.add_message
    message-Knows i v e = record {
      from = λ j x f. ground (arith, f, e, k.from j x, find-insert j i v store.messages);
      asking = λ gap f j h. kept j (k.asking gap f j h);
      replying = k.replying;
      taking = λ r f g h. kept id (k.taking r f g h);
      confirming = λ h. kept id (k.confirming h);
    }
      where
        kept : (j : ℕ) → find j store.messages ≢ none → find j (insert i v store.messages) ≢ none
        kept j there lost = ground (arith, there, lost, find-insert j i v store.messages)

    pub confirmed-Knows :
        find id store.messages ≢ none → Knows log store.messages asked reply taken true
    confirmed-Knows there = record {
      from = k.from;
      asking = k.asking;
      replying = k.replying;
      taking = k.taking;
      confirming = λ h. there;
    }

  -- What onIncomingGetMessages() makes.
  pub reply-IsRun :
      {w : Writers} (gap : ℕ) (st : Storage)
      → Writers.Reach w
      → From w.log st.messages
      → Holds gap st.messages
      → 2 * length w.log < u64_mod
      → IsRun w.log gap (record {
        messages = MasterStorage.get_contiguous_chunk w.storage gap;
        with_message = is_some (find id w.storage.messages);
        settled = is_nil w.in_flight;
      })
  reply-IsRun {w} gap st reach from held small =
      let within = gap-le [] w.log st from gap held in
      elim (Bool-cases (is_nil w.in_flight)) [
        | inl settled ↦
            let all = Reach-IsLog reach (omega (arith, small)) (nil_of w.in_flight settled) in
            record {
              had = length w.log;
              within = omega arith;
              run =
                  chunk-eq-drop w.storage w.log gap (omega (arith, within)) all
                  ∙ ap (drop gap) (sym (take_all (length w.log) w.log (omega arith)));
              beyond = λ there quiet. placed reach (omega (arith, small)) there;
            }
        | inr busy ↦
            let (n, e, ends) = chunk-take gap reach (omega (arith, within)) in
            let (m, b, f) = take-drop_run n gap w.log within in
            record {
              had = m;
              within = b;
              run = e ∙ f;
              beyond = λ there quiet. absurd (ground (arith, busy, quiet));
            }
      ]
    where
      nil_of : (m : Map Bytes) → is_nil m ≡ true → m ≡ []
      nil_of [] e = refl
      nil_of (x ∷ m) e = cc

      placed :
          {v : Writers}
          → Writers.Reach v
          → length v.log < u64_mod
          → is_some (find id v.storage.messages) ≡ true
          → id < length v.log
      placed {v} r h there = elim (Option-cases (find id v.storage.messages)) [
        | inl lost ↦ absurd (ground (arith, lost, there))
        | inr (x, hit) ↦ get_elem?-below v.log id (stored-log r h id x hit)
      ]
