-- ===== src/Tests/Storages.antt =====
-- The two storages: three messages, delivered late, twice and out of order.
use distributed_systems_hw.Base.{
  ℕ, ◌+◌, ◌≤◌, ◌≡◌, refl, List, [], ◌∷◌, none, arith, take, drop, Bytes,
}
use distributed_systems_hw.Base.Maps.{Map, find, insert, erase}
use distributed_systems_hw.Scan.{chunk_loop}
use distributed_systems_hw.Master.Storage.{
  empty as master_empty, get_contiguous_chunk as master_chunk,
}
use distributed_systems_hw.Master.Storage.{fetch_id, store_message}
use distributed_systems_hw.Master.Storage.Log.{IsLog, Appends, add_message-Appends, chunk-eq-drop}
use distributed_systems_hw.Master.Storage.Writers.{
  Writers, fetch, store, Reach, start, later, Reach-IsLog, chunk-take,
}
use distributed_systems_hw.Secondary.Storage.{
  Storage, empty, get_contiguous_chunk, add_messages, get_first_gap,
}
use distributed_systems_hw.Secondary.Storage.Replica.{From, deliver, delivery_order, chunk-From}
use distributed_systems_hw.Secondary.Storage.CatchUp.{catch_up}

abbrev hi : Bytes
hi = 104 ∷ 105 ∷ []

abbrev ok : Bytes
ok = 111 ∷ 107 ∷ []

abbrev yo : Bytes
yo = 121 ∷ 111 ∷ []

abbrev log : List Bytes
log = hi ∷ ok ∷ yo ∷ []

-- Two calls of addMessage, after both have an id, and after the second has stored its message.
abbrev both_fetched : Writers
both_fetched = record {
  storage = (fetch_id (fetch_id master_empty).1).1;
  in_flight = insert 1 ok (insert 0 hi []);
  log = hi ∷ ok ∷ [];
}

abbrev second_stored : Writers
second_stored = record {
  storage = (store_message 1 ok both_fetched.storage).1;
  in_flight = erase 1 both_fetched.in_flight;
  log = hi ∷ ok ∷ [];
}

abbrev both_stored : Writers
both_stored = record {
  storage = (store_message 0 hi second_stored.storage).1;
  in_flight = erase 0 second_stored.in_flight;
  log = hi ∷ ok ∷ [];
}

both_fetched-Reach : Reach both_fetched
unfolding fetch_id
both_fetched-Reach = later (later start (fetch hi)) (fetch ok)

second_stored-Reach : Reach second_stored
unfolding find insert
second_stored-Reach = later both_fetched-Reach (store 1 ok refl)

both_stored-Reach : Reach both_stored
unfolding find insert erase
both_stored-Reach = later second_stored-Reach (store 0 hi refl)

Reach-IsLog_example : IsLog both_stored.storage (hi ∷ ok ∷ [])
unfolding insert erase
Reach-IsLog_example = Reach-IsLog both_stored-Reach (omega arith) refl

-- With the first message still on its way, a scan from 0 sees nothing.
chunk-take_example :
    (n : ℕ) × (master_chunk second_stored.storage 0 ≡ take n (drop 0 (hi ∷ ok ∷ [])))
    × (find (0 + n) second_stored.storage.messages ≡ none)
chunk-take_example = chunk-take 0 second_stored-Reach (omega arith)

hidden_by_gap : master_chunk second_stored.storage 0 ≡ []
unfolding master_chunk chunk_loop find insert store_message fetch_id
hidden_by_gap = refl

both_stored-IsLog : IsLog both_stored.storage (hi ∷ ok ∷ [])
unfolding insert erase
both_stored-IsLog = Reach-IsLog both_stored-Reach (omega arith) refl

add_message-Appends_example : Appends both_stored.storage (hi ∷ ok ∷ []) yo
add_message-Appends_example =
    add_message-Appends both_stored.storage (hi ∷ ok ∷ []) yo (omega arith) both_stored-IsLog

chunk-eq-drop_example : master_chunk both_stored.storage 1 ≡ ok ∷ []
chunk-eq-drop_example =
    chunk-eq-drop both_stored.storage (hi ∷ ok ∷ []) 1 (omega arith) both_stored-IsLog

-- Deliveries with a repetition, and the same ids once each in order.
abbrev messy : Map Bytes
messy = (2, yo) ∷ (0, hi) ∷ (2, yo) ∷ (1, ok) ∷ []

abbrev tidy : Map Bytes
tidy = (0, hi) ∷ (1, ok) ∷ (2, yo) ∷ []

messy-From : From log messy
unfolding find
messy-From i v e = ground arith

tidy-From : From log tidy
unfolding find
tidy-From i v e = ground arith

same_ids :
    (i : ℕ)
    → ((find i messy ≡ none) → (find i tidy ≡ none))
      × ((find i tidy ≡ none) → (find i messy ≡ none))
unfolding find
same_ids i = (λ h. ground arith, λ h. ground arith)

delivery_order_example :
    get_contiguous_chunk (deliver messy empty) 0 ≡ get_contiguous_chunk (deliver tidy empty) 0
delivery_order_example =
    delivery_order log messy tidy 0 messy-From tidy-From same_ids (omega arith) (omega arith)

-- A secondary that has message 2 and not message 1.
abbrev gappy : Storage
gappy = record { messages = (2, yo) ∷ (0, hi) ∷ [] }

gappy-From : From log gappy.messages
unfolding find
gappy-From i v e = ground arith

chunk-From_example : (n : ℕ) × (get_contiguous_chunk gappy 0 ≡ take n (drop 0 log))
chunk-From_example = chunk-From log gappy 0 gappy-From (omega arith)

-- The master answers when it has two of its three messages.
catch_up_example :
    (n : ℕ) × (2 ≤ n)
    × (get_contiguous_chunk
          (add_messages (get_first_gap gappy) (drop (get_first_gap gappy) (hi ∷ ok ∷ [])) gappy)
          0
        ≡ take n log)
catch_up_example = catch_up (hi ∷ ok ∷ []) (yo ∷ []) gappy gappy-From (omega arith)
