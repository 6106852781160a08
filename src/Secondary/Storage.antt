-- ===== src/Secondary/Storage.antt =====
-- app/secondary-node/storage: the messages that a secondary has received, under the master's ids.
pub mod Replica
pub mod CatchUp
pub mod Answers
use distributed_systems_hw.Base.{ℕ, zero, suc, ◌+◌, ◌%◌, List, [], ◌∷◌, length, Bytes, u64_mod}
use distributed_systems_hw.Base.Maps.{Map, insert}
use distributed_systems_hw.Scan.{chunk_loop, gap_loop}

-- class Storage: messages_.
pub record Storage : Type 0 where
  pub messages : Map Bytes

abbrev pub empty : Storage
empty = record { messages = [] }

-- addMessage: a message whose id is there already is only reported in the log.
unfoldable pub add_message : ℕ → Bytes → Storage → Storage
add_message id message st = record st { messages = insert id message st.messages }

-- The loop of addMessages, at its index i.
unfoldable pub add_messages_loop : ℕ → ℕ → List Bytes → Storage → Storage
add_messages_loop start_id i [] st = st
add_messages_loop start_id i (message ∷ rest) st =
    add_messages_loop start_id (i + 1) rest (add_message ((start_id + i) % u64_mod) message st)

-- addMessages
unfoldable pub add_messages : ℕ → List Bytes → Storage → Storage
unfolding add_messages_loop
add_messages start_id messages st = add_messages_loop start_id 0 messages st

-- getFirstGap
unfoldable pub get_first_gap : Storage → ℕ
get_first_gap st = gap_loop (suc (length st.messages)) st.messages 0

-- getContiguousChunk
unfoldable pub get_contiguous_chunk : Storage → ℕ → List Bytes
get_contiguous_chunk st start_id = chunk_loop (suc (length st.messages)) st.messages start_id []
