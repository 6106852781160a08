-- ===== src/Master/Storage.antt =====
-- app/master-node/storage: the messages of the master under ids that it hands out.
pub mod Log
pub mod Writers
use distributed_systems_hw.Base.{ℕ, suc, List, [], length, Bytes, next_u64}
use distributed_systems_hw.Base.Maps.{Map, find, insert, get_or}
use distributed_systems_hw.Scan.{chunk_loop}

-- class Storage: nextMessageId_ and messages_.
pub record Storage : Type 0 where
  pub next_message_id : ℕ
  pub messages : Map Bytes

abbrev pub empty : Storage
empty = record { next_message_id = 0; messages = [] }

-- nextMessageId_.fetch_add(1): the first of the two atomic steps of addMessage.
unfoldable pub fetch_id : Storage → ℕ × Storage
fetch_id st = (st.next_message_id, record st { next_message_id = next_u64 st.next_message_id })

-- messages_.insert, the second step. The view is of the entry that is in the map afterwards.
unfoldable pub store_message : ℕ → Bytes → Storage → Bytes × Storage
store_message id message st =
    let view = get_or (find id st.messages) message in
    (view, record st { messages = insert id message st.messages })

-- addMessage, with no other thread between its steps: the id, the view and the new state.
unfoldable pub add_message : Bytes → Storage → ℕ × Bytes × Storage
unfolding fetch_id store_message
add_message message st =
    let (id, counted) = fetch_id st in
    let (view, stored) = store_message id message counted in (id, view, stored)

-- getContiguousChunk
unfoldable pub get_contiguous_chunk : Storage → ℕ → List Bytes
get_contiguous_chunk st start_id = chunk_loop (suc (length st.messages)) st.messages start_id []
