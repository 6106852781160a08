-- ===== src/Proto/Request/Objects.antt =====
-- libs/proto/src/request/addmessage.cpp and secondarynodeready.cpp: the requests that own a text, and
-- the calls that move it out. `moved` is what a std::string is left with when another is made from it
-- by a move, which the standard leaves open.
use distributed_systems_hw.Base.{ℕ, ◌≡◌, ◌⊎◌, refl, inl, inr, Option, none, some, Bytes}
use distributed_systems_hw.Proto.Request.{add_message}

-- class AddMessage
pub record AddMessage : Type 0 where
  pub message_id : ℕ
  pub message_owner : Option Bytes
  pub message_view : Bytes

-- create(), and the constructor that fromPayload() calls.
abbrev pub create : ℕ → Bytes → AddMessage
create message_id view = record {
  message_id = message_id;
  message_owner = none;
  message_view = view;
}

abbrev pub create_owning : ℕ → Bytes → AddMessage
create_owning message_id message = record {
  message_id = message_id;
  message_owner = some message;
  message_view = message;
}

module _ (moved : Bytes → Bytes) where
  -- flushMessage()
  unfoldable pub flush_message : AddMessage → Bytes × AddMessage
  flush_message a = elim a.message_owner [
    | none ↦ (a.message_view, record a { message_owner = some (moved a.message_view) })
    | some text ↦ (text, record a { message_owner = some (moved text) })
  ]

  -- flushSecondaryNodeName(): the name, and what the request holds then.
  unfoldable pub flush_secondary_node_name : Bytes → Bytes × Bytes
  flush_secondary_node_name name = (name, moved name)

  -- However it was made, a request gives its text the first time, with the id it was made with, and
  -- what the move has left of it the second time.
  flush_message_lem :
      (message_id : ℕ) (text : Bytes) (a : AddMessage)
      → (a ≡ create message_id text) ⊎ (a ≡ create_owning message_id text)
      → let first = flush_message a in
        (add_message first.1.message_id first.0 ≡ add_message message_id text)
        × ((flush_message first.1).0 ≡ moved text)
  unfolding flush_message
  flush_message_lem message_id text a (inl e) = rw e (refl, refl)
  flush_message_lem message_id text a (inr e) = rw e (refl, refl)
