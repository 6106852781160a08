-- ===== src/System/Writing/Written.antt =====
-- What is known of the secondaries that have confirmed a message, step by step.
use distributed_systems_hw.Base.{
  ℕ, ◌<◌, ◌≡◌, refl, ◌∙◌, ◌⊎◌, inl, inr, Option, none, some, List, true, Bytes, ◌==◌, if◌then◌else◌,
  arith, Bool-cases,
}
use distributed_systems_hw.Base.Maps.{Map, get_or, find, insert, assign, find-insert, find-assign}
use distributed_systems_hw.Proto.Codes.{AddMessageStatus, ok, not_allowed}
use distributed_systems_hw.Master.AddMessageRequest.{int_max, contains}
use distributed_systems_hw.Master.AddMessageRequest.Message.{
  start-SameMessage, on_send_done-SameMessage,
}
use distributed_systems_hw.Master.AddMessageRequest.Session as Requests
use distributed_systems_hw.Master.AddMessageRequest.Session.{
  Session, Fits, IsNarrow, opened, answered, woken, note_ack,
}
use distributed_systems_hw.Secondary.Storage as SecondaryStorage
use distributed_systems_hw.Secondary.Storage.{Storage, add_message}
use distributed_systems_hw.Secondary.MasterSession.{on_incoming_add_message}
use distributed_systems_hw.System.Writing.{Cluster, store}

-- What a secondary has stored under an id.
abbrev pub held : ℕ → Option Storage → Option Bytes
held message_id none = none
held message_id (some st) = find message_id st.messages

held-assign :
    (message_id j id : ℕ) (st : Storage) (stores : Map Storage)
    → held message_id (find j (assign id st stores))
      ≡ (if id == j then find message_id st.messages else held message_id (find j stores))
held-assign message_id j id st stores = ground (arith, find-assign j id st stores)

module _ (message_id : ℕ) (message : Bytes) (write_concern : ℕ) where
  pub record IsWritten (c : Cluster) : Type 0 where
    pub reach : Requests.Reach c.session
    pub narrow : IsNarrow reach
    pub same_concern : c.session.request.write_concern ≡ write_concern
    pub same_id : c.session.request.message_id ≡ message_id
    pub same_message : c.session.request.message ≡ message
    pub clean :
        (j : ℕ)
        → (held message_id (find j c.stores) ≡ none)
          ⊎ (held message_id (find j c.stores) ≡ some message)
    pub confirmed :
        (j : ℕ) → contains c.confirmed j ≡ true → held message_id (find j c.stores) ≡ some message
    pub acked :
        (j : ℕ)
        → contains c.session.acked j ≡ true
        → held message_id (find j c.stores) ≡ some message

  module _ {c : Cluster} (w : IsWritten c) where
    pub joined-IsWritten :
        (id : ℕ)
        → find id c.stores ≡ none
        → IsWritten (record c { stores = assign id SecondaryStorage.empty c.stores })
    unfolding find
    joined-IsWritten id e = record {
      reach = w.reach;
      narrow = w.narrow;
      same_concern = w.same_concern;
      same_id = w.same_id;
      same_message = w.same_message;
      clean = λ j. ground (arith, e, at j, w.clean j);
      confirmed = λ j f. ground (arith, e, at j, f, w.confirmed j);
      acked = λ j f. ground (arith, e, at j, f, w.acked j);
    }
      where
        at :
            (j : ℕ)
            → held message_id (find j (assign id SecondaryStorage.empty c.stores))
              ≡ (if id == j then none else held message_id (find j c.stores))
        at j = held-assign message_id j id SecondaryStorage.empty c.stores

    pub other_stored-IsWritten :
        (id k : ℕ) (v : Bytes) (st : Storage)
        → find id c.stores ≡ some st
        → (k ≡ message_id → v ≡ message)
        → IsWritten (record c { stores = assign id (add_message k v st) c.stores })
    unfolding add_message
    other_stored-IsWritten id k v st e h = record {
      reach = w.reach;
      narrow = w.narrow;
      same_concern = w.same_concern;
      same_id = w.same_id;
      same_message = w.same_message;
      clean = λ j. ground (arith, e, at j, ins, h, w.clean j, w.clean id);
      confirmed = λ j f. ground (arith, e, at j, ins, h, f, w.confirmed j);
      acked = λ j f. ground (arith, e, at j, ins, h, f, w.acked j);
    }
      where
        at :
            (j : ℕ)
            → held message_id (find j (assign id (add_message k v st) c.stores)) ≡ (
                if id == j
                then find message_id (add_message k v st).messages
                else held message_id (find j c.stores))
        at j = held-assign message_id j id (add_message k v st) c.stores

        ins : find message_id (insert k v st.messages) ≡ (
            if k == message_id
            then some (get_or (find message_id st.messages) v)
            else find message_id st.messages)
        ins = find-insert message_id k v st.messages

    pub stored-IsWritten :
        (id promise : ℕ) (st : Storage)
        → find id c.stores ≡ some st
        → IsWritten (store id promise st c)
    unfolding on_incoming_add_message add_message
    stored-IsWritten id promise st e =
        let k = c.session.request.message_id in
        let v = c.session.request.message in
        let other = other_stored-IsWritten id k v st e (λ same. w.same_message) in
        record {
          reach = w.reach;
          narrow = w.narrow;
          same_concern = w.same_concern;
          same_id = w.same_id;
          same_message = w.same_message;
          clean = other.clean;
          confirmed = λ j f. ground (
            arith,
            e,
            f,
            w.same_id,
            w.same_message,
            w.clean id,
            held-assign message_id j id (add_message k v st) c.stores,
            find-insert message_id k v st.messages,
            w.confirmed j,
          );
          acked = other.acked;
        }

    noted :
        (id : ℕ) (response : Option AddMessageStatus)
        → (response ≡ some ok → contains c.confirmed id ≡ true)
        → (j : ℕ) → contains (note_ack id response c.session.acked) j ≡ true
        → held message_id (find j c.stores) ≡ some message
    noted id none backed j f = w.acked j f
    noted id (some not_allowed) backed j f = w.acked j f
    noted id (some ok) backed j f = elim (Bool-cases (id == j)) [
      | inl same ↦ w.confirmed j (ground (arith, same, backed refl))
      | inr other ↦ w.acked j (ground (arith, other, f))
    ]

    pub answer-IsWritten :
        (id : ℕ) (response : Option AddMessageStatus) (snapshot : Option (List ℕ))
        → (contains c.session.outstanding id ≡ true) × (id < int_max)
        → (response ≡ some ok → contains c.confirmed id ≡ true)
        → Fits snapshot
        → IsWritten (record c { session = answered id response snapshot c.session })
    answer-IsWritten id response snapshot out backed b =
        let same = on_send_done-SameMessage id response snapshot c.session.request in
        record {
          reach = Requests.answer id response snapshot w.reach out.0 b.0;
          narrow = (out.1, b.1, w.narrow);
          same_concern = same.concern ∙ w.same_concern;
          same_id = same.id ∙ w.same_id;
          same_message = same.message ∙ w.same_message;
          clean = w.clean;
          confirmed = w.confirmed;
          acked = λ j f. noted id response backed j f;
        }

    pub wake-IsWritten :
        (snapshot : Option (List ℕ))
        → 0 < c.session.waiting
        → Fits snapshot
        → IsWritten (record c { session = woken snapshot c.session })
    wake-IsWritten snapshot out b =
        let same = start-SameMessage snapshot c.session.request in
        record {
          reach = Requests.wake snapshot w.reach out b.0;
          narrow = (b.1, w.narrow);
          same_concern = same.concern ∙ w.same_concern;
          same_id = same.id ∙ w.same_id;
          same_message = same.message ∙ w.same_message;
          clean = w.clean;
          confirmed = w.confirmed;
          acked = w.acked;
        }
