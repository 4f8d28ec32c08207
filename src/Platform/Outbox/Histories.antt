-- ===== src/Platform/Outbox/Histories.antt =====
-- platform/src/events/outbox.ts: the outbox after any insertions and claims, also claims whose
-- transaction is lost after some of its messages reached the broker.
use foc_app.Common.{
  ℕ, ◌+◌, ◌<◌, Bool, true, false, Option, none, some, List, [], ◌∷◌, ◌==◌, any, is_some, All, ◌≡◌,
  inl, inr, refl, arith, All-implies, All-append, Pairwise-append, any-none, Bool-cases,
}
use foc_app.Platform.Outbox.{
  OutboxRow, NewOutboxEvent, Outbox, Relay, claim_rows, claim_and_publish, insert_outbox_event,
  insert_parsed, insert_row, to_outbox_row, or_else,
}
use foc_app.Platform.Outbox.Sequence.{was_sent, InTurn, Apart, OutboxValid}
use foc_app.Platform.Outbox.Claims.{claim_rows-Ready, claim-OutboxValid, publish_each-Lost}

-- What happens to an outbox: a change writes an event, or its transaction fails; a claim commits;
-- or a claim is lost, and only what it sent remains.
pub data Event : Type 0 where
  adds : (now random_id : ℕ) → NewOutboxEvent → Event
  claims : (now : ℕ) → (locked : ℕ → Bool) → Event
  loses_claim : (now : ℕ) → (locked : ℕ → Bool) → Event

abbrev committed : Outbox → Option Outbox → Outbox
committed o none = o
committed o (some o') = o'

unfoldable pub perform : Relay → Event → Outbox → Outbox
perform k (adds now random_id e) o = committed o (insert_outbox_event k now random_id e o)
perform k (claims now locked) o = (claim_and_publish k now locked o).outbox
perform k (loses_claim now locked) o = record o {
  sent = (claim_and_publish k now locked o).outbox.sent;
}

unfoldable pub run : Relay → List Event → Outbox → Outbox
run k [] o = o
run k (x ∷ xs) o = run k xs (perform k x o)

abbrev IsNew : List ℕ → Option ℕ → ℕ → Type 0
IsNew sent none random_id = was_sent sent random_id ≡ false
IsNew sent (some id) random_id = was_sent sent id ≡ false

-- No event was sent under the id of a new one.
abbrev pub HasNewId : Event → Outbox → Type 0
HasNewId (adds now random_id e) o = IsNew o.sent e.id random_id
HasNewId (claims now locked) o = Unit
HasNewId (loses_claim now locked) o = Unit

unfoldable pub HaveNewIds : Relay → List Event → Outbox → Type 0
HaveNewIds k [] o = Unit
HaveNewIds k (x ∷ xs) o = HasNewId x o × HaveNewIds k xs (perform k x o)

inserted-OutboxValid :
    (new : OutboxRow) (o : Outbox)
    → OutboxValid o
    → new.seq ≡ o.next_seq
    → new.published_at ≡ none
    → was_sent o.sent new.id ≡ false
    → OutboxValid (committed o (insert_row new o))
inserted-OutboxValid new o v seq fresh unsent =
    elim (Bool-cases (any (λ (r : OutboxRow). r.id == new.id) o.rows)) [
      | inl t ↦ rw t v
      | inr f ↦ rw f (record {
        apart =
            Pairwise-append Apart o.rows new v.apart (apart o.rows (any-none _ o.rows f) v.below);
        below =
            All-append (λ (r : OutboxRow). r.seq < o.next_seq + 1) o.rows new
              (All-implies _ _ (λ r l. omega arith) o.rows v.below) (ground arith);
        in_turn = Pairwise-append (InTurn o.sent) o.rows new v.in_turn (
            All-implies _ (λ (r : OutboxRow). InTurn o.sent r new)
              (λ r l. λ same sent. absurd (ground arith)) o.rows v.below);
        delivered =
            All-append
              (λ (r : OutboxRow). is_some r.published_at ≡ true → was_sent o.sent r.id ≡ true)
              o.rows new v.delivered (λ e. absurd (ground arith));
      })
    ]
  where
    apart :
        (rows : List OutboxRow)
        → All (λ (r : OutboxRow). (r.id == new.id) ≡ false) rows
        → All (λ (r : OutboxRow). r.seq < o.next_seq) rows
        → All (λ (r : OutboxRow). Apart r new) rows
    apart [] ids seqs = tt
    apart (r ∷ rows) ids seqs = (ground arith, apart rows ids.1 seqs.1)

parsed-OutboxValid :
    (now random_id : ℕ) (e : NewOutboxEvent) (payload : Option ℕ) (o : Outbox)
    → OutboxValid o
    → IsNew o.sent e.id random_id
    → OutboxValid (committed o (insert_parsed now random_id e payload o))
parsed-OutboxValid now random_id e none o v fresh = v
parsed-OutboxValid now random_id e (some payload) o v fresh =
    inserted-OutboxValid (to_outbox_row now random_id o.next_seq payload e) o v refl refl
      (new_id e.id fresh)
  where
    new_id :
        (id : Option ℕ) → IsNew o.sent id random_id → was_sent o.sent (or_else random_id id) ≡ false
    new_id none f = f
    new_id (some id) f = f

perform-OutboxValid :
    (k : Relay) (x : Event) (o : Outbox)
    → OutboxValid o
    → HasNewId x o
    → OutboxValid (perform k x o)
unfolding perform insert_outbox_event claim_and_publish
perform-OutboxValid k (adds now random_id e) o v fresh =
    parsed-OutboxValid now random_id e (k.parse e.event_type e.payload) o v fresh
perform-OutboxValid k (claims now locked) o v fresh = claim-OutboxValid k now locked o v
perform-OutboxValid k (loses_claim now locked) o v fresh =
    let lost =
      publish_each-Lost k now o.rows (claim_rows now locked k.batch_size o)
        (record { published = 0; failures = 0; halted = false; outbox = o })
        (claim_rows-Ready now locked k.batch_size o v)
        (record { in_turn = v.in_turn; delivered = v.delivered }) in
    record { apart = v.apart; below = v.below; in_turn = lost.in_turn; delivered = lost.delivered }

-- However changes write events and instances claim them, also when a claim is lost after its
-- messages were sent: an event that has reached the broker follows only events of its aggregate
-- that the broker had confirmed, and a published event has reached the broker.
pub run-OutboxValid :
    (k : Relay) (xs : List Event) (o : Outbox)
    → OutboxValid o
    → HaveNewIds k xs o
    → OutboxValid (run k xs o)
unfolding run HaveNewIds
run-OutboxValid k [] o v f = v
run-OutboxValid k (x ∷ xs) o v f =
    run-OutboxValid k xs (perform k x o) (perform-OutboxValid k x o v f.0) f.1
