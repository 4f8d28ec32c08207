-- ===== src/Platform/Outbox/Sequence.antt =====
-- platform/src/events/outbox.ts: the order in which the events of an aggregate reach the broker.
use foc_app.Common.{
  ℕ, ◌<◌, Bool, true, false, List, [], ◌∷◌, ◌==◌, any, is_some, update_where, All, Pairwise, ◌≡◌,
  ◌≢◌, ◌⊎◌, inl, inr, refl, arith, All-implies, Pairwise-both, update_where-All,
  update_where-Pairwise, Bool-cases,
}
use foc_app.Platform.Outbox.{
  OutboxRow, Outbox, Answer, confirmed, unroutable, failed, FailureReason, unroutable_event, Claim,
  Relay, published_row, failed_row, update_row, publish, retry_in_ms, reached_broker, settle,
  publish_each,
}

-- The event of this id has reached the broker.
abbrev pub was_sent : List ℕ → ℕ → Bool
was_sent sent id = any (λ x. x == id) sent

-- If the later event has reached the broker, the earlier one of its aggregate was confirmed before.
abbrev pub InTurn : List ℕ → OutboxRow → OutboxRow → Type 0
InTurn sent e o =
    e.aggregate_id ≡ o.aggregate_id → was_sent sent o.id ≡ true → is_some e.published_at ≡ true

abbrev pub Apart : OutboxRow → OutboxRow → Type 0
Apart e o = (e.id ≢ o.id) × (e.seq < o.seq)

pub record OutboxValid (o : Outbox) : Type 0 where
  pub apart : Pairwise Apart o.rows
  pub below : All (λ (r : OutboxRow). r.seq < o.next_seq) o.rows
  pub in_turn : Pairwise (InTurn o.sent) o.rows
  pub delivered :
      All (λ (r : OutboxRow). is_some r.published_at ≡ true → was_sent o.sent r.id ≡ true) o.rows

-- All rows before the one of this id, in its aggregate, are published.
abbrev pub Ready : ℕ → List OutboxRow → Type 0
Ready id rows =
    Pairwise
      (λ (e o : OutboxRow).
        o.id ≡ id → e.aggregate_id ≡ o.aggregate_id → is_some e.published_at ≡ true)
      rows

-- A change of a row that keeps its place and does not take it back.
abbrev pub Advances : OutboxRow → OutboxRow → Type 0
Advances r r' =
    (r'.id ≡ r.id)
    × (r'.seq ≡ r.seq)
    × (r'.aggregate_id ≡ r.aggregate_id)
    × (is_some r.published_at ≡ true → is_some r'.published_at ≡ true)

abbrev pub has_id : ℕ → OutboxRow → Bool
has_id id r = r.id == id

module _ (id : ℕ) (f : OutboxRow → OutboxRow) (step : (r : OutboxRow) → Advances r (f r)) where
  update-Ready :
      (i : ℕ) (rows : List OutboxRow) → Ready i rows → Ready i (update_where (has_id id) f rows)
  update-Ready i rows v =
      update_where-Pairwise _ (has_id id) f (λ e o t. ground (arith, step e, step o)) rows v

  -- An update that publishes no row but one that was sent keeps the table valid.
  update-OutboxValid :
      (o : Outbox)
      → ((r : OutboxRow)
          → r.id ≡ id
          → is_some (f r).published_at ≡ true
          → (is_some r.published_at ≡ true) ⊎ (was_sent o.sent id ≡ true))
      → OutboxValid o
      → OutboxValid (update_row id f o)
  update-OutboxValid o sent v = record {
    apart =
        update_where-Pairwise Apart (has_id id) f (λ e o a. ground (arith, step e, step o)) o.rows
          v.apart;
    below =
        update_where-All (λ (r : OutboxRow). r.seq < o.next_seq)
          (λ (r : OutboxRow). r.seq < o.next_seq) (has_id id) f (λ r l. ground (arith, step r))
          o.rows v.below;
    in_turn =
        update_where-Pairwise (InTurn o.sent) (has_id id) f
          (λ e o t. ground (arith, step e, step o)) o.rows v.in_turn;
    delivered =
        update_where-All
          (λ (r : OutboxRow). is_some r.published_at ≡ true → was_sent o.sent r.id ≡ true)
          (λ (r : OutboxRow). is_some r.published_at ≡ true → was_sent o.sent r.id ≡ true)
          (has_id id) f (λ r h. ground (arith, step r, sent r)) o.rows v.delivered;
  }

pub InTurn-next :
    (id : ℕ) (sent : List ℕ) (e o : OutboxRow)
    → (o.id ≡ id → e.aggregate_id ≡ o.aggregate_id → is_some e.published_at ≡ true)
    → InTurn sent e o
    → InTurn (id ∷ sent) e o
InTurn-next id sent e o r t same k = ground arith

-- What is ready may be sent.
sent-OutboxValid :
    (reached : Bool) (id : ℕ) (o : Outbox)
    → Ready id o.rows
    → OutboxValid o
    → OutboxValid (reached_broker reached id o)
sent-OutboxValid false id o ready v = v
sent-OutboxValid true id o ready v = record {
  apart = v.apart;
  below = v.below;
  in_turn =
      Pairwise-both _ (InTurn o.sent) (InTurn (id ∷ o.sent)) (InTurn-next id o.sent) o.rows ready
        v.in_turn;
  delivered =
      All-implies (λ (r : OutboxRow). is_some r.published_at ≡ true → was_sent o.sent r.id ≡ true)
        (λ (r : OutboxRow). is_some r.published_at ≡ true → was_sent (id ∷ o.sent) r.id ≡ true)
        (λ r h. ground arith) o.rows v.delivered;
}

pub sent_rows : (reached : Bool) (id : ℕ) (o : Outbox) → (reached_broker reached id o).rows ≡ o.rows
sent_rows false id o = refl
sent_rows true id o = refl

failed-Advances :
    (now ms : ℕ) (why : FailureReason) (r : OutboxRow) → Advances r (failed_row now ms why r)
failed-Advances now ms why r = (refl, refl, refl, λ e. e)

published-Advances : (now : ℕ) (r : OutboxRow) → Advances r (published_row now r)
published-Advances now r = (refl, refl, refl, λ e. refl)

-- A failure leaves its row unpublished.
failed-OutboxValid :
    (now ms id : ℕ) (why : FailureReason) (o : Outbox)
    → OutboxValid o
    → OutboxValid (update_row id (failed_row now ms why) o)
failed-OutboxValid now ms id why o v =
    update-OutboxValid id (failed_row now ms why) (failed-Advances now ms why) o (λ r e h. inl h) v

-- A published row has reached the broker.
published-OutboxValid :
    (now id : ℕ) (o : Outbox)
    → was_sent o.sent id ≡ true
    → OutboxValid o
    → OutboxValid (update_row id (published_row now) o)
published-OutboxValid now id o sent v =
    update-OutboxValid id (published_row now) (published-Advances now) o (λ r e h. inr sent) v

module _ (k : Relay) (now : ℕ) where
  settle-OutboxValid :
      (r : OutboxRow) (a : Answer) (c : Claim)
      → Ready r.id c.outbox.rows
      → OutboxValid c.outbox
      → OutboxValid (settle k now r a c).outbox
  settle-OutboxValid r confirmed c ready v =
      published-OutboxValid now r.id (reached_broker true r.id c.outbox) (ground arith)
        (sent-OutboxValid true r.id c.outbox ready v)
  settle-OutboxValid r unroutable c ready v =
      failed-OutboxValid now (retry_in_ms k r) r.id unroutable_event c.outbox v
  settle-OutboxValid r (failed reached why) c ready v =
      failed-OutboxValid now (retry_in_ms k r) r.id why (reached_broker reached r.id c.outbox)
        (sent-OutboxValid reached r.id c.outbox ready v)

  settle-Ready :
      (id : ℕ) (r : OutboxRow) (a : Answer) (c : Claim)
      → Ready id c.outbox.rows
      → Ready id (settle k now r a c).outbox.rows
  settle-Ready id r confirmed c h =
      update-Ready r.id (published_row now) (published-Advances now) id c.outbox.rows h
  settle-Ready id r unroutable c h =
      update-Ready r.id (failed_row now (retry_in_ms k r) unroutable_event)
        (failed-Advances now (retry_in_ms k r) unroutable_event) id c.outbox.rows h
  settle-Ready id r (failed reached why) c h = rw (sent_rows reached r.id c.outbox) (
      update-Ready r.id (failed_row now (retry_in_ms k r) why)
        (failed-Advances now (retry_in_ms k r) why) id c.outbox.rows h)

  pub publish_each-OutboxValid :
      (rs : List OutboxRow) (c : Claim)
      → All (λ (r : OutboxRow). Ready r.id c.outbox.rows) rs
      → OutboxValid c.outbox
      → OutboxValid (publish_each k now rs c).outbox
  unfolding publish_each
  publish_each-OutboxValid [] c ready v = v
  publish_each-OutboxValid (r ∷ rs) c ready v =
      elim (Bool-cases (settle k now r (publish k now r) c).halted) [
        | inl t ↦ rw t (settle-OutboxValid r (publish k now r) c ready.0 v)
        | inr f ↦ rw f (
            publish_each-OutboxValid rs (settle k now r (publish k now r) c)
              (All-implies _ _ (λ s. settle-Ready s.id r (publish k now r) c) rs ready.1)
              (settle-OutboxValid r (publish k now r) c ready.0 v))
      ]
