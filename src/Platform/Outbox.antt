-- ===== src/Platform/Outbox.antt =====
-- platform/src/events/outbox.ts: the transactional outbox and `OutboxRelay`. Identifiers, payloads and
-- times (in milliseconds) are numbers; the rows are in the order of `seq`, which is the order in
-- which they were inserted.
pub mod Sequence
pub mod Claims
pub mod Histories
pub mod Backlog
pub mod Ticks
pub mod Drained
use foc_app.Common.{
  ℕ, zero, suc, ◌+◌, ◌*◌, ◌&&◌, ◌||◌, Bool, true, false, not, Option, none, some, List, [], ◌∷◌,
  ◌++◌, leb, ltb, ◌==◌, find, filter, any, is_some, if◌then◌else◌, update_where,
}

-- Why a publish attempt failed.
pub data FailureReason : Type 0 where
  no_schema payload_invalid unroutable_event : FailureReason
  not_confirmed : ℕ → FailureReason

-- A row of `outbox_events`.
pub record OutboxRow : Type 0 where
  pub id : ℕ
  pub seq : ℕ
  pub event_type : ℕ
  pub schema_version : ℕ
  pub aggregate_id : ℕ
  pub payload : ℕ
  pub correlation_id : ℕ
  pub causation_id : Option ℕ
  pub occurred_at : ℕ
  pub published_at : Option ℕ
  pub attempts : ℕ
  pub last_error : Option FailureReason
  pub next_attempt_at : ℕ

pub record NewOutboxEvent : Type 0 where
  pub id : Option ℕ
  pub event_type : ℕ
  pub aggregate_id : ℕ
  pub payload : ℕ
  pub correlation_id : ℕ
  pub causation_id : Option ℕ
  pub schema_version : Option ℕ

-- What the relay hands to the publisher.
pub record Message : Type 0 where
  pub event_id : ℕ
  pub occurred_at : ℕ
  pub event_type : ℕ
  pub schema_version : ℕ
  pub aggregate_id : ℕ
  pub correlation_id : ℕ
  pub causation_id : Option ℕ
  pub payload : ℕ

-- What comes of a publish: the broker confirmed it, handed it back, or the call failed or timed
-- out, and then the message may have reached the broker all the same.
pub data Answer : Type 0 where
  confirmed : Answer
  unroutable : Answer
  failed : (reached : Bool) → FailureReason → Answer

-- The table, and the ids of the messages that have reached the broker, the latest first.
pub record Outbox : Type 0 where
  pub rows : List OutboxRow
  pub next_seq : ℕ
  pub sent : List ℕ

abbrev pub or_else : ℕ → Option ℕ → ℕ
or_else d none = d
or_else d (some x) = x

-- `toOutboxRow` and the defaults of the columns; `payload` is what the type's schema parsed.
abbrev pub to_outbox_row : (now random_id seq payload : ℕ) → NewOutboxEvent → OutboxRow
to_outbox_row now random_id seq payload e = record {
  id = or_else random_id e.id;
  seq = seq;
  event_type = e.event_type;
  schema_version = or_else 1 e.schema_version;
  aggregate_id = e.aggregate_id;
  payload = payload;
  correlation_id = e.correlation_id;
  causation_id = e.causation_id;
  occurred_at = now;
  published_at = none;
  attempts = 0;
  last_error = none;
  next_attempt_at = now;
}

-- `id` is the primary key.
abbrev pub insert_row : OutboxRow → Outbox → Option Outbox
insert_row new o =
    if any (λ (r : OutboxRow). r.id == new.id) o.rows
    then none
    else some (record o { rows = o.rows ++ new ∷ []; next_seq = o.next_seq + 1 })

abbrev pub insert_parsed : (now random_id : ℕ) → NewOutboxEvent → Option ℕ → Outbox → Option Outbox
insert_parsed now random_id e none o = none
insert_parsed now random_id e (some payload) o =
    insert_row (to_outbox_row now random_id o.next_seq payload e) o

-- The relay's settings, the catalogue of schemas, and the publisher.
pub record Relay : Type 0 where
  pub batch_size : ℕ
  pub backoff_ms : ℕ
  pub max_backoff_ms : ℕ
  pub parse : (event_type payload : ℕ) → Option ℕ
  pub has_schema : (event_type : ℕ) → Bool
  pub publish_message : (now : ℕ) → Message → Answer

-- What one claim has done so far.
pub record Claim : Type 0 where
  pub published : ℕ
  pub failures : ℕ
  pub halted : Bool
  pub outbox : Outbox

abbrev pub is_unpublished : OutboxRow → Bool
is_unpublished r = not (is_some r.published_at)

-- An earlier row of the same aggregate is not published.
abbrev pub holds_back : (o earlier : OutboxRow) → Bool
holds_back o earlier =
    (earlier.aggregate_id == o.aggregate_id) && (is_unpublished earlier && ltb earlier.seq o.seq)

-- The WHERE of `CLAIM_SQL`; `locked` tells the rows that another instance holds.
abbrev pub is_claimable : (now : ℕ) → (locked : ℕ → Bool) → List OutboxRow → OutboxRow → Bool
is_claimable now locked rows o =
    is_unpublished o
    && (leb o.next_attempt_at now && (not (any (holds_back o) rows) && not (locked o.id)))

abbrev pub take {ℓ} : {A : Type ℓ} → ℕ → List A → List A
take zero xs = []
take (suc n) [] = []
take (suc n) (x ∷ xs) = x ∷ take n xs

-- `CLAIM_SQL`
abbrev pub claim_rows : (now : ℕ) → (locked : ℕ → Bool) → (limit : ℕ) → Outbox → List OutboxRow
claim_rows now locked limit o = take limit (filter (is_claimable now locked o.rows) o.rows)

abbrev pub message_of : OutboxRow → Message
message_of r = record {
  event_id = r.id;
  occurred_at = r.occurred_at;
  event_type = r.event_type;
  schema_version = r.schema_version;
  aggregate_id = r.aggregate_id;
  correlation_id = r.correlation_id;
  causation_id = r.causation_id;
  payload = r.payload;
}

abbrev pub power_of_two : ℕ → ℕ
power_of_two zero = 1
power_of_two (suc n) = 2 * power_of_two n

abbrev pub min : ℕ → ℕ → ℕ
min a b = if leb a b then a else b

abbrev pub published_row : (now : ℕ) → OutboxRow → OutboxRow
published_row now r = record r {
  published_at = some now;
  attempts = r.attempts + 1;
  last_error = none;
}

abbrev pub failed_row : (now retry_in_ms : ℕ) → FailureReason → OutboxRow → OutboxRow
failed_row now retry_in_ms why r = record r {
  attempts = r.attempts + 1;
  last_error = some why;
  next_attempt_at = now + retry_in_ms;
}

abbrev pub update_row : (id : ℕ) → (OutboxRow → OutboxRow) → Outbox → Outbox
update_row id f o = record o { rows = update_where (λ (r : OutboxRow). r.id == id) f o.rows }

abbrev pub reached_broker : Bool → ℕ → Outbox → Outbox
reached_broker false id o = o
reached_broker true id o = record o { sent = id ∷ o.sent }

module _ (k : Relay) where
  -- `insertOutboxEvent`: a payload that its schema refuses fails the change.
  unfoldable pub insert_outbox_event : (now random_id : ℕ) → NewOutboxEvent → Outbox → Option Outbox
  insert_outbox_event now random_id e o =
      insert_parsed now random_id e (k.parse e.event_type e.payload) o

  abbrev pub publish_checked : (now : ℕ) → OutboxRow → Option ℕ → Answer
  publish_checked now r none = failed false payload_invalid
  publish_checked now r (some payload) = k.publish_message now (message_of r)

  -- `publish`
  abbrev pub publish : (now : ℕ) → OutboxRow → Answer
  publish now r =
      if k.has_schema r.event_type
      then publish_checked now r (k.parse r.event_type r.payload)
      else failed false no_schema

  -- The delay of `recordFailure`.
  abbrev pub retry_in_ms : OutboxRow → ℕ
  retry_in_ms r = min k.max_backoff_ms (k.backoff_ms * power_of_two r.attempts)

  -- `recordFailure`
  abbrev pub record_failure : (now : ℕ) → OutboxRow → FailureReason → Outbox → Outbox
  record_failure now r why o = update_row r.id (failed_row now (retry_in_ms r) why) o

  -- What the loop of `claimAndPublish` writes for a row, by what came of its publish.
  abbrev pub settle : (now : ℕ) → OutboxRow → Answer → Claim → Claim
  settle now r confirmed c = record c {
    published = c.published + 1;
    outbox = update_row r.id (published_row now) (reached_broker true r.id c.outbox);
  }
  settle now r unroutable c = record c {
    failures = c.failures + 1;
    outbox = record_failure now r unroutable_event c.outbox;
  }
  settle now r (failed reached why) c = record c {
    failures = c.failures + 1;
    halted = true;
    outbox = record_failure now r why (reached_broker reached r.id c.outbox);
  }

  -- The loop of `claimAndPublish`.
  unfoldable pub publish_each : (now : ℕ) → List OutboxRow → Claim → Claim
  publish_each now [] c = c
  publish_each now (r ∷ rs) c =
      let next = settle now r (publish now r) c in
      let rest = publish_each now rs next in if next.halted then next else rest

  -- `claimAndPublish`
  unfoldable pub claim_and_publish : (now : ℕ) → (locked : ℕ → Bool) → Outbox → Claim
  claim_and_publish now locked o =
      publish_each now (claim_rows now locked k.batch_size o)
        (record { published = 0; failures = 0; halted = false; outbox = o })

-- What the relay meets at its n-th claim: the time, the rows other instances hold, and `stop`.
pub record Surroundings : Type 0 where
  pub clock : ℕ → ℕ
  pub locked : (round id : ℕ) → Bool
  pub stopping : ℕ → Bool

module _ (k : Relay) (w : Surroundings) where
  -- `tick`: the number of rows that went out, and the table. `none` is out of fuel.
  unfoldable pub tick : (fuel round total : ℕ) → Outbox → Option (ℕ × Outbox)
  tick zero round total o = none
  tick (suc fuel) round total o =
      let c = claim_and_publish k (w.clock round) (w.locked round) o in
      let rest = tick fuel (round + 1) (total + c.published) c.outbox in
      if w.stopping round
      then some (total, o)
      else (if c.halted || (c.published == 0) then some (total + c.published, c.outbox) else rest)
