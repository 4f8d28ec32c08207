-- ===== src/Platform/Examples.antt =====
-- platform/src/events/outbox.ts: two events of one aggregate and one of another.
mod Consuming
use foc_app.Common.{ℕ, ◌+◌, ◌≡◌, true, false, none, some, List, [], ◌∷◌, All, refl, arith}
use foc_app.Platform.Outbox.{
  OutboxRow, NewOutboxEvent, Outbox, Relay, Surroundings, confirmed, not_confirmed, failed,
  claim_and_publish, publish_each, tick,
}
use foc_app.Platform.Outbox.Sequence.{OutboxValid}
use foc_app.Platform.Outbox.Histories.{
  Event, adds, claims, loses_claim, perform, run, HaveNewIds, run-OutboxValid,
}
use foc_app.Platform.Outbox.Backlog.{backlog}
use foc_app.Platform.Outbox.Ticks.{tick_ends}
use foc_app.Platform.Outbox.Drained.{GoesOut, tick_drains}

abbrev new_event : (id aggregate_id : ℕ) → NewOutboxEvent
new_event id aggregate_id = record {
  id = some id;
  event_type = 1;
  aggregate_id = aggregate_id;
  payload = 6;
  correlation_id = 2;
  causation_id = none;
  schema_version = none;
}

abbrev row : (id seq aggregate_id : ℕ) → OutboxRow
row id seq aggregate_id = record {
  id = id;
  seq = seq;
  event_type = 1;
  schema_version = 1;
  aggregate_id = aggregate_id;
  payload = 6;
  correlation_id = 2;
  causation_id = none;
  occurred_at = 10;
  published_at = none;
  attempts = 0;
  last_error = none;
  next_attempt_at = 10;
}

abbrev outbox : Outbox
outbox = record { rows = row 21 0 4 ∷ row 22 1 4 ∷ row 23 2 5 ∷ []; next_seq = 3; sent = [] }

outbox-OutboxValid : OutboxValid outbox
outbox-OutboxValid = record {
  apart = ground arith;
  below = ground arith;
  in_turn = ground arith;
  delivered = ground arith;
}

abbrev relay : Relay
relay = record {
  batch_size = 100;
  backoff_ms = 1000;
  max_backoff_ms = 60000;
  parse = λ event_type payload. some payload;
  has_schema = λ event_type. true;
  publish_message = λ now message. confirmed;
}

-- A broker that got every message and confirmed none.
abbrev silent : Relay
silent = record relay { publish_message = λ now message. failed true (not_confirmed 1) }

abbrev surroundings : Surroundings
surroundings = record {
  clock = λ round. 100;
  locked = λ round id. false;
  stopping = λ round. false;
}

abbrev events : List Event
events = loses_claim 20 (λ id. false) ∷ adds 30 99 (new_event 24 4) ∷ claims 40 (λ id. false) ∷ []

events-HaveNewIds : HaveNewIds silent events outbox
unfolding HaveNewIds perform claim_and_publish publish_each
events-HaveNewIds = (tt, (refl, (tt, tt)))

run-OutboxValid_example : OutboxValid (run silent events outbox)
run-OutboxValid_example = run-OutboxValid silent events outbox outbox-OutboxValid events-HaveNewIds

tick_ends_example :
    (n : ℕ) × (o' : Outbox) × (tick silent surroundings 4 0 0 outbox ≡ some (n, o'))
    × (backlog o'.rows + n ≡ 3)
tick_ends_example = tick_ends silent surroundings 4 0 0 outbox outbox-OutboxValid (omega arith)

all-GoesOut : All (GoesOut relay surroundings) outbox.rows
all-GoesOut = (out 21 0 4, (out 22 1 4, (out 23 2 5, tt)))
  where
    out : (id seq aggregate_id : ℕ) → GoesOut relay surroundings (row id seq aggregate_id)
    out id seq aggregate_id = record {
      due = λ round. refl;
      free = λ round. refl;
      confirmed = λ round. refl;
    }

tick_drains_example :
    (o' : Outbox) × (tick relay surroundings 4 0 0 outbox ≡ some (3, o')) × (backlog o'.rows ≡ 0)
tick_drains_example =
    tick_drains relay surroundings (omega arith) 4 0 0 outbox outbox-OutboxValid all-GoesOut
      (λ round. refl) (omega arith)
