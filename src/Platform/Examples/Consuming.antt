-- ===== src/Platform/Examples/Consuming.antt =====
-- platform/src/events/consumer.ts: a queue with two retry delays, a message of another service, and one
-- that names no publisher.
use foc_app.Common.{ℕ, ◌+◌, ◌≤◌, ◌≡◌, true, false, Option, none, some, [], ◌∷◌, length, refl, arith}
use foc_app.Platform.Consumer.{
  Delivery, BrokerConnection, SubscribeOptions, Envelope, HandlerError, other_error, rejected_as,
  untrusted_sender, exhausted, dead_lettered, Handled, attempt_of, sender_of, resend, redrive,
  marked, check, accepted, rejected, journey,
}
use foc_app.Platform.Consumer.Senders.{redriven_sender}
use foc_app.Platform.Consumer.Journey.{is_final}
use foc_app.Platform.Consumer.Attempts.{journey_settles}
use foc_app.Platform.Consumer.Exhausted.{tries, always_failing}

-- Account 5, trusting account 8.
abbrev broker : BrokerConnection
broker = record {
  namespace = 5;
  account = some 5;
  retry_delays_ms = 1000 ∷ 5000 ∷ [];
  subscriptions = record { queue = 30; exclusive = false; auto_delete = false } ∷ [];
}

abbrev envelope : Envelope
envelope = record {
  event_id = 1;
  event_type = 2;
  schema_version = 1;
  aggregate_id = 3;
  producer = 8;
  correlation_id = 4;
  payload = 6;
}

abbrev options : SubscribeOptions
options = record {
  queue = 30;
  event_types = 2 ∷ [];
  expected_producer = some (8 ∷ []);
  supported_versions = 1 ∷ [];
  parse_outer = λ content. some envelope;
  parse_payload = λ payload. some payload;
}

abbrev delivery : Delivery
delivery = record {
  content = 70;
  user_id = some 8;
  headers = record { attempt = none; failure = none; original_queue = none; sender = none };
}

-- It says in its own header that account 8 sent it.
abbrev unnamed : Delivery
unnamed = record delivery {
  user_id = none;
  headers = record { attempt = none; failure = none; original_queue = none; sender = some 8 };
}

abbrev failing : Envelope → ℕ → Option HandlerError
failing e n = some (other_error n)

delivery_accepted : check broker options delivery ≡ accepted envelope
unfolding check sender_of
delivery_accepted = refl

unnamed_rejected : check broker options unnamed ≡ rejected untrusted_sender
unfolding check sender_of
unnamed_rejected = refl

-- Set aside and redriven, the refused message is accepted.
unnamed_redriven :
    check broker options
      (redrive (resend (marked options (rejected_as untrusted_sender) 1 unnamed) (some 5)) (some 5))
    ≡ accepted envelope
unfolding check sender_of resend redrive
unnamed_redriven = refl

redriven_sender_example :
    ((u : ℕ)
      → unnamed.user_id ≡ some u
      → sender_of
          (redrive
            (resend (marked options (rejected_as untrusted_sender) 1 unnamed) (some 5))
            (some 5))
          (some 5)
        ≡ sender_of unnamed (some 5))
    × (unnamed.user_id ≡ none
        → (sender_of unnamed (some 5) ≡ none)
          × (sender_of
                (redrive
                  (resend (marked options (rejected_as untrusted_sender) 1 unnamed) (some 5))
                  (some 5))
                (some 5)
              ≡ some 8))
redriven_sender_example = redriven_sender options (rejected_as untrusted_sender) 1 5 unnamed

journey_settles_example :
    (h : Handled) × (journey broker options failing 3 delivery ≡ some h)
    × (is_final h.settlement ≡ true)
    × (length h.calls + 1 ≤ 4)
journey_settles_example =
    journey_settles broker options failing 3 delivery (omega arith) (omega arith) (omega arith)

always_failing_example :
    (h : Handled) × (journey broker options failing 3 delivery ≡ some h)
    × ((n : ℕ) × (n + 1 ≡ 4) × (h.calls ≡ tries envelope 1 n))
    × ((d' : Delivery) × (h.settlement ≡ dead_lettered exhausted d') × (attempt_of d' ≡ 3))
always_failing_example =
    always_failing broker options failing 3 delivery envelope delivery_accepted refl
      (λ n. (other_error n, refl, refl)) (omega arith) (omega arith) (omega arith)
