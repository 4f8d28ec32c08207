-- ===== src/Platform/Consumer.antt =====
-- platform/src/events/consumer.ts, envelope.ts, sender.ts and topology.ts: what `EventConsumer` does with
-- a message. Names, bodies and reasons are numbers. The JSON and zod parsers are parameters, and so
-- is the handler of the service.
pub mod Senders
pub mod Journey
pub mod Attempts
pub mod Exhausted
use foc_app.Common.{
  ℕ, zero, suc, ◌+◌, ◌&&◌, ◌||◌, Bool, true, false, not, Option, none, some, List, [], ◌∷◌, ◌++◌,
  leb, ◌==◌, find, any, length, if◌then◌else◌,
}

-- Why a message is set aside without being handled: `UnparseableMessageError` and its subclasses.
pub data Rejection : Type 0 where
  unparseable unsupported_version untrusted_sender : Rejection

-- What a handler throws.
pub data HandlerError : Type 0 where
  stale_event : HandlerError
  unparseable_message : HandlerError
  predecessor_missing : HandlerError
  other_error : ℕ → HandlerError

-- The `x-foc-failure-reason` header.
pub data Failure : Type 0 where
  rejected_as : Rejection → Failure
  thrown : HandlerError → Failure

-- The headers that the library writes.
pub record Headers : Type 0 where
  pub attempt : Option ℕ
  pub failure : Option Failure
  pub original_queue : Option ℕ
  pub sender : Option ℕ

-- A message as it is delivered. `user_id` is the account that published it, which the broker vouches for.
pub record Delivery : Type 0 where
  pub content : ℕ
  pub user_id : Option ℕ
  pub headers : Headers

pub record Envelope : Type 0 where
  pub event_id : ℕ
  pub event_type : ℕ
  pub schema_version : ℕ
  pub aggregate_id : ℕ
  pub producer : ℕ
  pub correlation_id : ℕ
  pub payload : ℕ

pub record SubscriptionSpec : Type 0 where
  pub queue : ℕ
  pub exclusive : Bool
  pub auto_delete : Bool

pub record SubscribeOptions : Type 0 where
  pub queue : ℕ
  pub event_types : List ℕ
  pub expected_producer : Option (List ℕ)
  pub supported_versions : List ℕ
  pub parse_outer : (content : ℕ) → Option Envelope
  pub parse_payload : (payload : ℕ) → Option ℕ

pub record BrokerConnection : Type 0 where
  pub namespace : ℕ
  pub account : Option ℕ
  pub retry_delays_ms : List ℕ
  pub subscriptions : List SubscriptionSpec

-- `maxAttempts`
abbrev pub max_attempts : BrokerConnection → ℕ
max_attempts b = length b.retry_delays_ms + 1

abbrev pub is_name : ℕ → Option ℕ → Bool
is_name n none = false
is_name n (some m) = m == n

-- `verifiesSenders`
abbrev pub verifies_senders : BrokerConnection → Bool
verifies_senders b = is_name b.namespace b.account

-- `isTransient`
abbrev pub is_transient : SubscriptionSpec → Bool
is_transient s = s.exclusive || s.auto_delete

abbrev spec_is_transient : Option SubscriptionSpec → Bool
spec_is_transient none = false
spec_is_transient (some s) = is_transient s

abbrev pub queue_is_transient : BrokerConnection → ℕ → Bool
queue_is_transient b queue =
    spec_is_transient (find (λ (s : SubscriptionSpec). s.queue == queue) b.subscriptions)

abbrev pub includes : List ℕ → ℕ → Bool
includes xs x = any (λ y. y == x) xs

abbrev pub own_sender : ℕ → Option ℕ → Option ℕ
own_sender user_id none = some user_id
own_sender user_id (some first) = some first

abbrev pub sender_by : (user_id : Option ℕ) (own_account first : Option ℕ) → Option ℕ
sender_by none own_account first = none
sender_by (some user_id) own_account first =
    if is_name user_id own_account then own_sender user_id first else some user_id

-- `senderOf`: the header is believed only on what this service published itself.
unfoldable pub sender_of : Delivery → (own_account : Option ℕ) → Option ℕ
sender_of d own_account = sender_by d.user_id own_account d.headers.sender

abbrev pub kept_sender : Option ℕ → Headers → Headers
kept_sender none h = h
kept_sender (some s) h = record h { sender = some s }

-- `resendProperties`: under this service's own account, keeping who first sent it.
unfoldable pub resend : Delivery → (own_account : Option ℕ) → Delivery
unfolding sender_of
resend d own_account = record d {
  user_id = own_account;
  headers = kept_sender (sender_of d own_account) d.headers;
}

-- `redriveProperties` of dead-letters.ts: published again, with the attempts started again.
unfoldable pub redrive : Delivery → (account : Option ℕ) → Delivery
redrive d account = record (resend d account) {
  headers = record {
    attempt = none;
    failure = none;
    original_queue = none;
    sender = (resend d account).headers.sender;
  };
}

pub data Parsed : Type 0 where
  rejected : Rejection → Parsed
  accepted : Envelope → Parsed

abbrev pub parsed_inner : Envelope → Option ℕ → Parsed
parsed_inner e none = rejected unparseable
parsed_inner e (some payload) = accepted (record e { payload = payload })

abbrev pub parsed_outer : SubscribeOptions → Option Envelope → Parsed
parsed_outer o none = rejected unparseable
parsed_outer o (some e) =
    if not (includes o.supported_versions e.schema_version)
    then rejected unsupported_version
    else parsed_inner e (o.parse_payload e.payload)

-- `parseEnvelope`
abbrev pub parse_envelope : SubscribeOptions → (content : ℕ) → Parsed
parse_envelope o content = parsed_outer o (o.parse_outer content)

abbrev pub trusted_sender : List ℕ → Option ℕ → Bool
trusted_sender expected none = false
trusted_sender expected (some s) = includes expected s

abbrev pub checked_sender : BrokerConnection → List ℕ → Delivery → Envelope → Parsed
checked_sender b expected d e =
    if verifies_senders b && not (trusted_sender expected (sender_of d b.account))
    then rejected untrusted_sender
    else accepted e

abbrev pub checked_producer : BrokerConnection → Option (List ℕ) → Delivery → Envelope → Parsed
checked_producer b none d e = accepted e
checked_producer b (some expected) d e =
    if not (includes expected e.producer)
    then rejected unparseable
    else checked_sender b expected d e

abbrev pub checked_envelope : BrokerConnection → SubscribeOptions → Delivery → Parsed → Parsed
checked_envelope b o d (rejected why) = rejected why
checked_envelope b o d (accepted e) =
    if not (includes o.event_types e.event_type)
    then rejected unparseable
    else checked_producer b o.expected_producer d e

-- The checks of `handle` before the handler is called.
unfoldable pub check : BrokerConnection → SubscribeOptions → Delivery → Parsed
check b o d = checked_envelope b o d (parse_envelope o d.content)

-- Why a message was dead-lettered, as it is counted.
pub data DeadLetterReason : Type 0 where
  rejection : Rejection → DeadLetterReason
  exhausted : DeadLetterReason

-- How a message was settled. What is republished is acknowledged once the broker has confirmed it.
pub data Settlement : Type 0 where
  acknowledged : Settlement
  dropped : Settlement
  dead_lettered : DeadLetterReason → Delivery → Settlement
  retried : (level : ℕ) → Delivery → Settlement

abbrev pub attempt_of : Delivery → ℕ
attempt_of d = number d.headers.attempt
  where
    number : Option ℕ → ℕ
    number none = 1
    number (some n) = n

abbrev pub marked : SubscribeOptions → Failure → (attempt : ℕ) → Delivery → Delivery
marked o why attempt d = record d {
  headers = record (d.headers) {
    failure = some why;
    original_queue = some o.queue;
    attempt = some attempt;
  };
}

module _ (b : BrokerConnection) (o : SubscribeOptions) where
  -- Straight to the dead-letter queue, with the reason attached.
  abbrev pub set_aside : Delivery → DeadLetterReason → Failure → Settlement
  set_aside d reason why = dead_lettered reason (resend (marked o why (attempt_of d) d) b.account)

  abbrev pub reject : Delivery → Rejection → Failure → Settlement
  reject d why failure =
      if queue_is_transient b o.queue then dropped else set_aside d (rejection why) failure

  -- `retryOrDeadLetter`
  abbrev pub retry_or_dead_letter : Delivery → HandlerError → Settlement
  retry_or_dead_letter d why =
      if leb (max_attempts b) (attempt_of d)
      then set_aside d exhausted (thrown why)
      else retried (attempt_of d) (resend (marked o (thrown why) (attempt_of d + 1) d) b.account)

  abbrev pub failed_handler : Delivery → HandlerError → Settlement
  failed_handler d why =
      if queue_is_transient b o.queue then dropped else retry_or_dead_letter d why

  -- What `handle` does after the handler.
  abbrev pub after_handler : Delivery → Option HandlerError → Settlement
  after_handler d none = acknowledged
  after_handler d (some stale_event) = acknowledged
  after_handler d (some unparseable_message) = reject d unparseable (thrown unparseable_message)
  after_handler d (some predecessor_missing) = failed_handler d predecessor_missing
  after_handler d (some (other_error why)) = failed_handler d (other_error why)

-- One delivery: the calls of the handler, each with its attempt, and how the message was settled.
pub record Handled : Type 0 where
  pub calls : List (Envelope × ℕ)
  pub settlement : Settlement

module _ (b : BrokerConnection) (o : SubscribeOptions) where
  abbrev pub handle_checked :
      (handler : Envelope → ℕ → Option HandlerError) → Delivery → Parsed → Handled
  handle_checked handler d (rejected why) = record {
    calls = [];
    settlement = reject b o d why (rejected_as why);
  }
  handle_checked handler d (accepted e) = record {
    calls = (e, attempt_of d) ∷ [];
    settlement = after_handler b o d (handler e (attempt_of d));
  }

  -- `handle`
  unfoldable pub handle : (handler : Envelope → ℕ → Option HandlerError) → Delivery → Handled
  handle handler d = handle_checked handler d (check b o d)

-- Where a retry comes back from: the levels of `retryLevels`.
abbrev pub is_level : BrokerConnection → ℕ → Bool
is_level b level = leb 1 level && leb level (length b.retry_delays_ms)

-- The retry queue of a level puts the message back on its queue when the delay has passed.
abbrev pub comes_back : BrokerConnection → Settlement → Option Delivery
comes_back b acknowledged = none
comes_back b dropped = none
comes_back b (dead_lettered reason d) = none
comes_back b (retried level d) = if is_level b level then some d else none

abbrev pub with_calls : List (Envelope × ℕ) → Option Handled → Option Handled
with_calls calls none = none
with_calls calls (some h) = some (record h { calls = calls ++ h.calls })

module _ (b : BrokerConnection) (o : SubscribeOptions)
    (handler : Envelope → ℕ → Option HandlerError) where
  abbrev pub delivered_again :
      Handled → Option Delivery → (Delivery → Option Handled) → Option Handled
  delivered_again h none rest = some h
  delivered_again h (some d) rest = with_calls h.calls (rest d)

  -- A message and all its retries. `none` is out of fuel.
  unfoldable pub journey : (fuel : ℕ) → Delivery → Option Handled
  journey zero d = none
  journey (suc fuel) d =
      let h = handle b o handler d in
      delivered_again h (comes_back b h.settlement) (λ d'. journey fuel d')
