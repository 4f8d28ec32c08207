-- ===== src/Credit/Consumers.antt =====
-- credit-service/src/wallet-provisioning.ts, reservation-consumer.ts and terminal-consumers.ts, on the
-- inbox of platform/src/events/inbox.ts: what one delivered message does to the service.
use foc_app.Common.{ℕ, Bool, true, false, not, ◌&&◌, List, [], ◌∷◌, any, ◌==◌, if◌then◌else◌}
use foc_app.Credit.Types.{
  ReservationInput, ReleaseInput, TransferInput, ReservationOutcome, ReleaseOutcome,
  TransferOutcome,
}
use foc_app.Credit.Db.{Db, Result, ok, err, unparseable, Tx}
use foc_app.Credit.Repository.Issue.{issue_initial}
use foc_app.Credit.Repository.Reserve.{reserve}
use foc_app.Credit.Repository.Release.{release}
use foc_app.Credit.Repository.Transfer.{transfer}

-- `WALLET_QUEUE`, `RESERVATION_QUEUE`, `COMPLETION_QUEUE`, `RELEASE_QUEUE`
pub data Queue : Type 0 where
  wallet_queue reservation_queue completion_queue release_queue : Queue

abbrev pub queue_index : Queue → ℕ
queue_index wallet_queue = 0
queue_index reservation_queue = 1
queue_index completion_queue = 2
queue_index release_queue = 3

-- A row of `processed_events`.
pub record ProcessedEvent : Type 0 where
  pub consumer : Queue
  pub event_id : ℕ

-- The service's database: its books, and its inbox.
pub record Service : Type 0 where
  pub books : Db
  pub processed : List ProcessedEvent

-- The fields of `Envelope` that the handlers read.
pub record Envelope (A : Type 0) : Type 0 where
  pub event_id : ℕ
  pub aggregate_id : ℕ
  pub correlation_id : ℕ
  pub payload : A

pub record UserActivatedPayload : Type 0 where
  pub user_id : ℕ

pub record CreditReservationRequestedPayload : Type 0 where
  pub order_id : ℕ
  pub requester_id : ℕ
  pub amount : ℕ

pub record CreditReleaseRequestedPayload : Type 0 where
  pub order_id : ℕ
  pub requester_id : ℕ
  pub amount : ℕ

pub record OrderCompletionRequestedPayload : Type 0 where
  pub order_id : ℕ
  pub requester_id : ℕ
  pub courier_id : ℕ
  pub amount : ℕ

-- `WalletProvisioning.handle`
unfoldable pub handle_activation : (allocation uuid : ℕ) → Envelope UserActivatedPayload → Tx Bool
handle_activation allocation uuid e db =
    if not (e.aggregate_id == e.payload.user_id)
    then err unparseable
    else issue_initial allocation uuid e.payload.user_id db

abbrev pub reservation_input : Envelope CreditReservationRequestedPayload → ReservationInput
reservation_input e = record {
  order_id = e.payload.order_id;
  requester_id = e.payload.requester_id;
  amount = e.payload.amount;
  correlation_id = e.correlation_id;
  causation_id = e.event_id;
}

-- `ReservationConsumer.handle`
unfoldable pub handle_reservation :
    (uuid : ℕ) → Envelope CreditReservationRequestedPayload → Tx ReservationOutcome
handle_reservation uuid e db =
    if not (e.aggregate_id == e.payload.order_id)
    then err unparseable
    else reserve (reservation_input e) uuid db

abbrev pub transfer_input : Envelope OrderCompletionRequestedPayload → TransferInput
transfer_input e = record {
  order_id = e.payload.order_id;
  requester_id = e.payload.requester_id;
  courier_id = e.payload.courier_id;
  amount = e.payload.amount;
  correlation_id = e.correlation_id;
  causation_id = e.event_id;
}

-- `CompletionConsumer.handle`
unfoldable pub handle_completion :
    (uuid : ℕ) → Envelope OrderCompletionRequestedPayload → Tx TransferOutcome
handle_completion uuid e db =
    if not (e.aggregate_id == e.payload.order_id)
    then err unparseable
    else transfer (transfer_input e) uuid db

abbrev pub release_input : Envelope CreditReleaseRequestedPayload → ReleaseInput
release_input e = record {
  order_id = e.payload.order_id;
  requester_id = e.payload.requester_id;
  amount = e.payload.amount;
  correlation_id = e.correlation_id;
  causation_id = e.event_id;
}

-- `ReleaseConsumer.handle`
unfoldable pub handle_release :
    (uuid : ℕ) → Envelope CreditReleaseRequestedPayload → Tx ReleaseOutcome
handle_release uuid e db =
    if not (e.aggregate_id == e.payload.order_id)
    then err unparseable
    else release (release_input e) uuid db

abbrev pub is_processed : Queue → ℕ → ProcessedEvent → Bool
is_processed q id p = (queue_index p.consumer == queue_index q) && (p.event_id == id)

-- `INSERT INTO processed_events … ON CONFLICT DO NOTHING RETURNING`: the rows afterwards, and whether
-- this is the first delivery.
abbrev pub first_delivery : Queue → ℕ → Service → Bool
first_delivery q id s = not (any (is_processed q id) s.processed)

abbrev pub mark_processed : Queue → ℕ → Service → List ProcessedEvent
mark_processed q id s =
    if first_delivery q id s
    then record { consumer = q; event_id = id } ∷ s.processed
    else s.processed

-- A committed effect, with the inbox's rows.
abbrev pub commit :
    {A : Type 0} → Bool → List ProcessedEvent → Result (A × Db) → Result (Bool × Service)
commit first rows (ok (out, db)) = ok (first, record { books = db; processed = rows })
commit first rows (err e) = err e

-- `processOnce`: a duplicate does nothing.
unfoldable pub process_once : {A : Type 0} → Queue → ℕ → Tx A → Service → Result (Bool × Service)
process_once q id effect s =
    if first_delivery q id s
    then commit true (mark_processed q id s) (effect s.books)
    else ok (false, s)

-- `processReplayable`: a duplicate runs the effect again.
unfoldable pub process_replayable :
    {A : Type 0} → Queue → ℕ → Tx A → Service → Result (Bool × Service)
process_replayable q id effect s =
    commit (first_delivery q id s) (mark_processed q id s) (effect s.books)

-- A message on one of the four queues, with the identifier that `randomUUID` would draw.
pub data Delivery : Type 0 where
  activation : (uuid : ℕ) → Envelope UserActivatedPayload → Delivery
  reservation : (uuid : ℕ) → Envelope CreditReservationRequestedPayload → Delivery
  completion : (uuid : ℕ) → Envelope OrderCompletionRequestedPayload → Delivery
  release_request : (uuid : ℕ) → Envelope CreditReleaseRequestedPayload → Delivery

-- The subscribed handlers.
unfoldable pub handle_delivery : (allocation : ℕ) → Delivery → Service → Result (Bool × Service)
handle_delivery allocation (activation uuid e) =
    process_once wallet_queue e.event_id (handle_activation allocation uuid e)
handle_delivery allocation (reservation uuid e) =
    process_replayable reservation_queue e.event_id (handle_reservation uuid e)
handle_delivery allocation (completion uuid e) =
    process_replayable completion_queue e.event_id (handle_completion uuid e)
handle_delivery allocation (release_request uuid e) =
    process_replayable release_queue e.event_id (handle_release uuid e)

-- A transaction that raises rolls back.
abbrev pub rolled_back : Service → Result (Bool × Service) → Service
rolled_back s (ok (first, s')) = s'
rolled_back s (err e) = s

unfoldable pub deliver : (allocation : ℕ) → Delivery → Service → Service
deliver allocation d s = rolled_back s (handle_delivery allocation d s)

unfoldable pub deliver_all : (allocation : ℕ) → List Delivery → Service → Service
unfolding deliver
deliver_all allocation [] s = s
deliver_all allocation (d ∷ ds) s = deliver_all allocation ds (deliver allocation d s)

-- A new database.
abbrev pub empty_service : Service
empty_service = record {
  books = record {
    wallets = [];
    transactions = [];
    entries = [];
    operations = [];
    alerts = [];
    outbox = [];
  };
  processed = [];
}
