-- ===== src/Order/Service.antt =====
-- order-service/src/orders/orders.service.ts: the commands of participants and administrators on one
-- errand, each under an optional Idempotency-Key. A call answers with a view or an error, beside the
-- tables as it leaves them. `now` is the server's clock, `clock` the database's; `hash` is hashRequest.
-- No other call comes between the reads of `resolve` and its command, which locks the row.
pub mod Outcomes
pub mod Unseen
pub mod Resolved
use foc_app.Common.{
  ℕ, Bool, true, false, not, ◌&&◌, Option, none, some, List, [], ◌∷◌, ◌++◌, any, leb, ◌==◌,
  if◌then◌else◌,
}
use foc_app.Order.Types.{
  OrderStatus, OrderRow, ApiCode, ApiException, not_found, idempotency_key_reused,
  self_acceptance_forbidden, order_not_open, acceptance_deadline_passed, order_changed,
  action_forbidden, delivery_period_not_passed, auto_confirmation_passed, invalid_order_state,
  conflict_of_interest, not_referred_admin, open_, picked_up, delivered,
}
use foc_app.Order.StateMachine.Vocabulary.{
  OrderAction, status_index, action_index, accept, report_non_delivery, report_non_receipt,
}
use foc_app.Order.StateMachine.Decide.{Part, resolve_action}
use foc_app.Order.Lifecycle.Store.{
  Store, Result, ok, err, Error, ◌>>=◌, HistoryRow, HistoryAction, find_order, missing_order,
  key_reused, api_exception,
}
use foc_app.Order.Lifecycle.Patch.{Periods}
use foc_app.Order.Lifecycle.Accept.{Acceptance, taken, not_taken, accept_using}
use foc_app.Order.Lifecycle.Transition.{
  CommandActor, TransitionCommand, Rejection, forbidden, version_conflict, TransitionResult,
  refused, transition_using,
}
use foc_app.Order.Views.{Caller, OrderView, project_order}

-- A row of `order_idempotency_keys` or `order_command_idempotency_keys`.
pub record KeyRow : Type 0 where
  pub caller_id : ℕ
  pub idempotency_key : ℕ
  pub order_id : ℕ
  pub request_hash : ℕ

pub record Service : Type 0 where
  pub tables : Store
  pub creation_keys : List KeyRow
  pub command_keys : List KeyRow

-- The row of a caller's key, by the primary key.
abbrev pub find_key : ℕ → ℕ → List KeyRow → Option KeyRow
find_key caller key [] = none
find_key caller key (r ∷ rs) =
    if (r.caller_id == caller) && (r.idempotency_key == key) then some r else find_key caller key rs

abbrev pub raise {ℓ} : {A : Type ℓ} → ApiCode → Result A
raise code = err (api_exception (record { code = code; details = none }))

-- A refusal that tells the current status and version.
abbrev pub refuse {ℓ} : {A : Type ℓ} → ApiCode → OrderRow → Result A
refuse code o = err (api_exception (record { code = code; details = some (o.status, o.version) }))

abbrev pub found_view : Option OrderView → Result OrderView
found_view none = raise not_found
found_view (some v) = ok v

-- A refusal of an errand that the caller may see; any other is refused as missing.
abbrev pub if_seen : Option OrderView → Result OrderView → Result OrderView
if_seen none refusal = raise not_found
if_seen (some v) refusal = refusal

abbrev is_over : Option ℕ → (now : ℕ) → Bool
is_over none now = true
is_over (some t) now = leb t now

abbrev pub is_in : OrderStatus → OrderRow → Bool
is_in s o = status_index o.status == status_index s

abbrev pub refuse_acceptance : (now : ℕ) → OrderRow → Caller → Result OrderView
refuse_acceptance now o c =
    if o.requester_id == c.user_id
    then raise self_acceptance_forbidden
    else if not (is_in open_ o)
    then refuse order_not_open o
    else if is_over o.acceptance_deadline_at now
    then refuse acceptance_deadline_passed o
    else refuse order_changed o

-- `acceptance`
abbrev pub acceptance : (now : ℕ) → Caller → Acceptance → Result OrderView
acceptance now c (taken o) = found_view (project_order now o c)
acceptance now c (not_taken none) = raise not_found
acceptance now c (not_taken (some o)) = if_seen (project_order now o c) (refuse_acceptance now o c)

-- `DEADLINE_REFUSALS`
abbrev deadline_refusal : OrderAction → Option (OrderStatus × ApiCode)
deadline_refusal report_non_delivery = some (picked_up, delivery_period_not_passed)
deadline_refusal report_non_receipt = some (delivered, auto_confirmation_passed)
deadline_refusal _ = none

abbrev state_refusal : Option (OrderStatus × ApiCode) → OrderRow → Result OrderView
state_refusal none o = refuse invalid_order_state o
state_refusal (some (s, code)) o = if is_in s o then refuse code o else refuse invalid_order_state o

abbrev pub refuse_command : Rejection → OrderAction → OrderRow → Result OrderView
refuse_command forbidden action o = refuse action_forbidden o
refuse_command version_conflict action o = refuse order_changed o
refuse_command _ action o = state_refusal (deadline_refusal action) o

-- `answer`
abbrev pub answer : (now : ℕ) → OrderAction → Caller → TransitionResult → Result OrderView
answer now action c (TransitionResult.applied o d) = found_view (project_order now o c)
answer now action c (refused reason none) = raise not_found
answer now action c (refused reason (some o)) =
    if_seen (project_order now o c) (refuse_command reason action o)

-- What a key is a fingerprint of.
pub record Request : Type 0 where
  pub order_id : ℕ
  pub action : OrderAction
  pub expected_version : ℕ
  pub reason : Option (List ℕ)

-- A command on the tables: it raises, which undoes it, or answers and leaves tables.
abbrev pub Attempt : Type 0
Attempt = Store → Result (Result OrderView × Store)

pub data Once : Type 0 where
  applied : OrderView → Once
  replayed : OrderRow → Once

abbrev replay : KeyRow → KeyRow → Service → Result (Once × Service)
replay key row s =
    if not (row.request_hash == key.request_hash)
    then err key_reused
    else elim (find_order row.order_id s.tables.orders) [
      | none ↦ err missing_order
      | some o ↦ ok (Once.replayed o, s)
    ]

abbrev first_time : KeyRow → Attempt → Service → Result (Once × Service)
first_time key run s = run s.tables >>= λ (reply, t). reply >>= λ v.
    ok (Once.applied v, record s { tables = t; command_keys = s.command_keys ++ (key ∷ []) })

-- `withCommandKey`
unfoldable pub with_command_key : KeyRow → Attempt → Service → Result (Once × Service)
with_command_key key run s = elim (find_key key.caller_id key.idempotency_key s.command_keys) [
  | none ↦ first_time key run s
  | some row ↦ replay key row s
]

abbrev pub translated : Error → Error
translated key_reused = api_exception (record { code = idempotency_key_reused; details = none })
translated e = e

abbrev pub conclude_once :
    (now : ℕ) → Caller → Service → Result (Once × Service) → Result OrderView × Service
conclude_once now c s (err e) = (err (translated e), s)
conclude_once now c s (ok (Once.applied v, s')) = (ok v, s')
conclude_once now c s (ok (Once.replayed o, s')) = (found_view (project_order now o c), s')

-- Without a key the command commits before its answer is made.
abbrev pub conclude_run : Service → Result (Result OrderView × Store) → Result OrderView × Service
conclude_run s (err e) = (err e, s)
conclude_run s (ok (reply, t)) = (reply, record s { tables = t })

abbrev pub to_list : Option ℕ → List ℕ
to_list none = []
to_list (some i) = i ∷ []

-- The courier that an acceptance in the history names.
abbrev accepted_by : ℕ → HistoryRow → List ℕ
accepted_by k h = elim h.action [
  | HistoryAction.create ↦ []
  | HistoryAction.transition a ↦
      if (h.order_id == k) && (action_index a == action_index accept)
      then to_list h.actor_id
      else []
]

abbrev accepters : ℕ → List HistoryRow → List ℕ
accepters k [] = []
accepters k (h ∷ hs) = accepted_by k h ++ accepters k hs

abbrev row_participants : Option OrderRow → List ℕ
row_participants none = []
row_participants (some o) = o.requester_id ∷ to_list o.courier_id

-- `participants`
unfoldable pub participants : ℕ → Store → List ℕ
participants k t = row_participants (find_order k t.orders) ++ accepters k t.history

-- Who calls, with which key, and what the clocks say.
pub record Context : Type 0 where
  pub periods : Periods
  pub clock : ℕ
  pub now : ℕ
  pub correlation : ℕ
  pub caller : Caller
  pub key : Option ℕ

abbrev pub accept_request : (order_id expected_version : ℕ) → Request
accept_request k v = record { order_id = k; action = accept; expected_version = v; reason = none }

abbrev pub resolve_request : (order_id : ℕ) → Part → (expected_version : ℕ) → List ℕ → Request
resolve_request k outcome v reason = record {
  order_id = k;
  action = resolve_action outcome;
  expected_version = v;
  reason = some reason;
}

-- The check of `resolve` under the row's lock.
abbrev pub is_referred : Caller → OrderRow → Option Error
is_referred c o =
    if any (λ a. a == c.user_id) (to_list o.referred_admin_id)
    then none
    else some
        (api_exception (record { code = not_referred_admin; details = some (o.status, o.version) }))

module _ (x : Context) where
  abbrev pub try_accept : Request → Attempt
  try_accept r t =
      accept_using r.order_id x.caller.user_id r.expected_version x.correlation x.clock t
      >>= λ (a, t'). ok (acceptance x.now x.caller a, t')

  abbrev pub user_command : Request → (OrderRow → Option Error) → TransitionCommand
  user_command r verify = record {
    order_id = r.order_id;
    action = r.action;
    actor = CommandActor.user x.caller.user_id x.caller.is_admin;
    expected_version = some r.expected_version;
    correlation_id = x.correlation;
    causation_id = none;
    now = none;
    verify = verify;
    patch = [];
    reason = r.reason;
    requester_suspended = none;
    after_apply = λ s o. ok s;
  }

  abbrev pub try_command : Request → (OrderRow → Option Error) → Attempt
  try_command r verify t =
      transition_using x.periods x.clock (user_command r verify) t >>= λ (result, t').
      ok (answer x.now r.action x.caller result, t')

module _ (hash : Request → ℕ) where
  abbrev pub key_row : Caller → (key : ℕ) → Request → KeyRow
  key_row c key request = record {
    caller_id = c.user_id;
    idempotency_key = key;
    order_id = request.order_id;
    request_hash = hash request;
  }

  -- `once`
  unfoldable pub once :
      (now : ℕ)
      → Caller
      → (key : Option ℕ) → Request
      → Attempt
      → Service
      → Result OrderView × Service
  once now c none request run s = conclude_run s (run s.tables)
  once now c (some key) request run s =
      conclude_once now c s (with_command_key (key_row c key request) run s)

  module _ (x : Context) where
    -- `accept`
    unfoldable pub accept_order :
        (order_id expected_version : ℕ) → Service → Result OrderView × Service
    accept_order k v =
        once x.now x.caller x.key (accept_request k v) (try_accept x (accept_request k v))

    -- `command`
    unfoldable pub command :
        Request → (verify : OrderRow → Option Error) → Service → Result OrderView × Service
    command r verify = once x.now x.caller x.key r (try_command x r verify)

    abbrev pub resolve_seen :
        Request → OrderRow → Option OrderView → Service → Result OrderView × Service
    resolve_seen r o none s = (raise not_found, s)
    resolve_seen r o (some v) s =
        if any (λ u. u == x.caller.user_id) (participants r.order_id s.tables)
        then (refuse conflict_of_interest o, s)
        else command r (is_referred x.caller) s

    abbrev pub resolve_found : Request → Option OrderRow → Service → Result OrderView × Service
    resolve_found r none s = (raise not_found, s)
    resolve_found r (some o) s = resolve_seen r o (project_order x.now o x.caller) s

    -- `resolve`
    unfoldable pub resolve :
        (order_id : ℕ) (outcome : Part) (expected_version : ℕ) (reason : List ℕ)
        → Service
        → Result OrderView × Service
    resolve k outcome v reason s =
        resolve_found (resolve_request k outcome v reason) (find_order k s.tables.orders) s
