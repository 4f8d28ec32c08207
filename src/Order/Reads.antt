-- ===== src/Order/Reads.antt =====
-- order-service/src/orders/orders.service.ts: the reads of one errand, which change nothing.
use Prim.Native.Char.{Char, code}
use Prim.Native.String.{String, [], ◌∷◌}
use foc_app.Common.{
  ℕ, Bool, true, false, not, ◌&&◌, ◌||◌, Option, none, some, List, [], ◌∷◌, map, leb, ◌==◌,
  if◌then◌else◌,
}
use foc_app.Order.Types.{
  OrderStatus, OrderRow, not_found, private_order_forbidden, receipt_not_found,
}
use foc_app.Order.Lifecycle.Store.{
  Store, Result, ok, err, HistoryActor, HistoryAction, HistoryRow, Receipt, ◌>>=◌, find_order,
}
use foc_app.Order.Receipts.{find_receipt}
use foc_app.Order.Views.{Caller, OrderView, is_referred_admin, has_instructions, project_order}
use foc_app.Order.Service.{raise}
pub mod Masked

pub data ShownAction : Type 0 where
  recorded : HistoryAction → ShownAction
  system_outcome : ShownAction

-- `HistoryEntry`
pub record HistoryEntry : Type 0 where
  pub previous_status : Option OrderStatus
  pub new_status : OrderStatus
  pub action : ShownAction
  pub actor_type : HistoryActor
  pub actor_id : Option ℕ
  pub reason : Option (List ℕ)
  pub version : ℕ
  pub occurred_at : ℕ

abbrev entry_of : HistoryRow → HistoryEntry
entry_of h = record {
  previous_status = h.previous_status;
  new_status = h.new_status;
  action = recorded h.action;
  actor_type = h.actor_type;
  actor_id = h.actor_id;
  reason = h.reason;
  version = h.order_version;
  occurred_at = h.occurred_at;
}

abbrev insert_by_version : HistoryEntry → List HistoryEntry → List HistoryEntry
insert_by_version e [] = e ∷ []
insert_by_version e (f ∷ fs) =
    let rest = insert_by_version e fs in if leb e.version f.version then e ∷ f ∷ fs else f ∷ rest

-- `findHistory`
unfoldable pub find_history : ℕ → List HistoryRow → List HistoryEntry
find_history k [] = []
find_history k (h ∷ hs) =
    let rest = find_history k hs in
    if h.order_id == k then insert_by_version (entry_of h) rest else rest

abbrev pub codes : String → List ℕ
codes [] = []
codes (c ∷ s) = code c ∷ codes s

abbrev same_text : List ℕ → List ℕ → Bool
same_text [] [] = true
same_text (a ∷ as_) (b ∷ bs) = (a == b) && same_text as_ bs
same_text _ _ = false

-- Membership in `SUSPENSION_REASONS`.
abbrev is_suspension_reason : Option (List ℕ) → Bool
is_suspension_reason none = false
is_suspension_reason (some r) =
    same_text r (codes "requester suspended") || same_text r (codes "courier suspended")

-- A move that the system made, or the credit service for a suspended requester.
abbrev pub is_masked : HistoryEntry → Bool
is_masked e = elim e.actor_type [
  | HistoryActor.system ↦ true
  | HistoryActor.credit_service ↦ is_suspension_reason e.reason
  | _ ↦ false
]

-- `asParticipantSees`
unfoldable pub as_participant_sees : HistoryEntry → HistoryEntry
as_participant_sees e = if not (is_masked e) then e else record e {
  action = system_outcome;
  actor_type = HistoryActor.system;
  actor_id = none;
  reason = none;
}

abbrev with_view : OrderRow → Option OrderView → Result (OrderRow × OrderView)
with_view o none = raise not_found
with_view o (some v) = ok (o, v)

abbrev or_no_receipt : Option Receipt → Result Receipt
or_no_receipt none = raise receipt_not_found
or_no_receipt (some r) = ok r

module _ (now : ℕ) (k : ℕ) (c : Caller) (t : Store) where
  abbrev pub seen : Option OrderRow → Result (OrderRow × OrderView)
  seen none = raise not_found
  seen (some o) = with_view o (project_order now o c)

  -- The errand of a read for its participants and its referred administrator.
  abbrev private_ : Result OrderRow
  private_ = seen (find_order k t.orders) >>= λ (o, v).
      if has_instructions v then ok o else raise private_order_forbidden

  -- `getById`
  unfoldable pub get_by_id : (private_view : Bool) → Result OrderView
  get_by_id private_view = seen (find_order k t.orders) >>= λ (o, v).
      if private_view && not (has_instructions v) then raise private_order_forbidden else ok v

  -- `history`
  unfoldable pub history : Result (List HistoryEntry)
  history = private_ >>= λ o.
      let entries = find_history k t.history in
      ok (if is_referred_admin o c then entries else map as_participant_sees entries)

  -- `receipt`
  unfoldable pub receipt : Result Receipt
  receipt = private_ >>= λ o. or_no_receipt (find_receipt k t.receipts)
