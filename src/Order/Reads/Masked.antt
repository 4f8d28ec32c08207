-- ===== src/Order/Reads/Masked.antt =====
-- order-service/src/orders/orders.service.ts: who reads the history and the receipt, and what a
-- participant learns of a suspension.
use foc_app.Common.{
  ℕ, ◌≡◌, Bool, true, false, Option, none, some, List, arith, [], ◌∷◌, map, refl, ap, ◌⊎◌,
  Option-cases, Bool-cases, inl, inr, if◌then◌else◌,
}
use foc_app.Order.Types.{OrderRow, ApiCode, not_found, private_order_forbidden}
use foc_app.Order.Lifecycle.Store.{Store, HistoryActor, Result, ok, find_order}
use foc_app.Order.Views.{
  Caller, OrderView, can_read_private, is_hidden, has_instructions, project_order,
  public_order_view,
}
use foc_app.Order.Views.Private.{project_order-public}
use foc_app.Order.Service.{raise}
use foc_app.Order.Reads.{
  HistoryEntry, codes, is_masked, find_history, as_participant_sees, get_by_id, history, receipt,
  seen,
}

-- A move of the system, or of the credit service for the suspension of a participant.
abbrev pub IsSystemMove : HistoryEntry → Type 0
IsSystemMove e =
    (e.actor_type ≡ HistoryActor.system)
    ⊎ ((e.actor_type ≡ HistoryActor.credit_service)
        × ((e.reason ≡ some (codes "requester suspended"))
            ⊎ (e.reason ≡ some (codes "courier suspended"))))

system_move-is_masked : (e : HistoryEntry) → IsSystemMove e → is_masked e ≡ true
system_move-is_masked e (inl by_system) = rw by_system refl
system_move-is_masked e (inr (by_credits, inl why)) = rw (by_credits, why) refl
system_move-is_masked e (inr (by_credits, inr why)) = rw (by_credits, why) refl

-- The same entry, or two system moves that differ at most in who made the move, by which action and
-- why.
abbrev pub SameMove : HistoryEntry → HistoryEntry → Type 0
SameMove e f =
    (e ≡ f)
    ⊎ (IsSystemMove e
        × IsSystemMove f
        × (e.previous_status ≡ f.previous_status)
        × (e.new_status ≡ f.new_status)
        × (e.version ≡ f.version)
        × (e.occurred_at ≡ f.occurred_at))

abbrev pub SameMoves : List HistoryEntry → List HistoryEntry → Type 0
SameMoves [] [] = Unit {0}
SameMoves (e ∷ es) (f ∷ fs) = SameMove e f × SameMoves es fs
SameMoves _ _ = ⊥

as_participant_sees-same :
    (e f : HistoryEntry) → SameMove e f → as_participant_sees e ≡ as_participant_sees f
unfolding as_participant_sees
as_participant_sees-same e f (inl same) = ap as_participant_sees same
as_participant_sees-same e f (inr (system_e, system_f, previous, new, version, time)) =
    rw
      (
        system_move-is_masked e system_e,
        system_move-is_masked f system_f,
        previous,
        new,
        version,
        time,
      )
      refl

map-SameMoves :
    (es fs : List HistoryEntry)
    → SameMoves es fs
    → map as_participant_sees es ≡ map as_participant_sees fs
map-SameMoves [] [] same = refl
map-SameMoves (e ∷ es) (f ∷ fs) (same, rest) =
    rw (as_participant_sees-same e f same, map-SameMoves es fs rest) refl
map-SameMoves [] (f ∷ fs) same = absurd same
map-SameMoves (e ∷ es) [] same = absurd same

-- The same participants, instructions and status: all that decides who reads an errand's history. A
-- timer and a suspension write different release reasons, so the rest may differ.
pub record SameReaders (o o' : OrderRow) : Type 0 where
  pub requester : o.requester_id ≡ o'.requester_id
  pub courier : o.courier_id ≡ o'.courier_id
  pub instructions : o.delivery_instructions ≡ o'.delivery_instructions
  pub status : o.status ≡ o'.status

abbrev instructed : Option OrderView → Option Bool
instructed none = none
instructed (some v) = some (has_instructions v)

-- The answer to a caller who is no administrator.
abbrev answered : Option Bool → List HistoryEntry → Result (List HistoryEntry)
answered none es = raise not_found
answered (some false) es = raise private_order_forbidden
answered (some true) es = ok es

module _ (now k : ℕ) (c : Caller) where
  instructed-same :
      (o o' : OrderRow)
      → c.is_admin ≡ false
      → SameReaders o o'
      → instructed (project_order now o c) ≡ instructed (project_order now o' c)
  unfolding project_order
  instructed-same o o' plain same =
      ground (arith, plain, same.requester, same.courier, same.instructions, same.status)

  history-answered :
      (t : Store) (o : OrderRow)
      → c.is_admin ≡ false
      → find_order k t.orders ≡ some o
      → history now k c t
        ≡ answered
            (instructed (project_order now o c))
            (map as_participant_sees (find_history k t.history))
  unfolding history
  history-answered t o plain was = elim (Option-cases (project_order now o c)) [
    | inl unseen ↦ rw (was, seen, unseen) refl
    | inr (v, shown_as) ↦ elim (Bool-cases (has_instructions v)) [
      | inr closed ↦ rw (was, seen, shown_as, closed) refl
      | inl shown ↦ rw (was, seen, shown_as, shown, plain) refl
    ]
  ]

  -- A caller who is no administrator reads the same history of an errand, or gets the same refusal,
  -- whether a timer, a referral or a suspension made its system moves, with whatever release reason,
  -- as long as the errand has the same participants, instructions and status.
  pub history-same :
      (t t' : Store) (o o' : OrderRow)
      → c.is_admin ≡ false
      → find_order k t.orders ≡ some o
      → find_order k t'.orders ≡ some o'
      → SameReaders o o'
      → SameMoves (find_history k t.history) (find_history k t'.history)
      → history now k c t ≡ history now k c t'
  history-same t t' o o' plain was was' same moves =
      rw
        (
          history-answered t o plain was,
          history-answered t' o' plain was',
          instructed-same o o' plain same,
          map-SameMoves (find_history k t.history) (find_history k t'.history) moves,
        )
        refl

  -- A caller who takes no part in an errand, and is not its referred administrator, is refused its private
  -- view, its history and its receipt; a pending or rejected errand as if there were none.
  pub strangers_refused :
      (t : Store) (o : OrderRow)
      → find_order k t.orders ≡ some o
      → can_read_private o c ≡ false
      → let code : ApiCode = if is_hidden o.status then not_found else private_order_forbidden in
        (get_by_id now k c t true ≡ raise code)
        × (history now k c t ≡ raise code)
        × (receipt now k c t ≡ raise code)
  unfolding get_by_id history receipt public_order_view
  strangers_refused t o was apart = elim (Bool-cases (is_hidden o.status)) [
    | inl hidden ↦ rw (was, seen, project_order-public now o c apart, hidden) (refl, refl, refl)
    | inr open_to_all ↦
        rw (was, seen, project_order-public now o c apart, open_to_all) (refl, refl, refl)
  ]
