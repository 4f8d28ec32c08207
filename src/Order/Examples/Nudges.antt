-- ===== src/Order/Examples/Nudges.antt =====
-- order-service/src/orders/live/live-hub.ts: three tabs of two users, and one change.
use foc_app.Common.{ℕ, ◌≤◌, length, filter, ◌≡◌, true, some, List, [], ◌∷◌, All, refl}
use foc_app.Order.Types.{accepted, picked_up}
use foc_app.Order.Live.{
  LiveOptions, Participants, StatusChange, changed, errand, open_stream, refusal,
}
use foc_app.Order.Live.Limits.{Step, opens, closes, run_hub, next_hub, empty_hub}
use foc_app.Order.Live.Owned.{is_of, open_streams_limited}
use foc_app.Order.Live.Privacy.{IsPrivate, reachable-IsPrivate}

abbrev options : LiveOptions
options = record { enabled = true; per_user = 1; per_instance = 10; board_interval_ms = 1000 }

abbrev tabs : List Step
tabs = opens 10 1 ∷ opens 20 2 ∷ opens 10 3 ∷ []

abbrev moves : StatusChange
moves = record {
  order_id = 7;
  previous_status = some accepted;
  new_status = picked_up;
  order_version = some 4;
}

abbrev pair : Participants
pair = record { requester_id = 10; courier_id = some 30 }

-- The third tab is refused, and only the requester's stream is written to.
nudged :
    (changed options 5000 moves (some pair) (run_hub options tabs empty_hub)).1
    ≡ record { to = record { id = 1; user_id = 10 }; frame = errand 7 (some 4) } ∷ []
unfolding changed run_hub next_hub open_stream refusal
nudged = refl

-- The user's tab is closed before the next one is opened.
abbrev reopened : List Step
reopened = opens 10 1 ∷ closes (record { id = 1; user_id = 10 }) ∷ opens 10 3 ∷ []

open_streams_limited_example :
    (length (run_hub options reopened empty_hub).streams ≤ 10)
    × ((u : ℕ) → length (filter (is_of u) (run_hub options reopened empty_hub).streams) ≤ 1)
open_streams_limited_example =
    open_streams_limited (λ id. 10) options reopened (refl, (refl, (refl, tt)))

reachable-IsPrivate_example :
    All
      (IsPrivate (some pair))
      (changed options 5000 moves (some pair) (run_hub options tabs empty_hub)).1
reachable-IsPrivate_example = reachable-IsPrivate options tabs 5000 moves (some pair)
