-- ===== src/Order/Live/Privacy.antt =====
-- order-service/src/orders/live/live-hub.ts: who is told of a change.
use foc_app.Common.{
  ℕ, ◌≡◌, Bool, true, false, Option, none, some, List, [], ◌∷◌, ◌++◌, ◌||◌, ◌==◌, length, All, leb,
  refl, arith, Bool-cases, inl, inr,
}
use foc_app.Order.Live.{
  LiveOptions, LiveHub, Stream, Frame, Write, Participants, StatusChange, board, errand, write_all,
  users_of, when_due, unless_pending, due_at, is_open, write_users, nudges, announce, send_board,
  send_board_later, changed,
}
use foc_app.Order.Live.Limits.{HubValid, Step, run_hub, empty_hub, reachable-HubValid}

abbrev pub is_errand : Frame → Bool
is_errand (errand order version) = true
is_errand _ = false

abbrev pub is_user : Option ℕ → ℕ → Bool
is_user none u = false
is_user (some v) u = v == u

-- Whether an errand is a user's, as its requester or its courier.
abbrev pub concerns : Option Participants → ℕ → Bool
concerns none u = false
concerns (some who) u = (who.requester_id == u) || is_user who.courier_id u

-- A write that names an errand goes to a participant of it.
abbrev pub IsPrivate : Option Participants → Write → Type 0
IsPrivate who w = is_errand w.frame ≡ true → concerns who w.to.user_id ≡ true

append-All : (P : Write → Type 0) (xs ys : List Write) → All P xs → All P ys → All P (xs ++ ys)
append-All P [] ys h q = q
append-All P (x ∷ xs) ys h q = (h.0, append-All P xs ys h.1 q)

board-All :
    (who : Option Participants) (ss : List Stream) → All (IsPrivate who) (write_all board ss)
board-All who [] = tt
board-All who (s ∷ ss) = (λ e. cc, board-All who ss)

stream-All :
    (who : Option Participants) (frame : Frame) (u : ℕ) (ss : List Stream)
    → concerns who u ≡ true
    → All (λ s. s.user_id ≡ u) ss
    → All (IsPrivate who) (write_all frame ss)
stream-All who frame u [] c own = tt
stream-All who frame u (s ∷ ss) c own = (λ e. rw own.0 c, stream-All who frame u ss c own.1)

users-All :
    (who : Option Participants) (frame : Frame) (us : List ℕ) (by_user : ℕ → List Stream)
    → All (λ u. concerns who u ≡ true) us
    → ((u : ℕ) → All (λ s. s.user_id ≡ u) (by_user u))
    → All (IsPrivate who) (write_users frame us by_user)
users-All who frame [] by_user c own = tt
users-All who frame (u ∷ us) by_user c own =
    append-All (IsPrivate who) (write_all frame (by_user u)) (write_users frame us by_user)
      (stream-All who frame u (by_user u) c.0 (own u)) (users-All who frame us by_user c.1 own)

users_of_courier :
    (who : Participants) (courier : Option ℕ)
    → who.courier_id ≡ courier
    → All (λ u. concerns (some who) u ≡ true) (users_of who)
users_of_courier who none e = rw e (ground arith, tt)
users_of_courier who (some courier) e = elim (Bool-cases (courier == who.requester_id)) [
  | inl same ↦ rw (e, same) (ground arith, tt)
  | inr other ↦ rw (e, other) (ground arith, (ground (arith, e), tt))
]

users_of-concerns : (who : Participants) → All (λ u. concerns (some who) u ≡ true) (users_of who)
users_of-concerns who = users_of_courier who who.courier_id refl

nudges-All :
    (options : LiveOptions) (change : StatusChange) (who : Option Participants) (hub : LiveHub)
    → ((u : ℕ) → All (λ s. s.user_id ≡ u) (hub.by_user u))
    → All (IsPrivate who) (nudges change who hub)
nudges-All options change none hub own = tt
nudges-All options change (some who) hub own =
    users-All (some who) (errand change.order_id change.order_version) (users_of who) hub.by_user
      (users_of-concerns who) own

module _ (who : Option Participants) (options : LiveOptions) (now : ℕ) (hub : LiveHub) where
  when_due-All : (due : Option ℕ) → All (IsPrivate who) (when_due now hub due).1
  unfolding send_board
  when_due-All none = board-All who hub.streams
  when_due-All (some due) = elim (Bool-cases (leb due now)) [
    | inl late ↦ rw late (board-All who hub.streams)
    | inr early ↦ rw early tt
  ]

  unless_pending-All :
      (pending : Option ℕ) → All (IsPrivate who) (unless_pending options now hub pending).1
  unless_pending-All none = when_due-All (due_at options hub.last_board_at)
  unless_pending-All (some due) = tt

  announce-All : (change : StatusChange) → All (IsPrivate who) (announce options now change hub).1
  unfolding send_board_later
  announce-All change =
      elim (Bool-cases (is_open change.previous_status || is_open (some change.new_status))) [
        | inl seen ↦ rw seen (unless_pending-All hub.pending_board)
        | inr hidden ↦ rw hidden tt
      ]

announce-by_user :
    (options : LiveOptions) (now : ℕ) (change : StatusChange) (hub : LiveHub)
    → (announce options now change hub).0.by_user ≡ hub.by_user
unfolding send_board_later
announce-by_user options now change hub = ground arith

changed-IsPrivate :
    (options : LiveOptions) (now : ℕ) (change : StatusChange) (who : Option Participants)
    (hub : LiveHub)
    → HubValid options hub
    → All (IsPrivate who) (changed options now change who hub).1
unfolding changed
changed-IsPrivate options now change who hub valid = elim (Bool-cases (length hub.streams == 0)) [
  | inl empty ↦ rw empty tt
  | inr some_open ↦ rw some_open (
      append-All (IsPrivate who) (announce options now change hub).1
        (nudges change who (announce options now change hub).0)
        (announce-All who options now hub change)
        (nudges-All options change who (announce options now change hub).0
          (λ u. rw (announce-by_user options now change hub) (valid.own u))))
]

-- Whatever calls reached the hub before, what a change of an errand writes about that errand goes to
-- streams of its requester and its courier only; no other write names an errand.
pub reachable-IsPrivate :
    (options : LiveOptions) (steps : List Step) (now : ℕ) (change : StatusChange)
    (who : Option Participants)
    → All (IsPrivate who) (changed options now change who (run_hub options steps empty_hub)).1
reachable-IsPrivate options steps now change who =
    changed-IsPrivate options now change who (run_hub options steps empty_hub)
      (reachable-HubValid options steps)
