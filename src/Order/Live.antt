-- ===== src/Order/Live.antt =====
-- order-service/src/orders/live/live-hub.ts: the streams open on one instance, and what is written to
-- which of them. A stream object is a number that is new when it is opened. Writing is the list of the
-- writes, in order; metrics, the keep-alive comments and the timers themselves are left out, and what a
-- timer runs is a step of its own.
use foc_app.Common.{
  ℕ, ◌+◌, Bool, true, false, not, ◌&&◌, ◌||◌, Option, none, some, List, [], ◌∷◌, ◌++◌, length,
  filter, any, leb, ltb, ◌==◌, if◌then◌else◌,
}
use foc_app.Order.Types.{OrderStatus, open_}
use foc_app.Order.StateMachine.Vocabulary.{status_index}
pub mod Limits
pub mod Owned
pub mod Privacy

-- `LiveOptions`
pub record LiveOptions : Type 0 where
  pub enabled : Bool
  pub per_user : ℕ
  pub per_instance : ℕ
  pub board_interval_ms : ℕ

pub data LiveRefusal : Type 0 where
  too_many_streams live_unavailable : LiveRefusal

pub record Participants : Type 0 where
  pub requester_id : ℕ
  pub courier_id : Option ℕ

pub record Stream : Type 0 where
  pub id : ℕ
  pub user_id : ℕ

pub data Frame : Type 0 where
  ready board : Frame
  errand : (order_id : ℕ) (version : Option ℕ) → Frame

pub record Write : Type 0 where
  pub to : Stream
  pub frame : Frame

-- `byUser` is a function: a user without an entry has no streams. `last_board_at` is none before any
-- board frame.
pub record LiveHub : Type 0 where
  pub streams : List Stream
  pub by_user : ℕ → List Stream
  pub last_board_at : Option ℕ
  pub pending_board : Option ℕ
  pub stopping : Bool

-- `refusal`
unfoldable pub refusal : LiveOptions → ℕ → LiveHub → Option LiveRefusal
refusal options user hub =
    if not options.enabled || (hub.stopping || leb options.per_instance (length hub.streams))
    then some live_unavailable
    else if leb options.per_user (length (hub.by_user user))
    then some too_many_streams
    else none

-- `Map.set`
abbrev pub set_user : ℕ → List Stream → (ℕ → List Stream) → ℕ → List Stream
set_user user own by_user u = if u == user then own else by_user u

abbrev pub when_refused :
    (user id : ℕ) → LiveHub → Option LiveRefusal → Option LiveRefusal × (LiveHub × List Write)
when_refused user id hub (some refused) = (some refused, (hub, []))
when_refused user id hub none =
    let stream : Stream = record { id = id; user_id = user } in
    (
      none,
      (
        record hub {
          streams = hub.streams ++ (stream ∷ []);
          by_user = set_user user (hub.by_user user ++ (stream ∷ [])) hub.by_user;
        },
        record { to = stream; frame = ready } ∷ [],
      ),
    )

-- `open`: the refusal, if any, and the `ready` frame.
unfoldable pub open_stream :
    LiveOptions → (user id : ℕ) → LiveHub → Option LiveRefusal × (LiveHub × List Write)
open_stream options user id hub = when_refused user id hub (refusal options user hub)

abbrev pub is_other : Stream → Stream → Bool
is_other a b = not (b.id == a.id)

-- `release`, of a stream that is open or was closed before.
unfoldable pub release_stream : Stream → LiveHub → LiveHub
release_stream stream hub =
    if any (λ s. s.id == stream.id) hub.streams
    then record hub {
      streams = filter (is_other stream) hub.streams;
      by_user =
          set_user stream.user_id (filter (is_other stream) (hub.by_user stream.user_id))
            hub.by_user;
    }
    else hub

abbrev pub write_all : Frame → List Stream → List Write
write_all frame [] = []
write_all frame (s ∷ ss) = record { to = s; frame = frame } ∷ write_all frame ss

-- `sendBoard`
unfoldable pub send_board : (now : ℕ) → LiveHub → LiveHub × List Write
send_board now hub = (record hub { last_board_at = some now }, write_all board hub.streams)

abbrev pub due_at : LiveOptions → Option ℕ → Option ℕ
due_at options none = none
due_at options (some last) = some (last + options.board_interval_ms)

abbrev pub when_due : (now : ℕ) → LiveHub → Option ℕ → LiveHub × List Write
when_due now hub none = send_board now hub
when_due now hub (some due) =
    if leb due now then send_board now hub else (record hub { pending_board = some due }, [])

abbrev pub unless_pending : LiveOptions → (now : ℕ) → LiveHub → Option ℕ → LiveHub × List Write
unless_pending options now hub (some due) = (hub, [])
unless_pending options now hub none = when_due now hub (due_at options hub.last_board_at)

-- `board`
unfoldable pub send_board_later : LiveOptions → (now : ℕ) → LiveHub → LiveHub × List Write
unfolding send_board
send_board_later options now hub = unless_pending options now hub hub.pending_board

-- The timer that `board` sets.
unfoldable pub board_due : (now : ℕ) → LiveHub → LiveHub × List Write
unfolding send_board
board_due now hub = send_board now (record hub { pending_board = none })

-- `OrderStatusChangedPayload`
pub record StatusChange : Type 0 where
  pub order_id : ℕ
  pub previous_status : Option OrderStatus
  pub new_status : OrderStatus
  pub order_version : Option ℕ

abbrev pub is_open : Option OrderStatus → Bool
is_open none = false
is_open (some s) = status_index s == status_index open_

-- The users of the `Set` of an errand's participants.
abbrev pub users_of : Participants → List ℕ
users_of who = elim who.courier_id [
  | none ↦ who.requester_id ∷ []
  | some courier ↦
      if courier == who.requester_id then who.requester_id ∷ [] else who.requester_id ∷ courier ∷ []
]

abbrev pub write_users : Frame → List ℕ → (ℕ → List Stream) → List Write
write_users frame [] by_user = []
write_users frame (u ∷ us) by_user = write_all frame (by_user u) ++ write_users frame us by_user

-- What the participants' streams are sent; a failed or empty read sends nothing.
abbrev pub nudges : StatusChange → Option Participants → LiveHub → List Write
nudges change none hub = []
nudges change (some who) hub =
    write_users (errand change.order_id change.order_version) (users_of who) hub.by_user

abbrev pub announce : LiveOptions → (now : ℕ) → StatusChange → LiveHub → LiveHub × List Write
announce options now change hub =
    if is_open change.previous_status || is_open (some change.new_status)
    then send_board_later options now hub
    else (hub, [])

-- `changed`; `who` is what `participantsOf` returned.
unfoldable pub changed :
    LiveOptions → (now : ℕ) → StatusChange → Option Participants → LiveHub → LiveHub × List Write
unfolding send_board_later
changed options now change who hub =
    if length hub.streams == 0
    then (hub, [])
    else (let sent = announce options now change hub in
        (sent.0, sent.1 ++ nudges change who sent.0))

abbrev pub release_all : List Stream → LiveHub → LiveHub
release_all [] hub = hub
release_all (s ∷ ss) hub = release_all ss (release_stream s hub)

-- `onModuleDestroy`
unfoldable pub stop : LiveHub → LiveHub
unfolding release_stream
stop hub = record (release_all hub.streams (record hub { stopping = true })) {
  pending_board = none;
}
