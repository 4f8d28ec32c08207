-- ===== src/Order/Live/Limits.antt =====
-- order-service/src/orders/live/live-hub.ts: the limits on open streams, over any life of the hub.
use foc_app.Common.{
  ℕ, ◌+◌, ◌≤◌, ◌≡◌, Bool, true, false, Option, none, some, List, [], ◌∷◌, ◌++◌, length, filter, any,
  All, ◌==◌, refl, subst, arith, Bool-cases, inl, inr,
}
use foc_app.Order.Live.{
  LiveOptions, LiveRefusal, LiveHub, Stream, Participants, StatusChange, refusal, set_user,
  open_stream, is_other, release_stream, release_all, board_due, changed, stop, when_refused,
}

-- What holds of the hub between two calls.
pub record HubValid (options : LiveOptions) (hub : LiveHub) : Type 0 where
  pub instance_limit : length hub.streams ≤ options.per_instance
  pub user_limit : (u : ℕ) → length (hub.by_user u) ≤ options.per_user
  pub own : (u : ℕ) → All (λ s. s.user_id ≡ u) (hub.by_user u)

length-filter : (p : Stream → Bool) (ss : List Stream) → length (filter p ss) ≤ length ss
length-filter p [] = ground arith
length-filter p (s ∷ ss) = ground (arith, length-filter p ss)

length-snoc : (s : Stream) (ss : List Stream) → length (ss ++ (s ∷ [])) ≡ length ss + 1
length-snoc s [] = refl
length-snoc s (x ∷ ss) = ground (arith, length-snoc s ss)

pub filter-All :
    (P : Stream → Type 0) (p : Stream → Bool) (ss : List Stream) → All P ss → All P (filter p ss)
filter-All P p [] h = tt
filter-All P p (s ∷ ss) h = elim (Bool-cases (p s)) [
  | inl t ↦ rw t (h.0, filter-All P p ss h.1)
  | inr f ↦ rw f (filter-All P p ss h.1)
]

pub snoc-All :
    (P : Stream → Type 0) (s : Stream) (ss : List Stream) → All P ss → P s → All P (ss ++ (s ∷ []))
snoc-All P s [] h q = (q, tt)
snoc-All P s (x ∷ ss) h q = (h.0, snoc-All P s ss h.1 q)

set_user-All :
    (user : ℕ) (own : List Stream) (by_user : ℕ → List Stream)
    → All (λ s. s.user_id ≡ user) own
    → ((u : ℕ) → All (λ s. s.user_id ≡ u) (by_user u))
    → (u : ℕ) → All (λ s. s.user_id ≡ u) (set_user user own by_user u)
set_user-All user own by_user mine rest u = elim (Bool-cases (u == user)) [
  | inl same ↦
      let eq : user ≡ u = ground (arith, same) in
      rw same (subst (λ v. All (λ s. s.user_id ≡ v) own) eq mine)
  | inr other ↦ rw other (rest u)
]

module _ (options : LiveOptions) where
  when_refused-HubValid :
      (user id : ℕ) (hub : LiveHub) (refused : Option LiveRefusal)
      → refusal options user hub ≡ refused
      → HubValid options hub
      → HubValid options (when_refused user id hub refused).1.0
  unfolding refusal
  when_refused-HubValid user id hub (some r) e valid = valid
  when_refused-HubValid user id hub none e valid = record {
    instance_limit =
        ground (arith, e, length-snoc (record { id = id; user_id = user }) hub.streams);
    user_limit = λ u. ground (
      arith,
      e,
      valid.user_limit u,
      length-snoc (record { id = id; user_id = user }) (hub.by_user user),
    );
    own =
        set_user-All user (hub.by_user user ++ (record { id = id; user_id = user } ∷ []))
          hub.by_user
          (snoc-All (λ s. s.user_id ≡ user) (record { id = id; user_id = user }) (hub.by_user user)
            (valid.own user) refl)
          valid.own;
  }

  release_stream-HubValid :
      (s : Stream) (hub : LiveHub) → HubValid options hub → HubValid options (release_stream s hub)
  unfolding release_stream
  release_stream-HubValid s hub valid = elim (Bool-cases (any (λ x. x.id == s.id) hub.streams)) [
    | inr closed ↦ rw closed valid
    | inl opened ↦ rw opened (record {
      instance_limit = ground (arith, valid.instance_limit, length-filter (is_other s) hub.streams);
      user_limit = λ u. ground (
        arith,
        valid.user_limit u,
        valid.user_limit s.user_id,
        length-filter (is_other s) (hub.by_user s.user_id),
      );
      own =
          set_user-All s.user_id (filter (is_other s) (hub.by_user s.user_id)) hub.by_user
            (filter-All (λ x. x.user_id ≡ s.user_id) (is_other s) (hub.by_user s.user_id)
              (valid.own s.user_id))
            valid.own;
    })
  ]

  release_all-HubValid :
      (ss : List Stream) (hub : LiveHub)
      → HubValid options hub
      → HubValid options (release_all ss hub)
  release_all-HubValid [] hub valid = valid
  release_all-HubValid (s ∷ ss) hub valid =
      release_all-HubValid ss (release_stream s hub) (release_stream-HubValid s hub valid)

-- The calls that reach a hub.
pub data Step : Type 0 where
  opens : (user id : ℕ) → Step
  closes : Stream → Step
  changes : (now : ℕ) → StatusChange → Option Participants → Step
  board_timer : (now : ℕ) → Step
  stops : Step

unfoldable pub next_hub : LiveOptions → Step → LiveHub → LiveHub
next_hub options (opens user id) hub = (open_stream options user id hub).1.0
next_hub options (closes stream) hub = release_stream stream hub
next_hub options (changes now change who) hub = (changed options now change who hub).0
next_hub options (board_timer now) hub = (board_due now hub).0
next_hub options stops hub = stop hub

unfoldable pub run_hub : LiveOptions → List Step → LiveHub → LiveHub
unfolding next_hub
run_hub options [] hub = hub
run_hub options (step ∷ steps) hub = run_hub options steps (next_hub options step hub)

-- A hub that has just started.
abbrev pub empty_hub : LiveHub
empty_hub = record {
  streams = [];
  by_user = λ u. [];
  last_board_at = none;
  pending_board = none;
  stopping = false;
}

same-HubValid :
    (options : LiveOptions) (hub hub' : LiveHub)
    → hub'.streams ≡ hub.streams
    → hub'.by_user ≡ hub.by_user
    → HubValid options hub
    → HubValid options hub'
same-HubValid options hub hub' streams_kept users_kept valid = record {
  instance_limit = rw streams_kept valid.instance_limit;
  user_limit = λ u. rw users_kept (valid.user_limit u);
  own = λ u. rw users_kept (valid.own u);
}

next_hub-HubValid :
    (options : LiveOptions) (step : Step) (hub : LiveHub)
    → HubValid options hub
    → HubValid options (next_hub options step hub)
unfolding next_hub
next_hub-HubValid options (opens user id) hub valid =
    unfold open_stream in
    when_refused-HubValid options user id hub (refusal options user hub) refl valid
next_hub-HubValid options (closes stream) hub valid =
    release_stream-HubValid options stream hub valid
next_hub-HubValid options (changes now change who) hub valid =
    same-HubValid options hub _ (unfold changed in ground arith) (unfold changed in ground arith)
      valid
next_hub-HubValid options (board_timer now) hub valid =
    same-HubValid options hub _ (unfold board_due in refl) (unfold board_due in refl) valid
next_hub-HubValid options stops hub valid =
    unfold stop in
    same-HubValid options _ _ refl refl (
      release_all-HubValid options hub.streams (record hub { stopping = true })
        (same-HubValid options hub _ refl refl valid))

run_hub-HubValid :
    (options : LiveOptions) (steps : List Step) (hub : LiveHub)
    → HubValid options hub
    → HubValid options (run_hub options steps hub)
unfolding run_hub
run_hub-HubValid options [] hub valid = valid
run_hub-HubValid options (step ∷ steps) hub valid =
    run_hub-HubValid options steps (next_hub options step hub)
      (next_hub-HubValid options step hub valid)

empty_hub-HubValid : (options : LiveOptions) → HubValid options empty_hub
empty_hub-HubValid options = record {
  instance_limit = ground arith;
  user_limit = λ u. ground arith;
  own = λ u. tt;
}

-- Whatever calls reach a new hub, in whatever order, its open streams stay within the limit of the
-- instance, each user's within the limit of a user, and a user's streams are that user's.
pub reachable-HubValid :
    (options : LiveOptions) (steps : List Step) → HubValid options (run_hub options steps empty_hub)
reachable-HubValid options steps =
    run_hub-HubValid options steps empty_hub (empty_hub-HubValid options)
