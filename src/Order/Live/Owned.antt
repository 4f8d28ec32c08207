-- ===== src/Order/Live/Owned.antt =====
-- order-service/src/orders/live/live-hub.ts: how many streams of one user are open, over any life of the hub.
use foc_app.Common.{
  ℕ, ◌≤◌, ◌≡◌, Bool, true, false, Option, none, some, List, [], ◌∷◌, ◌++◌, length, filter, any, All,
  ◌==◌, refl, ◌∙◌, ap, arith, Bool-cases, inl, inr,
}
use foc_app.Order.Live.{
  LiveOptions, LiveRefusal, LiveHub, Stream, is_other, refusal, open_stream, release_stream,
  release_all, when_refused, changed, board_due, stop,
}
use foc_app.Order.Live.Limits.{
  Step, opens, closes, changes, board_timer, stops, next_hub, run_hub, empty_hub, filter-All,
  snoc-All, reachable-HubValid,
}

abbrev pub is_of : ℕ → Stream → Bool
is_of u s = s.user_id == u

filter-snoc :
    (p : Stream → Bool) (s : Stream) (ss : List Stream)
    → filter p (ss ++ (s ∷ [])) ≡ filter p ss ++ filter p (s ∷ [])
filter-snoc p s [] = refl
filter-snoc p s (x ∷ ss) = ground (arith, filter-snoc p s ss)

filter-swap :
    (p q : Stream → Bool) (ss : List Stream) → filter p (filter q ss) ≡ filter q (filter p ss)
filter-swap p q [] = refl
filter-swap p q (s ∷ ss) = ground (arith, filter-swap p q ss)

append-nil : (ss : List Stream) → ss ++ [] ≡ ss
append-nil [] = refl
append-nil (s ∷ ss) = ap (λ (xs : List Stream). s ∷ xs) (append-nil ss)

module _ (owner : ℕ → ℕ) where
  -- A stream object has one user, whose it stays.
  abbrev pub IsOwned : Stream → Type 0
  IsOwned s = owner s.id ≡ s.user_id

  abbrev pub IsOwnedStep : Step → Type 0
  IsOwnedStep (opens user id) = owner id ≡ user
  IsOwnedStep (closes stream) = IsOwned stream
  IsOwnedStep (changes now change who) = Unit
  IsOwnedStep (board_timer now) = Unit
  IsOwnedStep stops = Unit

  -- The map of a user's streams holds those of the open streams that are the user's.
  record Mirrored (hub : LiveHub) : Type 0 where
    owned : All IsOwned hub.streams
    mirrored : (u : ℕ) → filter (is_of u) hub.streams ≡ hub.by_user u

  filter-other :
      (s : Stream) (u : ℕ) (ss : List Stream)
      → IsOwned s
      → All IsOwned ss
      → (u == s.user_id) ≡ false
      → filter (is_of u) (filter (is_other s) ss) ≡ filter (is_of u) ss
  filter-other s u [] mine all distinct = refl
  filter-other s u (x ∷ ss) mine all distinct =
      ground (arith, mine, all.0, distinct, filter-other s u ss mine all.1 distinct)

  when_refused-Mirrored :
      (user id : ℕ) (hub : LiveHub) (refused : Option LiveRefusal)
      → owner id ≡ user
      → Mirrored hub
      → Mirrored (when_refused user id hub refused).1.0
  when_refused-Mirrored user id hub (some r) mine m = m
  when_refused-Mirrored user id hub none mine m =
      let stream : Stream = record { id = id; user_id = user } in
      record {
        owned = snoc-All IsOwned stream hub.streams m.owned mine;
        mirrored = λ u. elim (Bool-cases (u == user)) [
          | inl same ↦
              let here : (user == u) ≡ true = ground (arith, same) in
              let eq : u ≡ user = ground (arith, same) in
              rw (filter-snoc (is_of u) stream hub.streams, here, same, m.mirrored u, eq) refl
          | inr other ↦
              let elsewhere : (user == u) ≡ false = ground (arith, other) in
              rw (filter-snoc (is_of u) stream hub.streams, elsewhere, other, m.mirrored u)
                (append-nil (hub.by_user u))
        ];
      }

  release_stream-Mirrored :
      (s : Stream) (hub : LiveHub) → IsOwned s → Mirrored hub → Mirrored (release_stream s hub)
  unfolding release_stream
  release_stream-Mirrored s hub mine m = elim (Bool-cases (any (λ x. x.id == s.id) hub.streams)) [
    | inr closed ↦ rw closed m
    | inl opened ↦ rw opened (record {
      owned = filter-All IsOwned (is_other s) hub.streams m.owned;
      mirrored = λ u. elim (Bool-cases (u == s.user_id)) [
        | inl same ↦
            let eq : u ≡ s.user_id = ground (arith, same) in
            rw (same, ← eq, ← m.mirrored u) (filter-swap (is_of u) (is_other s) hub.streams)
        | inr other ↦ rw other (filter-other s u hub.streams mine m.owned other ∙ m.mirrored u)
      ];
    })
  ]

  release_all-Mirrored :
      (ss : List Stream) (hub : LiveHub)
      → All IsOwned ss
      → Mirrored hub
      → Mirrored (release_all ss hub)
  release_all-Mirrored [] hub all m = m
  release_all-Mirrored (s ∷ ss) hub all m =
      release_all-Mirrored ss (release_stream s hub) all.1 (release_stream-Mirrored s hub all.0 m)

  same-Mirrored :
      (hub hub' : LiveHub)
      → hub'.streams ≡ hub.streams
      → hub'.by_user ≡ hub.by_user
      → Mirrored hub
      → Mirrored hub'
  same-Mirrored hub hub' streams_kept users_kept m = record {
    owned = rw streams_kept m.owned;
    mirrored = λ u. rw (streams_kept, users_kept) (m.mirrored u);
  }

  next_hub-Mirrored :
      (options : LiveOptions) (step : Step) (hub : LiveHub)
      → IsOwnedStep step
      → Mirrored hub
      → Mirrored (next_hub options step hub)
  unfolding next_hub
  next_hub-Mirrored options (opens user id) hub mine m =
      unfold open_stream in when_refused-Mirrored user id hub (refusal options user hub) mine m
  next_hub-Mirrored options (closes stream) hub mine m = release_stream-Mirrored stream hub mine m
  next_hub-Mirrored options (changes now change who) hub mine m =
      same-Mirrored hub _ (unfold changed in ground arith) (unfold changed in ground arith) m
  next_hub-Mirrored options (board_timer now) hub mine m =
      same-Mirrored hub _ (unfold board_due in refl) (unfold board_due in refl) m
  next_hub-Mirrored options stops hub mine m =
      unfold stop in
      same-Mirrored _ _ refl refl (
        release_all-Mirrored hub.streams (record hub { stopping = true }) m.owned
          (same-Mirrored hub _ refl refl m))

  run_hub-Mirrored :
      (options : LiveOptions) (steps : List Step) (hub : LiveHub)
      → All IsOwnedStep steps
      → Mirrored hub
      → Mirrored (run_hub options steps hub)
  unfolding run_hub
  run_hub-Mirrored options [] hub mine m = m
  run_hub-Mirrored options (step ∷ steps) hub mine m =
      run_hub-Mirrored options steps (next_hub options step hub) mine.1
        (next_hub-Mirrored options step hub mine.0 m)

  -- If every stream object has one user: whatever calls reach a new hub, in whatever order, its open
  -- streams stay within the limit of the instance, and those of them that are one user's within the
  -- limit of a user.
  pub open_streams_limited :
      (options : LiveOptions) (steps : List Step)
      → All IsOwnedStep steps
      → (length (run_hub options steps empty_hub).streams ≤ options.per_instance)
        × ((u : ℕ)
            → length (filter (is_of u) (run_hub options steps empty_hub).streams)
              ≤ options.per_user)
  open_streams_limited options steps mine =
      let m =
        run_hub-Mirrored options steps empty_hub mine
          (record { owned = tt; mirrored = λ u. refl }) in
      let valid = reachable-HubValid options steps in
      (valid.instance_limit, λ u. rw (m.mirrored u) (valid.user_limit u))
