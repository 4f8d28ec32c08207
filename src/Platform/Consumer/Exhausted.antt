-- ===== src/Platform/Consumer/Exhausted.antt =====
-- platform/src/events/consumer.ts: a message that its handler always fails on, and one that fails the
-- checks.
use foc_app.Common.{
  ℕ, zero, suc, ◌+◌, ◌<◌, ◌≤◌, Bool, true, false, Option, some, [], List, ◌∷◌, leb, ◌≡◌, ◌⊎◌, inl,
  inr, refl, ap, ◌∙◌, arith, Bool-cases,
}
use foc_app.Platform.Consumer.{
  Delivery, BrokerConnection, SubscribeOptions, Envelope, thrown, rejected_as, HandlerError,
  stale_event, unparseable_message, predecessor_missing, other_error, Rejection, rejected, accepted,
  rejection, exhausted, Settlement, dropped, dead_lettered, Handled, max_attempts,
  queue_is_transient, resend, marked, attempt_of, check, retry_or_dead_letter, after_handler,
  handle, is_level, journey,
}
use foc_app.Platform.Consumer.Journey.{check-again}
use foc_app.Platform.Consumer.Attempts.{resent_attempt}

-- What a handler throws that is tried again.
abbrev pub is_retriable : HandlerError → Bool
is_retriable stale_event = false
is_retriable unparseable_message = false
is_retriable predecessor_missing = true
is_retriable (other_error why) = true

-- A handler that fails on the event every time.
abbrev pub AlwaysFails : (handler : Envelope → ℕ → Option HandlerError) → Envelope → Type 0
AlwaysFails handler e =
    (n : ℕ) → (x : HandlerError) × (handler e n ≡ some x) × (is_retriable x ≡ true)

retriable_fails :
    (b : BrokerConnection) (o : SubscribeOptions) (d : Delivery) (x : HandlerError)
    → is_retriable x ≡ true
    → queue_is_transient b o.queue ≡ false
    → after_handler b o d (some x) ≡ retry_or_dead_letter b o d x
retriable_fails b o d stale_event r q = absurd (ground arith)
retriable_fails b o d unparseable_message r q = absurd (ground arith)
retriable_fails b o d predecessor_missing r q = rw q refl
retriable_fails b o d (other_error why) r q = rw q refl

-- The handler's calls for `n` consecutive attempts, starting with `attempt`.
abbrev pub tries : Envelope → (attempt n : ℕ) → List (Envelope × ℕ)
tries e attempt zero = []
tries e attempt (suc n) = (e, attempt) ∷ tries e (attempt + 1) n

-- A message that passes the checks, on a durable queue, at an attempt between the first and the
-- maximum, whose handler fails every time with an error that is tried again: given more fuel than
-- attempts are left, the handler gets it once at each attempt from the one on it to the maximum, in
-- this order; then it is set aside as exhausted, with the maximum on it.
pub always_failing :
    (b : BrokerConnection) (o : SubscribeOptions) (handler : Envelope → ℕ → Option HandlerError)
    (fuel : ℕ) (d : Delivery) (e : Envelope)
    → check b o d ≡ accepted e
    → queue_is_transient b o.queue ≡ false
    → AlwaysFails handler e
    → 1 ≤ attempt_of d
    → attempt_of d ≤ max_attempts b
    → max_attempts b < attempt_of d + fuel
    → (h : Handled) × (journey b o handler fuel d ≡ some h)
      × ((n : ℕ) × (n + attempt_of d ≡ max_attempts b + 1) × (h.calls ≡ tries e (attempt_of d) n))
      × ((d' : Delivery) × (h.settlement ≡ dead_lettered exhausted d')
          × (attempt_of d' ≡ max_attempts b))
unfolding journey handle
always_failing b o handler zero d e c q fails first last enough = absurd (omega arith)
always_failing b o handler (suc fuel) d e c q fails first last enough =
    let error = fails (attempt_of d) in
    elim (Bool-cases (leb (max_attempts b) (attempt_of d))) [
      | inl t ↦
          let at_last : attempt_of d ≡ max_attempts b = ground arith in
          rw (c, error.1, retriable_fails b o d error.0 error.2 q, t)
            (
              _,
              refl,
              (1, omega (arith, at_last), refl),
              (_, refl, resent_attempt o (thrown error.0) (attempt_of d) d b.account ∙ at_last),
            )
      | inr f ↦
          let next = resent_attempt o (thrown error.0) (attempt_of d + 1) d b.account in
          let l : is_level b (attempt_of d) ≡ true = ground arith in
          let rest =
            always_failing b o handler fuel
              (resend (marked o (thrown error.0) (attempt_of d + 1) d) b.account) e
              (check-again b o (thrown error.0) (attempt_of d + 1) d e c) q fails
              (omega (arith, next)) (ground (arith, next)) (omega (arith, next)) in
          rw (c, error.1, retriable_fails b o d error.0 error.2 q, f, l, rest.1)
            (
              _,
              refl,
              (
                suc rest.2.0,
                omega (arith, next, rest.2.1),
                ap (λ (l : List (Envelope × ℕ)). (e, attempt_of d) ∷ l)
                    (rest.2.2 ∙ ap (λ (a : ℕ). tries e a rest.2.0) next),
              ),
              rest.3,
            )
    ]

-- A message that fails a check never reaches the handler and is never retried: on a durable queue it
-- is set aside with the reason that the check gave, on a transient one it is dropped.
pub rejected_once :
    (b : BrokerConnection) (o : SubscribeOptions) (handler : Envelope → ℕ → Option HandlerError)
    (fuel : ℕ) (d : Delivery) (why : Rejection)
    → check b o d ≡ rejected why
    → (s : Settlement) × (journey b o handler (suc fuel) d
        ≡ some (record { calls = []; settlement = s }))
      × (((queue_is_transient b o.queue ≡ true) × (s ≡ dropped))
          ⊎ ((queue_is_transient b o.queue ≡ false)
              × ((d' : Delivery) × (s ≡ dead_lettered (rejection why) d')
                  × (d'.content ≡ d.content)
                  × (attempt_of d' ≡ attempt_of d))))
unfolding journey handle resend
rejected_once b o handler fuel d why c = elim (Bool-cases (queue_is_transient b o.queue)) [
  | inl t ↦ rw (c, t) (_, refl, inl (refl, refl))
  | inr f ↦
      rw (c, f)
        (
          _,
          refl,
          inr (
            refl,
            (_, refl, refl, resent_attempt o (rejected_as why) (attempt_of d) d b.account),
          ),
        )
]
