-- ===== src/Platform/Consumer/Attempts.antt =====
-- platform/src/events/consumer.ts: how often the handler gets a message, and where the message ends.
use foc_app.Common.{
  ℕ, zero, suc, ◌+◌, ◌<◌, ◌≤◌, true, Option, none, some, List, [], ◌∷◌, ◌++◌, leb, length, ◌≡◌, inl,
  inr, refl, arith, Bool-cases, Option-cases,
}
use foc_app.Platform.Consumer.{
  Delivery, BrokerConnection, SubscribeOptions, Envelope, Failure, thrown, rejected_as,
  HandlerError, stale_event, unparseable_message, predecessor_missing, other_error, Rejection,
  unparseable, Parsed, rejected, accepted, Settlement, acknowledged, dropped, dead_lettered,
  retried, Handled, max_attempts, queue_is_transient, sender_of, resend, marked, attempt_of, check,
  reject, failed_handler, after_handler, handle_checked, handle, is_level, comes_back, journey,
}
use foc_app.Platform.Consumer.Journey.{is_final, Onward}

pub resent_attempt :
    (o : SubscribeOptions) (why : Failure) (n : ℕ) (d : Delivery) (account : Option ℕ)
    → attempt_of (resend (marked o why n d) account) ≡ n
unfolding resend
resent_attempt o why n d account = elim (Option-cases (sender_of (marked o why n d) account)) [
  | inl e ↦ rw e refl
  | inr (s, e) ↦ rw e refl
]

module _ (b : BrokerConnection) (o : SubscribeOptions) where
  reject-Onward :
      (d : Delivery) (why : Rejection) (f : Failure) → Onward b (attempt_of d) (reject b o d why f)
  reject-Onward d why f = elim (Bool-cases (queue_is_transient b o.queue)) [
    | inl t ↦ rw t (inl refl)
    | inr k ↦ rw k (inl refl)
  ]

  failed_handler-Onward :
      (d : Delivery) (why : HandlerError)
      → 1 ≤ attempt_of d
      → Onward b (attempt_of d) (failed_handler b o d why)
  failed_handler-Onward d why h = elim (Bool-cases (queue_is_transient b o.queue)) [
    | inl t ↦ rw t (inl refl)
    | inr k ↦ elim (Bool-cases (leb (max_attempts b) (attempt_of d))) [
      | inl t ↦ rw (k, t) (inl refl)
      | inr f ↦
          rw (k, f)
            (inr (
              attempt_of d,
              _,
              refl,
              ground arith,
              resent_attempt o (thrown why) (attempt_of d + 1) d b.account,
              ground arith,
            ))
    ]
  ]

  after_handler-Onward :
      (d : Delivery) (result : Option HandlerError)
      → 1 ≤ attempt_of d
      → Onward b (attempt_of d) (after_handler b o d result)
  after_handler-Onward d none h = inl refl
  after_handler-Onward d (some stale_event) h = inl refl
  after_handler-Onward d (some unparseable_message) h = reject-Onward d unparseable _
  after_handler-Onward d (some predecessor_missing) h =
      failed_handler-Onward d predecessor_missing h
  after_handler-Onward d (some (other_error why)) h = failed_handler-Onward d (other_error why) h

  module _ (handler : Envelope → ℕ → Option HandlerError) where
    handle_checked-Onward :
        (d : Delivery) (p : Parsed)
        → 1 ≤ attempt_of d
        → Onward b (attempt_of d) (handle_checked b o handler d p).settlement
          × (length (handle_checked b o handler d p).calls ≤ 1)
    handle_checked-Onward d (rejected why) h = (reject-Onward d why (rejected_as why), omega arith)
    handle_checked-Onward d (accepted e) h =
        (after_handler-Onward d (handler e (attempt_of d)) h, omega arith)

    final_stays : (s : Settlement) → is_final s ≡ true → comes_back b s ≡ none
    final_stays acknowledged e = refl
    final_stays dropped e = refl
    final_stays (dead_lettered reason d) e = refl
    final_stays (retried level d) e = absurd (ground arith)

    retry_returns :
        (s : Settlement) (level : ℕ) (d : Delivery)
        → s ≡ retried level d
        → is_level b level ≡ true
        → comes_back b s ≡ some d
    retry_returns s level d e l = rw (e, l) refl

length-++ : (xs ys : List (Envelope × ℕ)) → length (xs ++ ys) ≡ length xs + length ys
length-++ [] ys = omega arith
length-++ (x ∷ xs) ys = omega (arith, length-++ xs ys)

-- A message on its first attempt or a later one is settled for good, and the handler gets it at most
-- once for each attempt that is left.
pub journey_settles :
    (b : BrokerConnection) (o : SubscribeOptions) (handler : Envelope → ℕ → Option HandlerError)
    (fuel : ℕ) (d : Delivery)
    → 1 ≤ attempt_of d
    → attempt_of d ≤ max_attempts b
    → max_attempts b < attempt_of d + fuel
    → (h : Handled) × (journey b o handler fuel d ≡ some h)
      × (is_final h.settlement ≡ true)
      × (length h.calls + attempt_of d ≤ max_attempts b + 1)
unfolding journey handle
journey_settles b o handler zero d first last enough = absurd (omega arith)
journey_settles b o handler (suc fuel) d first last enough =
    let onward = handle_checked-Onward b o handler d (check b o d) first in
    elim onward.0 [
      | inl e ↦
          rw (final_stays b o handler (handle_checked b o handler d (check b o d)).settlement e)
            (handle_checked b o handler d (check b o d), refl, e, omega (arith, onward.1))
      | inr (level, d', e, l, next, most) ↦
          let rest =
            journey_settles b o handler fuel d' (omega arith) (omega arith) (omega arith) in
          rw
            (
              retry_returns b o handler (handle_checked b o handler d (check b o d)).settlement
                  level d' e l,
              rest.1,
            )
            (
              record (rest.0) {
                calls = (handle_checked b o handler d (check b o d)).calls ++ rest.0.calls;
              },
              refl,
              rest.2,
              omega (
                arith,
                onward.1,
                next,
                rest.3,
                length-++ (handle_checked b o handler d (check b o d)).calls rest.0.calls,
              ),
            )
    ]
