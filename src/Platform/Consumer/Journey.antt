-- ===== src/Platform/Consumer/Journey.antt =====
-- platform/src/events/consumer.ts: what becomes of a message over all of its attempts.
use foc_app.Common.{
  ℕ, ◌+◌, ◌≤◌, Bool, true, false, Option, none, some, List, ◌≡◌, ◌⊎◌, inl, inr, ◌∙◌, arith,
  Bool-cases, Option-cases,
}
use foc_app.Platform.Consumer.{
  Delivery, BrokerConnection, SubscribeOptions, Envelope, Failure, Parsed, rejected, accepted,
  Settlement, acknowledged, dropped, dead_lettered, retried, max_attempts, verifies_senders,
  includes, sender_of, resend, marked, attempt_of, trusted_sender, checked_sender, checked_producer,
  checked_envelope, check, parse_envelope, is_level,
}
use foc_app.Platform.Consumer.Senders.{named_resend, unnamed_sender, marked_sender}

module _ (b : BrokerConnection) (o : SubscribeOptions) (why : Failure) (n : ℕ) (d : Delivery) where
  abbrev again : Delivery
  again = resend (marked o why n d) b.account

  same_sender :
      (expected : List ℕ)
      → verifies_senders b ≡ true
      → trusted_sender expected (sender_of d b.account) ≡ true
      → sender_of again b.account ≡ sender_of d b.account
  same_sender expected v t = elim (Option-cases b.account) [
    | inl k ↦ absurd (ground arith)
    | inr (a, k) ↦ elim (Option-cases d.user_id) [
      | inl u ↦ let unknown = unnamed_sender d b.account u in absurd (ground arith)
      | inr (u, e) ↦ rw k (named_resend a u (marked o why n d) e ∙ marked_sender o why n (some a) d)
    ]
  ]

  sender_again :
      (expected : List ℕ) (e e' : Envelope)
      → checked_sender b expected d e ≡ accepted e'
      → checked_sender b expected again e ≡ accepted e'
  sender_again expected e e' h = elim (Bool-cases (verifies_senders b)) [
    | inr f ↦ ground arith
    | inl v ↦ elim (Bool-cases (trusted_sender expected (sender_of d b.account))) [
      | inr f ↦ absurd (ground arith)
      | inl t ↦ rw (same_sender expected v t) h
    ]
  ]

  producer_again :
      (expected : Option (List ℕ)) (e e' : Envelope)
      → checked_producer b expected d e ≡ accepted e'
      → checked_producer b expected again e ≡ accepted e'
  producer_again none e e' h = h
  producer_again (some expected) e e' h = elim (Bool-cases (includes expected e.producer)) [
    | inr f ↦ absurd (ground arith)
    | inl t ↦ rw t (sender_again expected e e' (rw t at h))
  ]

  envelope_again :
      (p : Parsed) (e' : Envelope)
      → checked_envelope b o d p ≡ accepted e'
      → checked_envelope b o again p ≡ accepted e'
  envelope_again (rejected why) e' h = h
  envelope_again (accepted e) e' h = elim (Bool-cases (includes o.event_types e.event_type)) [
    | inr f ↦ absurd (ground arith)
    | inl t ↦ rw t (producer_again o.expected_producer e e' (rw t at h))
  ]

  -- A message that passed the checks passes them again when it comes back from a retry.
  pub check-again : (e : Envelope) → check b o d ≡ accepted e → check b o again ≡ accepted e
  unfolding check resend
  check-again e h = envelope_again (parse_envelope o d.content) e h

-- The message will not be delivered again.
abbrev pub is_final : Settlement → Bool
is_final acknowledged = true
is_final dropped = true
is_final (dead_lettered reason d) = true
is_final (retried level d) = false

-- A settlement at the last attempt or an earlier one: final, or a retry at a level that exists, one
-- attempt later.
abbrev pub Onward : BrokerConnection → ℕ → Settlement → Type 0
Onward b attempt s =
    (is_final s ≡ true)
    ⊎ ((level : ℕ) × (d : Delivery) × (s ≡ retried level d)
        × (is_level b level ≡ true)
        × (attempt_of d ≡ attempt + 1)
        × (attempt + 1 ≤ max_attempts b))
