-- ===== src/Platform/Consumer/Senders.antt =====
-- platform/src/events/sender.ts: who a message that is published again counts as sent by.
use foc_app.Common.{ℕ, Option, none, some, ◌==◌, ◌≡◌, refl, arith, ◌∙◌, Bool-cases, Option-cases}
use foc_app.Platform.Consumer.{
  Delivery, Headers, SubscribeOptions, Failure, own_sender, sender_by, sender_of, resend, redrive,
  kept_sender, marked,
}

-- A message that names its publisher keeps its sender.
pub named_resend :
    (a u : ℕ) (d : Delivery)
    → d.user_id ≡ some u
    → sender_of (resend d (some a)) (some a) ≡ sender_of d (some a)
unfolding sender_of resend
named_resend a u d e = rw e (named a u d.headers)
  where
    named :
        (a u : ℕ) (h : Headers)
        → sender_by (some a) (some a) (kept_sender (sender_by (some u) (some a) h.sender) h).sender
          ≡ sender_by (some u) (some a) h.sender
    named a u h = ground (arith, Option-cases h.sender, Bool-cases (u == a))

-- One that names none counts as sent by whom its header names, or by the service itself.
pub unnamed_resend :
    (a : ℕ) (d : Delivery)
    → d.user_id ≡ none
    → sender_of (resend d (some a)) (some a) ≡ own_sender a d.headers.sender
unfolding sender_of resend
unnamed_resend a d e = rw e (ground arith)

resent_user : (d : Delivery) (a : ℕ) → (resend d (some a)).user_id ≡ some a
unfolding resend
resent_user d a = refl

pub unnamed_sender :
    (d : Delivery) (own_account : Option ℕ) → d.user_id ≡ none → sender_of d own_account ≡ none
unfolding sender_of
unnamed_sender d own_account e = rw e refl

pub marked_sender :
    (o : SubscribeOptions) (why : Failure) (n : ℕ) (own_account : Option ℕ) (d : Delivery)
    → sender_of (marked o why n d) own_account ≡ sender_of d own_account
unfolding sender_of
marked_sender o why n own_account d = refl

redrive_sender :
    (d : Delivery) (a : ℕ)
    → sender_of (redrive d (some a)) (some a) ≡ sender_of (resend d (some a)) (some a)
unfolding sender_of redrive resend
redrive_sender d a = refl

-- A message that was set aside and redriven counts as sent by the same account as before if it
-- named its publisher. If it named none, and so had no sender, it counts as sent by whom its own
-- header names, or by the service itself.
pub redriven_sender :
    (o : SubscribeOptions) (why : Failure) (n a : ℕ) (d : Delivery)
    → ((u : ℕ)
        → d.user_id ≡ some u
        → sender_of (redrive (resend (marked o why n d) (some a)) (some a)) (some a)
          ≡ sender_of d (some a))
      × (d.user_id ≡ none
          → (sender_of d (some a) ≡ none)
            × (sender_of (redrive (resend (marked o why n d) (some a)) (some a)) (some a)
                ≡ own_sender a d.headers.sender))
redriven_sender o why n a d = (
  λ u e.
      redrive_sender (resend (marked o why n d) (some a)) a
      ∙ (named_resend a a (resend (marked o why n d) (some a)) (resent_user _ a)
          ∙ (named_resend a u (marked o why n d) e ∙ marked_sender o why n (some a) d)),
  λ e. (
    unnamed_sender d (some a) e,
    redrive_sender (resend (marked o why n d) (some a)) a
        ∙ (named_resend a a (resend (marked o why n d) (some a)) (resent_user _ a)
            ∙ unnamed_resend a (marked o why n d) e),
  ),
)
