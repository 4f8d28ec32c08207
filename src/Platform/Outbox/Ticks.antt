-- ===== src/Platform/Outbox/Ticks.antt =====
-- platform/src/events/outbox.ts: `tick` ends, counts what went out, and drains the outbox.
use foc_app.Common.{
  ℕ, zero, suc, ◌+◌, ◌<◌, ◌||◌, Bool, some, ◌==◌, ◌≡◌, inl, inr, refl, arith, Bool-cases,
}
use foc_app.Platform.Outbox.{Outbox, Claim, Relay, Surroundings, claim_and_publish, tick}
use foc_app.Platform.Outbox.Sequence.{OutboxValid}
use foc_app.Platform.Outbox.Claims.{claim-OutboxValid}
use foc_app.Platform.Outbox.Backlog.{backlog, claim-total}

-- `halted || published === 0`
abbrev pub done : Claim → Bool
done c = c.halted || (c.published == 0)

-- One claim after another: with more fuel than there are unpublished rows `tick` ends, and it
-- returns as many rows as have left the backlog.
pub tick_ends :
    (k : Relay) (w : Surroundings) (fuel round total : ℕ) (o : Outbox)
    → OutboxValid o
    → backlog o.rows < fuel
    → (n : ℕ) × (o' : Outbox) × (tick k w fuel round total o ≡ some (n, o'))
      × (backlog o'.rows + n ≡ backlog o.rows + total)
unfolding tick
tick_ends k w zero round total o v h = absurd (omega arith)
tick_ends k w (suc fuel) round total o v h = elim (Bool-cases (w.stopping round)) [
  | inl t ↦ rw t (total, o, refl, refl)
  | inr f ↦
      let counted = claim-total k (w.clock round) (w.locked round) o v in
      elim (Bool-cases (done (claim_and_publish k (w.clock round) (w.locked round) o))) [
        | inl t ↦ rw (f, t) (_, _, refl, omega arith)
        | inr g ↦
            let some_left : backlog
                  (claim_and_publish k (w.clock round) (w.locked round) o).outbox.rows
                < fuel =
              ground arith in
            let rest =
              tick_ends k w fuel (round + 1)
                (total + (claim_and_publish k (w.clock round) (w.locked round) o).published)
                (claim_and_publish k (w.clock round) (w.locked round) o).outbox
                (claim-OutboxValid k (w.clock round) (w.locked round) o v) some_left in
            rw (f, g) (rest.0, rest.1, rest.2, omega (arith, rest.3))
      ]
]
