-- ===== src/Platform/Outbox/Claims.antt =====
-- platform/src/events/outbox.ts: a claim takes rows that may be sent, and keeps the table valid.
use foc_app.Common.{
  ℕ, zero, suc, ◌<◌, Bool, true, false, List, [], ◌∷◌, filter, is_some, All, Pairwise, ◌≡◌, inl,
  inr, sym, subst, arith, Memᴰ, All-Mem, All-implies, Pairwise-implies, Pairwise-both, filter-All,
  any-none, Bool-cases,
}
use foc_app.Platform.Outbox.{
  OutboxRow, Outbox, Answer, confirmed, unroutable, failed, Claim, Relay, holds_back, is_claimable,
  take, claim_rows, publish, settle, publish_each, claim_and_publish, reached_broker,
}
use foc_app.Platform.Outbox.Sequence.{
  was_sent, InTurn, Apart, OutboxValid, Ready, InTurn-next, publish_each-OutboxValid,
}

module _ {ℓ κ} {A : Type ℓ} where
  pub take-All : (P : A → Type κ) (n : ℕ) (xs : List A) → All P xs → All P (take n xs)
  take-All P zero xs h = tt
  take-All P (suc n) [] h = tt
  take-All P (suc n) (x ∷ xs) h = (h.0, take-All P n xs h.1)

-- A row is the only one of its id.
same_row :
    (r : OutboxRow) (rows : List OutboxRow)
    → Pairwise Apart rows
    → Memᴰ r rows
    → All (λ (o : OutboxRow). o.id ≡ r.id → o ≡ r) rows
same_row r [] v m = tt
same_row r (o ∷ rows) v (Memᴰ.head e) =
    (λ k. sym e, All-implies (Apart o) _ (λ x a. λ k. absurd (ground arith)) rows v.0)
same_row r (o ∷ rows) v (Memᴰ.tail m) =
    let apart = All-Mem (Apart o) rows v.0 m in (λ k. absurd (ground arith), same_row r rows v.1 m)

only_ready :
    (r e o : OutboxRow)
    → ((e.id ≡ r.id → e ≡ r) × (holds_back r e ≡ false))
    → ((o.id ≡ r.id → o ≡ r) × (holds_back r o ≡ false))
    → Apart e o
    → o.id ≡ r.id
    → e.aggregate_id ≡ o.aggregate_id
    → is_some e.published_at ≡ true
only_ready r e o pe po a k same =
    let here = po.0 k in
    let before : e.seq < r.seq = subst (λ (x : OutboxRow). e.seq < x.seq) here a.1 in
    let aggregate : e.aggregate_id ≡ r.aggregate_id =
      subst (λ (x : OutboxRow). e.aggregate_id ≡ x.aggregate_id) here same in
    ground (arith, pe.1)

both_rows :
    (r : OutboxRow) (rows : List OutboxRow)
    → All (λ (o : OutboxRow). o.id ≡ r.id → o ≡ r) rows
    → All (λ (o : OutboxRow). holds_back r o ≡ false) rows
    → All (λ (o : OutboxRow). (o.id ≡ r.id → o ≡ r) × (holds_back r o ≡ false)) rows
both_rows r [] h k = tt
both_rows r (o ∷ rows) h k = ((h.0, k.0), both_rows r rows h.1 k.1)

-- A claimed row has only published rows of its aggregate before it.
pub claim_rows-Ready :
    (now : ℕ) (locked : ℕ → Bool) (limit : ℕ) (o : Outbox)
    → OutboxValid o
    → All (λ (r : OutboxRow). Ready r.id o.rows) (claim_rows now locked limit o)
claim_rows-Ready now locked limit o v =
    take-All (λ (r : OutboxRow). Ready r.id o.rows) limit
      (filter (is_claimable now locked o.rows) o.rows)
      (filter-All (λ (r : OutboxRow). Ready r.id o.rows) (is_claimable now locked o.rows) o.rows
        each)
  where
    each :
        (r : OutboxRow)
        → Memᴰ r o.rows
        → is_claimable now locked o.rows r ≡ true
        → Ready r.id o.rows
    each r m e =
        Pairwise-implies _ Apart _ (only_ready r) o.rows
          (both_rows r o.rows (same_row r o.rows v.apart m)
            (any-none (holds_back r) o.rows (ground arith)))
          v.apart

pub claim-OutboxValid :
    (k : Relay) (now : ℕ) (locked : ℕ → Bool) (o : Outbox)
    → OutboxValid o
    → OutboxValid (claim_and_publish k now locked o).outbox
unfolding claim_and_publish
claim-OutboxValid k now locked o v =
    publish_each-OutboxValid k now (claim_rows now locked k.batch_size o) _
      (claim_rows-Ready now locked k.batch_size o v) v

-- What a lost transaction has sent, and the rows that it leaves.
pub record Lost (rows : List OutboxRow) (sent : List ℕ) : Type 0 where
  pub in_turn : Pairwise (InTurn sent) rows
  pub delivered :
      All (λ (r : OutboxRow). is_some r.published_at ≡ true → was_sent sent r.id ≡ true) rows

sent-Lost :
    (reached : Bool) (id : ℕ) (rows : List OutboxRow) (o : Outbox)
    → Ready id rows
    → Lost rows o.sent
    → Lost rows (reached_broker reached id o).sent
sent-Lost false id rows o ready l = l
sent-Lost true id rows o ready l = record {
  in_turn =
      Pairwise-both _ (InTurn o.sent) (InTurn (id ∷ o.sent)) (InTurn-next id o.sent) rows ready
        l.in_turn;
  delivered =
      All-implies (λ (r : OutboxRow). is_some r.published_at ≡ true → was_sent o.sent r.id ≡ true)
        (λ (r : OutboxRow). is_some r.published_at ≡ true → was_sent (id ∷ o.sent) r.id ≡ true)
        (λ r h. ground arith) rows l.delivered;
}

module _ (k : Relay) (now : ℕ) (rows : List OutboxRow) where
  settle-Lost :
      (r : OutboxRow) (a : Answer) (c : Claim)
      → Ready r.id rows
      → Lost rows c.outbox.sent
      → Lost rows (settle k now r a c).outbox.sent
  settle-Lost r confirmed c ready l = sent-Lost true r.id rows c.outbox ready l
  settle-Lost r unroutable c ready l = l
  settle-Lost r (failed reached why) c ready l = sent-Lost reached r.id rows c.outbox ready l

  pub publish_each-Lost :
      (rs : List OutboxRow) (c : Claim)
      → All (λ (r : OutboxRow). Ready r.id rows) rs
      → Lost rows c.outbox.sent
      → Lost rows (publish_each k now rs c).outbox.sent
  unfolding publish_each
  publish_each-Lost [] c ready l = l
  publish_each-Lost (r ∷ rs) c ready l =
      elim (Bool-cases (settle k now r (publish k now r) c).halted) [
        | inl t ↦ rw t (settle-Lost r (publish k now r) c ready.0 l)
        | inr f ↦ rw f (
            publish_each-Lost rs (settle k now r (publish k now r) c) ready.1
              (settle-Lost r (publish k now r) c ready.0 l))
      ]
