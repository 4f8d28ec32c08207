-- ===== src/Common/Lists.antt =====
-- Searches, lengths and sums of lists over the native numbers.
use Prim.Native.Nat.{ℕ, suc, ◌+◌}
use mathlib.Core.Path.{◌≡◌, subst, sym}
use mathlib.Core.Logic.{inl, inr}
use mathlib.Core.Bool.{Bool, true, false}
use mathlib.Core.Option.{Option, none, some}
use mathlib.Core.List.{List, [], ◌∷◌, Memᴰ}
use foc_app.Common.Tests.{if◌then◌else◌, Bool-cases}

-- `All P` computes to a tuple, which the tactics read and build.
abbrev pub All {ℓ κ} : {A : Type ℓ} → (A → Type κ) → List A → Type κ
All P [] = Unit
All P (x ∷ xs) = P x × All P xs

module _ {ℓ} {A : Type ℓ} where
  abbrev pub length : List A → ℕ
  length [] = 0
  length (x ∷ xs) = suc (length xs)

  -- `Array.find`
  abbrev pub find : (A → Bool) → List A → Option A
  find p [] = none
  find p (x ∷ xs) = if p x then some x else find p xs

  -- `Array.filter`
  abbrev pub filter : (A → Bool) → List A → List A
  filter p [] = []
  filter p (x ∷ xs) = let rest = filter p xs in if p x then x ∷ rest else rest

  abbrev pub any : (A → Bool) → List A → Bool
  any p [] = false
  any p (x ∷ xs) = if p x then true else any p xs

  abbrev pub sum_by : (A → ℕ) → List A → ℕ
  sum_by f [] = 0
  sum_by f (x ∷ xs) = f x + sum_by f xs

module _ {ℓ κ} {A : Type ℓ} where
  -- What `find` returns has every property that all elements have, and passes the test.
  pub find-All :
      (P : A → Type κ) (p : A → Bool) (xs : List A) {x : A}
      → All P xs
      → find p xs ≡ some x
      → P x × (p x ≡ true)
  find-All P p [] h e = cc
  find-All P p (y ∷ ys) {x} h e = elim (Bool-cases (p y)) [
    | inl t ↦
        let found : some y ≡ some x = rw t at e in
        let same : y ≡ x = cc in (subst P same h.0, subst (λ z. p z ≡ true) same t)
    | inr f ↦ find-All P p ys h.1 (rw f at e)
  ]

  pub All-Mem : (P : A → Type κ) (xs : List A) {x : A} → All P xs → Memᴰ x xs → P x
  All-Mem P [] h m = elim m [ ]
  All-Mem P (y ∷ ys) h (Memᴰ.head e) = subst P (sym e) h.0
  All-Mem P (y ∷ ys) h (Memᴰ.tail m) = All-Mem P ys h.1 m
