-- ===== src/Common/Tables.antt =====
-- Tables as lists of rows: an UPDATE with its WHERE, and what holds of each row and of each pair.
use mathlib.Core.Path.{◌≡◌, refl, subst}
use mathlib.Core.Logic.{◌⊎◌, inl, inr}
use mathlib.Core.Bool.{Bool, true, false}
use mathlib.Core.Option.{some}
use mathlib.Core.List.{List, [], ◌∷◌, ◌++◌, Memᴰ}
use native.Mathlib.Omega.{arith}
use foc_app.Common.Tests.{if◌then◌else◌, Bool-cases, is_some}
use foc_app.Common.Lists.{All, find, filter, any, find-All}

module _ {ℓ} {A : Type ℓ} where
  -- A row after `UPDATE … SET f WHERE p`.
  abbrev pub updated : (A → Bool) → (A → A) → A → A
  updated p f x = if p x then f x else x

  -- `UPDATE … SET f WHERE p`
  abbrev pub update_where : (A → Bool) → (A → A) → List A → List A
  update_where p f [] = []
  update_where p f (x ∷ xs) = updated p f x ∷ update_where p f xs

  -- Every row is related to every later one.
  abbrev pub Pairwise {κ} : (A → A → Type κ) → List A → Type κ
  Pairwise R [] = Unit
  Pairwise R (x ∷ xs) = All (R x) xs × Pairwise R xs

module _ {ℓ κ} {A : Type ℓ} where
  pub update_where-All {μ} :
      (P : A → Type κ) (Q : A → Type μ) (p : A → Bool) (f : A → A)
      → ((x : A) → P x → Q (updated p f x))
      → (xs : List A) → All P xs
      → All Q (update_where p f xs)
  update_where-All P Q p f step [] h = tt
  update_where-All P Q p f step (x ∷ xs) h = (step x h.0, update_where-All P Q p f step xs h.1)

  pub update_where-Pairwise :
      (R : A → A → Type κ) (p : A → Bool) (f : A → A)
      → ((x y : A) → R x y → R (updated p f x) (updated p f y))
      → (xs : List A) → Pairwise R xs
      → Pairwise R (update_where p f xs)
  update_where-Pairwise R p f step [] h = tt
  update_where-Pairwise R p f step (x ∷ xs) h = (
    update_where-All (R x) (R (updated p f x)) p f (λ y. step x y) xs h.0,
    update_where-Pairwise R p f step xs h.1,
  )

  pub All-implies {μ} :
      (P : A → Type κ) (Q : A → Type μ)
      → ((x : A) → P x → Q x)
      → (xs : List A) → All P xs
      → All Q xs
  All-implies P Q step [] h = tt
  All-implies P Q step (x ∷ xs) h = (step x h.0, All-implies P Q step xs h.1)

  -- What holds of each row and of each pair, together.
  pub Pairwise-implies {μ ν} :
      (P : A → Type ν) (R : A → A → Type κ) (S : A → A → Type μ)
      → ((x y : A) → P x → P y → R x y → S x y)
      → (xs : List A) → All P xs
      → Pairwise R xs
      → Pairwise S xs
  Pairwise-implies P R S step [] h v = tt
  Pairwise-implies P R S step (x ∷ xs) h v =
      (both x xs h.0 h.1 v.0, Pairwise-implies P R S step xs h.1 v.1)
    where
      both : (x : A) (ys : List A) → P x → All P ys → All (R x) ys → All (S x) ys
      both x [] p ps rs = tt
      both x (y ∷ ys) p ps rs = (step x y p ps.0 rs.0, both x ys p ps.1 rs.1)

  pub All-append : (P : A → Type κ) (xs : List A) (y : A) → All P xs → P y → All P (xs ++ y ∷ [])
  All-append P [] y h p = (p, tt)
  All-append P (x ∷ xs) y h p = (h.0, All-append P xs y h.1 p)

  -- What `filter` keeps is in the list and passes the test.
  pub filter-All :
      (P : A → Type κ) (p : A → Bool) (xs : List A)
      → ((x : A) → Memᴰ x xs → p x ≡ true → P x)
      → All P (filter p xs)
  filter-All P p [] h = tt
  filter-All P p (x ∷ xs) h =
      let rest = filter-All P p xs (λ y m. h y (Memᴰ.tail m)) in
      elim (Bool-cases (p x)) [ inl t ↦ rw t (h x (Memᴰ.head refl) t, rest) | inr f ↦ rw f rest ]

  -- Two relations of each pair, together.
  pub Pairwise-both {μ ν} :
      (R : A → A → Type κ) (S : A → A → Type ν) (Q : A → A → Type μ)
      → ((x y : A) → R x y → S x y → Q x y)
      → (xs : List A) → Pairwise R xs
      → Pairwise S xs
      → Pairwise Q xs
  Pairwise-both R S Q step [] v w = tt
  Pairwise-both R S Q step (x ∷ xs) v w = (both x xs v.0 w.0, Pairwise-both R S Q step xs v.1 w.1)
    where
      both : (x : A) (ys : List A) → All (R x) ys → All (S x) ys → All (Q x) ys
      both x [] rs ss = tt
      both x (y ∷ ys) rs ss = (step x y rs.0 ss.0, both x ys rs.1 ss.1)

  -- A row goes in at the end.
  pub Pairwise-append :
      (R : A → A → Type κ) (xs : List A) (y : A)
      → Pairwise R xs
      → All (λ x. R x y) xs
      → Pairwise R (xs ++ y ∷ [])
  Pairwise-append R [] y v h = (tt, tt)
  Pairwise-append R (x ∷ xs) y v h = (All-append (R x) xs y v.0 h.0, Pairwise-append R xs y v.1 h.1)

  -- A row that `find` returns is the same row as, or related to, every row.
  pub find-Pairwise :
      (R : A → A → Type κ)
      → ((x y : A) → R x y → R y x)
      → (p : A → Bool) (xs : List A) {x : A} → Pairwise R xs
      → find p xs ≡ some x
      → All (λ y. (y ≡ x) ⊎ R x y) xs
  find-Pairwise R flip p [] h e = tt
  find-Pairwise R flip p (y ∷ ys) {x} h e = elim (Bool-cases (p y)) [
    | inl t ↦
        let found : some y ≡ some x = rw t at e in
        let same : y ≡ x = cc in
        (inl same, All-implies (R y) _ (λ z r. inr (subst (λ w. R w z) same r)) ys h.0)
    | inr f ↦
        let found : find p ys ≡ some x = rw f at e in
        (inr (flip y x (find-All (R y) p ys h.0 found).0), find-Pairwise R flip p ys h.1 found)
  ]

module _ {ℓ} {A : Type ℓ} where
  -- `RETURNING` gives rows exactly when some row passes the test.
  pub any-find : (p : A → Bool) (xs : List A) → any p xs ≡ is_some (find p xs)
  any-find p [] = refl
  any-find p (x ∷ xs) = ground (arith, any-find p xs)

  -- What no row has, an `any` that fails shows of all rows.
  pub any-none : (p : A → Bool) (xs : List A) → any p xs ≡ false → All (λ x. p x ≡ false) xs
  any-none p [] e = tt
  any-none p (x ∷ xs) e = elim (Bool-cases (p x)) [
    | inl t ↦ absurd (ground arith)
    | inr f ↦ (f, any-none p xs (rw f at e))
  ]
