-- ===== src/Base/Sort.antt =====
-- Stable sorting by an order, and `find`, with what they keep.
use mathlib.Core.Path.{◌≡◌, refl, ◌∙◌}
use mathlib.Core.Logic.{inl, inr}
use mathlib.Core.Bool.{Bool, true, false, ◌||◌}
use mathlib.Core.Option.{Option, none, some}
use mathlib.Core.List.{List, [], ◌∷◌}
use native.Mathlib.Omega.{arith}
use hope.Base.Tests.{if◌then◌else◌, Bool-cases}
use hope.Base.Lists.{any}

module _ {ℓ} {A : Type ℓ} where
  -- `Iterator::find`.
  abbrev pub find : (A → Bool) → List A → Option A
  find p [] = none
  find p (x ∷ xs) = if p x then some x else find p xs

  insert_by : (A → A → Bool) → A → List A → List A
  insert_by lt x [] = x ∷ []
  insert_by lt x (y ∷ ys) = let rest = insert_by lt x ys in if lt y x then y ∷ rest else x ∷ y ∷ ys

  -- `sort_by` with the test whether one stands before another.
  unfoldable pub sort_by : (A → A → Bool) → List A → List A
  unfolding insert_by
  sort_by lt [] = []
  sort_by lt (x ∷ xs) = insert_by lt x (sort_by lt xs)

  -- `Vec::dedup` by a test for equality.
  unfoldable pub dedup_by : (A → A → Bool) → List A → List A
  dedup_by same [] = []
  dedup_by same (x ∷ []) = x ∷ []
  dedup_by same (x ∷ y ∷ ys) =
      let rest = dedup_by same (y ∷ ys) in if same x y then rest else x ∷ rest

  any-insert_by :
      (p : A → Bool) (lt : A → A → Bool) (x : A) (ys : List A)
      → any p (insert_by lt x ys) ≡ (p x || any p ys)
  unfolding insert_by
  any-insert_by p lt x [] = refl
  any-insert_by p lt x (y ∷ ys) = ground (arith, any-insert_by p lt x ys)

  -- A sorted list has the same elements.
  pub any-sort_by :
      (p : A → Bool) (lt : A → A → Bool) (xs : List A) → any p (sort_by lt xs) ≡ any p xs
  unfolding sort_by
  any-sort_by p lt [] = refl
  any-sort_by p lt (x ∷ xs) = any-insert_by p lt x (sort_by lt xs) ∙ (rw (any-sort_by p lt xs) refl)

  pub find-none : (p : A → Bool) (xs : List A) → find p xs ≡ none → any p xs ≡ false
  find-none p [] e = refl
  find-none p (x ∷ xs) e = ground (arith, find-none p xs)

  pub find-some : (p : A → Bool) (xs : List A) {a : A} → find p xs ≡ some a → p a ≡ true
  find-some p [] e = cc
  find-some p (x ∷ xs) {a} e = elim (Bool-cases (p x)) [
    | inl holds ↦ ground (arith, holds)
    | inr fails ↦ find-some p xs (rw fails at e)
  ]
