-- ===== src/Prelude/Sorting.antt =====
-- `ORDER BY`: a stable insertion sort by a test "may stand before".
use mathlib.Core.Path.{◌≡◌, refl, ap, ◌∙◌}
use mathlib.Core.Bool.{Bool, true, ◌||◌}
use mathlib.Core.List.{List, [], ◌∷◌, ◌++◌}
use mathlib.Core.Logic.{inl, inr}
use Prim.Native.Nat.{suc}
use native.Mathlib.Omega.{arith}
use dust_monitoring.Prelude.Tests.{if◌then◌else◌, Bool-cases}
use dust_monitoring.Prelude.Lists.{All, any, length}

module _ {ℓ} {A : Type ℓ} (before : A → A → Bool) where
  unfoldable pub insert_by : A → List A → List A
  insert_by x [] = x ∷ []
  insert_by x (y ∷ ys) = if before x y then x ∷ y ∷ ys else y ∷ insert_by x ys

  unfoldable pub sort_by : List A → List A
  unfolding insert_by
  sort_by [] = []
  sort_by (x ∷ xs) = insert_by x (sort_by xs)

  insert_by-All {κ} :
      (P : A → Type κ) (x : A) (xs : List A) → P x → All P xs → All P (insert_by x xs)
  unfolding insert_by
  insert_by-All P x [] p h = (p, tt)
  insert_by-All P x (y ∷ ys) p (q, h) = elim (Bool-cases (before x y)) [
    | inl e ↦ rw e (p, (q, h))
    | inr e ↦ rw e (q, insert_by-All P x ys p h)
  ]

  pub sort_by-All {κ} : (P : A → Type κ) (xs : List A) → All P xs → All P (sort_by xs)
  unfolding sort_by
  sort_by-All P [] h = tt
  sort_by-All P (x ∷ xs) (p, h) = insert_by-All P x (sort_by xs) p (sort_by-All P xs h)

  any-insert_by : (t : A → Bool) (x : A) (xs : List A) → any t (insert_by x xs) ≡ t x || any t xs
  unfolding insert_by
  any-insert_by t x [] = refl
  any-insert_by t x (y ∷ ys) = ground (arith, any-insert_by t x ys)

  -- Sorting keeps what is in the list.
  pub any-sort_by : (t : A → Bool) (xs : List A) → any t (sort_by xs) ≡ any t xs
  unfolding sort_by
  any-sort_by t [] = refl
  any-sort_by t (x ∷ xs) = ground (arith, any-insert_by t x (sort_by xs), any-sort_by t xs)

  length-insert_by : (x : A) (xs : List A) → length (insert_by x xs) ≡ suc (length xs)
  unfolding insert_by
  length-insert_by x [] = refl
  length-insert_by x (y ∷ ys) = ground (arith, length-insert_by x ys)

  pub length-sort_by : (xs : List A) → length (sort_by xs) ≡ length xs
  unfolding sort_by
  length-sort_by [] = refl
  length-sort_by (x ∷ xs) = ground (arith, length-insert_by x (sort_by xs), length-sort_by xs)

  insert_by-append :
      (x : A) (xs ys : List A)
      → All (λ y. before x y ≡ true) ys
      → insert_by x (xs ++ ys) ≡ insert_by x xs ++ ys
  unfolding insert_by
  insert_by-append x [] [] h = refl
  insert_by-append x [] (y ∷ ys) (e, h) = rw e refl
  insert_by-append x (z ∷ xs) ys h = elim (Bool-cases (before x z)) [
    | inl e ↦ rw e refl
    | inr e ↦ rw e (ap (◌∷◌ z) (insert_by-append x xs ys h))
  ]

  -- What may stand before all the rest is sorted before it.
  pub sort_by-append :
      (xs ys : List A)
      → All (λ x. All (λ y. before x y ≡ true) ys) xs
      → sort_by (xs ++ ys) ≡ sort_by xs ++ sort_by ys
  unfolding sort_by
  sort_by-append [] ys h = refl
  sort_by-append (x ∷ xs) ys (e, h) =
      ap (insert_by x) (sort_by-append xs ys h)
      ∙ insert_by-append x (sort_by xs) (sort_by ys) (sort_by-All (λ y. before x y ≡ true) ys e)
