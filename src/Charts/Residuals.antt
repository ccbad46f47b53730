-- ===== src/Charts/Residuals.antt =====
-- The residuals of Dumopro_Data_Analysis_WebApp/libs/dumopro_core/redis_client.py, over all the pushes.
use dust_monitoring.Prelude.{
  ℕ, zero, suc, ◌+◌, ◌-◌, ◌≤◌, ◌≡◌, refl, ap, sym, ◌∙◌, List, [], ◌∷◌, ◌++◌, arith, length, drop,
  length-append, length-drop, append_assoc, append-nil,
}
use dust_monitoring.Charts.Redis.{last_of, residual_push}

module _ {A : Type 0} where
  drop-drop-append : (k : ℕ) (xs ys : List A) → k ≤ length xs → drop k xs ++ ys ≡ drop k (xs ++ ys)
  drop-drop-append zero xs ys le = refl
  drop-drop-append (suc k) [] ys le = ground (arith, le)
  drop-drop-append (suc k) (x ∷ xs) ys le = drop-drop-append k xs ys (omega (arith, le))

  drop-[] : (k : ℕ) → drop {A = A} k [] ≡ []
  drop-[] zero = refl
  drop-[] (suc k) = refl

  drop-drop : (j k : ℕ) (xs : List A) → drop j (drop k xs) ≡ drop (k + j) xs
  drop-drop j zero xs = ap (λ n. drop n xs) (omega arith)
  drop-drop j (suc k) [] = drop-[] j ∙ sym (drop-[] (suc k + j))
  drop-drop j (suc k) (x ∷ xs) =
      let e : suc (k + j) ≡ suc k + j = omega arith in
      drop-drop j k xs ∙ ap (λ n. drop n (x ∷ xs)) e

  -- The list after pushes, one after the other.
  unfoldable pub pushes : ℕ → List (List A) → List A → List A
  unfolding residual_push
  pushes cap [] xs = xs
  pushes cap (rs ∷ rss) xs = pushes cap rss (residual_push cap rs xs)

  abbrev pub concat : List (List A) → List A
  concat [] = []
  concat (rs ∷ rss) = rs ++ concat rss

  last_of-append :
      (cap : ℕ) (xs ys : List A) → last_of cap (last_of cap xs ++ ys) ≡ last_of cap (xs ++ ys)
  last_of-append zero xs ys = refl
  last_of-append (suc c) xs ys =
      let k = length xs - suc c in
      ap (last_of (suc c)) (drop-drop-append k xs ys (omega arith))
      ∙ drop-drop (length (drop k (xs ++ ys)) - suc c) k (xs ++ ys)
      ∙ ap (λ n. drop n (xs ++ ys)) (ground (arith, length-drop k (xs ++ ys), length-append xs ys))

  last_of-[] : (cap : ℕ) → last_of {A = A} cap [] ≡ []
  last_of-[] zero = refl
  last_of-[] (suc c) = drop-[] (0 - suc c)

  residual_push-last_of :
      (cap : ℕ) (rs xs : List A) → residual_push cap rs (last_of cap xs) ≡ last_of cap (xs ++ rs)
  unfolding residual_push
  residual_push-last_of cap [] xs = ap (last_of cap) (sym (append-nil xs))
  residual_push-last_of cap (r ∷ rs) xs = last_of-append cap xs (r ∷ rs)

  pushes-last_of :
      (cap : ℕ) (rss : List (List A)) (xs : List A)
      → pushes cap rss (last_of cap xs) ≡ last_of cap (xs ++ concat rss)
  unfolding pushes
  pushes-last_of cap [] xs = ap (last_of cap) (sym (append-nil xs))
  pushes-last_of cap (rs ∷ rss) xs =
      ap (pushes cap rss) (residual_push-last_of cap rs xs)
      ∙ pushes-last_of cap rss (xs ++ rs)
      ∙ ap (last_of cap) (append_assoc xs rs (concat rss))

  -- After any pushes onto an empty list, those of nothing included, for a cap that is not 0, the list
  -- has the last `cap` of all the residuals pushed, in the order of the pushes, and no more than `cap`
  -- of them.
  pub pushes-last :
      (c : ℕ) (rss : List (List A))
      → let cap = suc c in
        (pushes cap rss [] ≡ drop (length (concat rss) - cap) (concat rss))
        × (length (pushes cap rss []) ≤ cap)
  pushes-last c rss =
      let cap = suc c in
      let e = ap (pushes cap rss) (sym (last_of-[] cap)) ∙ pushes-last_of cap rss [] in
      let l = ap length e in
      (e, ground (arith, l, length-drop (length (concat rss) - cap) (concat rss)))
