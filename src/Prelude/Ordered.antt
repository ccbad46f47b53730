-- ===== src/Prelude/Ordered.antt =====
-- Lists of distinct numbers, and what sorting makes of them.
use mathlib.Core.Path.{◌≡◌, refl, ap, ap₂, ◌∙◌}
use mathlib.Core.Bool.{true, false}
use mathlib.Core.List.{List, [], ◌∷◌}
use mathlib.Core.Logic.{inl, inr}
use Prim.Native.Nat.{ℕ, zero, suc, ◌+◌, ◌≤◌, ◌<◌}
use native.Mathlib.Omega.{arith}
use dust_monitoring.Prelude.Tests.{◌==◌, leb, Bool-cases}
use dust_monitoring.Prelude.Lists.{All, any, length}
use dust_monitoring.Prelude.Sorting.{insert_by, sort_by, sort_by-All, any-sort_by, length-sort_by}

abbrev pub Distinct : List ℕ → Type 0
Distinct [] = Unit
Distinct (x ∷ xs) = (any (λ y. y == x) xs ≡ false) × Distinct xs

-- `range lo n` is the n numbers from lo on.
abbrev pub range : ℕ → ℕ → List ℕ
range lo zero = []
range lo (suc n) = lo ∷ range (suc lo) n

abbrev Increasing : ℕ → List ℕ → Type 0
Increasing lo [] = Unit
Increasing lo (x ∷ xs) = (lo ≤ x) × Increasing (suc x) xs

insert_by-Increasing :
    (lo x : ℕ) (xs : List ℕ)
    → lo ≤ x
    → any (λ y. y == x) xs ≡ false
    → Increasing lo xs
    → Increasing lo (insert_by leb x xs)
unfolding insert_by
insert_by-Increasing lo x [] le new h = (le, tt)
insert_by-Increasing lo x (y ∷ ys) le new (ly, h) = elim (Bool-cases (leb x y)) [
  | inl e ↦ rw e (le, (ground (arith, new), h))
  | inr e ↦ rw e (ly, insert_by-Increasing (suc y) x ys (ground arith) (ground arith) h)
]

sort_by-Increasing : (xs : List ℕ) → Distinct xs → Increasing 0 (sort_by leb xs)
unfolding sort_by
sort_by-Increasing [] h = tt
sort_by-Increasing (x ∷ xs) (new, h) =
    insert_by-Increasing 0 x (sort_by leb xs) (omega arith) (any-sort_by leb (λ y. y == x) xs ∙ new)
      (sort_by-Increasing xs h)

Increasing-fits :
    (lo hi : ℕ) (xs : List ℕ)
    → lo ≤ hi
    → Increasing lo xs
    → All (λ x. x < hi) xs
    → lo + length xs ≤ hi
Increasing-fits lo hi [] le h b = omega (arith, le)
Increasing-fits lo hi (x ∷ xs) le (lx, h) (bx, b) =
    omega (arith, lx, Increasing-fits (suc x) hi xs (omega (arith, bx)) h b)

-- A list that has no room for a gap.
Increasing-range :
    (lo n hi : ℕ) (xs : List ℕ)
    → length xs ≡ n
    → lo + n ≡ hi
    → Increasing lo xs
    → All (λ x. x < hi) xs
    → xs ≡ range lo n
Increasing-range lo zero hi [] e top h b = refl
Increasing-range lo zero hi (x ∷ xs) e top h b = ground arith
Increasing-range lo (suc n) hi [] e top h b = ground arith
Increasing-range lo (suc n) hi (x ∷ xs) e top (lx, h) (bx, b) =
    let fits = Increasing-fits (suc x) hi xs (omega (arith, bx)) h b in
    let p : x ≡ lo = omega (arith, lx, e, top, fits) in
    ap₂ ◌∷◌ p (
      Increasing-range (suc x) n hi xs (omega (arith, e)) (omega (arith, p, top)) h b
      ∙ ap (λ y. range (suc y) n) p)

-- As many distinct numbers below n as n are all of them.
pub sort_by-range :
    (n : ℕ) (xs : List ℕ)
    → length xs ≡ n
    → Distinct xs
    → All (λ x. x < n) xs
    → sort_by leb xs ≡ range 0 n
sort_by-range n xs e h b =
    Increasing-range 0 n n (sort_by leb xs) (length-sort_by leb xs ∙ e) (omega arith)
      (sort_by-Increasing xs h) (sort_by-All leb (λ x. x < n) xs b)

-- The least of the numbers stands first.
Increasing-above :
    (lo i : ℕ) (xs : List ℕ) → Increasing lo xs → i < lo → any (λ y. y == i) xs ≡ false
Increasing-above lo i [] h lt = refl
Increasing-above lo i (x ∷ xs) (lx, h) lt =
    ground (arith, lx, lt, Increasing-above (suc x) i xs h (omega (arith, lx, lt)))

Increasing-head :
    (lo x : ℕ) (xs : List ℕ)
    → lo ≤ x
    → Increasing (suc x) xs
    → any (λ y. y == lo) (x ∷ xs) ≡ true
    → x ≡ lo
Increasing-head lo x xs le h e =
    ground (arith, le, e, Increasing-above (suc x) lo xs h (omega (arith, le)))

-- Distinct numbers below n, every one of which is there, are n.
Increasing-covers :
    (lo n : ℕ) (xs : List ℕ)
    → Increasing lo xs
    → ((i : ℕ) → i < n → any (λ y. y == lo + i) xs ≡ true)
    → n ≤ length xs
Increasing-covers lo zero xs h c = omega arith
Increasing-covers lo (suc n) [] h c = ground (arith, c 0 (omega arith))
Increasing-covers lo (suc n) (x ∷ xs) (lx, h) c =
    let p : x ≡ lo =
      Increasing-head lo x xs lx h
        (ap (λ j. any (λ y. y == j) (x ∷ xs)) (omega arith) ∙ c 0 (omega arith)) in
    let tail = Increasing-covers (suc x) n xs h (λ i lt.
      let later = c (suc i) (omega (arith, lt)) in
      let there : any (λ y. y == suc x + i) (x ∷ xs) ≡ true =
        ap (λ j. any (λ y. y == j) (x ∷ xs)) (omega (arith, p)) ∙ later in
      ground (arith, there)) in
    omega (arith, tail)

-- Distinct numbers below n, of which none is missing, are n.
pub length-covers :
    (n : ℕ) (xs : List ℕ)
    → Distinct xs
    → All (λ x. x < n) xs
    → ((i : ℕ) → i < n → any (λ y. y == i) xs ≡ true)
    → length xs ≡ n
length-covers n xs h b c =
    let sorted = sort_by-Increasing xs h in
    let below =
      Increasing-fits 0 n (sort_by leb xs) (omega arith) sorted
        (sort_by-All leb (λ x. x < n) xs b) in
    let above = Increasing-covers 0 n (sort_by leb xs) sorted (λ i lt.
      any-sort_by leb (λ y. y == 0 + i) xs
      ∙ ap (λ j. any (λ y. y == j) xs) (omega arith)
      ∙ c i lt) in
    omega (arith, below, above, length-sort_by leb xs)

any-range : (lo n i : ℕ) → i < n → any (λ y. y == lo + i) (range lo n) ≡ true
any-range lo zero i lt = ground (arith, lt)
any-range lo (suc n) zero lt = ground arith
any-range lo (suc n) (suc i) lt =
    let later : any (λ y. y == lo + suc i) (range (suc lo) n) ≡ true =
      ap (λ j. any (λ y. y == j) (range (suc lo) n)) (omega arith)
      ∙ any-range (suc lo) n i (omega (arith, lt)) in
    ground (arith, later)

-- Distinct numbers below n, of which one is missing, are fewer than n.
pub length-misses :
    (n i : ℕ) (xs : List ℕ)
    → Distinct xs
    → All (λ x. x < n) xs
    → i < n
    → any (λ y. y == i) xs ≡ false
    → length xs < n
length-misses n i xs h b lt missing =
    let below =
      Increasing-fits 0 n (sort_by leb xs) (omega arith) (sort_by-Increasing xs h)
        (sort_by-All leb (λ x. x < n) xs b) in
    let le : length xs ≤ n = omega (arith, below, length-sort_by leb xs) in
    elim (Bool-cases (length xs == n)) [
      | inl e ↦
          let there : any (λ y. y == i) (sort_by leb xs) ≡ true =
            ap (any (λ y. y == i)) (sort_by-range n xs (ground (arith, e)) h b)
            ∙ ap (λ j. any (λ y. y == j) (range 0 n)) (omega arith)
            ∙ any-range 0 n i lt in
          ground (arith, there, any-sort_by leb (λ y. y == i) xs, missing)
      | inr e ↦ ground (arith, e, le)
    ]
