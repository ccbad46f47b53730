-- ===== src/Gateway/Pairing.antt =====
-- A pass of the correlator pairs a frame with a nearest measurement in its window, once.
use dust_monitoring.Prelude.{
  ℕ, ◌≤◌, ◌≡◌, ◌⊎◌, refl, sym, ap, subst, ◌∙◌, true, Option, none, some, some_inj, List, [], ◌∷◌,
  keep, leb, leb→le, if◌then◌else◌, arith, All, All-map, keep-passes, Bool-cases, Option-cases, inl,
  inr,
}
use dust_monitoring.Gateway.Correlator.{
  Frame, Inspection, Window, in_window, wants_pair, distance, nearer, nearest, pair_of, paired,
  tick,
}

nearer-some :
    (f : Frame) (e m : Inspection) {d : Inspection}
    → nearer f e (some m) ≡ some d
    → ((e ≡ d) × (distance f e ≤ distance f m)) ⊎ ((m ≡ d) × (distance f m ≤ distance f e))
nearer-some f e m {d} h = elim (Bool-cases (leb (distance f e) (distance f m))) [
  | inl g ↦ inl (some_inj (ap (λ b. if b then some e else some m) (sym g) ∙ h), leb→le _ _ g)
  | inr g ↦ inr (some_inj (ap (λ b. if b then some e else some m) (sym g) ∙ h), ground (arith, g))
]

nearest-none : (f : Frame) (ds : List Inspection) → nearest f ds ≡ none → ds ≡ []
unfolding nearest
nearest-none f [] h = refl
nearest-none f (e ∷ ds) h = absurd (never (nearest f ds) h)
  where
    never : (o : Option Inspection) → nearer f e o ≡ none → ⊥
    never none h = cc h
    never (some m) h = ground (arith, h)

nearest-All :
    (P : Inspection → Type 0) (f : Frame) (ds : List Inspection) {d : Inspection}
    → All P ds
    → nearest f ds ≡ some d
    → P d
unfolding nearest
nearest-All P f [] p h = absurd (cc h)
nearest-All P f (e ∷ ds) {d} (q, p) h = elim (Option-cases (nearest f ds)) [
  | inl n ↦ subst P (some_inj (ap (nearer f e) (sym n) ∙ h)) q
  | inr (m, n) ↦ elim (nearer-some f e m (ap (nearer f e) (sym n) ∙ h)) [
    | inl (g, _) ↦ subst P g q
    | inr (g, _) ↦ subst P g (nearest-All P f ds p n)
  ]
]

nearest-least :
    (f : Frame) (ds : List Inspection) {d : Inspection}
    → nearest f ds ≡ some d
    → All (λ e. distance f d ≤ distance f e) ds
unfolding nearest
nearest-least f [] h = tt
nearest-least f (e ∷ ds) {d} h = elim (Option-cases (nearest f ds)) [
  | inl n ↦
      let same = some_inj (ap (nearer f e) (sym n) ∙ h) in
      (
        subst (λ x. distance f x ≤ distance f e) same (omega arith),
        subst (All (λ x. distance f d ≤ distance f x)) (sym (nearest-none f ds n)) tt,
      )
  | inr (m, n) ↦ elim (nearer-some f e m (ap (nearer f e) (sym n) ∙ h)) [
    | inl (g, le) ↦ (
      subst (λ x. distance f x ≤ distance f e) g (omega arith),
      subst (λ x. All (λ y. distance f x ≤ distance f y) ds) g
          (All-map (λ y z. omega (arith, le, z)) ds (nearest-least f ds n)),
    )
    | inr (g, le) ↦ (
      subst (λ x. distance f x ≤ distance f e) g le,
      subst (λ x. All (λ y. distance f x ≤ distance f y) ds) g (nearest-least f ds n),
    )
  ]
]

-- A frame is paired with a measurement in its window, and with none that is further away than
-- another one in it; only frames without a pair that are younger than the lookback are paired.
pub pair_of-nearest :
    (w : Window) (now : ℕ) (inspections : List Inspection) (f : Frame) (d : Inspection)
    → pair_of w now inspections f ≡ some d
    → (wants_pair w now f ≡ true)
      × ((in_window w f d ≡ true)
          × All (λ e. distance f d ≤ distance f e) (keep (in_window w f) inspections))
unfolding pair_of
pair_of-nearest w now inspections f d h = elim (Bool-cases (wants_pair w now f)) [
  | inl g ↦
      let n =
        ap (λ b. if b then nearest f (keep (in_window w f) inspections) else none) (sym g) ∙ h in
      (
        g,
        (
          nearest-All (λ e. in_window w f e ≡ true) f _ (keep-passes (in_window w f) inspections) n,
          nearest-least f _ n,
        ),
      )
  | inr g ↦
      absurd (
        cc (ap (λ b. if b then nearest f (keep (in_window w f) inspections) else none) (sym g) ∙ h))
]

pair_of-paired :
    (w : Window) (now : ℕ) (inspections : List Inspection) (f : Frame) (o : Option Inspection)
    → pair_of w now inspections f ≡ o
    → pair_of w now inspections (paired now f o) ≡ none
unfolding pair_of
pair_of-paired w now inspections f none h = h
pair_of-paired w now inspections f (some d) h = refl

-- A pass on the table that a pass at the same time has left pairs nothing more.
pub tick-idempotent :
    (w : Window) (now : ℕ) (inspections : List Inspection) (frames : List Frame)
    → tick w now inspections (tick w now inspections frames).1
      ≡ (0, (tick w now inspections frames).1)
unfolding tick
tick-idempotent w now inspections [] = refl
tick-idempotent w now inspections (f ∷ fs) =
    rw (pair_of-paired w now inspections f (pair_of w now inspections f) refl) (
      ap (λ x. (x.0, paired now f (pair_of w now inspections f) ∷ x.1))
        (tick-idempotent w now inspections fs))
