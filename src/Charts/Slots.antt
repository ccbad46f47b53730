-- ===== src/Charts/Slots.antt =====
-- The laws of the slots and of the sorted sets of Dumopro_Data_Analysis_WebApp/libs/dumopro_core.
use dust_monitoring.Prelude.{
  ℕ, ◌≡◌, refl, ap, ap₂, sym, ◌∙◌, subst, true, false, Option, none, some, [], ◌∷◌, arith, ◌==◌,
  if◌then◌else◌, Bool-cases, inl, inr,
}
use dust_monitoring.Charts.Buckets.{
  BucketUnit, hour, day, week, month, BucketKey, of_hour, of_day, of_week, of_month, same_unit,
  same_key,
}
use dust_monitoring.Charts.Redis.{
  Slot, same_slot, Slots, get, set, delete, ZSet, zadd, or_empty, Redis, add_live_raw,
  freeze_bucket,
}

pub same_unit-eq : (u v : BucketUnit) → same_unit u v ≡ true → u ≡ v
same_unit-eq hour hour h = refl
same_unit-eq day day h = refl
same_unit-eq week week h = refl
same_unit-eq month month h = refl
same_unit-eq _ _ h = ground (arith, h)

same_key-eq : (a b : BucketKey) → same_key a b ≡ true → a ≡ b
unfolding same_key
same_key-eq (of_hour a b c d) (of_hour x y z w) h = ground (arith, h)
same_key-eq (of_day a b c) (of_day x y z) h = ground (arith, h)
same_key-eq (of_week a b) (of_week x y) h = ground (arith, h)
same_key-eq (of_month a b) (of_month x y) h = ground (arith, h)
same_key-eq _ _ h = ground (arith, h)

same_key_refl : (a : BucketKey) → same_key a a ≡ true
unfolding same_key
same_key_refl (of_hour a b c d) = ground arith
same_key_refl (of_day a b c) = ground arith
same_key_refl (of_week a b) = ground arith
same_key_refl (of_month a b) = ground arith

pub same_unit_refl : (u : BucketUnit) → same_unit u u ≡ true
same_unit_refl hour = refl
same_unit_refl day = refl
same_unit_refl week = refl
same_unit_refl month = refl

pub same_slot-eq : (k l : Slot) → same_slot k l ≡ true → k ≡ l
same_slot-eq (u, a) (v, b) h =
    ap₂ (λ x y. (x, y)) (same_unit-eq u v (ground (arith, h))) (same_key-eq a b (ground (arith, h)))

pub same_slot_refl : (k : Slot) → same_slot k k ≡ true
same_slot_refl (u, a) = ground (arith, same_unit_refl u, same_key_refl a)

module _ {A : Type 0} where
  pub get-set : (k : Slot) (v : A) (t : Slots A) → get k (set k v t) ≡ some v
  unfolding get set
  get-set k v [] = rw (same_slot_refl k) refl
  get-set k v ((j, u) ∷ t) = elim (Bool-cases (same_slot j k)) [
    | inl e ↦ rw e (rw e refl)
    | inr e ↦ rw e (rw e (get-set k v t))
  ]

  pub get-set-other :
      (k l : Slot) (v : A) (t : Slots A) → same_slot k l ≡ false → get l (set k v t) ≡ get l t
  unfolding get set
  get-set-other k l v [] h = rw h refl
  get-set-other k l v ((j, u) ∷ t) h = elim (Bool-cases (same_slot j k)) [
    | inl e ↦
        let d : same_slot j l ≡ false = ap (λ x. same_slot x l) (same_slot-eq j k e) ∙ h in
        rw e (rw d refl)
    | inr e ↦ rw e (rw (get-set-other k l v t h) refl)
  ]

  pub get-delete-other :
      (k l : Slot) (t : Slots A) → same_slot k l ≡ false → get l (delete k t) ≡ get l t
  unfolding get delete
  get-delete-other k l [] h = refl
  get-delete-other k l ((j, u) ∷ t) h = elim (Bool-cases (same_slot j k)) [
    | inl e ↦
        let d : same_slot j l ≡ false = ap (λ x. same_slot x l) (same_slot-eq j k e) ∙ h in
        rw e (rw d (get-delete-other k l t h))
    | inr e ↦ rw e (rw (get-delete-other k l t h) refl)
  ]

-- `ZSCORE`
unfoldable pub zscore : {F : Type 0} → ℕ → ZSet F → Option F
zscore i [] = none
zscore i ((j, v) ∷ z) = let rest = zscore i z in if j == i then some v else rest

module _ {F : Type 0} where
  pub zscore-zadd : (i : ℕ) (v : F) (z : ZSet F) → zscore i (zadd i v z) ≡ some v
  unfolding zscore zadd
  zscore-zadd i v [] = ground arith
  zscore-zadd i v ((j, u) ∷ z) = ground (arith, zscore-zadd i v z)

  pub zscore-zadd-other :
      (i j : ℕ) (v : F) (z : ZSet F) → (j == i) ≡ false → zscore i (zadd j v z) ≡ zscore i z
  unfolding zscore zadd
  zscore-zadd-other i j v [] h = ground (arith, h)
  zscore-zadd-other i j v ((k, u) ∷ z) h = ground (arith, h, zscore-zadd-other i j v z h)

module _ {F S : Type 0} where
  -- Sample `i` is in the live set of slot `k` with the value `v`.
  abbrev pub Live : Slot → ℕ → F → Redis F S → Type 0
  Live k i v r = zscore i (or_empty (get k r.live_raw)) ≡ some v

  pub add_live_raw-Live :
      (k : Slot) (i : ℕ) (v : F) (r : Redis F S) → Live k i v (add_live_raw k i v r)
  unfolding add_live_raw
  add_live_raw-Live k i v r =
      ap (λ o. zscore i (or_empty o))
        (get-set k (zadd i v (or_empty (get k r.live_raw))) r.live_raw)
      ∙ zscore-zadd i v (or_empty (get k r.live_raw))

  -- A sample stays where it is, unless one of its number comes with another value.
  pub add_live_raw-keeps :
      (k l : Slot) (i j : ℕ) (v w : F) (r : Redis F S)
      → ((j == i) ≡ true → w ≡ v)
      → Live k i v r
      → Live k i v (add_live_raw l j w r)
  unfolding add_live_raw
  add_live_raw-keeps k l i j v w r same h = elim (Bool-cases (same_slot l k)) [
    | inl e ↦ elim (Bool-cases (j == i)) [
      | inl f ↦
          let p : l ≡ k = same_slot-eq l k e in
          let q : j ≡ i = ground (arith, f) in
          subst (λ x. Live k i x (add_live_raw l j w r)) (same f)
            (subst (λ x. Live x i w (add_live_raw l j w r)) p
              (subst (λ x. Live l x w (add_live_raw l j w r)) q (add_live_raw-Live l j w r)))
      | inr f ↦
          let p : l ≡ k = same_slot-eq l k e in
          subst (λ x. Live x i v (add_live_raw l j w r)) p
            (ap (λ o. zscore i (or_empty o))
                (get-set l (zadd j w (or_empty (get l r.live_raw))) r.live_raw)
              ∙ zscore-zadd-other i j w (or_empty (get l r.live_raw)) f
              ∙ subst (λ x. Live x i v r) (sym p) h)
    ]
    | inr e ↦
        ap (λ o. zscore i (or_empty o))
          (get-set-other l k (zadd j w (or_empty (get l r.live_raw))) r.live_raw e)
        ∙ h
  ]

  pub freeze_bucket-keeps :
      (k l : Slot) (i score : ℕ) (v : F) (s : S) (r : Redis F S)
      → same_slot l k ≡ false
      → Live k i v r
      → Live k i v (freeze_bucket l s score r)
  unfolding freeze_bucket
  freeze_bucket-keeps k l i score v s r e h =
      ap (λ o. zscore i (or_empty o)) (get-delete-other l k r.live_raw e) ∙ h
