-- ===== src/Charts/Grace.antt =====
-- When Dumopro_Data_Analysis_WebApp/apps/poller/freezer.py gives a bucket up to be frozen.
use dust_monitoring.Prelude.{
  ℕ, ◌+◌, ◌≡◌, ◌≢◌, refl, ap, ◌∙◌, Bool, false, ◌||◌, Option, none, some, List, [], ◌∷◌, ◌++◌, any,
  any-append, arith, leb, Bool-cases, inl, inr,
}
use dust_monitoring.Charts.Buckets.{BucketUnit, hour, day, week, month, BucketKey, same_unit}
use dust_monitoring.Charts.Redis.{Slot}
use dust_monitoring.Charts.Slots.{same_unit_refl}
use dust_monitoring.Charts.Freezer.{
  PendingFreeze, Pending, pending_of, set_pending, is_pending, schedule, due, due_of,
}

-- Whether a bucket of the unit is among the slots.
abbrev pub has_unit : BucketUnit → List Slot → Bool
has_unit u ks = any (λ k. same_unit k.0 u) ks

due_of-other :
    (now : ℕ) (v u : BucketUnit) (o : Option PendingFreeze)
    → same_unit v u ≡ false
    → has_unit u (due_of now v o) ≡ false
due_of-other now v u none h = refl
due_of-other now v u (some p) h = elim (Bool-cases (leb p.ready_at now)) [
  | inl e ↦ rw e (rw h refl)
  | inr e ↦ rw e refl
]

due_of-own :
    (now : ℕ) (u : BucketUnit) (p : PendingFreeze)
    → has_unit u (due_of now u (some p)) ≡ leb p.ready_at now
due_of-own now u p = elim (Bool-cases (leb p.ready_at now)) [
  | inl e ↦ rw e (rw (same_unit_refl u) refl)
  | inr e ↦ rw e refl
]

due-unit :
    (now : ℕ) (u : BucketUnit) (f : Pending)
    → has_unit u (due now f) ≡ (
        has_unit u (due_of now day (pending_of day f))
        || (has_unit u (due_of now week (pending_of week f))
            || has_unit u (due_of now month (pending_of month f))))
unfolding due
due-unit now u f =
    let a = due_of now day (pending_of day f) in
    let b = due_of now week (pending_of week f) in
    let c = due_of now month (pending_of month f) in
    let t = λ (k : Slot). same_unit k.0 u in
    ground (arith, any-append t a (b ++ (c ++ [])), any-append t b (c ++ []), any-append t c [])

-- No bucket of an hour is ever due, though the task schedules those too: whatever is pending, and
-- however long it has been.
pub due-hour_never : (now : ℕ) (f : Pending) → has_unit hour (due now f) ≡ false
due-hour_never now f =
    due-unit now hour f
    ∙ ground (
      arith,
      due_of-other now day hour (pending_of day f) refl,
      due_of-other now week hour (pending_of week f) refl,
      due_of-other now month hour (pending_of month f) refl,
    )

pending_of-set :
    (u : BucketUnit) (p : PendingFreeze) (f : Pending) → pending_of u (set_pending u p f) ≡ some p
unfolding pending_of set_pending
pending_of-set u p [] = rw (same_unit_refl u) refl
pending_of-set u p ((v, q) ∷ f) = elim (Bool-cases (same_unit v u)) [
  | inl e ↦ rw e (rw e refl)
  | inr e ↦ rw e (rw e (pending_of-set u p f))
]

schedule-pending :
    (grace now : ℕ) (u : BucketUnit) (k : BucketKey) (f : Pending)
    → is_pending u k f ≡ false
    → pending_of u (schedule grace now u k f)
      ≡ some (record { bucket_key = k; ready_at = now + grace })
unfolding schedule
schedule-pending grace now u k f new =
    rw new (pending_of-set u (record { bucket_key = k; ready_at = now + grace }) f)

-- A bucket that is scheduled, of a day, a week or a month and not pending before, is due once the
-- grace period is over, and not before.
pub schedule-due :
    (grace now later : ℕ) (u : BucketUnit) (k : BucketKey) (f : Pending)
    → u ≢ hour
    → is_pending u k f ≡ false
    → has_unit u (due later (schedule grace now u k f)) ≡ leb (now + grace) later
schedule-due grace now later u k f coarse new =
    let g = schedule grace now u k f in
    let own =
      ap (λ o. has_unit u (due_of later u o)) (schedule-pending grace now u k f new)
      ∙ due_of-own later u (record { bucket_key = k; ready_at = now + grace }) in
    due-unit later u g ∙ go u coarse g own
  where
    go :
        (u : BucketUnit)
        → u ≢ hour
        → (g : Pending) → has_unit u (due_of later u (pending_of u g)) ≡ leb (now + grace) later
        → (has_unit u (due_of later day (pending_of day g))
            || (has_unit u (due_of later week (pending_of week g))
                || has_unit u (due_of later month (pending_of month g))))
          ≡ leb (now + grace) later
    go hour h g own = ground (arith, h)
    go day h g own = ground (
      arith,
      own,
      due_of-other later week day (pending_of week g) refl,
      due_of-other later month day (pending_of month g) refl,
    )
    go week h g own = ground (
      arith,
      own,
      due_of-other later day week (pending_of day g) refl,
      due_of-other later month week (pending_of month g) refl,
    )
    go month h g own = ground (
      arith,
      own,
      due_of-other later day month (pending_of day g) refl,
      due_of-other later week month (pending_of week g) refl,
    )
