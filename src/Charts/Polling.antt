-- ===== src/Charts/Polling.antt =====
-- What one poll of Dumopro_Data_Analysis_WebApp/apps/poller/station_task.py does with the samples.
use dust_monitoring.Prelude.{
  ℕ, ◌≡◌, refl, ap, sym, ◌∙◌, subst, Bool, true, false, some, List, [], ◌∷◌, any, arith, All,
  All-map, Bool-cases, inl, inr,
}
use dust_monitoring.Charts.Buckets.{
  BucketUnit, unit_list, hour, day, week, month, Timestamp, bucket_key, same_unit,
}
use dust_monitoring.Charts.Redis.{
  Slot, same_slot, Redis, get_live_raw_values, set_live_stats, publish_candle_event, freeze_bucket,
  set_cursor,
}
use dust_monitoring.Charts.Freezer.{Pending, due}
use dust_monitoring.Charts.Task.{
  SampleRow, StationTask, Env, take_sample, take_units, take_samples, recompute_dirty, recomputed,
  frozen_with, freeze_all, process_freezes, last_row, polled, tick,
}
use dust_monitoring.Charts.Slots.{
  Live, add_live_raw-Live, add_live_raw-keeps, freeze_bucket-keeps, same_unit-eq,
}

module _ {F S : Type 0} (env : Env F S) (value_of : ℕ → F) where
  -- The rows of one number have one value.
  abbrev pub Valued : List (SampleRow F) → Type 0
  Valued ss = All (λ s. s.value ≡ value_of s.id) ss

  abbrev Kept : Slot → ℕ → StationTask F S → Type 0
  Kept k i t = Live k i (value_of i) t.redis

  take_sample-keeps :
      (s : SampleRow F) (u : BucketUnit) (k : Slot) (i : ℕ) (t : StationTask F S)
      → s.value ≡ value_of s.id
      → Kept k i t
      → Kept k i (take_sample env s u t)
  unfolding take_sample
  take_sample-keeps s u k i t e h =
      add_live_raw-keeps k (u, bucket_key s.sampled_at u) i s.id (value_of i) s.value t.redis
        (λ same. e ∙ ap value_of (ground (arith, same))) h

  take_units-keeps :
      (s : SampleRow F) (us : List BucketUnit) (k : Slot) (i : ℕ) (t : StationTask F S)
      → s.value ≡ value_of s.id
      → Kept k i t
      → Kept k i (take_units env s us t)
  take_units-keeps s [] k i t e h = h
  take_units-keeps s (u ∷ us) k i t e h =
      take_units-keeps s us k i (take_sample env s u t) e (take_sample-keeps s u k i t e h)

  take_samples-keeps :
      (ss : List (SampleRow F)) (k : Slot) (i : ℕ) (t : StationTask F S)
      → Valued ss
      → Kept k i t
      → Kept k i (take_samples env ss t)
  unfolding take_samples
  take_samples-keeps [] k i t e h = h
  take_samples-keeps (s ∷ ss) k i t (a, e) h =
      take_samples-keeps ss k i (take_units env s unit_list t) e
        (take_units-keeps s unit_list k i t a h)

  take_sample-takes :
      (s : SampleRow F) (u : BucketUnit) (t : StationTask F S)
      → s.value ≡ value_of s.id
      → Kept (u, bucket_key s.sampled_at u) s.id (take_sample env s u t)
  unfolding take_sample
  take_sample-takes s u t e =
      add_live_raw-Live (u, bucket_key s.sampled_at u) s.id s.value t.redis ∙ ap some e

  take_units-takes :
      (s : SampleRow F) (us : List BucketUnit) (t : StationTask F S) (v : BucketUnit)
      → s.value ≡ value_of s.id
      → any (λ u. same_unit u v) us ≡ true
      → Kept (v, bucket_key s.sampled_at v) s.id (take_units env s us t)
  take_units-takes s [] t v e h = ground (arith, h)
  take_units-takes s (u ∷ us) t v e h = elim (Bool-cases (same_unit u v)) [
    | inl f ↦
        let p : u ≡ v = same_unit-eq u v f in
        take_units-keeps s us (v, bucket_key s.sampled_at v) s.id (take_sample env s u t) e
          (subst (λ x. Kept (x, bucket_key s.sampled_at x) s.id (take_sample env s u t)) p
            (take_sample-takes s u t e))
    | inr f ↦ take_units-takes s us (take_sample env s u t) v e (ground (arith, h, f))
  ]

  every_unit : (v : BucketUnit) → any (λ u. same_unit u v) unit_list ≡ true
  every_unit hour = refl
  every_unit day = refl
  every_unit week = refl
  every_unit month = refl

  -- Every sample of the rows is in the live sets of its four buckets.
  abbrev Taken : List (SampleRow F) → StationTask F S → Type 0
  Taken ss t = All (λ s. (u : BucketUnit) → Kept (u, bucket_key s.sampled_at u) s.id t) ss

  take_samples-takes :
      (ss : List (SampleRow F)) (t : StationTask F S) → Valued ss → Taken ss (take_samples env ss t)
  unfolding take_samples
  take_samples-takes [] t e = tt
  take_samples-takes (s ∷ ss) t (a, e) = (
    λ u.
        take_samples-keeps ss (u, bucket_key s.sampled_at u) s.id (take_units env s unit_list t) e
          (take_units-takes s unit_list t u a (every_unit u)),
    take_samples-takes ss (take_units env s unit_list t) e,
  )

  recompute_dirty-keeps :
      (ks : List Slot) (k : Slot) (i : ℕ) (r : Redis F S)
      → Live k i (value_of i) r
      → Live k i (value_of i) (recompute_dirty env ks r)
  unfolding recompute_dirty set_live_stats publish_candle_event
  recompute_dirty-keeps [] k i r h = h
  recompute_dirty-keeps (l ∷ ks) k i r h =
      recompute_dirty-keeps ks k i (recomputed env l (get_live_raw_values l r) r)
        (go (get_live_raw_values l r))
    where
      go : (vs : List F) → Live k i (value_of i) (recomputed env l vs r)
      go [] = h
      go (v ∷ vs) = h

  freeze_all-keeps :
      (ks : List Slot) (k : Slot) (i : ℕ) (t : StationTask F S)
      → any (λ l. same_slot l k) ks ≡ false
      → Kept k i t
      → Kept k i (freeze_all env ks t)
  unfolding freeze_all publish_candle_event
  freeze_all-keeps [] k i t e h = h
  freeze_all-keeps (l ∷ ks) k i t e h =
      freeze_all-keeps ks k i (frozen_with env l (get_live_raw_values l t.redis) t)
        (ground (arith, e)) (go l (get_live_raw_values l t.redis) (ground (arith, e)))
    where
      go : (l : Slot) (vs : List F) → same_slot l k ≡ false → Kept k i (frozen_with env l vs t)
      go (u, b) [] d = h
      go (u, b) (v ∷ vs) d =
          freeze_bucket-keeps k (u, b) i (env.score (u, b)) (value_of i) (env.stats (v ∷ vs))
            t.redis d h

  -- The freezer as it is once the samples of a poll have been taken.
  abbrev pub pending_after : List (SampleRow F) → StationTask F S → Pending
  pending_after ss t = (take_samples env ss t).pending

  abbrev pub is_due : Slot → List (SampleRow F) → StationTask F S → Bool
  is_due k ss t = any (λ l. same_slot l k) (due env.now (pending_after ss t))

  recompute_dirty-last_id :
      (ks : List Slot) (r : Redis F S) → (recompute_dirty env ks r).last_id ≡ r.last_id
  unfolding recompute_dirty set_live_stats publish_candle_event
  recompute_dirty-last_id [] r = refl
  recompute_dirty-last_id (l ∷ ks) r =
      recompute_dirty-last_id ks (recomputed env l (get_live_raw_values l r) r)
      ∙ go (get_live_raw_values l r)
    where
      go : (vs : List F) → (recomputed env l vs r).last_id ≡ r.last_id
      go [] = refl
      go (v ∷ vs) = refl

  freeze_all-last_id :
      (ks : List Slot) (t : StationTask F S) → (freeze_all env ks t).redis.last_id ≡ t.redis.last_id
  unfolding freeze_all publish_candle_event freeze_bucket
  freeze_all-last_id [] t = refl
  freeze_all-last_id (l ∷ ks) t =
      freeze_all-last_id ks (frozen_with env l (get_live_raw_values l t.redis) t)
      ∙ go l (get_live_raw_values l t.redis)
    where
      go : (l : Slot) (vs : List F) → (frozen_with env l vs t).redis.last_id ≡ t.redis.last_id
      go (u, b) [] = refl
      go (u, b) (v ∷ vs) = refl

  set_cursor-keeps :
      (k : Slot) (i j : ℕ) (at : Timestamp) (r : Redis F S)
      → Live k i (value_of i) r
      → Live k i (value_of i) (set_cursor j at r)
  unfolding set_cursor
  set_cursor-keeps k i j at r h = h

  set_cursor-last_id : (j : ℕ) (at : Timestamp) (r : Redis F S) → (set_cursor j at r).last_id ≡ j
  unfolding set_cursor
  set_cursor-last_id j at r = refl

  tick-freeze_all :
      (ss : List (SampleRow F)) (t : StationTask F S)
      → tick env ss t ≡ freeze_all env (due env.now (polled env ss t).pending) (polled env ss t)
  unfolding tick process_freezes
  tick-freeze_all ss t = refl

  -- After a poll that has read samples, the rows of one number having one value, the cursor is at the last of them, and each of
  -- them is in the live set of its bucket of every unit, unless that bucket was due to be
  -- frozen at the end of the poll.
  pub tick-takes :
      (s : SampleRow F) (ss : List (SampleRow F)) (t : StationTask F S)
      → Valued (s ∷ ss)
      → ((tick env (s ∷ ss) t).redis.last_id ≡ (last_row s ss).id)
        × All
            (λ x.
              (u : BucketUnit)
              → is_due (u, bucket_key x.sampled_at u) (s ∷ ss) t ≡ false
              → Live
                  (u, bucket_key x.sampled_at u)
                  x.id
                  (value_of x.id)
                  (tick env (s ∷ ss) t).redis)
            (s ∷ ss)
  tick-takes s ss t e =
      let at = (last_row s ss).sampled_at in
      let t' = take_samples env (s ∷ ss) t in
      let r = set_cursor (last_row s ss).id at t'.redis in
      let p = polled env (s ∷ ss) t in
      let ks = due env.now p.pending in
      (
        ap (λ x. x.redis.last_id) (tick-freeze_all (s ∷ ss) t)
            ∙ freeze_all-last_id ks p
            ∙ recompute_dirty-last_id t'.dirty r
            ∙ set_cursor-last_id (last_row s ss).id at t'.redis,
        All-map
            (λ x h u d.
              let k : Slot = (u, bucket_key x.sampled_at u) in
              subst (Kept k x.id) (sym (tick-freeze_all (s ∷ ss) t)) (
                freeze_all-keeps ks k x.id p d (
                  recompute_dirty-keeps t'.dirty k x.id r
                    (set_cursor-keeps k x.id (last_row s ss).id at t'.redis (h u)))))
            (s ∷ ss) (take_samples-takes (s ∷ ss) t e),
      )
