-- ===== src/Charts/Task.antt =====
-- Dumopro_Data_Analysis_WebApp/apps/poller/station_task.py: one poll of a station.
use dust_monitoring.Prelude.{ℕ, Option, none, some, List, [], ◌∷◌, ◌++◌, any, if◌then◌else◌}
use dust_monitoring.Charts.Buckets.{
  BucketUnit, unit_list, BucketKey, Timestamp, bucket_key, same_key, same_unit,
}
use dust_monitoring.Charts.Redis.{
  Slot, same_slot, Redis, candle_update, candle_frozen, add_live_raw, get_live_raw_values,
  set_live_stats, freeze_bucket, publish_candle_event, set_cursor,
}
use dust_monitoring.Charts.Freezer.{Pending, schedule, due, drop}

pub record SampleRow (F : Type 0) : Type 0 where
  pub id : ℕ
  pub value : F
  pub sampled_at : Timestamp

-- What a task keeps: the freezer, the last bucket of each unit, and the slots to compute again.
pub record StationTask (F S : Type 0) : Type 0 where
  pub redis : Redis F S
  pub pending : Pending
  pub last_bucket_keys : BucketUnit → Option BucketKey
  pub dirty : List Slot

-- `stats` is `candle_to_json (compute_box_stats …)`, and `score` that of a bucket's start.
pub record Env (F S : Type 0) : Type 0 where
  pub stats : List F → S
  pub score : Slot → ℕ
  pub grace : ℕ
  pub now : ℕ

abbrev pub remember :
    BucketUnit → BucketKey → (BucketUnit → Option BucketKey) → BucketUnit → Option BucketKey
remember u k last v = if same_unit v u then some k else last v

abbrev pub add_dirty : Slot → List Slot → List Slot
add_dirty k ks = if any (λ j. same_slot j k) ks then ks else ks ++ k ∷ []

abbrev pub last_row : {F : Type 0} → SampleRow F → List (SampleRow F) → SampleRow F
last_row s [] = s
last_row s (x ∷ xs) = last_row x xs

module _ {F S : Type 0} where
  abbrev pub crossed : Env F S → BucketUnit → BucketKey → Option BucketKey → Pending → Pending
  crossed env u k none f = f
  crossed env u k (some prev) f = if same_key prev k then f else schedule env.grace env.now u prev f

  -- The body of the inner loop: one sample in the bucket of one unit.
  unfoldable pub take_sample :
      Env F S → SampleRow F → BucketUnit → StationTask F S → StationTask F S
  unfolding bucket_key schedule same_key add_live_raw
  take_sample env s u t =
      let k = bucket_key s.sampled_at u in
      record t {
        pending = crossed env u k (t.last_bucket_keys u) t.pending;
        last_bucket_keys = remember u k t.last_bucket_keys;
        redis = add_live_raw (u, k) s.id s.value t.redis;
        dirty = add_dirty (u, k) t.dirty;
      }

  abbrev pub take_units :
      Env F S → SampleRow F → List BucketUnit → StationTask F S → StationTask F S
  take_units env s [] t = t
  take_units env s (u ∷ us) t = take_units env s us (take_sample env s u t)

  unfoldable pub take_samples : Env F S → List (SampleRow F) → StationTask F S → StationTask F S
  unfolding take_sample
  take_samples env [] t = t
  take_samples env (s ∷ ss) t = take_samples env ss (take_units env s unit_list t)

  abbrev pub recomputed : Env F S → Slot → List F → Redis F S → Redis F S
  recomputed env k [] r = r
  recomputed env k (v ∷ vs) r =
      publish_candle_event (candle_update k (env.stats (v ∷ vs)))
        (set_live_stats k (env.stats (v ∷ vs)) r)

  -- `_recompute_dirty`; the set gives its slots up in an order that is not told.
  unfoldable pub recompute_dirty : Env F S → List Slot → Redis F S → Redis F S
  unfolding get_live_raw_values set_live_stats publish_candle_event
  recompute_dirty env [] r = r
  recompute_dirty env (k ∷ ks) r =
      recompute_dirty env ks (recomputed env k (get_live_raw_values k r) r)

  abbrev pub frozen_with : Env F S → Slot → List F → StationTask F S → StationTask F S
  frozen_with env (u, k) [] t = record t { pending = drop u k t.pending }
  frozen_with env (u, k) (v ∷ vs) t = record t {
    redis =
        publish_candle_event (candle_frozen (u, k) (env.stats (v ∷ vs)))
          (freeze_bucket (u, k) (env.stats (v ∷ vs)) (env.score (u, k)) t.redis);
    pending = drop u k t.pending;
  }

  unfoldable pub freeze_all : Env F S → List Slot → StationTask F S → StationTask F S
  unfolding get_live_raw_values freeze_bucket publish_candle_event drop
  freeze_all env [] t = t
  freeze_all env (k ∷ ks) t =
      freeze_all env ks (frozen_with env k (get_live_raw_values k t.redis) t)

  -- `_process_freezes`
  unfoldable pub process_freezes : Env F S → StationTask F S → StationTask F S
  unfolding due freeze_all
  process_freezes env t = freeze_all env (due env.now t.pending) t

  abbrev pub polled : Env F S → List (SampleRow F) → StationTask F S → StationTask F S
  polled env [] t = t
  polled env (s ∷ ss) t =
      let t' = take_samples env (s ∷ ss) t in
      let r = set_cursor (last_row s ss).id (last_row s ss).sampled_at t'.redis in
      record t' { redis = recompute_dirty env t'.dirty r; dirty = [] }

  -- `_tick`, on the samples that `fetch_samples_since` answers.
  unfoldable pub tick : Env F S → List (SampleRow F) → StationTask F S → StationTask F S
  unfolding take_samples recompute_dirty process_freezes set_cursor
  tick env samples t = process_freezes env (polled env samples t)

  -- `_seed_last_buckets`
  unfoldable pub seed_last_buckets : Timestamp → StationTask F S → StationTask F S
  unfolding bucket_key
  seed_last_buckets at t = record t { last_bucket_keys = λ u. some (bucket_key at u) }
