-- ===== src/Charts/Tests.antt =====
-- A poll of two samples on either side of an hour, a subscriber, and the theorems about them.
use dust_monitoring.Prelude.{ℕ, ◌+◌, ◌≤◌, ◌≡◌, refl, false, none, List, [], ◌∷◌, length, All, codes}
use dust_monitoring.Charts.Buckets.{BucketUnit, hour, Timestamp, bucket_key}
use dust_monitoring.Charts.Redis.{Redis}
use dust_monitoring.Charts.Freezer.{Pending, due}
use dust_monitoring.Charts.Task.{SampleRow, StationTask, Env, tick}
use dust_monitoring.Charts.Slots.{Live}
use dust_monitoring.Charts.Broadcaster.{SseBroadcaster, subscribe, unsubscribe}
use dust_monitoring.Charts.Polling as Polling
use dust_monitoring.Charts.Grace as Grace
use dust_monitoring.Charts.Residuals as Residuals
use dust_monitoring.Charts.Pumps as Pumps
use dust_monitoring.Charts.Queues as Queues

abbrev at_hour : ℕ → Timestamp
at_hour h = record {
  year = 2026;
  month_of_year = 6;
  day_of_month = 25;
  hour_of_day = h;
  iso_year = 2026;
  iso_week = 26;
}

abbrev sample : ℕ → ℕ → SampleRow ℕ
sample i h = record { id = i; value = i + 100; sampled_at = at_hour h }

abbrev empty_redis : Redis ℕ ℕ
empty_redis = record {
  last_id = 0;
  last_sampled_at = none;
  live_raw = [];
  live_stats = [];
  frozen = [];
  frozen_index = [];
  published = [];
}

abbrev task : StationTask ℕ ℕ
task = record { redis = empty_redis; pending = []; last_bucket_keys = λ u. none; dirty = [] }

-- The statistics are the number of the values here.
abbrev env : Env ℕ ℕ
env = record { stats = length; score = λ k. 0; grace = 30; now = 1000 }

tick-takes_example :
    ((tick env (sample 1 7 ∷ sample 2 8 ∷ []) task).redis.last_id ≡ 2)
    × All
        (λ x.
          (u : BucketUnit)
          → Polling.is_due env
              (λ i. i + 100)
              (u, bucket_key x.sampled_at u)
              (sample 1 7 ∷ sample 2 8 ∷ [])
              task
            ≡ false
          → Live
              (u, bucket_key x.sampled_at u)
              x.id
              (x.id + 100)
              (tick env (sample 1 7 ∷ sample 2 8 ∷ []) task).redis)
        (sample 1 7 ∷ sample 2 8 ∷ [])
tick-takes_example =
    Polling.tick-takes env (λ i. i + 100) (sample 1 7) (sample 2 8 ∷ []) task (refl, (refl, tt))

abbrev scheduled : Pending
scheduled = (hour, record { bucket_key = bucket_key (at_hour 7) hour; ready_at = 5 }) ∷ []

due-hour_never_example : Grace.has_unit hour (due 1000 scheduled) ≡ false
due-hour_never_example = Grace.due-hour_never 1000 scheduled

abbrev residuals : List (List ℕ)
residuals = (1 ∷ 2 ∷ []) ∷ [] ∷ (3 ∷ []) ∷ []

pushes-last_example :
    (Residuals.pushes 2 residuals [] ≡ 2 ∷ 3 ∷ []) × (length (Residuals.pushes 2 residuals []) ≤ 2)
pushes-last_example = Residuals.pushes-last 1 residuals

-- Two subscribers of one station, of whom one has left.
abbrev listening : SseBroadcaster
listening =
    unsubscribe (codes "s") 1 (subscribe (codes "s") 2 (subscribe (codes "s") 1 Pumps.started))

listening-Reachable : Pumps.Reachable listening
listening-Reachable =
    Pumps.unsubscribed (codes "s") 1
      (Pumps.subscribed (codes "s") 2 (Pumps.subscribed (codes "s") 1 Pumps.start))

Reachable-Pumped_example : Pumps.Pumped listening
Reachable-Pumped_example = Pumps.Reachable-Pumped listening-Reachable

Reachable-Bounded_example : Queues.Bounded listening
Reachable-Bounded_example = Queues.Reachable-Bounded listening-Reachable
