-- ===== src/Cleaner/Tests.antt =====
-- Runs of the cleaner, and the theorems about it at those inputs.
use dust_monitoring.Prelude.{
  ℕ, zero, suc, ◌+◌, ◌≤◌, ◌<◌, ◌≡◌, ◌↔◌, ◌⊎◌, refl, true, false, ◌||◌, some, List, [], ◌∷◌, arith,
  codes, keep, length,
}
use dust_monitoring.Cleaner.Service as Service
use dust_monitoring.Cleaner.Schedule as Schedule
use dust_monitoring.Cleaner.Videos.{
  day, Video, Store, Settings, Counts, is_expired_normal, purge_videos, run_all,
}
use dust_monitoring.Cleaner.Retention.{swept, purge_videos-swept}
use dust_monitoring.Cleaner.Frames.{Frame, Disk, done, os_error, emergency_purge}
use dust_monitoring.Cleaner.Unlinking.{in_table, is_unlinked}
use dust_monitoring.Cleaner.Safety.{emergency_purge-held}

abbrev video : ℕ → ℕ → Video
video i at = record {
  video_id = i;
  file_path = codes "v.mp4";
  is_valid = true;
  is_excluded = false;
  captured_at = at;
}

-- Day 20, in microseconds: the first two videos are older than 14 days.
abbrev now : ℕ
now = 1728000000000

abbrev store : Store
store = record {
  videos = video 1 0 ∷ video 2 86400000000 ∷ video 3 1700000000000 ∷ [];
  sensor_samples = 5 ∷ [];
  ingestion_log = 5 ∷ [];
  unlinked = [];
}

abbrev settings : Settings
settings = record {
  video_normal_days = 14;
  video_anomaly_days = 180;
  sensor_days = 180;
  ingestion_log_days = 180;
  batch_size = 1;
}

purge_videos-swept_example :
    purge_videos (is_expired_normal now 14) 1 store
    ≡ some (
      length (keep (is_expired_normal now 14) store.videos),
      swept (is_expired_normal now 14) store,
    )
purge_videos-swept_example =
    purge_videos-swept (is_expired_normal now 14) 1 store (refl, (refl, (refl, tt))) (omega arith)

abbrev left : Store
left = record {
  videos = video 3 1700000000000 ∷ [];
  sensor_samples = 5 ∷ [];
  ingestion_log = 5 ∷ [];
  unlinked = codes "v.mp4" ∷ codes "v.mp4" ∷ [];
}

abbrev two_purged : Counts
two_purged = record { normal = 2; anomaly = 0; sensor_sample = 0; ingestion_log = 0 }

sweep_store : run_all now settings store ≡ some (two_purged, left)
unfolding run_all
sweep_store = refl

abbrev frames : List Frame
frames =
    record { id = 7; file_path = codes "a.jpg"; received_at = 1 }
    ∷ record { id = 8; file_path = codes "a.jpg"; received_at = 2 }
    ∷ []

-- The second unlink fails, and the disk is full.
abbrev disk : Disk
disk = record { unlink = λ n p. elim n [ zero ↦ done | suc _ ↦ os_error ]; percent = λ n. some 950 }

emergency_purge-held_example :
    (in_table 8 (emergency_purge disk 900 800 2 frames).1.frames
      || is_unlinked (codes "a.jpg") (emergency_purge disk 900 800 2 frames).1.attempts)
    ≡ true
emergency_purge-held_example =
    emergency_purge-held disk (λ i. codes "a.jpg") 900 800 2 8 frames (refl, (refl, tt)) refl

abbrev nightly : Service.Schedule
nightly = record { run_at_hour_kst = 3; run_at_minute_kst = 0; disk_check_interval_sec = 300 }

next_scheduled_run-first_example :
    (64799999999 < Service.next_scheduled_run 64799999999 3 0)
    × ((Service.next_scheduled_run 64799999999 3 0 ≤ 64799999999 + day)
        × (Schedule.Shows 3 0 (Service.next_scheduled_run 64799999999 3 0)
            × ((t : ℕ)
                → 64799999999 < t
                → Schedule.Shows 3 0 t
                → Service.next_scheduled_run 64799999999 3 0 ≤ t)))
next_scheduled_run-first_example =
    Schedule.next_scheduled_run-first 64799999999 3 0 (omega arith) (omega arith)

-- The clock shows 03:00 at 64,800 seconds: a turn that starts a second before and wakes a second after.
abbrev across : Service.Turn
across = record { now = 64799000000; woken_at = 64801000000; stopped = false; triggered = false }

jobs-run_all_example : (Schedule.has_job Service.run_all (Service.jobs nightly across) ≡ true) ↔ (
    (false ≡ true) ⊎ ((m : ℕ) × ((64799000000 < m) × ((m ≤ 64801000000) × Schedule.Shows 3 0 m))))
jobs-run_all_example = Schedule.jobs-run_all nightly across (omega arith) (omega arith)

-- A purge that lasts over 03:00 loses the retention of that day: it is not due before the
-- purge, and after it the next run is that of the day to come.
abbrev before : Service.Turn
before = record { now = 64790000000; woken_at = 64799000000; stopped = false; triggered = false }

abbrev after : Service.Turn
after = record { now = 64801000000; woken_at = 65101000000; stopped = false; triggered = false }

run_service-misses :
    Service.run_service nightly (before ∷ after ∷ [])
    ≡ Service.emergency_purge ∷ Service.emergency_purge ∷ []
unfolding Service.run_service
run_service-misses = refl
