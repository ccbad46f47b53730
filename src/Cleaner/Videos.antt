-- ===== src/Cleaner/Videos.antt =====
-- SocketDaim/cleaner/cleanup.py, `run_all` and `_purge_videos`. Times are microseconds. A SELECT
-- without ORDER BY answers in the order of the table.
use dust_monitoring.Prelude.{
  ℕ, zero, suc, ◌+◌, ◌*◌, Bool, not, ◌&&◌, ◌||◌, Option, none, some, bind, List, ◌++◌, map, any,
  keep, take, ◌==◌, ltb, if◌then◌else◌, length, Text,
}

pub record Video : Type 0 where
  pub video_id : ℕ
  pub file_path : Text
  pub is_valid : Bool
  pub is_excluded : Bool
  pub captured_at : ℕ

-- The tables, and the paths that were passed to `os.unlink` so far. A row of sensor_sample and of
-- ingestion_log is its time.
pub record Store : Type 0 where
  pub videos : List Video
  pub sensor_samples : List ℕ
  pub ingestion_log : List ℕ
  pub unlinked : List Text

abbrev pub day : ℕ
day = 86400000000

-- `t < NOW() - make_interval(days => days)`
unfoldable pub is_older : ℕ → ℕ → ℕ → Bool
is_older now days t = ltb (t + days * day) now

unfoldable pub is_expired_normal : ℕ → ℕ → Video → Bool
is_expired_normal now days v = v.is_valid && not v.is_excluded && is_older now days v.captured_at

unfoldable pub is_expired_anomaly : ℕ → ℕ → Video → Bool
is_expired_anomaly now days v = (not v.is_valid || v.is_excluded) && is_older now days v.captured_at

abbrev pub video_ids : List Video → List ℕ
video_ids = map (λ v. v.video_id)

unfoldable pub delete_videos : List ℕ → List Video → List Video
delete_videos ids rows = keep (λ v. not (any (λ i. i == v.video_id) ids)) rows

abbrev pub unlink_and_delete : List Video → Store → Store
unlink_and_delete found s = record s {
  videos = delete_videos (video_ids found) s.videos;
  unlinked = s.unlinked ++ map (λ v. v.file_path) found;
}

-- `while True`, on fuel: `none` if it runs out.
unfoldable pub purge_loop : ℕ → (Video → Bool) → ℕ → ℕ → Store → Option (ℕ × Store)
unfolding delete_videos
purge_loop zero selected batch total s = none
purge_loop (suc fuel) selected batch total s =
    let found = take batch (keep selected s.videos) in
    let rest = purge_loop fuel selected batch (total + length found) (unlink_and_delete found s) in
    if length found == 0
    then some (total, s)
    else if ltb (length found) batch
    then some (total + length found, unlink_and_delete found s)
    else rest

unfoldable pub purge_videos : (Video → Bool) → ℕ → Store → Option (ℕ × Store)
unfolding purge_loop
purge_videos selected batch s = purge_loop (suc (length s.videos)) selected batch 0 s

-- One DELETE by age: the number of the rows deleted, and the rows left.
unfoldable pub purge_older : ℕ → ℕ → List ℕ → ℕ × List ℕ
unfolding is_older
purge_older now days rows =
    (length (keep (is_older now days) rows), keep (λ t. not (is_older now days t)) rows)

pub record Settings : Type 0 where
  pub video_normal_days : ℕ
  pub video_anomaly_days : ℕ
  pub sensor_days : ℕ
  pub ingestion_log_days : ℕ
  pub batch_size : ℕ

pub record Counts : Type 0 where
  pub normal : ℕ
  pub anomaly : ℕ
  pub sensor_sample : ℕ
  pub ingestion_log : ℕ

unfoldable pub run_all : ℕ → Settings → Store → Option (Counts × Store)
unfolding purge_videos is_expired_normal is_expired_anomaly purge_older
run_all now settings s =
    bind (purge_videos (is_expired_normal now settings.video_normal_days) settings.batch_size s)
      λ (n_normal, s1).
        bind
          (purge_videos (is_expired_anomaly now settings.video_anomaly_days) settings.batch_size s1)
          λ (n_anomaly, s2).
            let (n_sensor, samples) = purge_older now settings.sensor_days s2.sensor_samples in
            let (n_log, log) = purge_older now settings.ingestion_log_days s2.ingestion_log in
            some (
              record {
                normal = n_normal;
                anomaly = n_anomaly;
                sensor_sample = n_sensor;
                ingestion_log = n_log;
              },
              record s2 { sensor_samples = samples; ingestion_log = log },
            )
