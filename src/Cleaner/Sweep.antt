-- ===== src/Cleaner/Sweep.antt =====
-- The nightly sweep, `run_all`, ends and leaves nothing that is expired.
use dust_monitoring.Prelude.{
  ℕ, ◌<◌, ◌≡◌, refl, sym, ap, subst, some_inj, ◌∙◌, Bool, true, false, not, ◌||◌, some, List, [],
  ◌∷◌, any, keep, length, arith, All, All-map, keep-All, keep-passes, Bool-cases, inl, inr, ◌==◌,
}
use dust_monitoring.Cleaner.Videos.{
  Video, Store, Settings, Counts, is_older, is_expired_normal, is_expired_anomaly, purge_older,
  run_all,
}
use dust_monitoring.Cleaner.Deletion.{Distinct}
use dust_monitoring.Cleaner.Retention.{swept, purge_videos-swept}

any-keep :
    (i : ℕ) (p : Video → Bool) (vs : List Video)
    → any (λ u. u.video_id == i) vs ≡ false
    → any (λ u. u.video_id == i) (keep p vs) ≡ false
any-keep i p [] h = refl
any-keep i p (v ∷ vs) h = ground (arith, any-keep i p vs)

Distinct-keep : (p : Video → Bool) (vs : List Video) → Distinct vs → Distinct (keep p vs)
Distinct-keep p [] d = tt
Distinct-keep p (v ∷ vs) (f, d) = elim (Bool-cases (p v)) [
  | inl e ↦ rw e (any-keep v.video_id p vs f, Distinct-keep p vs d)
  | inr e ↦ rw e (Distinct-keep p vs d)
]

-- The times that are not older than so many days.
abbrev pub recent : ℕ → ℕ → List ℕ → List ℕ
recent now days ts = keep (λ t. not (is_older now days t)) ts

-- The tables after one filter each.
abbrev pub sweep : ℕ → Settings → Store → Store
sweep now c s =
    let s1 = swept (is_expired_normal now c.video_normal_days) s in
    let s2 = swept (is_expired_anomaly now c.video_anomaly_days) s1 in
    record s2 {
      sensor_samples = recent now c.sensor_days s.sensor_samples;
      ingestion_log = recent now c.ingestion_log_days s.ingestion_log;
    }

abbrev pub counts : ℕ → Settings → Store → Counts
counts now c s = record {
  normal = length (keep (is_expired_normal now c.video_normal_days) s.videos);
  anomaly = length (
      keep (is_expired_anomaly now c.video_anomaly_days)
        (keep (λ v. not (is_expired_normal now c.video_normal_days v)) s.videos));
  sensor_sample = length (keep (is_older now c.sensor_days) s.sensor_samples);
  ingestion_log = length (keep (is_older now c.ingestion_log_days) s.ingestion_log);
}

pub run_all-sweeps :
    (now : ℕ) (c : Settings) (s : Store)
    → Distinct s.videos
    → 0 < c.batch_size
    → run_all now c s ≡ some (counts now c s, sweep now c s)
unfolding run_all purge_older
run_all-sweeps now c s d b =
    rw (purge_videos-swept (is_expired_normal now c.video_normal_days) c.batch_size s d b) (
      rw
        (purge_videos-swept (is_expired_anomaly now c.video_anomaly_days) c.batch_size
          (swept (is_expired_normal now c.video_normal_days) s) (Distinct-keep _ s.videos d) b)
        refl)

not-true : {b : Bool} → not b ≡ true → b ≡ false
not-true {b} h = ground arith

All-both : (P Q : Video → Type 0) (vs : List Video) → All P vs → All Q vs → All (λ v. P v × Q v) vs
All-both P Q [] h g = tt
All-both P Q (v ∷ vs) (x, h) (y, g) = ((x, y), All-both P Q vs h g)

-- Where video ids are distinct and the batch is not empty, no video that the sweep leaves is
-- expired by either rule.
pub sweep-fresh :
    (now : ℕ) (c : Settings) (s s' : Store) (n : Counts)
    → Distinct s.videos
    → 0 < c.batch_size
    → run_all now c s ≡ some (n, s')
    → All
        (λ v.
          (is_expired_normal now c.video_normal_days v
            || is_expired_anomaly now c.video_anomaly_days v)
          ≡ false)
        s'.videos
sweep-fresh now c s s' n d b h =
    subst
      (All (λ v.
        (is_expired_normal now c.video_normal_days v
          || is_expired_anomaly now c.video_anomaly_days v)
        ≡ false))
      (ap (λ x. x.1.videos) (some_inj (sym (run_all-sweeps now c s d b) ∙ h)))
      (All-map
        (λ v
            (x : (is_expired_normal now c.video_normal_days v ≡ false)
              × (is_expired_anomaly now c.video_anomaly_days v ≡ false)).
          rw x.0 x.1)
        _
        (All-both _ _ _
          (keep-All (λ v. is_expired_normal now c.video_normal_days v ≡ false)
            (λ v. not (is_expired_anomaly now c.video_anomaly_days v)) _
            (All-map (λ v x. not-true x) _
              (keep-passes (λ v. not (is_expired_normal now c.video_normal_days v)) s.videos)))
          (All-map (λ v x. not-true x) _
            (keep-passes (λ v. not (is_expired_anomaly now c.video_anomaly_days v))
              (keep (λ v. not (is_expired_normal now c.video_normal_days v)) s.videos)))))
