-- ===== src/Cleaner/Schedule.antt =====
-- When the daily run of SocketDaim/cleaner/main.py is due.
use dust_monitoring.Prelude.{
  ℕ, ◌+◌, ◌*◌, ◌%◌, ◌≤◌, ◌<◌, ◌≡◌, ◌↔◌, ◌⊎◌, refl, Bool, true, false, List, any, arith, leb,
  Bool-cases, inl, inr,
}
use dust_monitoring.Cleaner.Videos.{day}
use dust_monitoring.Cleaner.Service.{
  second, kst_offset, time_of_day, next_scheduled_run, Schedule, next_run, delay, Turn,
  schedule_due, Job, purge_all_frames, emergency_purge, run_all, jobs,
}

-- The clock of Seoul shows HH:MM, to the microsecond, at `t`.
abbrev pub Shows : ℕ → ℕ → ℕ → Type 0
Shows hour minute t = (t + kst_offset) % day ≡ time_of_day hour minute

-- The scheduled run is the first moment after `now` at which the clock of Seoul shows HH:MM: it is such a moment, it
-- comes after `now`, within a day, and there is no other one between.
pub next_scheduled_run-first :
    (now hour minute : ℕ)
    → hour < 24
    → minute < 60
    → (now < next_scheduled_run now hour minute)
      × ((next_scheduled_run now hour minute ≤ now + day)
          × (Shows hour minute (next_scheduled_run now hour minute)
              × ((t : ℕ) → now < t → Shows hour minute t → next_scheduled_run now hour minute ≤ t)))
unfolding next_scheduled_run
next_scheduled_run-first now hour minute h m = (
  ground (arith, h, m),
  (ground (arith, h, m), (ground (arith, h, m), λ t lt s. ground (arith, h, m, lt, s))),
)

abbrev pub has_job : Job → List Job → Bool
has_job run_all js = any (λ j. elim j [ run_all ↦ true | _ ↦ false ]) js
has_job purge_all_frames js = any (λ j. elim j [ purge_all_frames ↦ true | _ ↦ false ]) js
has_job emergency_purge js = any (λ j. elim j [ emergency_purge ↦ true | _ ↦ false ]) js

-- In a turn that the stop does not end, the retention runs exactly if it was triggered, or if the
-- clock of Seoul has shown HH:MM after the start of the turn and not after its waking.
pub jobs-run_all :
    (c : Schedule) (t : Turn)
    → c.run_at_hour_kst < 24
    → c.run_at_minute_kst < 60
    → (has_job run_all (jobs c t) ≡ true) ↔ (
        (t.triggered ≡ true)
        ⊎ ((m : ℕ) × ((t.now < m)
              × ((m ≤ t.woken_at) × Shows c.run_at_hour_kst c.run_at_minute_kst m))))
unfolding jobs schedule_due
jobs-run_all c t h m =
    let (later, (_, (shows, first))) =
      next_scheduled_run-first t.now c.run_at_hour_kst c.run_at_minute_kst h m in
    let n = next_run c t.now in
    let idle : t.triggered ≡ false → leb n t.woken_at ≡ false → has_job run_all (jobs c t) ≡ false =
      λ e d. rw e (rw d refl) in
    elim (Bool-cases t.triggered) [
      | inl e ↦ (λ r. inl e, λ r. rw e (ground arith))
      | inr e ↦ elim (Bool-cases (leb n t.woken_at)) [
        | inl d ↦
            (λ r. inr (n, (later, (ground (arith, d), shows))), λ r. rw e (rw d (ground arith)))
        | inr d ↦ (
          λ r. inl (ground (arith, r, idle e d)),
          λ r. elim r [
            | inl x ↦ ground (arith, x, e)
            | inr (k, (a, (b, s))) ↦ ground (arith, first k a s, b, d)
          ],
        )
      ]
    ]

-- The loop sleeps no longer than the interval of the disk checks, and does not sleep past the
-- scheduled run unless that is less than a second away; it sleeps at all if the interval is not 0.
pub delay-bounded :
    (c : Schedule) (now : ℕ)
    → c.run_at_hour_kst < 24
    → c.run_at_minute_kst < 60
    → 0 < c.disk_check_interval_sec
    → (0 < delay c now)
      × ((delay c now ≤ c.disk_check_interval_sec * second)
          × (now + delay c now ≤ next_run c now + second))
unfolding delay
delay-bounded c now h m i =
    let (later, _) = next_scheduled_run-first now c.run_at_hour_kst c.run_at_minute_kst h m in
    (ground (arith, i), (ground arith, ground (arith, later)))
