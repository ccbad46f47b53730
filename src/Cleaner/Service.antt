-- ===== src/Cleaner/Service.antt =====
-- SocketDaim/cleaner/main.py: when the service wakes, and what it runs then. Times are microseconds of
-- UTC; Seoul is nine hours ahead all year.
use dust_monitoring.Prelude.{
  ℕ, ◌+◌, ◌-◌, ◌*◌, ◌/◌, Bool, ◌||◌, List, [], ◌∷◌, ◌++◌, leb, if◌then◌else◌, min,
}
use dust_monitoring.Cleaner.Videos.{day}

abbrev pub second : ℕ
second = 1000000

abbrev pub kst_offset : ℕ
kst_offset = 32400000000

-- The microseconds from midnight to HH:MM.
abbrev pub time_of_day : ℕ → ℕ → ℕ
time_of_day hour minute = (hour * 60 + minute) * 60000000

-- `now_kst.replace(hour=…, minute=…, second=0, microsecond=0)`
abbrev pub today_at : ℕ → ℕ → ℕ → ℕ
today_at now_kst hour minute = now_kst / day * day + time_of_day hour minute

abbrev pub candidate : ℕ → ℕ → ℕ
candidate now_kst at = if leb at now_kst then at + day else at

-- `_next_scheduled_run`
unfoldable pub next_scheduled_run : ℕ → ℕ → ℕ → ℕ
next_scheduled_run now hour minute =
    candidate (now + kst_offset) (today_at (now + kst_offset) hour minute) - kst_offset

pub record Schedule : Type 0 where
  pub run_at_hour_kst : ℕ
  pub run_at_minute_kst : ℕ
  pub disk_check_interval_sec : ℕ

abbrev at_least_a_second : ℕ → ℕ
at_least_a_second t = if leb second t then t else second

abbrev pub next_run : Schedule → ℕ → ℕ
next_run c now = next_scheduled_run now c.run_at_hour_kst c.run_at_minute_kst

-- How long the loop sleeps, unless it is stopped or triggered.
unfoldable pub delay : Schedule → ℕ → ℕ
unfolding next_scheduled_run
delay c now = min (c.disk_check_interval_sec * second) (at_least_a_second (next_run c now - now))

-- The jobs of cleanup.py. An exception of one is logged, and the loop goes on.
pub data Job : Type 0 where
  purge_all_frames emergency_purge run_all : Job

-- One turn of the loop: the time at its start, the time after the sleep, and what was set then.
pub record Turn : Type 0 where
  pub now : ℕ
  pub woken_at : ℕ
  pub stopped : Bool
  pub triggered : Bool

unfoldable pub schedule_due : Schedule → Turn → Bool
unfolding next_scheduled_run
schedule_due c t = leb (next_run c t.now) t.woken_at

unfoldable pub jobs : Schedule → Turn → List Job
unfolding schedule_due
jobs c t =
    (if t.triggered then purge_all_frames ∷ [] else emergency_purge ∷ [])
    ++ (if schedule_due c t || t.triggered then run_all ∷ [] else [])

-- `_run_service`: the jobs of the turns until it is stopped.
unfoldable pub run_service : Schedule → List Turn → List Job
unfolding jobs
run_service c [] = []
run_service c (t ∷ ts) = let rest = run_service c ts in if t.stopped then [] else jobs c t ++ rest

-- `_run_once`
abbrev pub run_once : List Job
run_once = run_all ∷ purge_all_frames ∷ []
