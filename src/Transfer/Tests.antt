-- ===== src/Transfer/Tests.antt =====
-- Runs of the poller on two queued frames, and the theorems about it at those inputs. Scores and
-- dust values are natural numbers here.
use dust_monitoring.Prelude.{
  ℕ, ◌≤◌, ◌≡◌, refl, ◌||◌, not, All, true, false, Option, none, some, [], ◌∷◌, arith, ltb, ◌==◌,
  Text, codes, equal, pos, negsuc, eq_int, inl, sort_by, length,
}
use dust_monitoring.Transfer.Floats.{Floats}
use dust_monitoring.Transfer.Response.{Json, Jsons, normal, abnormal}
use dust_monitoring.Transfer.Tables.{Entry, CctvFrame, Dust, QueueRow, Decision, Stats, State}
use dust_monitoring.Transfer.Queue.{
  join, is_orphan, at_waypoint, fetch_batch_for_waypoint, fetch_current_waypoints, find_frame,
  find_dust, purge_waypoint_remainder,
}
use dust_monitoring.Transfer.Batch.{
  Env, insert_decision, build_decision, process_batch_rows, process_waypoint_batch, fail_all,
  handle_failure, purge_orphans,
}
use dust_monitoring.Transfer.Transition.{last_waypoint, check_waypoint_transition, poll}
use dust_monitoring.Transfer.Contents.{queued, dead}
use dust_monitoring.Transfer.Delivery
use dust_monitoring.Transfer.Claims
use dust_monitoring.Transfer.Overflow
use dust_monitoring.Transfer.Quiet
use dust_monitoring.Transfer.Idempotence

instance abbrev natural : Floats ℕ
natural = record {
  gt = λ a b. ltb b a;
  neg_inf = 0;
  of_bool = λ b. 0;
  of_text = λ t. none;
  is_zero = λ x. x == 0;
}

abbrev amr : Text
amr = codes "a"

abbrev frame : ℕ → CctvFrame
frame i = record {
  id = i;
  amr_id = some amr;
  file_path = some (codes "x");
  resolution = none;
  received_at = some i;
  paired_at = none;
}

abbrev dust : ℕ → ℕ → Dust ℕ
dust i v = record {
  id = i;
  dust_value = some v;
  dust_alarm = none;
  waypoint_id = some (pos 7);
  target_id = some (pos 3);
  mission_id = none;
  waypoint_x = none;
  waypoint_y = none;
  waypoint_z = none;
}

abbrev entry : ℕ → ℕ → ℕ → Entry
entry i tries d = record { frame_id = i; attempts = tries; enqueued_at = i; dust_id = some d }

abbrev no_stats : Stats
no_stats = record {
  processed_ok = 0;
  failed = 0;
  dead_lettered = 0;
  orphans_purged = 0;
  waypoint_transitions = 0;
  discarded_over_batch = 0;
}

-- Frame 1 has failed five times, frame 2 never.
abbrev start : State ℕ
start = record {
  queue = entry 1 5 11 ∷ entry 2 0 12 ∷ [];
  frames = frame 1 ∷ frame 2 ∷ [];
  dusts = dust 11 4 ∷ dust 12 9 ∷ [];
  decisions = [];
  dead_letters = [];
  stats = no_stats;
  last_frame_id = none;
  last_dust_id = none;
  last_waypoint_by_amr = [];
}

abbrev row : ℕ → ℕ → ℕ → ℕ → QueueRow ℕ
row i tries d v = record {
  frame_id = i;
  attempts = tries;
  enqueued_at = i;
  dust_id = some d;
  cf_id = some i;
  amr_id = some amr;
  file_path = some (codes "x");
  resolution = none;
  received_at = some i;
  paired_at = none;
  dust_value = some v;
  dust_alarm = none;
  waypoint_id = some (pos 7);
  target_id = some (pos 3);
  mission_id = none;
  waypoint_x = none;
  waypoint_y = none;
  waypoint_z = none;
}

-- `[[8, ""], [1, ""]]`
abbrev scores : Json ℕ
scores = Json.array (
    Jsons.cons (Json.array (Jsons.cons (Json.number 8) (Jsons.cons (Json.text []) Jsons.nil))) (
      Jsons.cons (Json.array (Jsons.cons (Json.number 1) (Jsons.cons (Json.text []) Jsons.nil)))
        Jsons.nil))

abbrev env : Option (Json ℕ) → ℕ → Env ℕ
env answer batch = record {
  send_batch = λ a w rows. answer;
  fetch_thresholds = some (record { dust = some 5; static = some 5; dynamic = some 5 });
  image = λ p. some none;
  decision_up = true;
  dlq_up = λ i. true;
  reason = codes "e";
  now = 100;
  locked = λ i. false;
  batch = batch;
  max_attempts = 5;
}

both : fetch_batch_for_waypoint (λ i. false) start amr (pos 7) 2 ≡ row 1 5 11 4 ∷ row 2 0 12 9 ∷ []
unfolding fetch_batch_for_waypoint find_frame find_dust sort_by equal eq_int
both = refl

abbrev verdict : Decision ℕ
verdict = record {
  station_id = (amr, pos 7);
  observation_timestamp = 2;
  dust_id = some 12;
  sensor_result = abnormal;
  anomaly_result = abnormal;
  object_result = normal;
  result_payload = scores;
  image_b64 = none;
}

build_verdict :
    build_decision (env (some scores) 2) amr (pos 7) (row 1 5 11 4) (row 2 0 12 9 ∷ []) scores
    ≡ some verdict
unfolding build_decision
build_verdict = refl

images : Delivery.HasImages (row 1 5 11 4 ∷ row 2 0 12 9 ∷ [])
unfolding is_orphan
images = (refl, (refl, tt))

image2 : Delivery.HasImages (row 2 0 12 9 ∷ [])
unfolding is_orphan
image2 = (refl, tt)

process_batch_rows-delivered_example :
    let s' =
      process_batch_rows
        (env (some scores) 2)
        amr
        (pos 7)
        (row 1 5 11 4 ∷ row 2 0 12 9 ∷ [])
        start in
    (s'.decisions ≡ (insert_decision verdict start).decisions)
    × (queued 2 s' ≡ false)
    × (s'.dead_letters ≡ [])
    × (s'.stats.processed_ok ≡ 2)
process_batch_rows-delivered_example =
    Delivery.process_batch_rows-delivered (env (some scores) 2) amr (pos 7) (row 1 5 11 4)
      (row 2 0 12 9 ∷ []) start 2 images build_verdict refl

process_batch_rows-failed_example :
    let s' = process_batch_rows (env none 2) amr (pos 7) (row 1 5 11 4 ∷ row 2 0 12 9 ∷ []) start in
    (s'.decisions ≡ []) × ((queued 1 s' || dead 1 s') ≡ true)
process_batch_rows-failed_example =
    Delivery.process_batch_rows-failed (env none 2) amr (pos 7) (row 1 5 11 4) (row 2 0 12 9 ∷ [])
      start 1 images (inl refl) refl

process_batch_rows-retried_example :
    let s' = process_batch_rows (env none 2) amr (pos 7) (row 2 0 12 9 ∷ []) start in
    (s'.queue ≡ entry 1 5 11 ∷ entry 2 1 12 ∷ []) × (s'.dead_letters ≡ [])
process_batch_rows-retried_example =
    Delivery.process_batch_rows-retried (env none 2) amr (pos 7) (row 2 0 12 9) [] start image2
      (inl refl) (omega arith)

fetch_batch_for_waypoint-IsClaim_example :
    All
      (Claims.IsClaim (λ i. false) start amr (pos 7))
      (fetch_batch_for_waypoint (λ i. false) start amr (pos 7) 1)
    × (length (fetch_batch_for_waypoint (λ i. false) start amr (pos 7) 1) ≤ 1)
fetch_batch_for_waypoint-IsClaim_example =
    Claims.fetch_batch_for_waypoint-IsClaim (λ i. false) start amr (pos 7) 1

-- Frame 2 has an attempt left, and is lost with the dead letter of frame 1.
process_waypoint_batch-loses_example :
    let s' = (process_waypoint_batch (env none 2) amr (pos 7) start).0 in
    (s'.decisions ≡ [])
    × All (λ q. not (at_waypoint amr (pos 7) (join s' q)) ≡ true) s'.queue
    × (dead 2 s' ≡ false)
process_waypoint_batch-loses_example =
    Overflow.process_waypoint_batch-loses (env none 2) amr (pos 7) start (row 1 5 11 4)
      (row 2 0 12 9 ∷ []) 2 both refl (inl refl) refl refl

poll-IsUnique_example :
    Idempotence.IsUnique (poll (env (some scores) 2) (negsuc 0) (λ a b. true) 0 start).decisions
poll-IsUnique_example =
    Idempotence.poll-IsUnique (env (some scores) 2) (negsuc 0) (λ a b. true) 0 start tt

abbrev seen : State ℕ
seen = record start { last_waypoint_by_amr = (amr, pos 7) ∷ [] }

current_start : fetch_current_waypoints (λ a b. true) start ≡ (amr, pos 7) ∷ []
unfolding fetch_current_waypoints find_frame find_dust sort_by equal
current_start = refl

Stays-seen :
    Quiet.Stays (negsuc 0) (fetch_current_waypoints (λ a b. true) seen) seen.last_waypoint_by_amr
unfolding fetch_current_waypoints find_frame find_dust sort_by equal last_waypoint
Stays-seen = (refl, tt)

-- Where the poller starts: it last saw another waypoint, whose batch fails.
abbrev moved : State ℕ
moved = record start {
  dusts = dust 11 4 ∷ record (dust 12 9) { waypoint_id = some (pos 8) } ∷ [];
  last_waypoint_by_amr = (amr, pos 7) ∷ [];
}

abbrev check : State ℕ → State ℕ
check s = (check_waypoint_transition (env none 1) (negsuc 0) (λ a b. true) s).0

current_moved : fetch_current_waypoints (λ a b. true) moved ≡ (amr, pos 8) ∷ []
unfolding fetch_current_waypoints find_frame find_dust sort_by equal
current_moved = refl

current_after : fetch_current_waypoints (λ a b. true) (check moved) ≡ (amr, pos 8) ∷ []
unfolding fetch_current_waypoints find_frame find_dust sort_by equal eq_int
    check_waypoint_transition process_waypoint_batch fetch_batch_for_waypoint process_batch_rows
    fail_all handle_failure purge_orphans purge_waypoint_remainder
current_after = refl

check_waypoint_transition-once_example :
    Quiet.IsQuiet
      (env none 1)
      (negsuc 0)
      (check moved)
      (check_waypoint_transition (env none 1) (negsuc 0) (λ a b. true) (check moved))
check_waypoint_transition-once_example =
    Quiet.check_waypoint_transition-once (env none 1) (negsuc 0) (λ a b. true) moved (check moved)
      amr (pos 8) current_moved refl current_after
