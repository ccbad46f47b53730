-- ===== src/Transfer/Batch.antt =====
-- PoolerTran/src/poolertran/poller.py: one waypoint batch. The gateway_db connection works
-- throughout (an error there rolls the whole transaction back); the REST call, decision_db and the
-- image files may fail, as `Env` says.
use dust_monitoring.Prelude.{
  bind, ℕ, suc, ◌+◌, Bool, false, not, ◌&&◌, Option, none, some, List, [], ◌∷◌, ◌++◌, ltb, ◌==◌,
  if◌then◌else◌, length, take, keep, any, Text, ℤ,
}
use dust_monitoring.Transfer.Floats.{Floats}
use dust_monitoring.Transfer.Response.{Json, Channel, extract_dual, classify, static_p1, encode_b64}
use dust_monitoring.Transfer.Tables.{Decision, DeadLetter, QueueRow, State}
use dust_monitoring.Transfer.Queue.{
  is_orphan, fetch_batch_for_waypoint, delete, bump_attempts, purge_waypoint_remainder,
}

-- classification_threshold as a dictionary.
pub record Thresholds (F : Type 0) : Type 0 where
  pub dust : Option F
  pub static : Option F
  pub dynamic : Option F

-- What the poller meets outside: `none` is an exception.
pub record Env (F : Type 0) : Type 0 where
  pub send_batch : Text → ℤ → List (QueueRow F) → Option (Json F)
  pub fetch_thresholds : Option (Thresholds F)
  pub image : Text → Option (Option Text)
  -- Whether the INSERT into decision_record and the upsert into transfer_dlq go through.
  pub decision_up : Bool
  pub dlq_up : ℕ → Bool
  -- `repr(exc)` of a failure, and the clock.
  pub reason : Text
  pub now : ℕ
  -- Rows that other consumers have locked, and `PT_BATCH_SIZE` and `PT_MAX_ATTEMPTS`.
  pub locked : ℕ → Bool
  pub batch : ℕ
  pub max_attempts : ℕ

abbrev pub same_dust : Option ℕ → Option ℕ → Bool
same_dust (some a) (some b) = a == b
same_dust _ _ = false

abbrev pub later : Option ℕ → Option ℕ → Option ℕ
later (some a) (some b) = if ltb a b then some b else some a
later none b = b
later a none = a

abbrev pub or_else {ℓ} : {A : Type ℓ} → Option A → A → A
or_else none a = a
or_else (some b) a = b

module _ {F : Type 0} where
  -- `_INSERT_DECISION`: ON CONFLICT (dust_id) DO NOTHING. NULLs do not conflict.
  unfoldable pub insert_decision : Decision F → State F → State F
  insert_decision d s =
      if any (λ e. same_dust e.dust_id d.dust_id) s.decisions
      then s
      else record s { decisions = s.decisions ++ d ∷ [] }

  unfoldable pub put_letter : DeadLetter F → List (DeadLetter F) → List (DeadLetter F)
  put_letter d [] = d ∷ []
  put_letter d (e ∷ es) = if e.frame_id == d.frame_id then d ∷ es else e ∷ put_letter d es

  -- `_UPSERT_DLQ`
  unfoldable pub dead_letter : Text → QueueRow F → State F → State F
  unfolding put_letter
  dead_letter reason row s =
      let d : DeadLetter F = record {
        frame_id = row.frame_id;
        attempts = row.attempts + 1;
        last_error = take 2000 reason;
        source_row = row;
      } in
      record s { dead_letters = put_letter d s.dead_letters }

  abbrev pub count_failed : State F → State F
  count_failed s = record s { stats = record s.stats { failed = suc s.stats.failed } }

  abbrev pub count_dead : State F → State F
  count_dead s = record s { stats = record s.stats { dead_lettered = suc s.stats.dead_lettered } }

  abbrev pub count_orphan : State F → State F
  count_orphan s = record s {
    stats = record s.stats { orphans_purged = suc s.stats.orphans_purged };
  }

  abbrev pub count_ok : QueueRow F → State F → State F
  count_ok row s = record s {
    stats = record s.stats { processed_ok = suc s.stats.processed_ok };
    last_frame_id = some row.frame_id;
    last_dust_id = row.dust_id;
  }

  -- A row over the retry cap goes to the dead letters, unless that write fails; any other row, and
  -- that one then, stays with one attempt more.
  unfoldable pub handle_failure : Env F → QueueRow F → State F → State F
  unfolding dead_letter delete bump_attempts
  handle_failure env row s =
      if ltb env.max_attempts (row.attempts + 1) && env.dlq_up row.frame_id
      then count_dead (delete row.frame_id (dead_letter env.reason row s))
      else count_failed (bump_attempts row.frame_id s)

  unfoldable pub fail_all : Env F → List (QueueRow F) → State F → State F
  fail_all env [] s = s
  fail_all env (r ∷ rs) s = fail_all env rs (handle_failure env r s)

  unfoldable pub purge_orphans : List (QueueRow F) → State F → State F
  purge_orphans [] s = s
  purge_orphans (r ∷ rs) s = purge_orphans rs (count_orphan (delete r.frame_id s))

  unfoldable pub delete_all : List (QueueRow F) → State F → State F
  delete_all [] s = s
  delete_all (r ∷ rs) s = delete_all rs (count_ok r (delete r.frame_id s))

  -- `max(received) if received else None`
  unfoldable pub latest : List (QueueRow F) → Option ℕ
  latest [] = none
  latest (r ∷ rs) = later r.received_at (latest rs)

  -- `processed_ok + dead_lettered + orphans_purged`
  abbrev pub cleared : State F → ℕ
  cleared s = s.stats.processed_ok + s.stats.dead_lettered + s.stats.orphans_purged

  abbrev pub count_discarded : State F × ℕ → State F
  count_discarded (s, n) = record s {
    stats = record s.stats { discarded_over_batch = s.stats.discarded_over_batch + n };
  }

module _ {F : Type 0} ⦃fl : Floats F⦄ where
  abbrev pub dust_key : QueueRow F → F
  dust_key r = or_else r.dust_value fl.neg_inf

  -- `max(rows, key=...)`: the first row of the greatest key.
  unfoldable pub max_from : QueueRow F → List (QueueRow F) → QueueRow F
  max_from best [] = best
  max_from best (r ∷ rs) = max_from (if fl.gt (dust_key r) (dust_key best) then r else best) rs

  unfoldable pub representative_row : QueueRow F → List (QueueRow F) → QueueRow F
  unfolding max_from
  representative_row r rs = max_from r rs

  abbrev pub classified :
      Text × ℤ
      → ℕ
      → QueueRow F
      → Json F
      → Option Channel
      → Option Channel
      → Option Channel
      → Option Text
      → Option (Decision F)
  classified station at rep body (some sensor) (some anomaly) (some object) image = some (record {
    station_id = station;
    observation_timestamp = at;
    dust_id = rep.dust_id;
    sensor_result = sensor;
    anomaly_result = anomaly;
    object_result = object;
    result_payload = body;
    image_b64 = image;
  })
  classified station at rep body _ _ _ image = none

  abbrev pub dust_json : Option F → Json F
  dust_json none = Json.null
  dust_json (some x) = Json.number x

  -- The body of the second `try`, up to the INSERT: the row to insert, or an exception.
  unfoldable pub build_decision :
      Env F → Text → ℤ → QueueRow F → List (QueueRow F) → Json F → Option (Decision F)
  unfolding extract_dual representative_row latest classify static_p1 encode_b64
  build_decision env amr wp r rs body = bind env.fetch_thresholds λ th.
      let scores = extract_dual body in
      let rep = representative_row r rs in
      let at = or_else rep.received_at (or_else (latest (r ∷ rs)) env.now) in
      bind (encode_b64 env.image (static_p1 body)) λ image.
        classified (amr, wp) at rep body (classify (dust_json rep.dust_value) th.dust)
          (classify scores.0 th.static) (classify scores.1 th.dynamic) image

  unfoldable pub settle : Env F → List (QueueRow F) → Option (Decision F) → State F → State F
  settle env rows none s = fail_all env rows s
  settle env rows (some d) s =
      if env.decision_up then delete_all rows (insert_decision d s) else fail_all env rows s

  -- The rows that have an image, from the REST call on.
  unfoldable pub send : Env F → Text → ℤ → List (QueueRow F) → State F → State F
  send env amr wp [] s = s
  send env amr wp (r ∷ rs) s =
      settle env (r ∷ rs)
        (bind (env.send_batch amr wp (r ∷ rs)) λ body. build_decision env amr wp r rs body) s

  unfoldable pub process_batch_rows : Env F → Text → ℤ → List (QueueRow F) → State F → State F
  unfolding is_orphan send settle
  process_batch_rows env amr wp rows s =
      send env amr wp (keep (λ r. not (is_orphan r)) rows) (purge_orphans (keep is_orphan rows) s)

  -- The new state and the rows handled.
  unfoldable pub process_waypoint_batch : Env F → Text → ℤ → State F → State F × List (QueueRow F)
  process_waypoint_batch env amr wp s =
      let rows = fetch_batch_for_waypoint env.locked s amr wp env.batch in
      let s' = process_batch_rows env amr wp rows s in
      (
        if length rows == env.batch && ltb (cleared s) (cleared s')
            then count_discarded (purge_waypoint_remainder amr wp s')
            else s',
        rows,
      )
