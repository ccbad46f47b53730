-- ===== src/Transfer/Queue.antt =====
-- PoolerTran/src/poolertran/repository/queue_repo.py: the statements on cctv_transfer_queue.
-- Joins go by primary keys. Where SQL leaves the order of equal keys open, the table's order is
-- taken.
use dust_monitoring.Prelude.{
  ℕ, ◌+◌, ◌-◌, Bool, false, not, ◌&&◌, ◌||◌, Option, none, some, List, [], ◌∷◌, map, ltb, ◌==◌,
  if◌then◌else◌, length, take, keep, Text, equal, ℤ, eq_int, sort_by, bind, is_some,
}
use dust_monitoring.Transfer.Tables.{Entry, CctvFrame, Dust, QueueRow, State}

unfoldable pub find_frame : ℕ → List CctvFrame → Option CctvFrame
find_frame i [] = none
find_frame i (f ∷ fs) = if f.id == i then some f else find_frame i fs

abbrev pub text_is : Option Text → Text → Bool
text_is none k = false
text_is (some t) k = equal t k

abbrev pub int_is : Option ℤ → ℤ → Bool
int_is none k = false
int_is (some t) k = eq_int t k

abbrev pub bump : ℕ → Entry → Entry
bump i q = if q.frame_id == i then record q { attempts = q.attempts + 1 } else q

-- DISTINCT ON (amr_id), over rows already ordered.
unfoldable pub distinct_on : List (Text × ℤ) → List (Text × ℤ)
distinct_on [] = []
distinct_on ((a, w) ∷ rest) = (a, w) ∷ keep (λ r. not (equal r.0 a)) (distinct_on rest)

-- The inner joins and the WHERE of `_CURRENT_WAYPOINTS` drop a row that lacks either.
abbrev pub place : Option Text → Option ℤ → List (Text × ℤ) → List (Text × ℤ)
place (some a) (some w) l = (a, w) ∷ l
place _ _ l = l

module _ {F : Type 0} where
  unfoldable pub find_dust : ℕ → List (Dust F) → Option (Dust F)
  find_dust i [] = none
  find_dust i (d ∷ ds) = if d.id == i then some d else find_dust i ds

  -- The two LEFT JOINs of `_SELECT_BATCH`, and `_to_queue_row`.
  unfoldable pub join : State F → Entry → QueueRow F
  join s q =
      let cf = find_frame q.frame_id s.frames in
      let di = bind q.dust_id (λ i. find_dust i s.dusts) in
      record {
        frame_id = q.frame_id;
        attempts = q.attempts;
        enqueued_at = q.enqueued_at;
        dust_id = q.dust_id;
        cf_id = bind cf (λ f. some f.id);
        amr_id = bind cf (λ f. f.amr_id);
        file_path = bind cf (λ f. f.file_path);
        resolution = bind cf (λ f. f.resolution);
        received_at = bind cf (λ f. f.received_at);
        paired_at = bind cf (λ f. f.paired_at);
        dust_value = bind di (λ d. d.dust_value);
        dust_alarm = bind di (λ d. d.dust_alarm);
        waypoint_id = bind di (λ d. d.waypoint_id);
        target_id = bind di (λ d. d.target_id);
        mission_id = bind di (λ d. d.mission_id);
        waypoint_x = bind di (λ d. d.waypoint_x);
        waypoint_y = bind di (λ d. d.waypoint_y);
        waypoint_z = bind di (λ d. d.waypoint_z);
      }

  unfoldable pub is_orphan : QueueRow F → Bool
  is_orphan r = not (is_some r.cf_id)

  -- WHERE di.waypoint_id = $1 AND cf.amr_id = $2
  unfoldable pub at_waypoint : Text → ℤ → QueueRow F → Bool
  at_waypoint amr wp r = int_is r.waypoint_id wp && text_is r.amr_id amr

  -- ORDER BY q.enqueued_at, q.frame_id
  unfoldable pub older : QueueRow F → QueueRow F → Bool
  older a b =
      ltb a.enqueued_at b.enqueued_at
      || (a.enqueued_at == b.enqueued_at && not (ltb b.frame_id a.frame_id))

  -- `_SELECT_BATCH`: the whole backlog. `locked` names the rows that other consumers hold, which
  -- SKIP LOCKED leaves out before LIMIT counts.
  unfoldable pub fetch_batch : (ℕ → Bool) → State F → ℕ → List (QueueRow F)
  unfolding join older
  fetch_batch locked s limit =
      take limit (keep (λ r. not (locked r.frame_id)) (sort_by older (map (join s) s.queue)))

  unfoldable pub fetch_batch_for_waypoint : (ℕ → Bool) → State F → Text → ℤ → ℕ → List (QueueRow F)
  unfolding join older at_waypoint
  fetch_batch_for_waypoint locked s amr wp limit = take limit (
      keep (λ r. not (locked r.frame_id))
        (sort_by older (keep (at_waypoint amr wp) (map (join s) s.queue))))

  unfoldable pub delete : ℕ → State F → State F
  delete i s = record s { queue = keep (λ q. not (q.frame_id == i)) s.queue }

  unfoldable pub bump_attempts : ℕ → State F → State F
  bump_attempts i s = record s { queue = map (bump i) s.queue }

  unfoldable pub depth : State F → ℕ
  depth s = length s.queue

  -- The new state and the rows deleted.
  unfoldable pub clear : State F → State F × ℕ
  clear s = (record s { queue = [] }, length s.queue)

  -- enqueued_at < now() - max_age
  unfoldable pub sweep_stale : ℕ → ℕ → State F → State F × ℕ
  sweep_stale now max_age s =
      let left = keep (λ q. not (ltb (q.enqueued_at + max_age) now)) s.queue in
      (record s { queue = left }, length s.queue - length left)

  unfoldable pub purge_waypoint_remainder : Text → ℤ → State F → State F × ℕ
  unfolding join at_waypoint
  purge_waypoint_remainder amr wp s =
      let left = keep (λ q. not (at_waypoint amr wp (join s q))) s.queue in
      (record s { queue = left }, length s.queue - length left)

  abbrev pub located : List (QueueRow F) → List (Text × ℤ)
  located [] = []
  located (r ∷ rest) = place r.amr_id r.waypoint_id (located rest)

  -- `_CURRENT_WAYPOINTS`: for each AMR the waypoint of the row that was enqueued last, the AMRs
  -- in the order of the database's collation.
  unfoldable pub fetch_current_waypoints : (Text → Text → Bool) → State F → List (Text × ℤ)
  unfolding join older distinct_on
  fetch_current_waypoints collate s =
      sort_by (λ a b. collate a.0 b.0)
        (distinct_on (located (sort_by (λ a b. older b a) (map (join s) s.queue))))
