-- ===== src/Agent/Records.antt =====
-- decision_agent/src/decision_agent/repository/decision_repo.py: the statements on decision_record.
pub mod Writers
use dust_monitoring.Prelude.{
  ℕ, ◌+◌, ◌*◌, ◌-◌, ◌≡◌, Bool, true, false, not, ◌&&◌, ◌||◌, Option, none, some, List, [], ◌∷◌, map,
  any, ◌==◌, if◌then◌else◌, Text, codes, equal, keep, take, drop, sort_by, leb, ltb, length,
}
use dust_monitoring.Agent.Judge.{Update, invalid, updated}

-- A row of decision_record. Times are microseconds; the result columns hold enum texts.
pub record DecisionRecord : Type 0 where
  pub id : ℕ
  pub station_id : Text
  pub observation_timestamp : ℕ
  pub anomaly_detection_result : Text
  pub object_detection_result : Text
  pub sensor_analysis_result : Text
  pub final_decision : Text
  pub decided_at : Option ℕ
  pub mapping_id : Option ℕ

abbrev pub pending : Text
pending = codes "pending"

abbrev pub Records : Type 0
Records = List DecisionRecord

unfoldable pub is_pending : DecisionRecord → Bool
is_pending r = equal r.final_decision pending

unfoldable pub is_ready : DecisionRecord → Bool
unfolding is_pending
is_ready r =
    is_pending r
    && not (equal r.anomaly_detection_result pending)
    && not (equal r.object_detection_result pending)
    && not (equal r.sensor_analysis_result pending)

abbrev pub earlier : DecisionRecord → DecisionRecord → Bool
earlier a b = leb a.observation_timestamp b.observation_timestamp

unfoldable pub fetch_pending : ℕ → Records → Records
unfolding is_ready
fetch_pending limit rows = take limit (sort_by earlier (keep is_ready rows))

unfoldable pub decide_row : ℕ → Text → Option ℕ → DecisionRecord → DecisionRecord
decide_row now f m r = record r { final_decision = f; decided_at = some now; mapping_id = m }

abbrev pub is_target : ℕ → DecisionRecord → Bool
is_target i r = r.id == i && is_pending r

-- UPDATE ... WHERE id = $1 AND final_decision = 'pending': the new table, and whether a row was
-- updated.
unfoldable pub write_verdict : ℕ → ℕ → Text → Option ℕ → Records → Records × Bool
write_verdict now i f m rows =
    (map (λ r. if is_target i r then decide_row now f m r else r) rows, any (is_target i) rows)

unfoldable pub mark_decided : ℕ → ℕ → Text → ℕ → Records → Records × Bool
unfolding write_verdict
mark_decided now i f m rows = write_verdict now i f (some m) rows

abbrev pub valid_decision_levels : List Text
valid_decision_levels = codes "normal" ∷ codes "caution" ∷ codes "warning" ∷ []

-- `invalid` is the `ValueError`.
unfoldable pub force_decide : ℕ → ℕ → Text → Option ℕ → Records → Update Records
unfolding write_verdict
force_decide now i f m rows =
    if not (any (equal f) valid_decision_levels)
    then invalid
    else let (rows', b) = write_verdict now i f m rows in updated rows' b
