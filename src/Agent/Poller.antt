-- ===== src/Agent/Poller.antt =====
-- decision_agent/src/decision_agent/poller.py: one tick of the polling loop.
pub mod Verdicts
pub mod Starving
use dust_monitoring.Prelude.{ℕ, Option, none, some, List, [], ◌∷◌, Text}
use dust_monitoring.Agent.Judge.{Judge, judge}
use dust_monitoring.Agent.Roles.{
  Column, anomaly_detection_result, object_detection_result, sensor_analysis_result, RoleColumns,
  RoleResolver, role_columns,
}
use dust_monitoring.Agent.Records.{DecisionRecord, Records, fetch_pending, mark_decided}

-- `getattr(rec, _RECORD_FIELD[col])`
abbrev pub field : Column → DecisionRecord → Text
field anomaly_detection_result r = r.anomaly_detection_result
field object_detection_result r = r.object_detection_result
field sensor_analysis_result r = r.sensor_analysis_result

-- What the judge says of a record.
abbrev pub verdict : Judge → RoleColumns → DecisionRecord → Option (Text × ℕ)
verdict j cols r =
    judge j (field cols.iot_sensor r) (field cols.static_dust r) (field cols.dynamic_dust r)

apply_verdict : ℕ → DecisionRecord → Option (Text × ℕ) → Records → Records
apply_verdict now r none rows = rows
apply_verdict now r (some (f, m)) rows = (mark_decided now r.id f m rows).0

unfoldable pub decide : ℕ → Judge → RoleColumns → DecisionRecord → Records → Records
unfolding apply_verdict
decide now j cols r rows = apply_verdict now r (verdict j cols r) rows

unfoldable pub decide_all : ℕ → Judge → RoleColumns → Records → Records → Records
decide_all now j cols [] rows = rows
decide_all now j cols (r ∷ rs) rows = decide_all now j cols rs (decide now j cols r rows)

tick_with : ℕ → Judge → Option RoleColumns → Records → Records → Records
tick_with now j none found rows = rows
tick_with now j (some cols) found rows = decide_all now j cols found rows

unfoldable pub tick : ℕ → Judge → RoleResolver → ℕ → Records → Records
unfolding tick_with
tick now j roles batch rows = tick_with now j (role_columns roles) (fetch_pending batch rows) rows
