-- ===== src/Agent/Tests.antt =====
-- Runs of the decision agent, and the theorems about it at those inputs.
use dust_monitoring.Prelude.{
  ℕ, ◌≡◌, refl, true, none, some, [], ◌∷◌, ◌++◌, Text, codes, sort_by, equal, inl, arith,
}
use dust_monitoring.Agent.Judge.{
  Mapping, Judge, load, fill, put, same_key, updated, update_final, judge,
}
use dust_monitoring.Agent.Roles.{
  RoleResolver, RoleColumns, refresh, component_to_column, role_columns, update_component,
  anomaly_detection_result, object_detection_result, sensor_analysis_result,
}
use dust_monitoring.Agent.Records.{
  DecisionRecord, Records, pending, is_pending, decide_row, write_verdict, fetch_pending, is_ready,
}
use dust_monitoring.Agent.Records.Writers.{by_poller, by_admin, write_all, write_verdict-wins}
use dust_monitoring.Agent.Poller.{tick}
use dust_monitoring.Agent.Poller.Verdicts.{find, tick-decides}
use dust_monitoring.Agent.Poller.Starving.{ticks, ticks-starve}

abbrev normal : Text
normal = codes "normal"

abbrev caution : Text
caution = codes "caution"

abbrev danger : Text
danger = codes "danger"

abbrev row_1 : Mapping
row_1 = record {
  id = 1;
  iot_sensor_level = normal;
  static_model_result = normal;
  dynamic_model_result = normal;
  final_decision = normal;
}

abbrev row_2 : Mapping
row_2 = record {
  id = 2;
  iot_sensor_level = caution;
  static_model_result = normal;
  dynamic_model_result = normal;
  final_decision = caution;
}

abbrev table : Judge
table = record { rows = row_1 ∷ row_2 ∷ []; cache = [] }

abbrev loaded : Judge
loaded = record {
  rows = row_1 ∷ row_2 ∷ [];
  cache = ((normal, normal, normal), (normal, 1)) ∷ ((caution, normal, normal), (caution, 2)) ∷ [];
}

load-table : load table ≡ loaded
unfolding load fill put same_key equal
load-table = refl

abbrev row_2' : Mapping
row_2' = record {
  id = 2;
  iot_sensor_level = caution;
  static_model_result = normal;
  dynamic_model_result = normal;
  final_decision = danger;
}

abbrev table' : Judge
table' = record {
  rows = row_1 ∷ row_2' ∷ [];
  cache = ((normal, normal, normal), (normal, 1)) ∷ ((caution, normal, normal), (danger, 2)) ∷ [];
}

update_row_2 : update_final 2 danger loaded ≡ updated table' true
unfolding update_final load equal fill put same_key
update_row_2 = refl

abbrev iot : Text
iot = codes "iot_sensor"

abbrev static : Text
static = codes "static_dust"

abbrev dynamic : Text
dynamic = codes "dynamic_dust"

abbrev anomaly : Text
anomaly = codes "anomaly_detection"

abbrev object : Text
object = codes "object_detection"

abbrev sensor : Text
sensor = codes "sensor_analysis"

abbrev resolver : RoleResolver
resolver = record {
  rows = (static, anomaly) ∷ (dynamic, object) ∷ (iot, sensor) ∷ [];
  role_to_component = (static, anomaly) ∷ (dynamic, object) ∷ (iot, sensor) ∷ [];
}

abbrev resolver' : RoleResolver
resolver' = record {
  rows = (static, object) ∷ (dynamic, object) ∷ (iot, sensor) ∷ [];
  role_to_component = (static, object) ∷ (dynamic, object) ∷ (iot, sensor) ∷ [];
}

assign_static : update_component static object resolver ≡ updated resolver' true
unfolding update_component refresh component_to_column equal
assign_static = refl

abbrev columns : RoleColumns
columns = record {
  iot_sensor = sensor_analysis_result;
  static_dust = anomaly_detection_result;
  dynamic_dust = object_detection_result;
}

resolver-columns : role_columns resolver ≡ some columns
unfolding role_columns equal
resolver-columns = refl

abbrev record_of : ℕ → Text → Text → DecisionRecord
record_of i level final = record {
  id = i;
  station_id = codes "s1";
  observation_timestamp = 100;
  anomaly_detection_result = normal;
  object_detection_result = normal;
  sensor_analysis_result = level;
  final_decision = final;
  decided_at = none;
  mapping_id = none;
}

abbrev two_records : Records
two_records = record_of 7 caution pending ∷ record_of 8 normal normal ∷ []

two_found : fetch_pending 50 two_records ≡ record_of 7 caution pending ∷ []
unfolding fetch_pending sort_by equal
two_found = refl

tick-decides_example :
    find 7 (tick 900 loaded resolver 50 two_records)
    ≡ some (decide_row 900 caution (some 2) (record_of 7 caution pending))
unfolding find fetch_pending judge sort_by equal is_pending
tick-decides_example =
    tick-decides 900 loaded resolver 50 two_records (record_of 7 caution pending) caution 2
      (refl, (refl, tt)) resolver-columns (inl refl) refl refl

-- The first record has no row in the table and the batch is one: the second waits.
abbrev stuck : Records
stuck = record_of 7 danger pending ∷ []

abbrev waiting : Records
waiting = record_of 8 caution pending ∷ []

ticks-starve_example :
    ticks (900 ∷ 910 ∷ []) loaded resolver 1 (stuck ++ waiting) ≡ stuck ++ waiting
unfolding judge equal is_ready
ticks-starve_example =
    ticks-starve (900 ∷ 910 ∷ []) loaded resolver 1 stuck waiting resolver-columns (omega arith)
      (refl, tt) (refl, tt) ((refl, tt), tt)

write_verdict-wins_example :
    write_all
      (by_admin 950 7 normal none ∷ by_poller 960 7 danger 3 ∷ [])
      (write_verdict 900 7 caution (some 2) two_records).0
    ≡ (write_verdict 900 7 caution (some 2) two_records).0
unfolding equal
write_verdict-wins_example =
    write_verdict-wins 900 7 caution (some 2) two_records
      (by_admin 950 7 normal none ∷ by_poller 960 7 danger 3 ∷ []) refl (refl, (refl, tt))
