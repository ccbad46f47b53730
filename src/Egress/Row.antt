-- ===== src/Egress/Row.antt =====
-- SocketDaim/egress_gateway/sender.py, _build_row, with the two rows that it joins
-- (repository/decision_repo.py, repository/gateway_repo.py). A column that the code only passes on
-- is its SQL text, with `none` for NULL.
use dust_monitoring.Prelude.{ℕ, Option, none, some, if◌then◌else◌, Text, codes, equal, bind}

abbrev pub Value : Type 0
Value = Option Text

-- A row of decision_record, as far as egress reads it. The id is the UUID's number.
pub record DecisionRecord : Type 0 where
  pub id : ℕ
  pub dust_id : Option ℕ
  pub final_decision : Text
  pub image_b64 : Value
  pub decided_at : Option ℕ
  pub sent_at : Option ℕ

-- A row of dust_inspection; `dust_value` holds the bits of the double.
pub record Dust : Type 0 where
  pub sensor_datetime : Value
  pub sensor_type : Value
  pub sensor_index : Value
  pub target_index : Value
  pub dust_value : Option ℕ
  pub waypoint_x : Value
  pub waypoint_y : Value
  pub waypoint_z : Value
  pub location_id : Value
  pub map_id : Value
  pub navigation_id : Value
  pub exec_id : Value
  pub plant_id : Value
  pub target_id : Value
  pub ugv_id : Value
  pub waypoint_id : Value
  pub inspection_local_id : Value
  pub inspection_pan : Value
  pub inspection_tilt : Value
  pub inspection_lift : Value
  pub object_id : Value
  pub rot_x : Value
  pub rot_y : Value
  pub rot_z : Value
  pub rot_w : Value

-- A row of t_inspection.
pub record Row : Type 0 where
  pub inspection_datetime : Value
  pub event_id : Option ℕ
  pub sensor_type : Value
  pub sensor_index : Value
  pub target_index : Value
  pub inspection_value : Value
  pub waypoint_x : Value
  pub waypoint_y : Value
  pub waypoint_z : Value
  pub location_id : Value
  pub map_id : Value
  pub navigation_id : Value
  pub exec_id : Value
  pub plant_id : Value
  pub target_id : Value
  pub ugv_id : Value
  pub waypoint_id : Value
  pub inspection_loacl_id : Value
  pub inspection_pan : Value
  pub inspection_tilt : Value
  pub inspection_lift : Value
  pub object_id : Value
  pub rot_x : Value
  pub rot_y : Value
  pub rot_z : Value
  pub rot_w : Value
  pub image_data : Value

-- `_EVENT_ID.get`
unfoldable pub event_id_of : Text → Option ℕ
event_id_of f =
    if equal f (codes "normal")
    then some 0
    else if equal f (codes "caution")
    then some 1
    else if equal f (codes "warning")
    then some 2
    else if equal f (codes "danger")
    then some 3
    else none

-- `str_float` is Python's `str` on a double.
unfoldable pub build_row : (ℕ → Text) → DecisionRecord → Dust → Row
unfolding event_id_of
build_row str_float r d = record {
  inspection_datetime = d.sensor_datetime;
  event_id = event_id_of r.final_decision;
  sensor_type = d.sensor_type;
  sensor_index = d.sensor_index;
  target_index = d.target_index;
  inspection_value = bind d.dust_value (λ v. some (str_float v));
  waypoint_x = d.waypoint_x;
  waypoint_y = d.waypoint_y;
  waypoint_z = d.waypoint_z;
  location_id = d.location_id;
  map_id = d.map_id;
  navigation_id = d.navigation_id;
  exec_id = d.exec_id;
  plant_id = d.plant_id;
  target_id = d.target_id;
  ugv_id = d.ugv_id;
  waypoint_id = d.waypoint_id;
  inspection_loacl_id = d.inspection_local_id;
  inspection_pan = d.inspection_pan;
  inspection_tilt = d.inspection_tilt;
  inspection_lift = d.inspection_lift;
  object_id = d.object_id;
  rot_x = d.rot_x;
  rot_y = d.rot_y;
  rot_z = d.rot_z;
  rot_w = d.rot_w;
  image_data = r.image_b64;
}
