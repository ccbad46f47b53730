-- ===== src/Agent/Roles.antt =====
-- decision_agent/src/decision_agent/role_resolver.py: which column of a record plays which role.
pub mod Assign
use dust_monitoring.Prelude.{
  ℕ, ◌≡◌, Bool, true, false, not, ◌&&◌, ◌||◌, Option, none, some, List, [], ◌∷◌, map, any, ◌==◌,
  if◌then◌else◌, Text, codes, equal, bind, is_some,
}
use dust_monitoring.Agent.Judge.{Update, invalid, updated}

-- The result columns of decision_record.
pub data Column : Type 0 where
  anomaly_detection_result object_detection_result sensor_analysis_result : Column

abbrev pub Roles : Type 0
Roles = List (Text × Text)

-- The rows of role_mapping, and the cached dictionary from role to component.
pub record RoleResolver : Type 0 where
  pub rows : Roles
  pub role_to_component : Roles

unfoldable pub component_to_column : Text → Option Column
component_to_column c =
    if equal c (codes "anomaly_detection")
    then some anomaly_detection_result
    else if equal c (codes "object_detection")
    then some object_detection_result
    else if equal c (codes "sensor_analysis")
    then some sensor_analysis_result
    else none

unfoldable pub put_role : Text → Text → Roles → Roles
put_role k v [] = (k, v) ∷ []
put_role k v ((j, w) ∷ t) = if equal j k then (j, v) ∷ t else (j, w) ∷ put_role k v t

unfoldable pub find_role : Roles → Text → Option Text
find_role [] k = none
find_role ((j, w) ∷ t) k = if equal j k then some w else find_role t k

unfoldable pub fill_roles : Roles → Roles → Roles
unfolding put_role
fill_roles t [] = t
fill_roles t ((k, v) ∷ rs) = fill_roles (put_role k v t) rs

unfoldable pub refresh : RoleResolver → RoleResolver
unfolding fill_roles
refresh r = record r { role_to_component = fill_roles [] r.rows }

abbrev pub set_component : Text → Text → Text × Text → Text × Text
set_component role comp (k, v) = if equal k role then (k, comp) else (k, v)

-- `invalid` is the `ValueError`; the Boolean says whether a row was updated.
unfoldable pub update_component : Text → Text → RoleResolver → Update RoleResolver
unfolding refresh
update_component role comp r =
    if not (is_some (component_to_column comp))
    then invalid
    else if any (λ x. equal x.0 role) r.rows
    then updated (refresh (record r { rows = map (set_component role comp) r.rows })) true
    else updated r false

-- `none` is `KeyError`.
unfoldable pub column_for_role : RoleResolver → Text → Option Column
unfolding find_role component_to_column
column_for_role r role = bind (find_role r.role_to_component role) component_to_column

-- The columns of the roles iot_sensor, static_dust and dynamic_dust; `none` is `KeyError`.
pub record RoleColumns : Type 0 where
  pub iot_sensor : Column
  pub static_dust : Column
  pub dynamic_dust : Column

unfoldable pub role_columns : RoleResolver → Option RoleColumns
unfolding column_for_role
role_columns r = bind (column_for_role r (codes "static_dust")) λ s.
    bind (column_for_role r (codes "dynamic_dust")) λ d.
      bind (column_for_role r (codes "iot_sensor"))
        λ i. some (record { iot_sensor = i; static_dust = s; dynamic_dust = d })
