-- ===== src/Loas/DustXml.antt =====
-- SocketDaim/libs/gw_proto/gw_proto/codec/loas/dust_xml.py: the body of a DUST frame.
use dust_monitoring.Prelude.{
  Option, none, some, List, [], ◌∷◌, if◌then◌else◌, Text, codes, equal, ℤ,
}
use dust_monitoring.Loas.Words.{Bytes}

pub data XmlError : Type 0 where
  xml_decode_error malformed wrong_root missing_cmd_id unsupported_cmd_id : XmlError
  bad_value : Text → XmlError

pub data Parsed {ℓ} (A : Type ℓ) : Type ℓ where
  ok : A → Parsed A
  raises : XmlError → Parsed A

infixl 5 ◌>>=◌
abbrev pub ◌>>=◌ {ℓ κ} : {A : Type ℓ} {B : Type κ} → Parsed A → (A → Parsed B) → Parsed B
ok a >>= f = f a
raises e >>= f = raises e

-- The children of an element with their `text`, which may be `None`.
pub record Element : Type 0 where
  pub tag : Text
  pub children : List (Text × Option Text)

-- Python's decoders, `ElementTree.fromstring`, `str.strip`, `int` and `float`; `none` is the
-- exception that the code catches.
pub record Python (F : Type 0) : Type 0 where
  pub utf_8 : Bytes → Option Text
  pub euc_kr : Bytes → Option Text
  pub fromstring : Text → Option Element
  pub strip : Text → Text
  pub int : Text → Option ℤ
  pub float : Text → Option F

pub record DustInspectionPayload (F : Type 0) : Type 0 where
  pub cmd_id : Text
  pub dust_data : Option F
  pub dust_alarm : Option ℤ
  pub datetime_str : Option Text
  pub sensor_type : Option ℤ
  pub sensor_index : Option ℤ
  pub target_index : Option ℤ
  pub waypoint_x : Option F
  pub waypoint_y : Option F
  pub waypoint_z : Option F
  pub rot_x : Option F
  pub rot_y : Option F
  pub rot_z : Option F
  pub rot_w : Option F
  pub ugv_id : Option ℤ
  pub location_id : Option ℤ
  pub map_id : Option ℤ
  pub navigation_id : Option ℤ
  pub exec_id : Option ℤ
  pub plant_id : Option ℤ
  pub target_id : Option ℤ
  pub waypoint_id : Option ℤ
  pub inspection_local_id : Option ℤ
  pub object_id : Option ℤ
  pub mission_id : Option ℤ
  pub inspection_pan : Option ℤ
  pub inspection_tilt : Option ℤ
  pub inspection_lift : Option ℤ

-- `root.find(tag)` and its text: the first child of that tag counts, also where it has none.
unfoldable pub get_text : List (Text × Option Text) → Text → Option Text
get_text [] tag = none
get_text ((t, x) ∷ nodes) tag = let rest = get_text nodes tag in if equal t tag then x else rest

abbrev pub cmd_id_dust_inspection : Text
cmd_id_dust_inspection = codes "DUST_INSPECTION_INFOR"

abbrev pub or_decode_error : Option Text → Parsed Text
or_decode_error none = raises xml_decode_error
or_decode_error (some t) = ok t

abbrev pub or_try : Option Text → Option Text → Option Text
or_try none u = u
or_try (some t) u = some t

abbrev pub non_empty : Text → Option Text
non_empty [] = none
non_empty (c ∷ t) = some (c ∷ t)

module _ {F : Type 0} (py : Python F) where
  unfoldable pub decode_xml : Bytes → Parsed Text
  decode_xml raw = or_decode_error (or_try (py.utf_8 raw) (py.euc_kr raw))

  abbrev or_bad_value : {A : Type 0} → Text → Option A → Parsed (Option A)
  or_bad_value tag none = raises (bad_value tag)
  or_bad_value tag (some v) = ok (some v)

  abbrev pub cast : {A : Type 0} → Text → (Text → Option A) → Option Text → Parsed (Option A)
  cast tag caster none = ok none
  cast tag caster (some t) = or_bad_value tag (caster t)

  -- A text that is `None` or blank is `none`; else it is stripped.
  abbrev pub stripped : Option Text → Option Text
  stripped none = none
  stripped (some t) = non_empty (py.strip t)

  -- `_coerce`
  abbrev pub coerce : {A : Type 0} → (Text → Option A) → Text → Option Text → Parsed (Option A)
  coerce caster tag raw = cast tag caster (stripped raw)

  -- `get_text_either` of two tags.
  abbrev pub either : Option Text → Option Text → Option Text
  either x y = elim (stripped x) [
    | some _ ↦ x
    | none ↦ elim (stripped y) [ some _ ↦ y | none ↦ none ]
  ]

  abbrev check_cmd_id : Option Text → Parsed Text
  check_cmd_id none = raises missing_cmd_id
  check_cmd_id (some t) = if equal t cmd_id_dust_inspection then ok t else raises unsupported_cmd_id

  -- The fields of the element whose texts are `get`.
  unfoldable pub payload_of : (Text → Option Text) → Parsed (DustInspectionPayload F)
  payload_of get = do
    let int : Text → Parsed (Option ℤ) = λ tag. coerce py.int tag (get tag)
    let float : Text → Parsed (Option F) = λ tag. coerce py.float tag (get tag)
    cmd_id ← check_cmd_id (stripped (get (codes "CMD_ID")))
    dust_data ← float (codes "DUST_DATA")
    dust_alarm ←
        coerce py.int (codes "DUST_ALARM")
          (either (get (codes "DUST_ALARM")) (get (codes "DUST_ALRAM")))
    sensor_type ← int (codes "SENSOR_TYPE")
    sensor_index ← int (codes "SENSOR_INDEX")
    target_index ← int (codes "TARGET_INDEX")
    waypoint_x ← float (codes "WAYPOINT_X")
    waypoint_y ← float (codes "WAYPOINT_Y")
    waypoint_z ← float (codes "WAYPOINT_Z")
    rot_x ← float (codes "ROT_X")
    rot_y ← float (codes "ROT_Y")
    rot_z ← float (codes "ROT_Z")
    rot_w ← float (codes "ROT_W")
    ugv_id ← int (codes "UGV_ID")
    location_id ← int (codes "LOCATION_ID")
    map_id ← int (codes "MAP_ID")
    navigation_id ← int (codes "NAVIGATION_ID")
    exec_id ← int (codes "EXEC_ID")
    plant_id ← int (codes "PLANT_ID")
    target_id ← int (codes "TARGET_ID")
    waypoint_id ← int (codes "WAYPOINT_ID")
    inspection_local_id ←
        coerce py.int (codes "INSPECTION_LOCAL_ID")
          (either (get (codes "INSPECTION_LOCAL_ID")) (get (codes "INSPECTION_LOACL_ID")))
    object_id ← int (codes "OBJECT_ID")
    mission_id ← int (codes "MISSION_ID")
    inspection_pan ← int (codes "INSPECTION_PAN")
    inspection_tilt ← int (codes "INSPECTION_TILT")
    inspection_lift ← int (codes "INSPECTION_LIFT")
    ok (record {
      cmd_id = cmd_id;
      dust_data = dust_data;
      dust_alarm = dust_alarm;
      datetime_str = stripped (get (codes "DATETIME"));
      sensor_type = sensor_type;
      sensor_index = sensor_index;
      target_index = target_index;
      waypoint_x = waypoint_x;
      waypoint_y = waypoint_y;
      waypoint_z = waypoint_z;
      rot_x = rot_x;
      rot_y = rot_y;
      rot_z = rot_z;
      rot_w = rot_w;
      ugv_id = ugv_id;
      location_id = location_id;
      map_id = map_id;
      navigation_id = navigation_id;
      exec_id = exec_id;
      plant_id = plant_id;
      target_id = target_id;
      waypoint_id = waypoint_id;
      inspection_local_id = inspection_local_id;
      object_id = object_id;
      mission_id = mission_id;
      inspection_pan = inspection_pan;
      inspection_tilt = inspection_tilt;
      inspection_lift = inspection_lift;
    })

  abbrev or_malformed : Option Element → Parsed Element
  or_malformed none = raises malformed
  or_malformed (some e) = ok e

  unfoldable pub parse_element : Element → Parsed (DustInspectionPayload F)
  unfolding get_text payload_of
  parse_element root =
      if equal root.tag (codes "ELEMENT")
      then payload_of (get_text root.children)
      else raises wrong_root

  unfoldable pub parse_dust_inspection : Bytes → Parsed (DustInspectionPayload F)
  unfolding decode_xml parse_element
  parse_dust_inspection raw = do
    text ← decode_xml raw
    root ← or_malformed (py.fromstring text)
    parse_element root
