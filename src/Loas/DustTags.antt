-- ===== src/Loas/DustTags.antt =====
-- How SocketDaim/libs/gw_proto/gw_proto/codec/loas/dust_xml.py reads the tags of the two revisions of the
-- vendor's format, and those that it does not know.
use dust_monitoring.Prelude.{
  ◌≡◌, refl, ap, sym, ◌∙◌, Bool, Option, none, List, [], ◌∷◌, map, any, keep, arith, if◌then◌else◌,
  Text, codes, equal, equal_iff,
}
use mathlib.Core.Path.{fun_ext}
use dust_monitoring.Loas.DustXml.{
  raises, wrong_root, Element, Python, get_text, payload_of, parse_element,
}

-- The tags of the format, with the two misspelt ones of its first revision.
abbrev pub known_tags : List Text
known_tags = map codes (
    "CMD_ID" ∷ "DUST_DATA" ∷ "DUST_ALARM" ∷ "DUST_ALRAM" ∷ "DATETIME" ∷ "SENSOR_TYPE"
    ∷ "SENSOR_INDEX" ∷ "TARGET_INDEX" ∷ "WAYPOINT_X" ∷ "WAYPOINT_Y" ∷ "WAYPOINT_Z" ∷ "ROT_X"
    ∷ "ROT_Y" ∷ "ROT_Z" ∷ "ROT_W" ∷ "UGV_ID" ∷ "LOCATION_ID" ∷ "MAP_ID" ∷ "NAVIGATION_ID"
    ∷ "EXEC_ID" ∷ "PLANT_ID" ∷ "TARGET_ID" ∷ "WAYPOINT_ID" ∷ "INSPECTION_LOCAL_ID"
    ∷ "INSPECTION_LOACL_ID" ∷ "OBJECT_ID" ∷ "MISSION_ID" ∷ "INSPECTION_PAN" ∷ "INSPECTION_TILT"
    ∷ "INSPECTION_LIFT" ∷ [])

unfoldable pub is_known : Text → Bool
unfolding equal
is_known tag = any (λ t. equal t tag) known_tags

abbrev pub Node : Type 0
Node = Text × Option Text

-- An element without the children that have none of the tags.
abbrev pub known_part : Element → Element
known_part e = record e { children = keep (λ n. is_known n.0) e.children }

abbrev restrict : (Text → Option Text) → Text → Option Text
restrict get tag = if is_known tag then get tag else none

payload_of-restrict :
    {F : Type 0} (py : Python F) (get : Text → Option Text)
    → payload_of py (restrict get) ≡ payload_of py get
unfolding payload_of is_known equal
payload_of-restrict py get = refl

get_text-keep :
    (nodes : List Node) (tag : Text)
    → restrict (get_text (keep (λ n. is_known n.0) nodes)) tag ≡ restrict (get_text nodes) tag
unfolding get_text
get_text-keep [] tag = refl
get_text-keep ((t, x) ∷ nodes) tag = ground (arith, get_text-keep nodes tag, equal_iff t tag)

-- Children with tags that the format does not have change nothing in what an element is parsed to,
-- be it a payload or an error.
pub parse_element-known_part :
    {F : Type 0} (py : Python F) (e : Element)
    → parse_element py (known_part e) ≡ parse_element py e
unfolding parse_element
parse_element-known_part py e =
    ap (λ p. if equal e.tag (codes "ELEMENT") then p else raises wrong_root)
      (sym (payload_of-restrict py (get_text (known_part e).children))
        ∙ ap (payload_of py) (fun_ext (get_text-keep e.children))
        ∙ payload_of-restrict py (get_text e.children))
