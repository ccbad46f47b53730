-- ===== src/Loas/StorageTests.antt =====
-- DUST and CCTV frames that come in turn, and the theorems about what is stored of them. A body is its
-- own text, and a number is one byte.
use dust_monitoring.Prelude.{
  ℕ, ◌≡◌, refl, true, Option, none, some, List, [], ◌∷◌, length, Text, codes, equal, ℤ, pos, eq_int,
  Bool, false, not, ◌&&◌,
}
use dust_monitoring.Loas.Words.{Bytes}
use dust_monitoring.Loas.DustFraming.{DustHeader}
use dust_monitoring.Loas.DustXml.{
  DustInspectionPayload, Python, Element, parse_element, cmd_id_dust_inspection,
}
use dust_monitoring.Loas.DustRevisions as DustRevisions
use dust_monitoring.Loas.Store.{
  Store, Dump, Event, dust_frame, cctv_frame, inserted, stored, row_refused,
}
use dust_monitoring.Loas.Gating as Gating
use dust_monitoring.Loas.Jpgs as Jpgs

abbrev number : Text → Option ℤ
number [] = none
number (c ∷ t) = some (pos c)

abbrev element : Bytes → Element
element body = record {
  tag = codes "ELEMENT";
  children =
      (codes "CMD_ID", some cmd_id_dust_inspection)
      ∷ (codes "DUST_ALRAM", some (1 ∷ []))
      ∷ (codes "COLOUR", none)
      ∷ (codes "WAYPOINT_ID", some body)
      ∷ (codes "TARGET_ID", some body)
      ∷ [];
}

abbrev py : Python ℕ
py = record {
  utf_8 = λ b. some b;
  euc_kr = λ b. none;
  fromstring = λ t. some (element t);
  strip = λ t. t;
  int = number;
  float = λ t. some (length t);
}

abbrev header : DustHeader
header = record {
  sop = 0xAABB;
  data_object_id = 0xD002;
  version = 2;
  encryption = 0;
  timestamp = 5;
  length = 1;
}

abbrev is_valid : Option ℤ → Bool
is_valid none = false
is_valid (some i) = not (eq_int i (pos 0))

-- The rule of the return statement of waypoint_gate.py.
abbrev collect : DustInspectionPayload ℕ → Bool
collect cur = is_valid cur.waypoint_id && is_valid cur.target_id

abbrev dump : Dump
dump = record { enabled = true; interval = 0 }

abbrev empty_store : Store ℕ
empty_store = record {
  allow_save = true;
  target_id = none;
  prev = none;
  dust_rows = [];
  cctv_rows = [];
  jpgs = [];
  last_dump = 0;
  dumps = [];
}

-- A stop at target 7, two camera frames, a drive (waypoint 0), and a frame that is not stored.
abbrev events : List Event
events =
    dust_frame 1000 header (7 ∷ []) inserted
    ∷ cctv_frame 2000 [] [] (1 ∷ 2 ∷ []) stored
    ∷ cctv_frame 3000 [] [] (3 ∷ []) row_refused
    ∷ dust_frame 4000 header (0 ∷ []) inserted
    ∷ cctv_frame 5000 [] [] (4 ∷ []) stored
    ∷ []

parse_element-corrected_part_example :
    parse_element py (DustRevisions.corrected_part (element (7 ∷ [])))
    ≡ parse_element py (element (7 ∷ []))
unfolding equal
parse_element-corrected_part_example =
    DustRevisions.parse_element-corrected_part py (element (7 ∷ [])) refl refl
