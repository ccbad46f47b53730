-- ===== src/Loas/Store.antt =====
-- What SocketDaim/ingestion_gateway/handler writes for the frames of the two LOAS listeners, with the
-- statements of dust_inspection_repo.py and cctv_frame_repo.py.
use dust_monitoring.Prelude.{
  ℕ, Bool, true, false, not, ◌&&◌, Option, none, some, List, [], ◌∷◌, ◌/◌, ◌==◌, if◌then◌else◌,
  length, Text, ℤ, eq_int, keep,
}
use dust_monitoring.Loas.Words.{Bytes}
use dust_monitoring.Loas.DustFraming.{DustHeader}
use dust_monitoring.Loas.DustXml.{DustInspectionPayload}

-- A row of `dust_inspection`; its sensor's date is in the payload as text.
pub record DustRow (F : Type 0) : Type 0 where
  pub header : DustHeader
  pub payload : DustInspectionPayload F
  pub raw_xml : Text

-- `{root}/{amr_id}/{date}/{hour}/{target_id}_{stamp}.jpg`, where the date, the hour and the stamp are
-- those of one millisecond.
pub record JpgPath : Type 0 where
  pub target_id : Option ℤ
  pub millisecond : ℕ

pub record CctvRow : Type 0 where
  pub received_at : ℕ
  pub source_ip : Text
  pub resolution : Text
  pub file_path : JpgPath
  pub byte_size : ℕ

-- The module variables of the gate, what the handlers keep, and what they write. Times are
-- microseconds; a dump that was written is the time and the waypoint of its name, and its text.
pub record Store (F : Type 0) : Type 0 where
  pub allow_save : Bool
  pub target_id : Option ℤ
  pub prev : Option (DustInspectionPayload F)
  pub dust_rows : List (DustRow F)
  pub cctv_rows : List CctvRow
  pub jpgs : List (JpgPath × Bytes)
  pub last_dump : ℕ
  pub dumps : List (ℕ × (Option ℤ × Text))

-- The dump of `LoasDustHandler`: whether it is on, and the least time between two.
pub record Dump : Type 0 where
  pub enabled : Bool
  pub interval : ℕ

pub data DustWrite : Type 0 where
  inserted insert_failed inserted_but_dump_failed : DustWrite

-- What becomes of a frame: it is stored; its file cannot be made, or is cut after some bytes; its row
-- is refused, and its file is then removed or not.
pub data CctvWrite : Type 0 where
  stored no_file : CctvWrite
  cut_after : ℕ → CctvWrite
  row_refused row_refused_and_file_left : CctvWrite

-- The frames that the two listeners deliver, with the time and with what becomes of the writes.
pub data Event : Type 0 where
  dust_frame : ℕ → DustHeader → Bytes → DustWrite → Event
  cctv_frame : ℕ → Text → Text → Bytes → CctvWrite → Event

-- Equality of the paths.
abbrev pub same_target : Option ℤ → Option ℤ → Bool
same_target none none = true
same_target (some i) (some j) = eq_int i j
same_target _ _ = false

abbrev pub same_jpg : JpgPath → JpgPath → Bool
same_jpg p q = same_target p.target_id q.target_id && p.millisecond == q.millisecond

-- `_write_atomically`
unfoldable pub write_jpg : JpgPath → Bytes → List (JpgPath × Bytes) → List (JpgPath × Bytes)
write_jpg p b [] = (p, b) ∷ []
write_jpg p b ((q, c) ∷ t) =
    let rest = write_jpg p b t in if same_jpg q p then (q, b) ∷ t else (q, c) ∷ rest

unfoldable pub read_jpg : JpgPath → List (JpgPath × Bytes) → Option Bytes
read_jpg p [] = none
read_jpg p ((q, b) ∷ t) = let rest = read_jpg p t in if same_jpg q p then some b else rest

abbrev pub unlink : JpgPath → List (JpgPath × Bytes) → List (JpgPath × Bytes)
unlink p files = keep (λ x. not (same_jpg x.0 p)) files

-- The date, the hour and the stamp of a path are those of a millisecond.
abbrev pub build_path : ℕ → Option ℤ → JpgPath
build_path now target = record { target_id = target; millisecond = now / 1000 }

abbrev pub row_of : ℕ → Text → Text → JpgPath → Bytes → CctvRow
row_of now ip resolution path jpg = record {
  received_at = now;
  source_ip = ip;
  resolution = resolution;
  file_path = path;
  byte_size = length jpg;
}
