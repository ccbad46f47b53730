-- ===== src/Ingest/Tables.antt =====
-- SocketDaim/ingestion_gateway/repository: the tables, and the statements of the handlers on them.
use dust_monitoring.Prelude.{
  ℕ, Bool, not, ◌&&◌, Option, none, some, List, [], ◌∷◌, ◌++◌, ◌+◌, ◌==◌, if◌then◌else◌, any, Text,
  codes, equal,
}
use dust_monitoring.Loas.Words.{Bytes}
use dust_monitoring.Gateway.Wire.{MessageType}

pub record Station : Type 0 where
  pub station_id : ℕ
  pub station_name : Text
  pub status : Text

-- The reasons that the log rows and the error replies give.
pub data Problem : Type 0 where
  malformed_chunk unknown_station no_buffered_video save_failed : Problem
  incomplete : ℕ → ℕ → Problem
  invalid_payload missing_video_id missing_station_name bad_payload peer_error : Problem
  unhandled_type : MessageType → Problem

-- A row of `ingestion_log`; the handlers write the status 'error' only.
pub record Log : Type 0 where
  pub station_id : Option ℕ
  pub message_type : MessageType
  pub error_message : Problem

-- A row of `video`, without the columns that keep their defaults.
pub record Video : Type 0 where
  pub video_id : Text
  pub station_id : ℕ
  pub day : Text
  pub captured_at : Option ℕ
  pub amr_id : Option Text
  pub amr_position : Option Text
  pub source_format : Option Text

pub record SensorSample (F : Type 0) : Type 0 where
  pub station_id : ℕ
  pub measurement_type : Text
  pub value : F
  pub unit : Text
  pub sampled_at : ℕ

-- `{storage_root}/videos/{station_id}/{day}/{video_id}.bin`
pub record VideoPath : Type 0 where
  pub station_id : ℕ
  pub day : Text
  pub video_id : Text

-- The tables of the database, and the files of the storage volume.
pub record Tables (F : Type 0) : Type 0 where
  pub stations : List Station
  pub requests : List (Text × ℕ)
  pub logs : List Log
  pub videos : List Video
  pub samples : List (SensorSample F)
  pub files : List (VideoPath × Bytes)

abbrev is_named : Text → Station → Bool
is_named name s = equal s.station_name name && not (equal s.status (codes "inactive"))

unfoldable pub lookup_by_name : Text → List Station → Option ℕ
lookup_by_name name [] = none
lookup_by_name name (s ∷ t) =
    let rest = lookup_by_name name t in if is_named name s then some s.station_id else rest

abbrev bump : Text → List (Text × ℕ) → List (Text × ℕ)
bump name [] = (name, 1) ∷ []
bump name ((n, attempts) ∷ t) =
    let rest = bump name t in if equal n name then (n, attempts + 1) ∷ t else (n, attempts) ∷ rest

-- `StationRequestRepository.upsert`
unfoldable pub upsert : Text → List (Text × ℕ) → List (Text × ℕ)
upsert [] requests = requests
upsert (c ∷ name) requests = bump (c ∷ name) requests

abbrev pub same_path : VideoPath → VideoPath → Bool
same_path p q = p.station_id == q.station_id && equal p.day q.day && equal p.video_id q.video_id

-- The bytes of a file; `none` where there is no such file.
unfoldable pub read_file : VideoPath → List (VideoPath × Bytes) → Option Bytes
read_file p [] = none
read_file p ((q, b) ∷ t) = let rest = read_file p t in if same_path q p then some b else rest

-- `open(path, "wb")` and the writes.
unfoldable pub write_file : VideoPath → Bytes → List (VideoPath × Bytes) → List (VideoPath × Bytes)
write_file p b [] = (p, b) ∷ []
write_file p b ((q, c) ∷ t) =
    let rest = write_file p b t in if same_path q p then (q, b) ∷ t else (q, c) ∷ rest

module _ {F : Type 0} where
  -- `IngestionLogRepository.insert`
  unfoldable pub log_error : Option ℕ → MessageType → Problem → Tables F → Tables F
  log_error station_id t problem s = record s {
    logs =
        s.logs
        ++ record { station_id = station_id; message_type = t; error_message = problem } ∷ [];
  }

  -- What the handlers do for a station that is unknown, or inactive.
  unfoldable pub ask_for_station : MessageType → Text → Tables F → Tables F
  unfolding log_error upsert
  ask_for_station t name s =
      log_error none t unknown_station (record s { requests = upsert name s.requests })

abbrev pub has_video : Text → List Video → Bool
has_video id videos = any (λ v. equal v.video_id id) videos
