-- ===== src/Ingest/Handlers.antt =====
-- What the handlers of SocketDaim/ingestion_gateway/handler share: their state and their answers.
use dust_monitoring.Prelude.{ℕ, Bool, Option, Text}
use dust_monitoring.Loas.Words.{Bytes}
use dust_monitoring.Transfer.Response.{Json}
use dust_monitoring.Ingest.Message.{HeaderJson}
use dust_monitoring.Ingest.Session.{IngestionSession}
use dust_monitoring.Ingest.Tables.{Tables, Problem, VideoPath, Video, SensorSample}

-- The session of the connection, with the database and the files.
pub record State (F : Type 0) : Type 0 where
  pub session : IngestionSession
  pub tables : Tables F

-- `raised` is an exception that no handler catches.
pub data Reply : Type 0 where
  acked silent raised : Reply
  refused : Problem → Reply

-- What becomes of the file of a video: it is written, the directory or the file cannot be made, or
-- the disk fails after some of the chunks.
pub data WriteOutcome : Type 0 where
  written no_file : WriteOutcome
  cut_after : ℕ → WriteOutcome

-- `accepts` and `takes` say which rows the database takes, besides that a primary key is taken once; `str`,
-- `isoformat` (`fromisoformat`, with `Z` read as `+00:00`) and `body_of` (an error reply's payload)
-- are Python's. `day` is the date of UTC, and `monotonic` the clock.
pub record World (F : Type 0) : Type 0 where
  pub header_json : HeaderJson
  pub loads : Bytes → Option (Json F)
  pub write_outcome : VideoPath → WriteOutcome
  pub accepts : Video → Bool
  pub takes : SensorSample F → Bool
  pub day : Text
  pub monotonic : ℕ
  pub isoformat : Text → Option ℕ
  pub str : Json F → Text
  pub body_of : Problem → Bytes
