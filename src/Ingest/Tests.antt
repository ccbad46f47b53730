-- ===== src/Ingest/Tests.antt =====
-- An upload of two chunks that come in the order 1, 0, 1, and the theorems about the gateway there.
use dust_monitoring.Prelude.{
  ℕ, ◌+◌, ◌-◌, ◌<◌, ◌≡◌, ◌≢◌, refl, ap, true, Option, none, some, is_some, List, [], ◌∷◌, ◌++◌, map,
  arith, ltb, ◌==◌, codes, equal,
}
use dust_monitoring.Loas.Words.{Bytes}
use dust_monitoring.Gateway.Wire.{video_complete, write_frame, closed, silent, sensor_sample}
use dust_monitoring.Transfer.Floats.{Floats}
use dust_monitoring.Transfer.Response.{null, object, text, field, end}
use dust_monitoring.Ingest.Message.{
  Header, HeaderJson, Message, VideoChunkMeta, header_of, parse_video_chunk,
  build_video_chunk_payload,
}
use dust_monitoring.Ingest.Session.{get, get_or_create}
use dust_monitoring.Ingest.Tables.{
  Tables, lookup_by_name, incomplete, log_error, invalid_payload, Video, VideoPath, write_file,
}
use dust_monitoring.Ingest.Handlers.{State, World, acked, refused, written}
use dust_monitoring.Ingest.Dispatch.{Service, bad_frame, on_connect, handle}
use dust_monitoring.Ingest.Sensor.{handle_sample}
use dust_monitoring.Ingest.Chunks.{receive_all, nothing}
use dust_monitoring.Ingest.Upload.{RoundTrips, numbered, chunk_message, complete_message, run}
use dust_monitoring.Ingest.Upload as Upload
use dust_monitoring.Ingest.Completion as Completion
use dust_monitoring.Ingest.Connection as Connection
use dust_monitoring.Ingest.Refusals as Refusals
use dust_monitoring.Ingest.OverWire as OverWire
use dust_monitoring.Ingest.Delivery as Delivery

instance abbrev natural : Floats ℕ
natural = record {
  gt = λ a b. ltb b a;
  neg_inf = 0;
  of_bool = λ b. 0;
  of_text = λ t. none;
  is_zero = λ x. x == 0;
}

abbrev meta : VideoChunkMeta
meta = record {
  video_id = codes "v";
  chunk_seq = 0;
  total_chunks = 2;
  station_name = codes "s";
  captured_at = none;
  amr_id = none;
  amr_position = none;
  source_format = none;
}

-- The header of a chunk of `meta` is written as its number alone.
abbrev dumps_seq : Option ℕ → Bytes
dumps_seq none = []
dumps_seq (some q) = (q + 11) ∷ []

abbrev loads_seq : Bytes → Option Header
loads_seq [] = none
loads_seq (n ∷ _) = some (header_of (numbered meta (n - 11)))

abbrev header_json : HeaderJson
header_json = record { loads = loads_seq; dumps = λ h. dumps_seq h.chunk_seq }

header_json-RoundTrips : RoundTrips header_json meta
unfolding header_of
header_json-RoundTrips q =
    (ap (λ n. some (header_of (numbered meta n))) (omega arith), ground arith)

abbrev world : World ℕ
world = record {
  header_json = header_json;
  loads = λ b. some (object (field (codes "video_id") (text (codes "v")) end));
  write_outcome = λ p. written;
  accepts = λ v. true;
  takes = λ r. true;
  day = codes "d";
  monotonic = 5;
  isoformat = λ t. none;
  str = λ v. [];
  body_of = λ p. [];
}

abbrev tables : Tables ℕ
tables = record {
  stations = record { station_id = 4; station_name = codes "s"; status = codes "waiting" } ∷ [];
  requests = [];
  logs = [];
  videos = [];
  samples = [];
  files = [];
}

abbrev service : Service ℕ
service = record { sessions = []; tables = tables }

abbrev state : State ℕ
state = record {
  session = record { video_buffers = []; connected_at = 5; last_heartbeat = 5 };
  tables = tables;
}

-- The second chunk comes first, then the first one, and the second one once more, with another body.
abbrev late : List (ℕ × Bytes)
late = (0, 7 ∷ 8 ∷ []) ∷ (1, 9 ∷ 10 ∷ []) ∷ []

abbrev early : ℕ × Bytes
early = (1, 6 ∷ [])

covered : (i : ℕ) → i < 2 → is_some (receive_all (early ∷ late) nothing i) ≡ true
covered i lt = ground (arith, lt)

unknown-name : meta.station_name ≢ []
unknown-name h = ground (arith, h)

-- The bytes of the three chunks and of the completion.
abbrev stream : Bytes
stream =
    (0 ∷ 0 ∷ 0 ∷ 3 ∷ 0 ∷ 0 ∷ 0 ∷ 1 ∷ 12 ∷ 10 ∷ 6 ∷ [])
    ++ ((0 ∷ 0 ∷ 0 ∷ 4 ∷ 0 ∷ 0 ∷ 0 ∷ 1 ∷ 11 ∷ 10 ∷ 7 ∷ 8 ∷ [])
        ++ ((0 ∷ 0 ∷ 0 ∷ 4 ∷ 0 ∷ 0 ∷ 0 ∷ 1 ∷ 12 ∷ 10 ∷ 9 ∷ 10 ∷ [])
            ++ ((0 ∷ 0 ∷ 0 ∷ 1 ∷ 0 ∷ 0 ∷ 0 ∷ 2 ∷ 1 ∷ []) ++ [])))

abbrev video_path : VideoPath
video_path = record { station_id = 4; day = codes "d"; video_id = codes "v" }

abbrev video_row : Video
video_row = record {
  video_id = codes "v";
  station_id = 4;
  day = codes "d";
  captured_at = none;
  amr_id = none;
  amr_position = none;
  source_format = none;
}

stream-Frames : OverWire.Frames (Delivery.upload_frames world meta (early ∷ late) (1 ∷ [])) stream
unfolding write_frame build_video_chunk_payload header_of
stream-Frames = OverWire.framed refl (omega arith) (
    OverWire.framed refl (omega arith)
      (OverWire.framed refl (omega arith) (OverWire.framed refl (omega arith) OverWire.done)))

on_connect-upload_example :
    on_connect world (codes "x") closed stream service
    ≡ some (
      bad_frame,
      (
        Delivery.ack_frames (early ∷ late),
        record {
          sessions = (codes "x", state.session) ∷ [];
          tables = record tables {
            videos = video_row ∷ [];
            files = (video_path, 7 ∷ 8 ∷ 9 ∷ 10 ∷ []) ∷ [];
          };
        },
      ),
    )
unfolding get get_or_create lookup_by_name equal write_file
on_connect-upload_example =
    Delivery.on_connect-upload world (codes "x") meta early late (1 ∷ []) stream service 4
      stream-Frames (λ h. ground (arith, h)) refl header_json-RoundTrips (λ h. ground (arith, h))
      (λ h. ground (arith, h)) refl refl refl refl refl
      (omega arith, (omega arith, (omega arith, tt))) covered

upload-refused_example :
    (1 < 2)
    × (run world
          (map (chunk_message world meta) (early ∷ []) ++ complete_message (codes "v") [] ∷ [])
          state
        ≡ (
          acked ∷ refused (incomplete 1 2) ∷ [],
          record ((run world (map (chunk_message world meta) (early ∷ [])) state).1) {
            tables = log_error (some 4) video_complete (incomplete 1 2) tables;
          },
        ))
unfolding get lookup_by_name equal
upload-refused_example =
    Completion.upload-refused world meta early [] [] state 4 0 header_json-RoundTrips
      (λ h. ground (arith, h)) (λ h. ground (arith, h)) refl refl (omega arith, tt) (omega arith)
      refl

on_connect-ends_example : is_some (on_connect world (codes "x") silent stream service) ≡ true
on_connect-ends_example = Connection.on_connect-ends world (codes "x") silent stream service

parse_video_chunk-build_example :
    parse_video_chunk header_json (build_video_chunk_payload header_json meta (10 ∷ 10 ∷ []))
    ≡ some (meta, 10 ∷ 10 ∷ [])
parse_video_chunk-build_example =
    Upload.parse_video_chunk-build header_json meta (10 ∷ 10 ∷ []) (header_json-RoundTrips 0)
      (λ h. ground (arith, h))

abbrev bare_sample : Message ℕ
bare_sample = record { msg_type = sensor_sample; payload = []; metadata = null }

handle-refused_example :
    Refusals.SameData tables (log_error none sensor_sample invalid_payload tables)
unfolding handle handle_sample
handle-refused_example =
    Refusals.handle-refused world bare_sample state
      (record state { tables = log_error none sensor_sample invalid_payload tables })
      invalid_payload refl
