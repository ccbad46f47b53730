-- ===== src/Ingest/Video.antt =====
-- SocketDaim/ingestion_gateway/handler/video_handler.py.
use dust_monitoring.Prelude.{
  ℕ, Bool, true, false, not, ◌&&◌, Option, none, some, List, [], ◌∷◌, ◌++◌, ◌+◌, map, if◌then◌else◌,
  leb, length, take, sort_by, Text, codes,
}
use dust_monitoring.Loas.Words.{Bytes}
use dust_monitoring.Gateway.Wire.{MessageType, video_chunk, video_complete}
use dust_monitoring.Transfer.Floats.{Floats}
use dust_monitoring.Transfer.Response.{Json, array, object, text, truthy}
use dust_monitoring.Transfer.Response as Response
use dust_monitoring.Ingest.Message.{Message, VideoChunkMeta, parse_video_chunk}
use dust_monitoring.Ingest.Session.{
  Chunks, put, chunk_at, VideoBuffer, received_count, is_complete, get, set, pop,
}
use dust_monitoring.Ingest.Tables.{
  Tables, Problem, malformed_chunk, unknown_station, no_buffered_video, save_failed, incomplete,
  invalid_payload, missing_video_id, Video, VideoPath, lookup_by_name, write_file, log_error,
  ask_for_station, has_video,
}
use dust_monitoring.Ingest.Handlers.{
  State, Reply, acked, raised, refused, WriteOutcome, written, no_file, cut_after, World,
}

-- The writes of the chunks in the order of their numbers; a number that is there has a chunk.
abbrev pub concat_at : List ℕ → Chunks → Bytes
concat_at [] chunks = []
concat_at (s ∷ seqs) chunks =
    elim (chunk_at s chunks) [ none ↦ [] | some b ↦ b ] ++ concat_at seqs chunks

-- `sorted(buf.chunks.keys())`
unfoldable pub sorted_seqs : Chunks → List ℕ
unfolding sort_by
sorted_seqs chunks = sort_by leb (map (λ c. c.0) chunks)

unfoldable pub assemble : Chunks → Bytes
unfolding sorted_seqs chunk_at
assemble chunks = concat_at (sorted_seqs chunks) chunks

-- `_parse_iso`
abbrev pub parse_iso : (Text → Option ℕ) → Option Text → Option ℕ
parse_iso isoformat none = none
parse_iso isoformat (some []) = none
parse_iso isoformat (some (c ∷ t)) = isoformat (c ∷ t)

abbrev pub fresh_buffer : VideoChunkMeta → ℕ → VideoBuffer
fresh_buffer m station_id = record {
  video_id = m.video_id;
  station_name = m.station_name;
  station_id = station_id;
  total_chunks = m.total_chunks;
  captured_at = m.captured_at;
  amr_id = m.amr_id;
  amr_position = m.amr_position;
  source_format = m.source_format;
  chunks = [];
  total_size = 0;
}

abbrev pub add_chunk : ℕ → Bytes → VideoBuffer → VideoBuffer
add_chunk seq body buf = record buf {
  chunks = put seq body buf.chunks;
  total_size = buf.total_size + length body;
}

module _ {F : Type 0} where
  abbrev pub refuse : Option ℕ → MessageType → Problem → State F → Reply × State F
  refuse station_id t problem s =
      (refused problem, record s { tables = log_error station_id t problem s.tables })

  abbrev pub set_buffer : Text → VideoBuffer → State F → State F
  set_buffer id buf s = record s {
    session = record (s.session) { video_buffers = set id buf s.session.video_buffers };
  }

  abbrev pub pop_buffer : Text → State F → State F
  pop_buffer id s = record s {
    session = record (s.session) { video_buffers = pop id s.session.video_buffers };
  }

  abbrev pub buffer_chunk : VideoChunkMeta → Bytes → VideoBuffer → State F → Reply × State F
  buffer_chunk m body buf s = (acked, set_buffer m.video_id (add_chunk m.chunk_seq body buf) s)

  -- The first chunk of a video: its station is looked up.
  abbrev pub first_chunk : VideoChunkMeta → Bytes → State F → Reply × State F
  first_chunk m body s = elim (lookup_by_name m.station_name s.tables.stations) [
    | none ↦ (
      refused unknown_station,
      record s { tables = ask_for_station video_chunk m.station_name s.tables },
    )
    | some station_id ↦ buffer_chunk m body (fresh_buffer m station_id) s
  ]

  unfoldable pub accept_chunk : VideoChunkMeta → Bytes → State F → Reply × State F
  unfolding get set put lookup_by_name ask_for_station
  accept_chunk m body s = elim (get m.video_id s.session.video_buffers) [
    | none ↦ first_chunk m body s
    | some buf ↦ buffer_chunk m body buf s
  ]

  abbrev pub parsed_chunk : Option (VideoChunkMeta × Bytes) → State F → Reply × State F
  parsed_chunk none s = refuse none video_chunk malformed_chunk s
  parsed_chunk (some x) s = accept_chunk x.0 x.1 s

  unfoldable pub handle_chunk : World F → Message F → State F → Reply × State F
  unfolding parse_video_chunk accept_chunk log_error
  handle_chunk w message s = parsed_chunk (parse_video_chunk w.header_json message.payload) s

  abbrev pub path_of : World F → VideoBuffer → VideoPath
  path_of w buf = record { station_id = buf.station_id; day = w.day; video_id = buf.video_id }

  abbrev pub save_as : VideoBuffer → VideoPath → Tables F → WriteOutcome → Bool × Tables F
  save_as buf p s written = (true, record s { files = write_file p (assemble buf.chunks) s.files })
  save_as buf p s no_file = (false, s)
  save_as buf p s (cut_after k) = (
    false,
    record s {
      files = write_file p (concat_at (take k (sorted_seqs buf.chunks)) buf.chunks) s.files;
    },
  )

  -- `_assemble_and_save`, and whether it returns.
  unfoldable pub assemble_and_save : World F → VideoBuffer → Tables F → Bool × Tables F
  unfolding assemble write_file
  assemble_and_save w buf s = save_as buf (path_of w buf) s (w.write_outcome (path_of w buf))

  abbrev pub row_of : World F → VideoBuffer → Video
  row_of w buf = record {
    video_id = buf.video_id;
    station_id = buf.station_id;
    day = w.day;
    captured_at = parse_iso w.isoformat buf.captured_at;
    amr_id = buf.amr_id;
    amr_position = buf.amr_position;
    source_format = buf.source_format;
  }

  -- `VideoRepository.insert`, and whether it returns.
  unfoldable pub insert_video : World F → Video → Tables F → Bool × Tables F
  insert_video w v s =
      if not (has_video v.video_id s.videos) && w.accepts v
      then (true, record s { videos = s.videos ++ v ∷ [] })
      else (false, s)

  abbrev pub insert_after : World F → VideoBuffer → Bool × Tables F → Bool × Tables F
  insert_after w buf (true, s) = insert_video w (row_of w buf) s
  insert_after w buf (false, s) = (false, s)

  -- The body of the `try`: the file, then the row.
  unfoldable pub save_video : World F → VideoBuffer → Tables F → Bool × Tables F
  unfolding assemble_and_save insert_video
  save_video w buf s = insert_after w buf (assemble_and_save w buf s)

  abbrev pub finish : Text → VideoBuffer → State F → Bool × Tables F → Reply × State F
  finish id buf s (true, t) = (acked, pop_buffer id (record s { tables = t }))
  finish id buf s (false, t) =
      let (reply, s') =
        refuse (some buf.station_id) video_complete save_failed (record s { tables = t }) in
      (reply, pop_buffer id s')

  unfoldable pub complete_buffer : World F → Text → VideoBuffer → State F → Reply × State F
  unfolding is_complete received_count save_video log_error pop
  complete_buffer w id buf s =
      if not (is_complete buf)
      then refuse (some buf.station_id) video_complete
          (incomplete (received_count buf) buf.total_chunks) s
      else finish id buf s (save_video w buf s.tables)

  abbrev pub complete_text : World F → Text → State F → Reply × State F
  complete_text w id s = elim (get id s.session.video_buffers) [
    | none ↦ refuse none video_complete no_buffered_video s
    | some buf ↦ complete_buffer w id buf s
  ]

  -- The key of the buffers is a text: a number is no key of theirs, and a list or a dictionary is
  -- not hashable.
  abbrev pub complete_id : World F → Json F → State F → Reply × State F
  complete_id w (text id) s = complete_text w id s
  complete_id w (array _) s = (raised, s)
  complete_id w (object _) s = (raised, s)
  complete_id w _ s = refuse none video_complete no_buffered_video s

module _ {F : Type 0} ⦃fl : Floats F⦄ where
  abbrev pub complete_metadata : World F → Json F → State F → Reply × State F
  complete_metadata w (object fs) s =
      let id = Response.get fs (codes "video_id") in
      if not (truthy id) then (refused missing_video_id, s) else complete_id w id s
  complete_metadata w _ s = (refused invalid_payload, s)

  unfoldable pub handle_complete : World F → Message F → State F → Reply × State F
  unfolding Response.get truthy complete_buffer log_error get
  handle_complete w message s = complete_metadata w message.metadata s
