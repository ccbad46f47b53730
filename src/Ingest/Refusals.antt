-- ===== src/Ingest/Refusals.antt =====
-- What the refusals of SocketDaim/ingestion_gateway/handler leave as it was.
use dust_monitoring.Prelude.{
  ℕ, ◌≡◌, refl, subst, Bool, true, false, not, ◌&&◌, Text, codes, Bool-cases, Option-cases, inl,
  inr,
}
use dust_monitoring.Loas.Words.{Bytes}
use dust_monitoring.Gateway.Wire.{
  MessageType, video_chunk, video_complete, sensor_sample, heartbeat, ack, analysis_result, alert,
  error,
}
use dust_monitoring.Transfer.Floats.{Floats}
use dust_monitoring.Transfer.Response.{
  Json, null, boolean, number, text, array, object, Fields, truthy, get,
}
use dust_monitoring.Ingest.Message.{Message, VideoChunkMeta, parse_video_chunk}
use dust_monitoring.Ingest.Session.{VideoBuffer, is_complete}
use dust_monitoring.Ingest.Session as Session
use dust_monitoring.Ingest.Tables.{
  Tables, Problem, Video, lookup_by_name, log_error, ask_for_station, has_video, VideoPath,
}
use dust_monitoring.Ingest.Handlers.{
  State, Reply, refused, World, WriteOutcome, written, no_file, cut_after,
}
use dust_monitoring.Ingest.Video.{
  accept_chunk, first_chunk, handle_chunk, save_as, assemble_and_save, insert_video, insert_after,
  save_video, finish, complete_buffer, complete_text, complete_id, complete_metadata,
  handle_complete, path_of, row_of,
}
use dust_monitoring.Ingest.Sensor.{
  store_sample, sample_of, sample_for, sample_named, sample_metadata, handle_sample,
  handle_heartbeat, handle_error, str,
}
use dust_monitoring.Ingest.Dispatch.{handle, handle_typed}

-- The tables that hold data: the rows of the log and of the station requests may grow.
pub record SameData {F : Type 0} (s t : Tables F) : Type 0 where
  pub stations : t.stations ≡ s.stations
  pub videos : t.videos ≡ s.videos
  pub samples : t.samples ≡ s.samples

module _ {F : Type 0} where
  same :
      {s t : Tables F}
      → t.stations ≡ s.stations
      → t.videos ≡ s.videos
      → t.samples ≡ s.samples
      → SameData s t
  same a b c = record { stations = a; videos = b; samples = c }

  abbrev pub Keeps : Tables F → Reply × State F → Type 0
  Keeps s (refused p, t) = SameData s t.tables
  Keeps s _ = Unit

  accept_chunk-Keeps :
      (m : VideoChunkMeta) (body : Bytes) (s : State F) → Keeps s.tables (accept_chunk m body s)
  unfolding accept_chunk ask_for_station log_error
  accept_chunk-Keeps m body s =
      elim (Option-cases (Session.get m.video_id s.session.video_buffers)) [
        | inl e ↦
            rw (e, accept_chunk)
              (elim (Option-cases (lookup_by_name m.station_name s.tables.stations)) [
                | inl f ↦ rw (f, first_chunk) (same refl refl refl)
                | inr (i, f) ↦ rw (f, first_chunk) tt
              ])
        | inr (b, e) ↦ rw (e, accept_chunk) tt
      ]

  handle_chunk-Keeps :
      (w : World F) (m : Message F) (s : State F) → Keeps s.tables (handle_chunk w m s)
  unfolding handle_chunk log_error
  handle_chunk-Keeps w m s = elim (Option-cases (parse_video_chunk w.header_json m.payload)) [
    | inl e ↦ rw e (same refl refl refl)
    | inr (x, e) ↦ rw e (accept_chunk-Keeps x.0 x.1 s)
  ]

  -- A step of the `try` that fails.
  abbrev Failing : Tables F → Bool × Tables F → Type 0
  Failing s (false, t) = SameData s t
  Failing s (true, t) = Unit

  save_as-SameData :
      (buf : VideoBuffer) (p : VideoPath) (s : Tables F) (o : WriteOutcome)
      → SameData s ((save_as buf p s o).1)
  save_as-SameData buf p s written = same refl refl refl
  save_as-SameData buf p s no_file = same refl refl refl
  save_as-SameData buf p s (cut_after k) = same refl refl refl

  assemble_and_save-SameData :
      (w : World F) (buf : VideoBuffer) (s : Tables F) → SameData s ((assemble_and_save w buf s).1)
  unfolding assemble_and_save
  assemble_and_save-SameData w buf s =
      save_as-SameData buf (path_of w buf) s (w.write_outcome (path_of w buf))

  insert_video-Failing :
      (w : World F) (v : Video) (s t : Tables F) → SameData s t → Failing s (insert_video w v t)
  unfolding insert_video
  insert_video-Failing w v s t h =
      elim (Bool-cases (not (has_video v.video_id t.videos) && w.accepts v)) [
        | inl e ↦ rw e tt
        | inr e ↦ rw e h
      ]

  insert_after-Failing :
      (w : World F) (buf : VideoBuffer) (s : Tables F) (x : Bool × Tables F)
      → SameData s x.1
      → Failing s (insert_after w buf x)
  insert_after-Failing w buf s (true, t) h = insert_video-Failing w (row_of w buf) s t h
  insert_after-Failing w buf s (false, t) h = h

  finish-Keeps :
      (id : Text) (buf : VideoBuffer) (s : State F) (x : Bool × Tables F)
      → Failing s.tables x
      → Keeps s.tables (finish id buf s x)
  unfolding log_error
  finish-Keeps id buf s (true, t) h = tt
  finish-Keeps id buf s (false, t) h = same h.stations h.videos h.samples

  complete_buffer-Keeps :
      (w : World F) (id : Text) (buf : VideoBuffer) (s : State F)
      → Keeps s.tables (complete_buffer w id buf s)
  unfolding complete_buffer save_video log_error
  complete_buffer-Keeps w id buf s = elim (Bool-cases (is_complete buf)) [
    | inl e ↦ rw e (
        finish-Keeps id buf s (save_video w buf s.tables) (
          insert_after-Failing w buf s.tables (assemble_and_save w buf s.tables)
            (assemble_and_save-SameData w buf s.tables)))
    | inr e ↦ rw e (same refl refl refl)
  ]

  complete_text-Keeps :
      (w : World F) (id : Text) (s : State F) → Keeps s.tables (complete_text w id s)
  unfolding log_error
  complete_text-Keeps w id s = elim (Option-cases (Session.get id s.session.video_buffers)) [
    | inl e ↦ rw (e, complete_text) (same refl refl refl)
    | inr (b, e) ↦ rw (e, complete_text) (complete_buffer-Keeps w id b s)
  ]

  complete_id-Keeps : (w : World F) (v : Json F) (s : State F) → Keeps s.tables (complete_id w v s)
  unfolding log_error
  complete_id-Keeps w (text id) s = complete_text-Keeps w id s
  complete_id-Keeps w (array _) s = tt
  complete_id-Keeps w (object _) s = tt
  complete_id-Keeps w null s = same refl refl refl
  complete_id-Keeps w (boolean _) s = same refl refl refl
  complete_id-Keeps w (number _) s = same refl refl refl

module _ {F : Type 0} ⦃fl : Floats F⦄ where
  handle_complete-Keeps :
      (w : World F) (m : Message F) (s : State F) → Keeps s.tables (handle_complete w m s)
  unfolding handle_complete
  handle_complete-Keeps w m s = go m.metadata
    where
      go : (v : Json F) → Keeps s.tables (complete_metadata w v s)
      go (object fs) = elim (Bool-cases (truthy (get fs (codes "video_id")))) [
        | inl e ↦ rw e (complete_id-Keeps w (get fs (codes "video_id")) s)
        | inr e ↦ rw e (same refl refl refl)
      ]
      go null = same refl refl refl
      go (boolean _) = same refl refl refl
      go (number _) = same refl refl refl
      go (text _) = same refl refl refl
      go (array _) = same refl refl refl

  sample_for-Keeps :
      (w : World F) (fs : Fields F) (i : ℕ) (s : State F) → Keeps s.tables (sample_for w fs i s)
  unfolding log_error
  sample_for-Keeps w fs i s = elim (Option-cases (sample_of w i fs)) [
    | inl e ↦ rw (e, sample_for) (same refl refl refl)
    | inr (r, e) ↦ elim (Bool-cases (w.takes r)) [
      | inl t ↦ rw (e, sample_for) (rw (t, store_sample) tt)
      | inr t ↦ rw (e, sample_for) (rw (t, store_sample) tt)
    ]
  ]

  sample_named-Keeps :
      (w : World F) (fs : Fields F) (name : Text) (s : State F)
      → Keeps s.tables (sample_named w fs name s)
  unfolding ask_for_station log_error
  sample_named-Keeps w fs name s = elim (Option-cases (lookup_by_name name s.tables.stations)) [
    | inl e ↦ rw (e, sample_named) (same refl refl refl)
    | inr (i, e) ↦ rw (e, sample_named) (sample_for-Keeps w fs i s)
  ]

  sample_metadata-Keeps :
      (w : World F) (v : Json F) (s : State F) → Keeps s.tables (sample_metadata w v s)
  unfolding log_error
  sample_metadata-Keeps w (object fs) s =
      elim (Bool-cases (truthy (get fs (codes "station_name")))) [
        | inl e ↦
            rw (e, sample_metadata)
              (sample_named-Keeps w fs (str w (get fs (codes "station_name"))) s)
        | inr e ↦ rw (e, sample_metadata) (same refl refl refl)
      ]
  sample_metadata-Keeps w null s = same refl refl refl
  sample_metadata-Keeps w (boolean _) s = same refl refl refl
  sample_metadata-Keeps w (number _) s = same refl refl refl
  sample_metadata-Keeps w (text _) s = same refl refl refl
  sample_metadata-Keeps w (array _) s = same refl refl refl

  handle_typed-Keeps :
      (t : MessageType) (w : World F) (m : Message F) (s : State F)
      → Keeps s.tables (handle_typed t w m s)
  unfolding handle_sample handle_heartbeat handle_error
  handle_typed-Keeps video_chunk w m s = handle_chunk-Keeps w m s
  handle_typed-Keeps video_complete w m s = handle_complete-Keeps w m s
  handle_typed-Keeps sensor_sample w m s = sample_metadata-Keeps w m.metadata s
  handle_typed-Keeps heartbeat w m s = tt
  handle_typed-Keeps error w m s = tt
  handle_typed-Keeps ack w m s = tt
  handle_typed-Keeps analysis_result w m s = same refl refl refl
  handle_typed-Keeps alert w m s = same refl refl refl

  -- A message of any type that is answered by an error reply leaves the stations, the videos and the
  -- samples in the database as they were, whatever the reason of the error is.
  pub handle-refused :
      (w : World F) (m : Message F) (s t : State F) (p : Problem)
      → handle w m s ≡ (refused p, t)
      → SameData s.tables t.tables
  unfolding handle
  handle-refused w m s t p e = subst (Keeps s.tables) e (handle_typed-Keeps m.msg_type w m s)
