-- ===== src/Ingest/Delivery.antt =====
-- A video from the bytes of a connection to its file: SocketDaim/libs/gw_proto/gw_proto/framing.py and
-- transport/server.py with SocketDaim/ingestion_gateway/main.py and handler/video_handler.py.
use dust_monitoring.Prelude.{
  ℕ, ◌<◌, ◌≡◌, ◌≢◌, refl, ap, sym, subst, ◌∙◌, true, false, none, some, is_some, List, [], ◌∷◌,
  ◌++◌, map, arith, All, Text, codes, append-nil,
}
use dust_monitoring.Loas.Words.{Bytes}
use dust_monitoring.Gateway.Wire.{
  MessageType, video_chunk, video_complete, closed, read_frame, write_frame,
}
use dust_monitoring.Transfer.Floats.{Floats}
use dust_monitoring.Transfer.Response.{object, text, field, end}
use dust_monitoring.Ingest.Message.{VideoChunkMeta, build_video_chunk_payload, decode}
use dust_monitoring.Ingest.Session.{get, set}
use dust_monitoring.Ingest.Tables.{lookup_by_name, has_video}
use dust_monitoring.Ingest.Handlers.{State, acked, World, written}
use dust_monitoring.Ingest.Video.{fresh_buffer, path_of, row_of}
use dust_monitoring.Ingest.Dispatch.{Service, bad_frame, on_connect, serve, turn, writing}
use dust_monitoring.Ingest.Chunks.{receive_all, nothing, whole}
use dust_monitoring.Ingest.Upload.{RoundTrips, numbered, chunk_message, complete_message, run}
use dust_monitoring.Ingest.Completion.{with_video, upload-stores}
use dust_monitoring.Ingest.OverWire.{
  Frames, Answers, quiet, dispatch_all, decode_all, session_of, on_connect-Frames, dispatch_all-run,
  after_run,
}
use dust_monitoring.Ingest.OverWire as OverWire

-- The frame of `{}` with the type 0x0F01.
abbrev pub ack_frame : Bytes
ack_frame = 0 ∷ 0 ∷ 0 ∷ 2 ∷ 0 ∷ 0 ∷ 15 ∷ 1 ∷ 123 ∷ 125 ∷ []

abbrev pub ack_frames : List (ℕ × Bytes) → Bytes
ack_frames [] = ack_frame ++ []
ack_frames (c ∷ cs) = ack_frame ++ ack_frames cs

module _ {F : Type 0} ⦃fl : Floats F⦄ where
  abbrev pub chunk_frame : World F → VideoChunkMeta → ℕ × Bytes → MessageType × Bytes
  chunk_frame w m c = (video_chunk, build_video_chunk_payload w.header_json (numbered m c.0) c.1)

  -- What a sender puts on the wire for a video: its chunks, then its completion.
  abbrev pub upload_frames :
      World F → VideoChunkMeta → List (ℕ × Bytes) → Bytes → List (MessageType × Bytes)
  upload_frames w m cs payload = map (chunk_frame w m) cs ++ (video_complete, payload) ∷ []

  decode_all-upload_frames :
      (w : World F) (m : VideoChunkMeta) (cs : List (ℕ × Bytes)) (payload : Bytes)
      → (decode_all w (upload_frames w m cs payload)
          ≡ map (chunk_message w m) cs ++ decode w.loads video_complete payload ∷ [])
  decode_all-upload_frames w m [] payload = refl
  decode_all-upload_frames w m (c ∷ cs) payload =
      ap (◌∷◌ (chunk_message w m c)) (decode_all-upload_frames w m cs payload)

  Answers-acks :
      (w : World F) (cs : List (ℕ × Bytes))
      → Answers w (map (λ x. acked) cs ++ acked ∷ []) (ack_frames cs)
  unfolding write_frame
  Answers-acks w [] = OverWire.written refl quiet
  Answers-acks w (c ∷ cs) = OverWire.written refl (Answers-acks w cs)

  on_connect-closed :
      (w : World F) (id : Text) (p : Service F)
      → on_connect w id closed [] p ≡ some (bad_frame, ([], p))
  unfolding on_connect serve turn read_frame
  on_connect-closed w id p = refl

  decode_complete :
      (w : World F) (id payload : Text)
      → payload ≢ []
      → w.loads payload ≡ some (object (field (codes "video_id") (text id) end))
      → decode w.loads video_complete payload ≡ complete_message id payload
  unfolding decode
  decode_complete w id [] h e = ground (arith, h)
  decode_complete w id (x ∷ payload) h e = rw e refl

  -- The bytes of an upload, whole frames of at most 512 MB each with the completion at the end, on a connection that
  -- the peer then closes. Chunks may come in any order and again, every number below the total comes, and
  -- none from the total on; the station is known, the names are not empty, the connection has no such
  -- upload in progress, headers come back from their JSON, and nothing keeps the file from being
  -- written or the row from being taken. Then the connection writes an acknowledgement for each
  -- message and, the heartbeats of its timer aside, nothing else, its session has the buffers that it had, and the tables have the
  -- video's row and in its file the chunks received last under 0, 1, 2 and so on.
  pub on_connect-upload :
      (w : World F) (id : Text) (m : VideoChunkMeta) (c : ℕ × Bytes) (cs : List (ℕ × Bytes))
      (payload b : Bytes) (p : Service F) (station : ℕ)
      → Frames (upload_frames w m (c ∷ cs) payload) b
      → payload ≢ []
      → w.loads payload ≡ some (object (field (codes "video_id") (text m.video_id) end))
      → RoundTrips w.header_json m
      → m.station_name ≢ []
      → m.video_id ≢ []
      → get m.video_id ((session_of w id p).video_buffers) ≡ none
      → lookup_by_name m.station_name p.tables.stations ≡ some station
      → w.write_outcome (path_of w (fresh_buffer m station)) ≡ written
      → has_video m.video_id p.tables.videos ≡ false
      → w.accepts (row_of w (fresh_buffer m station)) ≡ true
      → All (λ x. x.0 < m.total_chunks) (c ∷ cs)
      → ((i : ℕ) → i < m.total_chunks → is_some (receive_all (c ∷ cs) nothing i) ≡ true)
      → (on_connect w id closed b p
          ≡ some (
            bad_frame,
            (
              ack_frames (c ∷ cs),
              record {
                sessions = set id (session_of w id p) p.sessions;
                tables =
                    with_video w m station
                      (whole m.total_chunks (receive_all (c ∷ cs) nothing))
                      p.tables;
              },
            ),
          ))
  on_connect-upload w id m c cs payload b p station frames full e trips named named' new known
        writes fresh accepts below all =
      let ms = upload_frames w m (c ∷ cs) payload in
      let s : State F = record { session = session_of w id p; tables = p.tables } in
      let ran =
        ap (λ x. run w x s)
          (decode_all-upload_frames w m (c ∷ cs) payload
            ∙ ap (λ x. map (chunk_message w m) (c ∷ cs) ++ x ∷ [])
                (decode_complete w m.video_id payload full e))
        ∙ upload-stores w m c cs payload s station trips named named' new known writes fresh accepts
            below all in
      let done =
        dispatch_all-run w id (chunk_frame w m c)
          (map (chunk_frame w m) cs ++ (video_complete, payload) ∷ []) p
        ∙ ap (after_run id p) ran in
      let answers =
        subst (λ x. Answers w (x.0) (ack_frames (c ∷ cs))) (sym done) (Answers-acks w (c ∷ cs)) in
      let q : Service F =
        (after_run id p (
          [],
          record {
            session = session_of w id p;
            tables =
                with_video w m station (whole m.total_chunks (receive_all (c ∷ cs) nothing))
                  p.tables;
          },
        )).1 in
      ap (λ x. on_connect w id closed x p) (sym (append-nil b))
      ∙ on_connect-Frames w id closed ms b [] (ack_frames (c ∷ cs)) p frames answers
      ∙ ap (λ x. writing (ack_frames (c ∷ cs)) (on_connect w id closed [] (x.1))) done
      ∙ ap (writing (ack_frames (c ∷ cs))) (on_connect-closed w id q)
      ∙ ap (λ o. some (bad_frame, (o, q))) (append-nil (ack_frames (c ∷ cs)))
