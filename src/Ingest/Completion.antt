-- ===== src/Ingest/Completion.antt =====
-- The completion of a video whose chunks have come over the same connection:
-- SocketDaim/ingestion_gateway/handler/video_handler.py.
use dust_monitoring.Prelude.{
  ℕ, ◌<◌, ◌≡◌, ◌≢◌, refl, ap, ◌∙◌, true, false, none, some, is_some, List, [], ◌∷◌, ◌++◌, map,
  arith, ◌==◌, length, All, Text, equal,
}
use dust_monitoring.Loas.Words.{Bytes}
use dust_monitoring.Gateway.Wire.{video_complete}
use dust_monitoring.Transfer.Floats.{Floats}
use dust_monitoring.Transfer.Response.{truthy, text}
use dust_monitoring.Transfer.Response as Response
use dust_monitoring.Ingest.Message.{VideoChunkMeta, Message}
use dust_monitoring.Ingest.Session.{Chunks, VideoBuffer, received_count, is_complete, get}
use dust_monitoring.Ingest.Tables.{
  incomplete, lookup_by_name, has_video, write_file, log_error, Tables, Video,
}
use dust_monitoring.Ingest.Handlers.{State, acked, refused, World, written}
use dust_monitoring.Ingest.Video.{
  assemble, assemble_and_save, fresh_buffer, set_buffer, handle_complete, complete_text,
  complete_buffer, save_video, insert_video, path_of, row_of, refuse,
}
use dust_monitoring.Ingest.Dispatch.{handle}
use dust_monitoring.Ingest.Chunks.{
  how_many, length-received, put_all, receive_all, nothing, whole, get-set, pop-set,
  put_all-Represents, []-Represents, length-Represents, assemble-Represents,
  length-misses-Represents,
}
use dust_monitoring.Ingest.Upload.{
  with_chunks, RoundTrips, chunk_message, complete_message, run, run-chunks, size_after,
}

is_complete-full :
    (m : VideoChunkMeta) (station : ℕ) (t : Chunks) (size : ℕ)
    → length t ≡ m.total_chunks
    → is_complete (with_chunks m station t size) ≡ true
unfolding is_complete received_count
is_complete-full m station t size e = ground (arith, e)

module _ {F : Type 0} ⦃fl : Floats F⦄ where
  -- The tables once the video is stored with the bytes `content`.
  abbrev pub with_video : World F → VideoChunkMeta → ℕ → Bytes → Tables F → Tables F
  with_video w m station content s = record s {
    files = write_file (path_of w (fresh_buffer m station)) content s.files;
    videos = s.videos ++ row_of w (fresh_buffer m station) ∷ [];
  }

  handle-video_complete :
      (w : World F) (id : Text) (payload : Bytes) (s : State F)
      → id ≢ []
      → handle w (complete_message id payload) s ≡ complete_text w id s
  unfolding handle handle_complete Response.get truthy equal
  handle-video_complete w [] payload s h = ground (arith, h)
  handle-video_complete w (c ∷ id) payload s h = refl

  assemble_and_save-written :
      (w : World F) (buf : VideoBuffer) (s : Tables F)
      → w.write_outcome (path_of w buf) ≡ written
      → (assemble_and_save w buf s
          ≡ (true, record s { files = write_file (path_of w buf) (assemble buf.chunks) s.files }))
  unfolding assemble_and_save
  assemble_and_save-written w buf s writes = rw writes refl

  insert_video-new :
      (w : World F) (v : Video) (s : Tables F)
      → has_video v.video_id s.videos ≡ false
      → w.accepts v ≡ true
      → insert_video w v s ≡ (true, record s { videos = s.videos ++ v ∷ [] })
  unfolding insert_video
  insert_video-new w v s fresh accepts = rw fresh (rw accepts refl)

  save_video-stores :
      (w : World F) (m : VideoChunkMeta) (station : ℕ) (t : Chunks) (size : ℕ) (s : Tables F)
      → w.write_outcome (path_of w (fresh_buffer m station)) ≡ written
      → has_video m.video_id s.videos ≡ false
      → w.accepts (row_of w (fresh_buffer m station)) ≡ true
      → (save_video w (with_chunks m station t size) s
          ≡ (true, with_video w m station (assemble t) s))
  unfolding save_video
  save_video-stores w m station t size s writes fresh accepts =
      let buf = with_chunks m station t size in
      rw (assemble_and_save-written w buf s writes, save_video)
        (insert_video-new w (row_of w buf)
          (record s { files = write_file (path_of w buf) (assemble t) s.files }) fresh accepts)

  -- A buffer that is complete, where nothing keeps the video from being stored.
  complete_buffer-stores :
      (w : World F) (m : VideoChunkMeta) (station : ℕ) (t : Chunks) (size : ℕ) (s : State F)
      → is_complete (with_chunks m station t size) ≡ true
      → get m.video_id s.session.video_buffers ≡ none
      → w.write_outcome (path_of w (fresh_buffer m station)) ≡ written
      → has_video m.video_id s.tables.videos ≡ false
      → w.accepts (row_of w (fresh_buffer m station)) ≡ true
      → (complete_buffer w m.video_id
            (with_chunks m station t size)
            (set_buffer m.video_id (with_chunks m station t size) s)
          ≡ (acked, record s { tables = with_video w m station (assemble t) s.tables }))
  unfolding complete_buffer
  complete_buffer-stores w m station t size s full new writes fresh accepts = rw full (
      rw (save_video-stores w m station t size s.tables writes fresh accepts) (
        ap
          (λ d. (
            acked,
            record s {
              session = record (s.session) { video_buffers = d };
              tables = with_video w m station (assemble t) s.tables;
            },
          ))
          (pop-set m.video_id (with_chunks m station t size) s.session.video_buffers new)))

  run-append :
      (w : World F) (xs ys : List (Message F)) (s : State F)
      → (run w (xs ++ ys) s ≡ (let (a, t) = run w xs s in let (b, u) = run w ys t in (a ++ b, u)))
  unfolding run
  run-append w [] ys s = refl
  run-append w (x ∷ xs) ys s = rw (run-append w xs ys ((handle w x s).1)) refl

  -- The completion of a video that has a buffer.
  run_complete :
      (w : World F) (id : Text) (payload : Bytes) (buf : VideoBuffer) (s : State F)
      → id ≢ []
      → (run w (complete_message id payload ∷ []) (set_buffer id buf s)
          ≡ (let (reply, u) = complete_buffer w id buf (set_buffer id buf s) in (reply ∷ [], u)))
  unfolding run
  run_complete w id payload buf s h =
      rw (handle-video_complete w id payload (set_buffer id buf s) h)
        (rw (get-set id buf s.session.video_buffers, complete_text) refl)

  -- A video of a known station that no upload is in progress for, whose chunks arrive in any order, with any
  -- of them sent again, all of them numbered below their total: once every number has come, its
  -- completion is acknowledged as each chunk was, and leaves nothing changed but the tables, which have the
  -- video's row, and in its file the chunks received last under 0, 1, 2 and so on. It is so if headers
  -- come back from their JSON, the names are not empty, and nothing keeps the file from being written or the row from being
  -- taken.
  pub upload-stores :
      (w : World F) (m : VideoChunkMeta) (c : ℕ × Bytes) (cs : List (ℕ × Bytes)) (payload : Bytes)
      (s : State F) (station : ℕ)
      → RoundTrips w.header_json m
      → m.station_name ≢ []
      → m.video_id ≢ []
      → get m.video_id s.session.video_buffers ≡ none
      → lookup_by_name m.station_name s.tables.stations ≡ some station
      → w.write_outcome (path_of w (fresh_buffer m station)) ≡ written
      → has_video m.video_id s.tables.videos ≡ false
      → w.accepts (row_of w (fresh_buffer m station)) ≡ true
      → All (λ x. x.0 < m.total_chunks) (c ∷ cs)
      → ((i : ℕ) → i < m.total_chunks → is_some (receive_all (c ∷ cs) nothing i) ≡ true)
      → (run w (map (chunk_message w m) (c ∷ cs) ++ complete_message m.video_id payload ∷ []) s ≡ (
        map (λ x. acked) (c ∷ cs) ++ acked ∷ [],
        record s {
          tables =
              with_video w m station (whole m.total_chunks (receive_all (c ∷ cs) nothing)) s.tables;
        },
      ))
  upload-stores w m c cs payload s station trips named id new known writes fresh accepts below all =
      let t = put_all (c ∷ cs) [] in
      let f = receive_all (c ∷ cs) nothing in
      let r =
        put_all-Represents m.total_chunks (c ∷ cs) [] nothing below
          ([]-Represents m.total_chunks) in
      let e = length-Represents m.total_chunks t f r all in
      run-append w (map (chunk_message w m) (c ∷ cs)) (complete_message m.video_id payload ∷ []) s
      ∙ rw (run-chunks w m c cs s station trips named new known) (
          rw
            (run_complete w m.video_id payload (with_chunks m station t (size_after (c ∷ cs) 0)) s
              id)
            (rw
              (complete_buffer-stores w m station t (size_after (c ∷ cs) 0) s
                (is_complete-full m station t (size_after (c ∷ cs) 0) e) new writes fresh accepts)
              (ap
                (λ b. (
                  map (λ x. acked) (c ∷ cs) ++ acked ∷ [],
                  record s { tables = with_video w m station b s.tables },
                ))
                (assemble-Represents m.total_chunks t f r e))))

  complete_buffer-refuses :
      (w : World F) (m : VideoChunkMeta) (station : ℕ) (t : Chunks) (size : ℕ) (s : State F)
      → length t < m.total_chunks
      → (complete_buffer w m.video_id (with_chunks m station t size) s
          ≡ refuse (some station) video_complete (incomplete (length t) m.total_chunks) s)
  unfolding complete_buffer is_complete received_count
  complete_buffer-refuses w m station t size s fewer =
      let e : (length t == m.total_chunks) ≡ false = ground (arith, fewer) in rw e refl

  -- The same upload where a number below the total never comes: the completion is refused with the
  -- count of the different numbers that came, which is less than the total; the buffer is kept as the
  -- chunks left it, and of the tables the log alone has a row more, which says the same.
  pub upload-refused :
      (w : World F) (m : VideoChunkMeta) (c : ℕ × Bytes) (cs : List (ℕ × Bytes)) (payload : Bytes)
      (s : State F) (station i : ℕ)
      → RoundTrips w.header_json m
      → m.station_name ≢ []
      → m.video_id ≢ []
      → get m.video_id s.session.video_buffers ≡ none
      → lookup_by_name m.station_name s.tables.stations ≡ some station
      → All (λ x. x.0 < m.total_chunks) (c ∷ cs)
      → i < m.total_chunks
      → receive_all (c ∷ cs) nothing i ≡ none
      → let k = how_many [] (c ∷ cs) in
        (k < m.total_chunks)
        × (run w (map (chunk_message w m) (c ∷ cs) ++ complete_message m.video_id payload ∷ []) s
            ≡ (
              map (λ x. acked) (c ∷ cs) ++ refused (incomplete k m.total_chunks) ∷ [],
              record ((run w (map (chunk_message w m) (c ∷ cs)) s).1) {
                tables =
                    log_error (some station) video_complete (incomplete k m.total_chunks) s.tables;
              },
            ))
  upload-refused w m c cs payload s station i trips named id new known below lt missing =
      let t = put_all (c ∷ cs) [] in
      let size = size_after (c ∷ cs) 0 in
      let n = m.total_chunks in
      let r = put_all-Represents n (c ∷ cs) [] nothing below ([]-Represents n) in
      let fewer = length-misses-Represents n i t (receive_all (c ∷ cs) nothing) r lt missing in
      let e = length-received (c ∷ cs) in
      (
        omega (arith, fewer, e),
        run-append w (map (chunk_message w m) (c ∷ cs)) (complete_message m.video_id payload ∷ []) s
            ∙ rw (run-chunks w m c cs s station trips named new known) (
                rw (run_complete w m.video_id payload (with_chunks m station t size) s id) (
                  rw
                    (complete_buffer-refuses w m station t size
                      (set_buffer m.video_id (with_chunks m station t size) s) fewer)
                    (rw e refl))),
      )
