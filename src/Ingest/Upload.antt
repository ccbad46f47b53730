-- ===== src/Ingest/Upload.antt =====
-- A video that is sent over one connection, chunk by chunk and with its completion at the end:
-- SocketDaim/ingestion_gateway/handler/video_handler.py.
use dust_monitoring.Prelude.{
  ℕ, ◌+◌, ◌≡◌, ◌≢◌, refl, ap, ◌∙◌, false, none, some, List, [], ◌∷◌, map, arith, ◌==◌, length, any,
  Text, codes,
}
use dust_monitoring.Loas.Words.{Bytes}
use dust_monitoring.Gateway.Wire.{video_chunk, video_complete}
use dust_monitoring.Gateway.Framing.{split_chunk-join_chunk_lem}
use dust_monitoring.Transfer.Floats.{Floats}
use dust_monitoring.Transfer.Response.{object, text, field, end}
use dust_monitoring.Ingest.Message.{
  Header, HeaderJson, Message, VideoChunkMeta, or_key_error, meta_of, header_of, parse_video_chunk,
  build_video_chunk_payload, decode,
}
use dust_monitoring.Ingest.Session.{Chunks, put, VideoBuffer, get}
use dust_monitoring.Ingest.Tables.{lookup_by_name}
use dust_monitoring.Ingest.Handlers.{State, Reply, acked, World}
use dust_monitoring.Ingest.Video.{
  fresh_buffer, first_chunk, set_buffer, accept_chunk, parsed_chunk, handle_chunk,
}
use dust_monitoring.Ingest.Dispatch.{handle}
use dust_monitoring.Ingest.Chunks.{put_all, get-set, set-set}

abbrev pub with_chunks : VideoChunkMeta → ℕ → Chunks → ℕ → VideoBuffer
with_chunks m station t size = record (fresh_buffer m station) { chunks = t; total_size = size }

abbrev pub numbered : VideoChunkMeta → ℕ → VideoChunkMeta
numbered m q = record m { chunk_seq = q }

-- What `json.loads` and `json.dumps` promise of a header: it comes back, and it has no line feed.
abbrev pub RoundTrip : HeaderJson → Header → Type 0
RoundTrip j h = (j.loads (j.dumps h) ≡ some h) × (any (λ b. b == 10) (j.dumps h) ≡ false)

-- So it is for the headers of all the chunks of a video.
abbrev pub RoundTrips : HeaderJson → VideoChunkMeta → Type 0
RoundTrips j m = (q : ℕ) → RoundTrip j (header_of (numbered m q))

or_key_error-named : (name : Text) → name ≢ [] → or_key_error (some name) ≡ some name
or_key_error-named [] h = ground (arith, h)
or_key_error-named (c ∷ cs) h = refl

-- A chunk that is built is parsed to what it was built from, whatever bytes its body has, if its
-- station's name is not empty and its header comes back from its JSON, which has no line feed.
pub parse_video_chunk-build :
    (j : HeaderJson) (m : VideoChunkMeta) (body : Bytes)
    → RoundTrip j (header_of m)
    → m.station_name ≢ []
    → parse_video_chunk j (build_video_chunk_payload j m body) ≡ some (m, body)
unfolding parse_video_chunk build_video_chunk_payload header_of meta_of
parse_video_chunk-build j m body trips named =
    let (back, flat) = trips in
    rw (split_chunk-join_chunk_lem (j.dumps (header_of m)) body flat)
      (rw back (rw (or_key_error-named m.station_name named) refl))

-- The message that carries chunk `c`, as the server decodes it.
abbrev pub chunk_message : {F : Type 0} → World F → VideoChunkMeta → ℕ × Bytes → Message F
chunk_message w m c =
    decode w.loads video_chunk (build_video_chunk_payload w.header_json (numbered m c.0) c.1)

abbrev pub complete_message : {F : Type 0} → Text → Bytes → Message F
complete_message id payload = record {
  msg_type = video_complete;
  payload = payload;
  metadata = object (field (codes "video_id") (text id) end);
}

-- `total_size` after the chunks.
abbrev pub size_after : List (ℕ × Bytes) → ℕ → ℕ
size_after [] size = size
size_after (c ∷ cs) size = size_after cs (size + length c.1)

module _ {F : Type 0} ⦃fl : Floats F⦄ where
  -- The messages of a connection, one after the other, and what is answered.
  unfoldable pub run : World F → List (Message F) → State F → List Reply × State F
  unfolding handle
  run w [] s = ([], s)
  run w (m ∷ ms) s =
      let (reply, t) = handle w m s in let (replies, u) = run w ms t in (reply ∷ replies, u)

  set_buffer-set_buffer :
      (id : Text) (a b : VideoBuffer) (s : State F)
      → set_buffer id b (set_buffer id a s) ≡ set_buffer id b s
  set_buffer-set_buffer id a b s =
      ap (λ d. record s { session = record (s.session) { video_buffers = d } })
        (set-set id b a s.session.video_buffers)

  -- The message of a chunk comes to `accept_chunk` with its header and its body.
  handle-chunk :
      (w : World F) (m : VideoChunkMeta) (c : ℕ × Bytes) (s : State F)
      → RoundTrips w.header_json m
      → m.station_name ≢ []
      → handle w (chunk_message w m c) s ≡ accept_chunk (numbered m c.0) c.1 s
  unfolding handle handle_chunk decode
  handle-chunk w m (q, b) s trips named =
      ap (λ o. parsed_chunk o s)
        (parse_video_chunk-build w.header_json (numbered m q) b (trips q) named)

  handle-chunk-next :
      (w : World F) (m : VideoChunkMeta) (c : ℕ × Bytes) (s : State F) (station : ℕ) (t : Chunks)
      (size : ℕ)
      → RoundTrips w.header_json m
      → m.station_name ≢ []
      → (handle w (chunk_message w m c) (set_buffer m.video_id (with_chunks m station t size) s) ≡ (
        acked,
        set_buffer m.video_id (with_chunks m station (put c.0 c.1 t) (size + length c.1)) s,
      ))
  unfolding accept_chunk
  handle-chunk-next w m (q, b) s station t size trips named =
      handle-chunk w m (q, b) (set_buffer m.video_id (with_chunks m station t size) s) trips named
      ∙ rw (get-set m.video_id (with_chunks m station t size) s.session.video_buffers, accept_chunk)
          (ap (λ x. (acked, x))
            (set_buffer-set_buffer m.video_id (with_chunks m station t size)
              (with_chunks m station (put q b t) (size + length b)) s))

  handle-chunk-first :
      (w : World F) (m : VideoChunkMeta) (c : ℕ × Bytes) (s : State F) (station : ℕ)
      → RoundTrips w.header_json m
      → m.station_name ≢ []
      → get m.video_id s.session.video_buffers ≡ none
      → lookup_by_name m.station_name s.tables.stations ≡ some station
      → (handle w (chunk_message w m c) s ≡ (
        acked,
        set_buffer m.video_id (with_chunks m station (put c.0 c.1 []) (0 + length c.1)) s,
      ))
  unfolding accept_chunk
  handle-chunk-first w m (q, b) s station trips named new known =
      handle-chunk w m (q, b) s trips named ∙ rw (new, accept_chunk) (rw (known, first_chunk) refl)

  run-next :
      (w : World F) (m : VideoChunkMeta) (cs : List (ℕ × Bytes)) (s : State F) (station : ℕ)
      (t : Chunks) (size : ℕ)
      → RoundTrips w.header_json m
      → m.station_name ≢ []
      → (run w (map (chunk_message w m) cs) (set_buffer m.video_id (with_chunks m station t size) s)
          ≡ (
            map (λ c. acked) cs,
            set_buffer m.video_id (with_chunks m station (put_all cs t) (size_after cs size)) s,
          ))
  unfolding run put_all
  run-next w m [] s station t size trips named = refl
  run-next w m (c ∷ cs) s station t size trips named =
      rw (handle-chunk-next w m c s station t size trips named)
        (rw (run-next w m cs s station (put c.0 c.1 t) (size + length c.1) trips named) refl)

  -- The chunks of a video of a known station that is not in progress leave its buffer alone changed.
  pub run-chunks :
      (w : World F) (m : VideoChunkMeta) (c : ℕ × Bytes) (cs : List (ℕ × Bytes)) (s : State F)
      (station : ℕ)
      → RoundTrips w.header_json m
      → m.station_name ≢ []
      → get m.video_id s.session.video_buffers ≡ none
      → lookup_by_name m.station_name s.tables.stations ≡ some station
      → (run w (map (chunk_message w m) (c ∷ cs)) s ≡ (
        map (λ c. acked) (c ∷ cs),
        set_buffer m.video_id
            (with_chunks m station (put_all (c ∷ cs) []) (size_after (c ∷ cs) 0))
            s,
      ))
  unfolding run put_all
  run-chunks w m c cs s station trips named new known =
      rw (handle-chunk-first w m c s station trips named new known)
        (rw (run-next w m cs s station (put c.0 c.1 []) (0 + length c.1) trips named) refl)
