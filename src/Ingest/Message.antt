-- ===== src/Ingest/Message.antt =====
-- SocketDaim/libs/gw_proto/gw_proto/messages.py and codec/standard.py: messages, the header of a video
-- chunk and its two ways. The fields of a header have the types that `VideoChunkMeta` declares.
use dust_monitoring.Prelude.{
  ℕ, Option, none, some, bind, [], ◌∷◌, if◌then◌else◌, Text, Bool, true, false,
}
use dust_monitoring.Loas.Words.{Bytes}
use dust_monitoring.Gateway.Wire.{
  MessageType, video_chunk, heartbeat, ack, error, split_chunk, join_chunk,
}
use dust_monitoring.Transfer.Response.{Json, null}

-- The decoded JSON header of a chunk: a key that is missing, or null, is `none`. The position is
-- the JSON text that its column takes.
pub record Header : Type 0 where
  pub video_id : Option Text
  pub chunk_seq : Option ℕ
  pub total_chunks : Option ℕ
  pub station_name : Option Text
  pub captured_at : Option Text
  pub amr_id : Option Text
  pub amr_position : Option Text
  pub source_format : Option Text

pub record VideoChunkMeta : Type 0 where
  pub video_id : Text
  pub chunk_seq : ℕ
  pub total_chunks : ℕ
  pub station_name : Text
  pub captured_at : Option Text
  pub amr_id : Option Text
  pub amr_position : Option Text
  pub source_format : Option Text

-- `if not name: raise KeyError`
abbrev pub or_key_error : Option Text → Option Text
or_key_error none = none
or_key_error (some []) = none
or_key_error (some (c ∷ name)) = some (c ∷ name)

unfoldable pub meta_of : Header → Option VideoChunkMeta
meta_of h = bind (or_key_error h.station_name) (λ name. bind h.video_id (λ video_id.
    bind h.chunk_seq (λ seq. bind h.total_chunks (λ total. some (record {
      video_id = video_id;
      chunk_seq = seq;
      total_chunks = total;
      station_name = name;
      captured_at = h.captured_at;
      amr_id = h.amr_id;
      amr_position = h.amr_position;
      source_format = h.source_format;
    })))))

-- `json.loads` and `json.dumps` of a header; `none` is `JSONDecodeError`.
pub record HeaderJson : Type 0 where
  pub loads : Bytes → Option Header
  pub dumps : Header → Bytes

-- `none` is `ValueError`, `KeyError` or `JSONDecodeError`.
unfoldable pub parse_video_chunk : HeaderJson → Bytes → Option (VideoChunkMeta × Bytes)
unfolding meta_of split_chunk
parse_video_chunk j payload =
    bind (split_chunk payload)
      (λ parts. bind (j.loads parts.0) (λ h. bind (meta_of h) (λ m. some (m, parts.1))))

unfoldable pub header_of : VideoChunkMeta → Header
header_of m = record {
  video_id = some m.video_id;
  chunk_seq = some m.chunk_seq;
  total_chunks = some m.total_chunks;
  station_name = some m.station_name;
  captured_at = m.captured_at;
  amr_id = m.amr_id;
  amr_position = m.amr_position;
  source_format = m.source_format;
}

unfoldable pub build_video_chunk_payload : HeaderJson → VideoChunkMeta → Bytes → Bytes
unfolding header_of
build_video_chunk_payload j m body = join_chunk (j.dumps (header_of m)) body

-- `metadata` is null where it is `None`.
pub record Message (F : Type 0) : Type 0 where
  pub msg_type : MessageType
  pub payload : Bytes
  pub metadata : Json F

abbrev empty_object : Bytes
empty_object = 123 ∷ 125 ∷ []

-- `Message.heartbeat`, `Message.ack` and `Message.error`; `body` is the encoded reason.
abbrev pub heartbeat_message : {F : Type 0} → Message F
heartbeat_message = record { msg_type = heartbeat; payload = empty_object; metadata = null }

abbrev pub ack_message : {F : Type 0} → Message F
ack_message = record { msg_type = ack; payload = empty_object; metadata = null }

abbrev pub error_message : {F : Type 0} → Bytes → Message F
error_message body = record { msg_type = error; payload = body; metadata = null }

-- `_BINARY_TYPES`
abbrev is_binary : MessageType → Bool
is_binary video_chunk = true
is_binary _ = false

abbrev json_part : MessageType → Bytes → Option Bytes
json_part t payload =
    if is_binary t
    then bind (split_chunk payload) (λ parts. some parts.0)
    else elim payload [ [] ↦ none | b ∷ bs ↦ some (b ∷ bs) ]

module _ {F : Type 0} (loads : Bytes → Option (Json F)) where
  abbrev loads_or_null : Option Bytes → Json F
  loads_or_null none = null
  loads_or_null (some b) = elim (loads b) [ none ↦ null | some v ↦ v ]

  -- `StandardCodec.decode`
  unfoldable pub decode : MessageType → Bytes → Message F
  unfolding split_chunk
  decode t payload = record {
    msg_type = t;
    payload = payload;
    metadata = loads_or_null (json_part t payload);
  }

-- `StandardCodec.encode`
abbrev pub encode : {F : Type 0} → Message F → MessageType × Bytes
encode m = (m.msg_type, m.payload)
