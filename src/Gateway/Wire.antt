-- ===== src/Gateway/Wire.antt =====
-- SocketDaim/libs/gw_proto/gw_proto/framing.py, with the message types and the split of a video
-- chunk of messages.py.
use dust_monitoring.Prelude.{ℕ, Option, none, some, [], ◌∷◌, ◌++◌, ltb, ◌==◌, if◌then◌else◌, length}
use dust_monitoring.Loas.Words.{Bytes, be32, of_be32, ReadResult, got, incomplete, readexactly}

pub data MessageType : Type 0 where
  video_chunk video_complete sensor_sample analysis_result alert heartbeat ack error : MessageType

-- `msg_type.value`
abbrev pub value_of : MessageType → ℕ
value_of video_chunk = 0x0001
value_of video_complete = 0x0002
value_of sensor_sample = 0x0010
value_of analysis_result = 0x0100
value_of alert = 0x0101
value_of heartbeat = 0x0F00
value_of ack = 0x0F01
value_of error = 0x0FFF

-- `MessageType(raw_type)`, `none` for `ValueError`.
unfoldable pub of_value : ℕ → Option MessageType
of_value n =
    if n == 0x0001
    then some video_chunk
    else if n == 0x0002
    then some video_complete
    else if n == 0x0010
    then some sensor_sample
    else if n == 0x0100
    then some analysis_result
    else if n == 0x0101
    then some alert
    else if n == 0x0F00
    then some heartbeat
    else if n == 0x0F01
    then some ack
    else if n == 0x0FFF
    then some error
    else none

abbrev pub max_payload_size : ℕ
max_payload_size = 536870912

-- What follows the bytes that the peer has sent: it closes, or nothing comes until the timeout.
pub data Tail : Type 0 where
  closed silent : Tail

pub data ReadFrame : Type 0 where
  frame : MessageType → Bytes → Bytes → ReadFrame
  connection_timeout framing_error payload_too_large unknown_message_type : ReadFrame

abbrev pub cut_short : Tail → ReadFrame
cut_short closed = framing_error
cut_short silent = connection_timeout

abbrev pub after_payload : Tail → MessageType → ReadResult → ReadFrame
after_payload tail t (got payload rest) = frame t payload rest
after_payload tail t (incomplete _) = cut_short tail

unfoldable pub after_type : Tail → ℕ → Bytes → Option MessageType → ReadFrame
unfolding readexactly
after_type tail n rest none = unknown_message_type
after_type tail n rest (some t) =
    if n == 0 then frame t [] rest else after_payload tail t (readexactly n rest)

-- The header is eight bytes where `readexactly 8` has got it.
unfoldable pub after_header : Tail → ReadResult → ReadFrame
unfolding after_type of_value
after_header tail (got (a ∷ b ∷ c ∷ d ∷ e ∷ f ∷ g ∷ h ∷ []) rest) =
    if ltb max_payload_size (of_be32 a b c d)
    then payload_too_large
    else after_type tail (of_be32 a b c d) rest (of_value (of_be32 e f g h))
after_header tail _ = cut_short tail

unfoldable pub read_frame : Tail → Bytes → ReadFrame
unfolding after_header readexactly
read_frame tail s = after_header tail (readexactly 8 s)

-- `none` is the `struct.error` of a length that has no 32 bits. The timeout of the drain, which comes
-- when the bytes are with the writer, is left out.
unfoldable pub write_frame : MessageType → Bytes → Option Bytes
write_frame t payload =
    if ltb (length payload) 4294967296
    then some (be32 (length payload) ++ (be32 (value_of t) ++ payload))
    else none

-- `payload.index(b"\n")` and the two slices of `parse_video_chunk`; `none` is `ValueError`.
unfoldable pub split_chunk : Bytes → Option (Bytes × Bytes)
split_chunk [] = none
split_chunk (b ∷ s) =
    let rest = split_chunk s in
    if b == 10 then some ([], s) else elim rest [ none ↦ none | some x ↦ some (b ∷ x.0, x.1) ]

-- `json.dumps(header).encode() + b"\n" + binary_body`, from the encoded header.
abbrev pub join_chunk : Bytes → Bytes → Bytes
join_chunk header body = header ++ 10 ∷ body
