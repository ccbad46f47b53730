-- ===== src/Ingest/Dispatch.antt =====
-- The dispatcher of SocketDaim/ingestion_gateway/main.py, and the loop of a connection in
-- SocketDaim/libs/gw_proto/gw_proto/transport/server.py that calls it.
use dust_monitoring.Prelude.{ℕ, zero, suc, Option, none, some, [], ◌++◌, length, Text}
use dust_monitoring.Loas.Words.{Bytes}
use dust_monitoring.Gateway.Wire.{
  MessageType, video_chunk, video_complete, sensor_sample, heartbeat, ack, error, Tail, ReadFrame,
  frame, connection_timeout, read_frame, write_frame,
}
use dust_monitoring.Transfer.Floats.{Floats}
use dust_monitoring.Ingest.Message.{Message, decode, encode, ack_message, error_message}
use dust_monitoring.Ingest.Session.{SessionRegistry, get_or_create, set}
use dust_monitoring.Ingest.Tables.{Tables, unhandled_type}
use dust_monitoring.Ingest.Handlers.{State, Reply, acked, silent, raised, refused, World}
use dust_monitoring.Ingest.Video.{handle_chunk, handle_complete}
use dust_monitoring.Ingest.Sensor.{handle_sample, handle_heartbeat, handle_error}

-- The state of the process: all its sessions, and the tables.
pub record Service (F : Type 0) : Type 0 where
  pub sessions : SessionRegistry
  pub tables : Tables F

-- How a connection comes to its end, which closes it whatever the end is.
pub data Ending : Type 0 where
  timed_out bad_frame unexpected_error : Ending

-- How the connection ends, what it has written, and the service it leaves.
abbrev pub Outcome : Type 0 → Type 0
Outcome F = Ending × (Bytes × Service F)

module _ {F : Type 0} ⦃fl : Floats F⦄ where
  abbrev pub handle_typed : MessageType → World F → Message F → State F → Reply × State F
  handle_typed video_chunk w m s = handle_chunk w m s
  handle_typed video_complete w m s = handle_complete w m s
  handle_typed sensor_sample w m s = handle_sample w m s
  handle_typed heartbeat w m s = handle_heartbeat w s
  handle_typed error w m s = handle_error s
  handle_typed ack w m s = (silent, s)
  handle_typed t w m s = (refused (unhandled_type t), s)

  -- `match message.msg_type`
  unfoldable pub handle : World F → Message F → State F → Reply × State F
  unfolding handle_chunk handle_complete handle_sample handle_heartbeat handle_error
  handle w message s = handle_typed message.msg_type w message s

  -- `dispatch`, in the session of the connection `id`.
  unfoldable pub dispatch : World F → Text → Message F → Service F → Reply × Service F
  unfolding get_or_create handle set
  dispatch w id message p =
      let (session, sessions) = get_or_create w.monotonic id p.sessions in
      let (reply, s) = handle w message (record { session = session; tables = p.tables }) in
      (reply, record { sessions = set id s.session sessions; tables = s.tables })

  -- The message of a reply, if one is written.
  abbrev pub response : World F → Reply → Option (Message F)
  response w acked = some ack_message
  response w silent = none
  response w raised = none
  response w (refused p) = some (error_message (w.body_of p))

  -- The bytes of a response. The `struct.error` of `write_frame` is `none`.
  abbrev pub write_response : Option (Message F) → Option Bytes
  write_response none = some []
  write_response (some m) = let (t, payload) = encode m in write_frame t payload

  abbrev pub writing : Bytes → Option (Outcome F) → Option (Outcome F)
  writing b none = none
  writing b (some (e, (out, p))) = some (e, (b ++ out, p))

  -- What is written after a message, and `rest`, what the loop does next.
  abbrev pub respond :
      Option Bytes → (Service F → Option (Outcome F)) → Service F → Option (Outcome F)
  respond none rest q = some (unexpected_error, ([], q))
  respond (some b) rest q = writing b (rest q)

  -- What is written for a reply: an exception is no reply.
  abbrev pub reply_bytes : World F → Reply → Option Bytes
  reply_bytes w raised = none
  reply_bytes w reply = write_response (response w reply)

  unfoldable pub turn :
      World F
      → Text
      → (Bytes → Service F → Option (Outcome F))
      → Service F
      → ReadFrame
      → Option (Outcome F)
  unfolding decode dispatch write_frame
  turn w id loop p (frame t payload rest) =
      let (reply, q) = dispatch w id (decode w.loads t payload) p in
      respond (reply_bytes w reply) (loop rest) q
  turn w id loop p connection_timeout = some (timed_out, ([], p))
  turn w id loop p _ = some (bad_frame, ([], p))

  -- The loop of `_on_connect` on what the peer has sent. Fuel: each turn reads a frame, which is not
  -- empty.
  unfoldable pub serve : ℕ → World F → Text → Tail → Bytes → Service F → Option (Outcome F)
  unfolding read_frame turn
  serve zero w id tail s p = none
  serve (suc n) w id tail s p = turn w id (serve n w id tail) p (read_frame tail s)

  -- A connection: as many turns as there are bytes, and one, are enough.
  unfoldable pub on_connect : World F → Text → Tail → Bytes → Service F → Option (Outcome F)
  unfolding serve
  on_connect w id tail s p = serve (suc (length s)) w id tail s p
