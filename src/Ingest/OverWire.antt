-- ===== src/Ingest/OverWire.antt =====
-- The frames of a connection, answered one after the other, and a video over the wire: the loop of
-- SocketDaim/libs/gw_proto/gw_proto/transport/server.py with the dispatcher of
-- SocketDaim/ingestion_gateway/main.py.
use dust_monitoring.Prelude.{
  suc, ◌≤◌, ◌≡◌, refl, ap, sym, ◌∙◌, Option, none, some, List, [], ◌∷◌, ◌++◌, map, arith, length,
  Text, append_assoc, le→leb,
}
use dust_monitoring.Loas.Words.{Bytes}
use dust_monitoring.Gateway.Wire.{
  MessageType, Tail, frame, read_frame, write_frame, max_payload_size,
}
use dust_monitoring.Gateway.Framing.{read_frame-write_frame}
use dust_monitoring.Transfer.Floats.{Floats}
use dust_monitoring.Ingest.Message.{Message, decode}
use dust_monitoring.Ingest.Session.{IngestionSession, get_or_create, set}
use dust_monitoring.Ingest.Handlers.{State, Reply, World}
use dust_monitoring.Ingest.Dispatch.{
  Service, Outcome, handle, dispatch, writing, respond, reply_bytes, turn, serve, on_connect,
}
use dust_monitoring.Ingest.Chunks.{get-set, set-set}
use dust_monitoring.Ingest.Upload.{run}
use dust_monitoring.Ingest.Connection.{serve-more, respond-more, read_frame-shorter}

-- The bytes of the frames of messages, none of which is over 512 MB.
pub data Frames : List (MessageType × Bytes) → Bytes → Type 0 where
  done : Frames [] []
  framed :
      {t : MessageType} {payload b bs : Bytes} {ms : List (MessageType × Bytes)}
      → write_frame t payload ≡ some b
      → length payload ≤ max_payload_size
      → Frames ms bs
      → Frames ((t, payload) ∷ ms) (b ++ bs)

read-small :
    (tail : Tail) (t : MessageType) (payload b rest : Bytes)
    → write_frame t payload ≡ some b
    → length payload ≤ max_payload_size
    → read_frame tail (b ++ rest) ≡ frame t payload rest
read-small tail t payload b rest e small =
    read_frame-write_frame tail t payload b rest e
    ∙ rw (le→leb (length payload) max_payload_size small) refl

module _ {F : Type 0} ⦃fl : Floats F⦄ where
  on_connect-frame :
      (w : World F) (id : Text) (tail : Tail) (t : MessageType) (payload b rest : Bytes)
      (p : Service F)
      → write_frame t payload ≡ some b
      → length payload ≤ max_payload_size
      → (on_connect w id tail (b ++ rest) p ≡ (
          let (reply, q) = dispatch w id (decode w.loads t payload) p in
          respond (reply_bytes w reply) (on_connect w id tail rest) q))
  unfolding on_connect serve turn
  on_connect-frame w id tail t payload b rest p e small =
      let (reply, q) = dispatch w id (decode w.loads t payload) p in
      let r = read-small tail t payload b rest e small in
      let lt = read_frame-shorter tail (b ++ rest) t payload rest r in
      ap (turn w id (serve (length (b ++ rest)) w id tail) p) r
      ∙ respond-more (reply_bytes w reply) (serve (suc (length rest)) w id tail rest)
          (serve (length (b ++ rest)) w id tail rest) q
          (serve-more (suc (length rest)) (length (b ++ rest)) w id tail rest q (omega arith) lt)

  -- The bytes that are written for replies, none of which is an exception.
  pub data Answers (w : World F) : List Reply → Bytes → Type 0 where
    quiet : Answers w [] []
    written :
        {r : Reply} {rs : List Reply} {b bs : Bytes}
        → reply_bytes w r ≡ some b
        → Answers w rs bs
        → Answers w (r ∷ rs) (b ++ bs)

  unfoldable pub dispatch_all :
      World F → Text → List (MessageType × Bytes) → Service F → List Reply × Service F
  unfolding dispatch decode
  dispatch_all w id [] p = ([], p)
  dispatch_all w id (m ∷ ms) p =
      let (reply, q) = dispatch w id (decode w.loads m.0 m.1) p in
      let (replies, r) = dispatch_all w id ms q in (reply ∷ replies, r)

  writing-[] : (o : Option (Outcome F)) → writing [] o ≡ o
  writing-[] none = refl
  writing-[] (some x) = refl

  writing-writing :
      (a b : Bytes) (o : Option (Outcome F)) → writing a (writing b o) ≡ writing (a ++ b) o
  writing-writing a b none = refl
  writing-writing a b (some (e, (out, p))) = ap (λ x. some (e, (x, p))) (sym (append_assoc a b out))

  -- The frames are answered in their order, each as `dispatch` answers its message, and the
  -- connection goes on with what follows them, if the answer of none is an exception.
  pub on_connect-Frames :
      (w : World F) (id : Text) (tail : Tail) (ms : List (MessageType × Bytes)) (b rest out : Bytes)
      (p : Service F)
      → Frames ms b
      → Answers w ((dispatch_all w id ms p).0) out
      → (on_connect w id tail (b ++ rest) p
          ≡ writing out (on_connect w id tail rest ((dispatch_all w id ms p).1)))
  unfolding dispatch_all
  on_connect-Frames w id tail _ _ rest _ p done quiet =
      sym (writing-[] (on_connect w id tail rest p))
  on_connect-Frames w id tail (m ∷ ms) _ rest _ p (framed {t} {payload} {b} {bs} e small fs)
        (written {b = out} {bs = outs} r rs) =
      let (reply, q) = dispatch w id (decode w.loads t payload) p in
      ap (λ x. on_connect w id tail x p) (append_assoc b bs rest)
      ∙ on_connect-frame w id tail t payload b (bs ++ rest) p e small
      ∙ ap (λ o. respond o (on_connect w id tail (bs ++ rest)) q) r
      ∙ ap (writing out) (on_connect-Frames w id tail ms bs rest outs q fs rs)
      ∙ writing-writing out outs (on_connect w id tail rest ((dispatch_all w id ms q).1))

  abbrev pub decode_all : World F → List (MessageType × Bytes) → List (Message F)
  decode_all w ms = map (λ m. decode w.loads m.0 m.1) ms

  -- The session that a connection has, or gets with its first message.
  abbrev pub session_of : World F → Text → Service F → IngestionSession
  session_of w id p = (get_or_create w.monotonic id p.sessions).0

  -- What the messages of a connection leave: its own session and the tables.
  abbrev pub after_run : Text → Service F → List Reply × State F → List Reply × Service F
  after_run id p (replies, s) =
      (replies, record { sessions = set id s.session p.sessions; tables = s.tables })

  dispatch-handle :
      (w : World F) (id : Text) (m : Message F) (p : Service F)
      → (dispatch w id m p ≡ (
          let (reply, s) = handle w m (record { session = session_of w id p; tables = p.tables }) in
          (reply, record { sessions = set id s.session p.sessions; tables = s.tables })))
  unfolding dispatch get_or_create
  dispatch-handle w id m p =
      let (reply, s) = handle w m (record { session = session_of w id p; tables = p.tables }) in
      ap (λ d. (reply, record { sessions = d; tables = s.tables }))
        (set-set id s.session (session_of w id p) p.sessions)

  session_of-set :
      (w : World F) (id : Text) (x : IngestionSession) (p : Service F)
      → session_of w id (record p { sessions = set id x p.sessions }) ≡ x
  unfolding get_or_create
  session_of-set w id x p = rw (get-set id x p.sessions) refl

  abbrev cons_reply : Reply → List Reply × Service F → List Reply × Service F
  cons_reply r (rs, p) = (r ∷ rs, p)

  -- A run that goes on after its first message.
  after_run-after :
      (w : World F) (id : Text) (ms : List (Message F)) (s : State F) (p : Service F)
      → (after_run id
            (record { sessions = set id s.session p.sessions; tables = s.tables })
            (run w ms (record {
              session =
                  session_of w id
                    (record { sessions = set id s.session p.sessions; tables = s.tables });
              tables = s.tables;
            }))
          ≡ after_run id p (run w ms s))
  after_run-after w id ms s p =
      ap
        (λ x.
          after_run id (record { sessions = set id s.session p.sessions; tables = s.tables })
            (run w ms (record { session = x; tables = s.tables })))
        (session_of-set w id s.session (record p { tables = s.tables }))
      ∙ (let (replies, u) = run w ms s in
          ap (λ d. (replies, record { sessions = d; tables = u.tables }))
            (set-set id u.session s.session p.sessions))

  pub dispatch_all-run :
      (w : World F) (id : Text) (m : MessageType × Bytes) (ms : List (MessageType × Bytes))
      (p : Service F)
      → (dispatch_all w id (m ∷ ms) p
          ≡ after_run id p (
              run w
                (decode_all w (m ∷ ms))
                (record { session = session_of w id p; tables = p.tables })))
  unfolding dispatch_all run
  dispatch_all-run w id m [] p =
      ap (λ (r, q). (r ∷ [], q)) (dispatch-handle w id (decode w.loads m.0 m.1) p)
  dispatch_all-run w id m (n ∷ ms) p =
      let (reply, s) =
        handle w (decode w.loads m.0 m.1)
          (record { session = session_of w id p; tables = p.tables }) in
      let q : Service F = record { sessions = set id s.session p.sessions; tables = s.tables } in
      ap (λ (r, x). cons_reply r (dispatch_all w id (n ∷ ms) x))
        (dispatch-handle w id (decode w.loads m.0 m.1) p)
      ∙ ap (cons_reply reply)
          (dispatch_all-run w id n ms q ∙ after_run-after w id (decode_all w (n ∷ ms)) s p)
