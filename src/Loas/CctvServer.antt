-- ===== src/Loas/CctvServer.antt =====
-- SocketDaim/libs/gw_proto/gw_proto/transport/loas_cctv_server.py: one CCTV connection.
-- The stream is the bytes that the peer sends before it closes; `late k` says that the body of the
-- frame numbered k does not arrive within the timeout. An exception of `on_frame` is isolated.
pub mod Length
pub mod Sync
use mathlib.Core.Option
use dust_monitoring.Prelude.{
  ℕ, zero, suc, ◌+◌, ◌*◌, ◌≡◌, Bool, Option, none, some, List, [], ◌∷◌, if◌then◌else◌, leb, drop,
  ltb,
}
use dust_monitoring.Loas.Words.{Bytes, ReadResult, got, incomplete, readexactly}
use dust_monitoring.Loas.CctvFraming.{
  CctvHeader, Checked, ok, err, cctv_header_size, cctv_tag_size, unpack_header,
}

abbrev pub cctv_max_body : ℕ
cctv_max_body = 16777216

-- `int.from_bytes(buf, "little")`
abbrev pub from_little : Bytes → ℕ
from_little [] = 0
from_little (x ∷ xs) = x + 256 * from_little xs

-- The body length that the listener goes by; `none` where both byte orders are too large.
unfoldable pub body_length : ℕ → Bytes → CctvHeader → Option ℕ
body_length max_body header_buf hdr =
    let length_le = from_little (drop cctv_tag_size header_buf) in
    if ltb max_body hdr.length
    then (if leb length_le max_body then some length_le else none)
    else some hdr.length

pub data Exit : Type 0 where
  peer_eof : ℕ → Exit
  header_rejected frame_too_large body_truncated body_timeout : Exit

-- A delivered frame: its body and its resolution tag.
abbrev pub Frame : Type 0
Frame = Bytes × Bytes

pub record Session : Type 0 where
  pub frames : List Frame
  pub exit : Exit

abbrev pub ended : Exit → Option Session
ended x = some (record { frames = []; exit = x })

abbrev pub deliver : Frame → Session → Session
deliver f s = record { frames = f ∷ s.frames; exit = s.exit }

module _ (max_body : ℕ) (late : ℕ → Bool) where
  after_body : (Bytes → Option Session) → ℕ → Bytes → ReadResult → Option Session
  after_body next k tag (incomplete _) = if late k then ended body_timeout else ended body_truncated
  after_body next k tag (got body rest) =
      if late k then ended body_timeout else Option.map (deliver (body, tag)) (next rest)

  after_length : (Bytes → Option Session) → ℕ → Bytes → Bytes → Option ℕ → Option Session
  after_length next k tag rest none = ended frame_too_large
  after_length next k tag rest (some n) = after_body next k tag (readexactly n rest)

  after_unpack : (Bytes → Option Session) → ℕ → Bytes → Bytes → Checked CctvHeader → Option Session
  after_unpack next k header_buf rest (err _) = ended header_rejected
  after_unpack next k header_buf rest (ok hdr) =
      after_length next k hdr.resolution rest (body_length max_body header_buf hdr)

  after_header : (Bytes → Option Session) → ℕ → ReadResult → Option Session
  after_header next k (incomplete partial) = ended (peer_eof partial)
  after_header next k (got header_buf rest) =
      after_unpack next k header_buf rest (unpack_header header_buf)

  -- `while True` of `_on_connect` on fuel; `k` is `frames_received`.
  unfoldable pub on_connect : ℕ → ℕ → Bytes → Option Session
  unfolding after_header after_unpack after_length after_body
  on_connect zero k s = none
  on_connect (suc f) k s = after_header (on_connect f (suc k)) k (readexactly cctv_header_size s)
