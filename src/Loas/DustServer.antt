-- ===== src/Loas/DustServer.antt =====
-- SocketDaim/libs/gw_proto/gw_proto/transport/loas_dust_server.py: one DUST connection.
-- The stream is the bytes that the peer sends before it closes. An exception of `on_frame` is
-- isolated by the listener, so a connection is the list of the calls that it makes.
pub mod Sync
pub mod Safety
use mathlib.Core.Option
use dust_monitoring.Prelude.{ℕ, zero, suc, ◌≡◌, Option, none, some, List, [], ◌∷◌, if◌then◌else◌}
use dust_monitoring.Loas.Words.{Bytes, ReadResult, got, incomplete, readexactly}
use dust_monitoring.Loas.DustFraming.{
  DustHeader, LoasError, dust_header_size, unpack_header, validate_header, is_encrypted,
}

abbrev pub Frame : Type 0
Frame = DustHeader × Bytes

pub data Exit : Type 0 where
  eof_at_header header_rejected body_truncated : Exit

-- The calls of `on_frame` in their order, and how the connection ended.
pub record Session : Type 0 where
  pub frames : List Frame
  pub exit : Exit

abbrev pub ended : Exit → Option Session
ended x = some (record { frames = []; exit = x })

abbrev pub deliver : Frame → Session → Session
deliver f s = record { frames = f ∷ s.frames; exit = s.exit }

pub after_body : (Bytes → Option Session) → DustHeader → ReadResult → Option Session
after_body next hdr (incomplete _) = ended body_truncated
after_body next hdr (got body rest) =
    if is_encrypted hdr then next rest else Option.map (deliver (hdr, body)) (next rest)

pub after_validation :
    (Bytes → Option Session) → Bytes → DustHeader → Option LoasError → Option Session
after_validation next rest hdr (some _) = ended header_rejected
after_validation next rest hdr none = after_body next hdr (readexactly hdr.length rest)

pub after_unpack : (Bytes → Option Session) → Bytes → Option DustHeader → Option Session
after_unpack next rest none = ended header_rejected
after_unpack next rest (some hdr) = after_validation next rest hdr (validate_header hdr)

pub after_header : (Bytes → Option Session) → ReadResult → Option Session
after_header next (incomplete _) = ended eof_at_header
after_header next (got header_buf rest) = after_unpack next rest (unpack_header header_buf)

-- `while True` of `_on_connect` on fuel; `none` where the fuel runs out.
unfoldable pub on_connect : ℕ → Bytes → Option Session
unfolding after_header after_unpack after_validation after_body
on_connect zero s = none
on_connect (suc f) s = after_header (on_connect f) (readexactly dust_header_size s)
