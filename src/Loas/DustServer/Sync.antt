-- ===== src/Loas/DustServer/Sync.antt =====
-- The DUST listener stays in step with the stream, and always ends.
use mathlib.Core.Option
use dust_monitoring.Prelude.{
  ℕ, zero, suc, ◌<◌, ◌≡◌, refl, ◌∙◌, not, none, some, List, [], ◌∷◌, ◌++◌, arith, if◌then◌else◌,
  length, keep,
}
use dust_monitoring.Loas.Words.{Bytes, readexactly, readexactly-append}
use dust_monitoring.Loas.DustFraming.{
  DustHeader, dust_header_size, pack_header, validate_header, is_encrypted,
  unpack_header-pack_header, length-pack_header,
}
use dust_monitoring.Loas.DustServer.{Frame, eof_at_header, deliver, on_connect}

-- `w` is what a peer writes that sends these frames, each with a header that the listener accepts.
abbrev pub Sends : List Frame → Bytes → Type 0
Sends [] w = w ≡ []
Sends ((h, body) ∷ fs) w =
    (b : Bytes) × (s : Bytes) × (pack_header h ≡ some b)
    × (validate_header h ≡ none)
    × (length body ≡ h.length)
    × (w ≡ b ++ (body ++ s))
    × Sends fs s

abbrev pub plain : List Frame → List Frame
plain = keep (λ f. not (is_encrypted f.0))

on_connect-frame :
    (f : ℕ) (h : DustHeader) (b body s : Bytes)
    → pack_header h ≡ some b
    → validate_header h ≡ none
    → length body ≡ h.length
    → on_connect (suc f) (b ++ (body ++ s))
      ≡ (if is_encrypted h then on_connect f s else Option.map (deliver (h, body)) (on_connect f s))
unfolding on_connect
on_connect-frame f h b body s p v e =
    rw (readexactly-append dust_header_size b (body ++ s) (length-pack_header h b p))
      (rw (unpack_header-pack_header h b p) (rw v (rw (readexactly-append h.length body s e) refl)))

-- The plain frames are delivered in order, each once and with its own body, the encrypted ones are
-- dropped without losing step, and the connection ends at the end of the stream.
pub on_connect-Sends :
    (fs : List Frame) (w : Bytes) (f : ℕ)
    → Sends fs w
    → length fs < f
    → on_connect f w ≡ some (record { frames = plain fs; exit = eof_at_header })
unfolding on_connect readexactly
on_connect-Sends fs w zero h lt = absurd (omega arith)
on_connect-Sends [] w (suc f) h lt = rw h refl
on_connect-Sends ((h, body) ∷ fs) w (suc f) (b, s, p, v, e, q, r) lt = rw q (
    on_connect-frame f h b body s p v e
    ∙ rw (on_connect-Sends fs s f r (omega arith)) (ground arith))
