-- ===== src/Loas/DustServer/Safety.antt =====
-- The DUST listener always ends, and hands on only frames that meet the protocol.
use mathlib.Core.Option
use dust_monitoring.Prelude.{
  ℕ, zero, suc, ◌+◌, ◌-◌, ◌≤◌, ◌<◌, ◌≡◌, refl, ap, false, inl, inr, Option, none, some, arith, ltb,
  length, All, length-append, Bool-cases, Option-cases,
}
use dust_monitoring.Loas.Words.{
  Bytes, ReadResult, readexactly, readexactly-Reads, Reads, short, full,
}
use dust_monitoring.Loas.DustFraming.{
  DustHeader, sop_dust, doid_dust_inspection, protocol_version, encryption_none, dust_header_size,
  dust_max_body, unpack_header, validate_header, is_encrypted,
}
use dust_monitoring.Loas.DustServer.{
  Frame, Session, deliver, after_body, after_validation, after_unpack, after_header, on_connect,
}

-- What the protocol asks of a frame that reaches the handler.
pub record IsAccepted (f : Frame) : Type 0 where
  pub sop_is : f.0.sop ≡ sop_dust
  pub id_is : f.0.data_object_id ≡ doid_dust_inspection
  pub version_is : f.0.version ≡ protocol_version
  pub plain : f.0.encryption ≡ encryption_none
  pub body_fits : f.0.length ≤ dust_max_body
  pub whole_body : length f.1 ≡ f.0.length

abbrev pub EndsWell : Option Session → Type 0
EndsWell o = (r : Session) × (o ≡ some r) × All IsAccepted r.frames

frame-IsAccepted :
    (h : DustHeader) (b : Bytes)
    → validate_header h ≡ none
    → is_encrypted h ≡ false
    → length b ≡ h.length
    → IsAccepted (h, b)
unfolding validate_header is_encrypted
frame-IsAccepted h b v e l = ground arith

deliver-EndsWell :
    (f : Frame) {o : Option Session}
    → IsAccepted f
    → EndsWell o
    → EndsWell (Option.map (deliver f) o)
deliver-EndsWell f a (r, e, all) = (deliver f r, rw e refl, (a, all))

module _ (next : Bytes → Option Session) (n : ℕ)
    (ih : (s : Bytes) → length s ≤ n → EndsWell (next s)) where
  after_body-EndsWell :
      (h : DustHeader) (s : Bytes) {r : ReadResult}
      → length s ≤ n
      → validate_header h ≡ none
      → Reads h.length s r
      → EndsWell (after_body next h r)
  unfolding after_body
  after_body-EndsWell h s lt v (short _) = (_, refl, tt)
  after_body-EndsWell h s lt v (full b rest e l) =
      let shorter : length rest ≤ n = omega (arith, ap length e, length-append b rest) in
      elim (Bool-cases (is_encrypted h)) [
        | inl enc ↦ rw enc (ih rest shorter)
        | inr plain ↦
            rw plain (deliver-EndsWell (h, b) (frame-IsAccepted h b v plain l) (ih rest shorter))
      ]

  after_unpack-EndsWell :
      (s : Bytes) (o : Option DustHeader) → length s ≤ n → EndsWell (after_unpack next s o)
  unfolding after_unpack after_validation
  after_unpack-EndsWell s none lt = (_, refl, tt)
  after_unpack-EndsWell s (some h) lt = elim (Option-cases (validate_header h)) [
    | inl v ↦ rw v (after_body-EndsWell h s lt v (readexactly-Reads h.length s))
    | inr (x, v) ↦ rw v (_, refl, tt)
  ]

  after_header-EndsWell :
      (s : Bytes) {r : ReadResult}
      → length s ≤ n + dust_header_size
      → Reads dust_header_size s r
      → EndsWell (after_header next r)
  unfolding after_header
  after_header-EndsWell s lt (short _) = (_, refl, tt)
  after_header-EndsWell s lt (full b rest e l) =
      after_unpack-EndsWell rest (unpack_header b)
        (omega (arith, ap length e, length-append b rest))

-- Whatever bytes arrive, a connection ends within one round for each byte and one more, and each
-- frame that it hands on has the magic, the object id and the version of the protocol, is not
-- encrypted, and comes with exactly the body, of at most 1448 bytes, that its header declares.
pub on_connect-EndsWell : (f : ℕ) (s : Bytes) → length s < f → EndsWell (on_connect f s)
unfolding on_connect readexactly
on_connect-EndsWell zero s lt = absurd (omega arith)
on_connect-EndsWell (suc f) s lt = elim (Bool-cases (ltb (length s) 12)) [
  | inl few ↦ rw (few, readexactly) (_, refl, tt)
  | inr enough ↦
      after_header-EndsWell (on_connect f) (f - 1)
        (λ s' le. on_connect-EndsWell f s' (ground arith)) s (ground arith)
        (readexactly-Reads dust_header_size s)
]
