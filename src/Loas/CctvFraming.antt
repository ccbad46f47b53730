-- ===== src/Loas/CctvFraming.antt =====
-- SocketDaim/libs/gw_proto/gw_proto/codec/loas/cctv_framing.py: the 9-byte CCTV header.
-- A text is the list of its code points, which for ASCII are its bytes.
use dust_monitoring.Prelude.{
  ℕ, ◌<◌, ◌≡◌, ap, ◌∙◌, Bool, true, not, ◌&&◌, List, [], ◌∷◌, ◌++◌, arith, ltb, ◌==◌, if◌then◌else◌,
  length, All, any, length-append, equal,
}
use dust_monitoring.Loas.Words.{Bytes, be32, of_be32}

abbrev pub cctv_header_size : ℕ
cctv_header_size = 9

abbrev pub cctv_tag_size : ℕ
cctv_tag_size = 5

-- V1080, V720p and V640p.
abbrev pub resolution_tags : List Bytes
resolution_tags =
    (b'V' ∷ b'1' ∷ b'0' ∷ b'8' ∷ b'0' ∷ [])
    ∷ (b'V' ∷ b'7' ∷ b'2' ∷ b'0' ∷ b'p' ∷ [])
    ∷ (b'V' ∷ b'6' ∷ b'4' ∷ b'0' ∷ b'p' ∷ [])
    ∷ []

pub data CctvError : Type 0 where
  framing_error unknown_resolution : CctvError

pub data Checked {ℓ} (A : Type ℓ) : Type ℓ where
  ok : A → Checked A
  err : CctvError → Checked A

pub record CctvHeader : Type 0 where
  pub resolution : Bytes
  pub length : ℕ

unfoldable pub is_known : Bytes → Bool
unfolding equal
is_known tag = any (equal tag) resolution_tags

unfoldable pub pack_header : CctvHeader → Checked Bytes
pack_header hdr =
    if not (is_known hdr.resolution)
    then err unknown_resolution
    else if not (length hdr.resolution == cctv_tag_size)
    then err framing_error
    else if ltb hdr.length 4294967296
    then ok (hdr.resolution ++ be32 hdr.length)
    else err framing_error

abbrev is_ascii : Bytes → Bool
is_ascii [] = true
is_ascii (x ∷ xs) = ltb x 128 && is_ascii xs

-- A buffer of nine bytes; any other size is refused.
unfoldable pub unpack_header : Bytes → Checked CctvHeader
unpack_header (a ∷ b ∷ c ∷ d ∷ e ∷ w ∷ x ∷ y ∷ z ∷ []) =
    let tag = a ∷ b ∷ c ∷ d ∷ e ∷ [] in
    if not (is_ascii tag)
    then err framing_error
    else if not (is_known tag)
    then err unknown_resolution
    else ok (record { resolution = tag; length = of_be32 w x y z })
unpack_header _ = err framing_error

-- A tag of the set is five ASCII bytes.
pub is_known-ascii : (tag : Bytes) → is_known tag ≡ true → (length tag ≡ 5) × (is_ascii tag ≡ true)
unfolding is_known
is_known-ascii (a ∷ b ∷ c ∷ d ∷ e ∷ []) h = ground arith
is_known-ascii _ h = ground arith

pack_header_ok :
    (h : CctvHeader) (b : Bytes)
    → pack_header h ≡ ok b
    → (is_known h.resolution ≡ true) × (h.length < 4294967296) × (b ≡ h.resolution ++ be32 h.length)
unfolding pack_header
pack_header_ok h b p = ground arith

pub length-pack_header :
    (h : CctvHeader) (b : Bytes) → pack_header h ≡ ok b → length b ≡ cctv_header_size
length-pack_header h b p =
    let (known, fits, e) = pack_header_ok h b p in
    ground
      (arith, e, length-append h.resolution (be32 h.length), (is_known-ascii h.resolution known).0)

unpack_header-five :
    (t : Bytes) (w x y z : ℕ)
    → is_known t ≡ true
    → length t ≡ 5
    → is_ascii t ≡ true
    → unpack_header (t ++ (w ∷ x ∷ y ∷ z ∷ []))
      ≡ ok (record { resolution = t; length = of_be32 w x y z })
unfolding unpack_header
unpack_header-five (a ∷ b ∷ c ∷ d ∷ e ∷ []) w x y z k l s = ground arith
unpack_header-five _ w x y z k l s = ground arith

pub unpack_header-append :
    (t : Bytes) (w x y z : ℕ)
    → is_known t ≡ true
    → unpack_header (t ++ (w ∷ x ∷ y ∷ z ∷ []))
      ≡ ok (record { resolution = t; length = of_be32 w x y z })
unpack_header-append t w x y z k =
    let (five, ascii) = is_known-ascii t k in unpack_header-five t w x y z k five ascii

-- Whatever `pack_header` writes, `unpack_header` reads back.
pub unpack_header-pack_header_cctv :
    (h : CctvHeader) (b : Bytes) → pack_header h ≡ ok b → unpack_header b ≡ ok h
unpack_header-pack_header_cctv h b p =
    let (known, fits, e) = pack_header_ok h b p in
    rw e (
      unpack_header-append h.resolution _ _ _ _ known
      ∙ ap (λ n. ok (record { resolution = h.resolution; length = n })) (omega arith))

-- Whatever `unpack_header` reads from bytes, `pack_header` writes as those bytes.
pub pack_header-unpack_header_cctv :
    (b : Bytes) (h : CctvHeader)
    → All (λ x. x < 256) b
    → unpack_header b ≡ ok h
    → pack_header h ≡ ok b
unfolding pack_header unpack_header
pack_header-unpack_header_cctv (a ∷ b ∷ c ∷ d ∷ e ∷ w ∷ x ∷ y ∷ z ∷ []) h s p = ground arith
pack_header-unpack_header_cctv _ h s p = ground arith
