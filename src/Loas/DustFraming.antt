-- ===== src/Loas/DustFraming.antt =====
-- SocketDaim/libs/gw_proto/gw_proto/codec/loas/dust_framing.py: the 12-byte DUST header.
-- `struct.error` of `pack` is `none`: a field that its width cannot hold.
use dust_monitoring.Prelude.{
  ℕ, ◌<◌, ◌≡◌, Bool, not, ◌&&◌, Option, none, some, [], ◌∷◌, ◌++◌, arith, ltb, ◌==◌, if◌then◌else◌,
  length, All,
}
use dust_monitoring.Loas.Words.{Bytes, le16, le32, of_le16, of_le32}

abbrev pub sop_dust : ℕ
sop_dust = 0xAABB

abbrev pub doid_dust_inspection : ℕ
doid_dust_inspection = 0xD002

abbrev pub protocol_version : ℕ
protocol_version = 0x02

abbrev pub dust_header_size : ℕ
dust_header_size = 12

abbrev pub dust_max_body : ℕ
dust_max_body = 1448

abbrev pub encryption_none : ℕ
encryption_none = 0

-- The exceptions of errors.py that the framing raises.
pub data LoasError : Type 0 where
  invalid_sop unsupported_data_object_id unsupported_version payload_too_large : LoasError

pub record DustHeader : Type 0 where
  pub sop : ℕ
  pub data_object_id : ℕ
  pub version : ℕ
  pub encryption : ℕ
  pub timestamp : ℕ
  pub length : ℕ

-- The widths of `<HHBBIH`.
abbrev fits : DustHeader → Bool
fits h =
    ltb h.sop 65536
    && ltb h.data_object_id 65536
    && ltb h.version 256
    && ltb h.encryption 256
    && ltb h.timestamp 4294967296
    && ltb h.length 65536

unfoldable pub pack_header : DustHeader → Option Bytes
pack_header h =
    if fits h
    then some (
        le16 h.sop
        ++ (le16 h.data_object_id
            ++ (h.version ∷ h.encryption ∷ (le32 h.timestamp ++ le16 h.length))))
    else none

-- `<HHBBIH` read from 12 bytes; any other number of bytes is refused.
unfoldable pub unpack_header : Bytes → Option DustHeader
unpack_header (a ∷ b ∷ c ∷ d ∷ v ∷ e ∷ t0 ∷ t1 ∷ t2 ∷ t3 ∷ l0 ∷ l1 ∷ []) = some (record {
  sop = of_le16 a b;
  data_object_id = of_le16 c d;
  version = v;
  encryption = e;
  timestamp = of_le32 t0 t1 t2 t3;
  length = of_le16 l0 l1;
})
unpack_header _ = none

-- `none` where the header is accepted; the first check that fails decides the exception.
unfoldable pub validate_header : DustHeader → Option LoasError
validate_header h =
    if not (h.sop == sop_dust)
    then some LoasError.invalid_sop
    else if not (h.data_object_id == doid_dust_inspection)
    then some LoasError.unsupported_data_object_id
    else if not (h.version == protocol_version)
    then some LoasError.unsupported_version
    else if ltb dust_max_body h.length
    then some LoasError.payload_too_large
    else none

unfoldable pub is_encrypted : DustHeader → Bool
is_encrypted h = not (h.encryption == encryption_none)

-- Whatever `pack_header` writes, `unpack_header` reads back.
pub unpack_header-pack_header :
    (h : DustHeader) (b : Bytes) → pack_header h ≡ some b → unpack_header b ≡ some h
unfolding pack_header unpack_header
unpack_header-pack_header h b p = ground arith

pub length-pack_header :
    (h : DustHeader) (b : Bytes) → pack_header h ≡ some b → length b ≡ dust_header_size
unfolding pack_header
length-pack_header h b p = ground arith

-- Whatever `unpack_header` reads from bytes, `pack_header` writes as those bytes.
pub pack_header-unpack_header :
    (b : Bytes) (h : DustHeader)
    → All (λ x. x < 256) b
    → unpack_header b ≡ some h
    → pack_header h ≡ some b
unfolding pack_header unpack_header
pack_header-unpack_header (a ∷ b ∷ c ∷ d ∷ v ∷ e ∷ t0 ∷ t1 ∷ t2 ∷ t3 ∷ l0 ∷ l1 ∷ []) h s p =
    ground arith
pack_header-unpack_header _ h s p = ground arith
