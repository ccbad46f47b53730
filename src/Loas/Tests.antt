-- ===== src/Loas/Tests.antt =====
-- Runs of the LOAS codec and listeners, and the theorems about them at those inputs.
use dust_monitoring.Prelude.{
  ℕ, ◌≡◌, refl, false, none, some, [], ◌∷◌, ◌++◌, arith, Text, codes, Bool,
}
use dust_monitoring.Loas.Words.{Bytes, le16, le32, be32, readexactly}
use dust_monitoring.Loas.DustFraming
use dust_monitoring.Loas.DustFraming.{
  DustHeader, validate_header, is_encrypted, pack_header, unpack_header,
}
use dust_monitoring.Loas.DustServer
use dust_monitoring.Loas.CctvFraming
use dust_monitoring.Loas.CctvFraming.{CctvHeader, is_known, ok}
use dust_monitoring.Loas.CctvServer

abbrev hdr : ℕ → ℕ → DustHeader
hdr enc n = record {
  sop = 0xAABB;
  data_object_id = 0xD002;
  version = 2;
  encryption = enc;
  timestamp = 1782000000;
  length = n;
}

abbrev hdr_bytes : ℕ → ℕ → Bytes
hdr_bytes enc n = 0xBB ∷ 0xAA ∷ 0x02 ∷ 0xD0 ∷ 2 ∷ enc ∷ (le32 1782000000 ++ le16 n)

pack_hdr : pack_header (hdr 0 2) ≡ some (hdr_bytes 0 2)
unfolding pack_header
pack_hdr = refl

pack_secret : pack_header (hdr 1 1) ≡ some (hdr_bytes 1 1)
unfolding pack_header
pack_secret = refl

unpack_header-pack_header_example : unpack_header (hdr_bytes 0 2) ≡ some (hdr 0 2)
unpack_header-pack_header_example =
    DustFraming.unpack_header-pack_header (hdr 0 2) (hdr_bytes 0 2) pack_hdr

unpack_hdr : unpack_header (hdr_bytes 0 2) ≡ some (hdr 0 2)
unfolding unpack_header
unpack_hdr = refl

valid_hdr : validate_header (hdr 0 2) ≡ none
unfolding validate_header
valid_hdr = refl

valid_secret : validate_header (hdr 1 1) ≡ none
unfolding validate_header
valid_secret = refl

-- An encrypted frame, then a plain one.
abbrev wire : Bytes
wire = hdr_bytes 1 1 ++ ((7 ∷ []) ++ (hdr_bytes 0 2 ++ ((8 ∷ 9 ∷ []) ++ [])))

on_connect-Sends_example :
    DustServer.on_connect 3 wire
    ≡ some (record {
      frames = DustServer.Sync.plain ((hdr 1 1, 7 ∷ []) ∷ (hdr 0 2, 8 ∷ 9 ∷ []) ∷ []);
      exit = DustServer.eof_at_header;
    })
on_connect-Sends_example =
    DustServer.Sync.on_connect-Sends ((hdr 1 1, 7 ∷ []) ∷ (hdr 0 2, 8 ∷ 9 ∷ []) ∷ []) wire 3
      (
        hdr_bytes 1 1,
        hdr_bytes 0 2 ++ ((8 ∷ 9 ∷ []) ++ []),
        pack_secret,
        valid_secret,
        refl,
        refl,
        (hdr_bytes 0 2, [], pack_hdr, valid_hdr, refl, refl, refl),
      )
      (omega arith)

on_connect-EndsWell_example : DustServer.Safety.EndsWell (DustServer.on_connect 40 wire)
on_connect-EndsWell_example = DustServer.Safety.on_connect-EndsWell 40 wire (omega arith)

-- The encrypted frame is dropped, and the plain one behind it delivered.
dust_run :
    DustServer.on_connect 3 wire
    ≡ some (record { frames = (hdr 0 2, 8 ∷ 9 ∷ []) ∷ []; exit = DustServer.eof_at_header })
unfolding DustServer.on_connect readexactly unpack_header validate_header is_encrypted
dust_run = refl

abbrev tag : Text
tag = codes "V1080"

tag-is_known : is_known tag ≡ Bool.true
unfolding is_known
tag-is_known = refl

abbrev cctv_hdr : CctvHeader
cctv_hdr = record { resolution = tag; length = 258 }

pack_cctv : CctvFraming.pack_header cctv_hdr ≡ ok (tag ++ be32 258)
unfolding CctvFraming.pack_header is_known
pack_cctv = refl

unpack_cctv : CctvFraming.unpack_header (tag ++ be32 258) ≡ ok cctv_hdr
unfolding CctvFraming.unpack_header is_known
unpack_cctv = refl

abbrev cctv_wire : Bytes
cctv_wire = (tag ++ le32 2) ++ ((5 ∷ 6 ∷ []) ++ ((tag ++ be32 1) ++ ((7 ∷ []) ++ [])))

on_connect-Sends_cctv_example :
    CctvServer.on_connect CctvServer.cctv_max_body (λ k. false) 3 0 cctv_wire
    ≡ some
        (record { frames = (5 ∷ 6 ∷ [], tag) ∷ (7 ∷ [], tag) ∷ []; exit = CctvServer.peer_eof 0 })
on_connect-Sends_cctv_example =
    CctvServer.Sync.on_connect-Sends_cctv ((5 ∷ 6 ∷ [], tag) ∷ (7 ∷ [], tag) ∷ []) cctv_wire
      (λ k. false) 3 0
      (
        le32 2,
        (tag ++ be32 1) ++ ((7 ∷ []) ++ []),
        tag-is_known,
        omega arith,
        CctvServer.Sync.little (omega arith) refl,
        refl,
        (be32 1, [], tag-is_known, omega arith, CctvServer.Sync.big refl, refl, refl),
      )
      (λ j. refl) (omega arith)
