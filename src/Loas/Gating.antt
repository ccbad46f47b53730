-- ===== src/Loas/Gating.antt =====
-- What is stored of the frames of the two LOAS listeners, in whatever order they come:
-- SocketDaim/ingestion_gateway/handler.
use dust_monitoring.Prelude.{ℕ, ◌≡◌, Bool, Option, List, [], ◌∷◌, ◌++◌, if◌then◌else◌, Text, ℤ}
use dust_monitoring.Loas.Words.{Bytes}
use dust_monitoring.Loas.DustFraming.{DustHeader}
use dust_monitoring.Loas.DustXml.{
  Parsed, ok, Python, DustInspectionPayload, decode_xml, parse_dust_inspection,
}
use dust_monitoring.Loas.Store.{
  Store, Dump, DustRow, CctvRow, DustWrite, insert_failed, CctvWrite, stored, Event, dust_frame,
  cctv_frame, build_path, row_of,
}

-- Whether the frames may be stored, and the target that they show.
abbrev pub Decision : Type 0
Decision = Bool × Option ℤ

abbrev cctv_row_of : ℕ → Text → Text → Bytes → CctvWrite → Decision → List CctvRow
cctv_row_of now ip resolution jpg stored (allow, target) =
    if allow then row_of now ip resolution (build_path now target) jpg ∷ [] else []
cctv_row_of now ip resolution jpg o g = []

module _ {F : Type 0} (collect : DustInspectionPayload F → Bool) where
  abbrev decided : Parsed Text → Parsed (DustInspectionPayload F) → Decision → Decision
  decided (ok raw) (ok p) g = (collect p, p.target_id)
  decided _ _ g = g

  abbrev dust_row_of :
      DustHeader → Parsed Text → Parsed (DustInspectionPayload F) → DustWrite → List (DustRow F)
  dust_row_of hdr (ok raw) (ok p) insert_failed = []
  dust_row_of hdr (ok raw) (ok p) o =
      if collect p then record { header = hdr; payload = p; raw_xml = raw } ∷ [] else []
  dust_row_of hdr _ _ o = []

module _ {F : Type 0} (py : Python F) (collect : DustInspectionPayload F → Bool) where
  -- The decision of the DUST frame that came last of those that can be read.
  abbrev pub decision : Event → Decision → Decision
  decision (dust_frame now hdr body o) g =
      decided collect (decode_xml py body) (parse_dust_inspection py body) g
  decision (cctv_frame now ip resolution jpg o) g = g

  -- The DUST rows of the frames that can be read, are collected, and are taken by the database.
  abbrev pub dust_rows_of : List Event → List (DustRow F)
  dust_rows_of [] = []
  dust_rows_of (dust_frame now hdr body o ∷ es) =
      dust_row_of collect hdr (decode_xml py body) (parse_dust_inspection py body) o
      ++ dust_rows_of es
  dust_rows_of (cctv_frame now ip resolution jpg o ∷ es) = dust_rows_of es

  -- The CCTV rows of the frames that come while the decision is to store, and that can be stored;
  -- each names the target of that decision.
  abbrev pub cctv_rows_of : Decision → List Event → List CctvRow
  cctv_rows_of g [] = []
  cctv_rows_of g (dust_frame now hdr body o ∷ es) =
      cctv_rows_of (decision (dust_frame now hdr body o) g) es
  cctv_rows_of g (cctv_frame now ip resolution jpg o ∷ es) =
      cctv_row_of now ip resolution jpg o g ++ cctv_rows_of g es

module _ {F : Type 0} where
  abbrev pub decision_of : Store F → Decision
  decision_of s = (s.allow_save, s.target_id)

  -- A store with other rows at the end, and with the decision `g`.
  record Step (s : Store F) (g : Decision) (ds : List (DustRow F)) (cs : List CctvRow) (t : Store F)
      : Type 0 where
    decides : decision_of t ≡ g
    dust : t.dust_rows ≡ s.dust_rows ++ ds
    cctv : t.cctv_rows ≡ s.cctv_rows ++ cs

module _ {F : Type 0} (py : Python F) (collect : DustInspectionPayload F → Bool) (d : Dump) where
  -- The decision after the frames `es`.
  abbrev pub decision_after : Decision → List Event → Decision
  decision_after g [] = g
  decision_after g (e ∷ es) = decision_after (decision py collect e g) es
