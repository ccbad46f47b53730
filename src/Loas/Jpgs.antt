-- ===== src/Loas/Jpgs.antt =====
-- The files of the CCTV frames and their rows: SocketDaim/ingestion_gateway/handler/loas_cctv_handler.py.
use dust_monitoring.Prelude.{ℕ, suc, ◌/◌, ◌≤◌, ◌<◌, ◌≡◌, some, List, [], ◌∷◌, length, All}
use dust_monitoring.Loas.Words.{Bytes}
use dust_monitoring.Loas.Store.{Store, CctvRow, Event, dust_frame, cctv_frame, JpgPath, read_jpg}

-- The file of a row is there, with as many bytes as the row says.
abbrev pub HasFile : List (JpgPath × Bytes) → CctvRow → Type 0
HasFile jpgs r = (b : Bytes) × ((read_jpg r.file_path jpgs ≡ some b) × (length b ≡ r.byte_size))

-- So it is for a row of a millisecond before n.
abbrev pub Filed : ℕ → List (JpgPath × Bytes) → CctvRow → Type 0
Filed n jpgs r = (r.file_path.millisecond < n) × HasFile jpgs r

-- The CCTV frames come from the millisecond n on, no two of them in one.
abbrev pub Rising : ℕ → List Event → Type 0
Rising n [] = Unit
Rising n (dust_frame now hdr body o ∷ es) = Rising n es
Rising n (cctv_frame now ip resolution jpg o ∷ es) = (n ≤ now / 1000) × Rising (suc (now / 1000)) es

module _ {F : Type 0} where
  abbrev AllFiled : ℕ → Store F → Type 0
  AllFiled n s = All (Filed n s.jpgs) s.cctv_rows

  -- A DUST frame leaves the CCTV rows and their files alone.
  record Untouched (s t : Store F) : Type 0 where
    rows : t.cctv_rows ≡ s.cctv_rows
    files : t.jpgs ≡ s.jpgs
