-- ===== src/Loas/Gate.antt =====
-- SocketDaim/ingestion_gateway/handler: loas_dust_handler.py and loas_cctv_handler.py, with the state
-- of waypoint_gate.py. The rule `should_collect` of waypoint_gate.py is the parameter `collect`, since
-- that module does not parse as it stands (a SyntaxError at its line 66).
use dust_monitoring.Prelude.{
  ℕ, Bool, not, ◌&&◌, List, [], ◌∷◌, ◌++◌, ◌+◌, ltb, if◌then◌else◌, take, Text, some,
}
use dust_monitoring.Loas.Words.{Bytes}
use dust_monitoring.Loas.DustFraming.{DustHeader}
use dust_monitoring.Loas.Store.{
  Store, Dump, DustWrite, insert_failed, inserted_but_dump_failed, CctvWrite, stored, no_file,
  cut_after, row_refused, row_refused_and_file_left, Event, dust_frame, cctv_frame, JpgPath,
  write_jpg, unlink, build_path, row_of,
}
use dust_monitoring.Loas.DustXml.{
  Parsed, ok, Python, DustInspectionPayload, decode_xml, parse_dust_inspection,
}

module _ {F : Type 0} where
  abbrev pub dump_now : ℕ → DustInspectionPayload F → Text → DustWrite → Store F → Store F
  dump_now now p raw inserted_but_dump_failed s = record s { last_dump = now }
  dump_now now p raw _ s = record s {
    last_dump = now;
    dumps = s.dumps ++ (now, (p.waypoint_id, raw)) ∷ [];
  }

  -- `_maybe_dump`
  unfoldable pub maybe_dump :
      Dump → ℕ → DustInspectionPayload F → Text → DustWrite → Store F → Store F
  maybe_dump d now p raw o s =
      if ltb 0 d.interval && ltb now (s.last_dump + d.interval) then s else dump_now now p raw o s

  abbrev pub dump_if : Dump → ℕ → DustInspectionPayload F → Text → DustWrite → Store F → Store F
  dump_if d now p raw o s = if d.enabled then maybe_dump d now p raw o s else s

  abbrev pub persist :
      Dump → ℕ → DustHeader → DustInspectionPayload F → Text → DustWrite → Store F → Store F
  persist d now hdr p raw insert_failed s = s
  persist d now hdr p raw o s = dump_if d now p raw o (record s {
    dust_rows = s.dust_rows ++ record { header = hdr; payload = p; raw_xml = raw } ∷ [];
  })

  -- The gate follows the payload, whether it is stored or not.
  abbrev pub decide : (DustInspectionPayload F → Bool) → DustInspectionPayload F → Store F → Store F
  decide collect p s = record s { allow_save = collect p; target_id = p.target_id; prev = some p }

  unfoldable pub on_payload :
      (DustInspectionPayload F → Bool)
      → Dump
      → ℕ
      → DustHeader
      → DustInspectionPayload F
      → Text
      → DustWrite
      → Store F
      → Store F
  unfolding maybe_dump
  on_payload collect d now hdr p raw o s =
      if not (collect p) then decide collect p s else persist d now hdr p raw o (decide collect p s)

  abbrev pub on_parsed :
      (DustInspectionPayload F → Bool)
      → Dump
      → ℕ
      → DustHeader
      → Parsed Text
      → Parsed (DustInspectionPayload F)
      → DustWrite
      → Store F
      → Store F
  on_parsed collect d now hdr (ok raw) (ok p) o s = on_payload collect d now hdr p raw o s
  on_parsed collect d now hdr _ _ o s = s

  -- `LoasDustHandler.on_frame`
  unfoldable pub on_dust_frame :
      Python F
      → (DustInspectionPayload F → Bool)
      → Dump
      → ℕ
      → DustHeader
      → Bytes
      → DustWrite
      → Store F
      → Store F
  unfolding decode_xml parse_dust_inspection on_payload
  on_dust_frame py collect d now hdr body o s =
      on_parsed collect d now hdr (decode_xml py body) (parse_dust_inspection py body) o s

  abbrev with_jpg : JpgPath → Bytes → Store F → Store F
  with_jpg p b s = record s { jpgs = write_jpg p b s.jpgs }

  unfoldable pub save_frame : ℕ → Text → Text → JpgPath → Bytes → CctvWrite → Store F → Store F
  unfolding write_jpg
  save_frame now ip resolution p jpg stored s = record (with_jpg p jpg s) {
    cctv_rows = s.cctv_rows ++ row_of now ip resolution p jpg ∷ [];
  }
  save_frame now ip resolution p jpg no_file s = s
  save_frame now ip resolution p jpg (cut_after k) s = with_jpg p (take k jpg) s
  save_frame now ip resolution p jpg row_refused s = record s {
    jpgs = unlink p (write_jpg p jpg s.jpgs);
  }
  save_frame now ip resolution p jpg row_refused_and_file_left s = with_jpg p jpg s

  -- `LoasCctvHandler.on_frame`
  unfoldable pub on_cctv_frame : ℕ → Text → Text → Bytes → CctvWrite → Store F → Store F
  unfolding save_frame
  on_cctv_frame now ip resolution jpg o s =
      if not s.allow_save
      then s
      else save_frame now ip resolution (build_path now s.target_id) jpg o s

  -- One frame of either listener: the handlers run on one event loop, and share the gate.
  unfoldable pub on_event :
      Python F → (DustInspectionPayload F → Bool) → Dump → Event → Store F → Store F
  unfolding on_dust_frame on_cctv_frame
  on_event py collect d (dust_frame now hdr body o) s = on_dust_frame py collect d now hdr body o s
  on_event py collect d (cctv_frame now ip resolution jpg o) s =
      on_cctv_frame now ip resolution jpg o s

  unfoldable pub on_events :
      Python F → (DustInspectionPayload F → Bool) → Dump → List Event → Store F → Store F
  unfolding on_event
  on_events py collect d [] s = s
  on_events py collect d (e ∷ es) s = on_events py collect d es (on_event py collect d e s)
