-- ===== src/Gateway/Tests.antt =====
-- Runs of the gateway's protocol and of the correlator, and the theorems about them there.
use dust_monitoring.Prelude.{
  ◌≡◌, refl, true, none, some, List, [], ◌∷◌, ◌++◌, All, arith, leb, if◌then◌else◌, length, take,
  keep, ◌≤◌,
}
use dust_monitoring.Loas.Words.{Bytes}
use dust_monitoring.Gateway.Wire.{
  heartbeat, closed, silent, frame, payload_too_large, cut_short, max_payload_size, read_frame,
  write_frame,
}
use dust_monitoring.Gateway.Framing.{read_frame-write_frame, read_frame-truncated}
use dust_monitoring.Gateway.Correlator.{
  Frame, Inspection, Window, in_window, wants_pair, distance, pair_of,
}
use dust_monitoring.Gateway.Pairing.{pair_of-nearest}

abbrev braces : Bytes
braces = 123 ∷ 125 ∷ []

abbrev beat : Bytes
beat = 0 ∷ 0 ∷ 0 ∷ 2 ∷ 0 ∷ 0 ∷ 15 ∷ 0 ∷ 123 ∷ 125 ∷ []

write_beat : write_frame heartbeat braces ≡ some beat
unfolding write_frame
write_beat = refl

read_frame-write_frame_example : read_frame closed (beat ++ 9 ∷ []) ≡ (
    if leb (length braces) max_payload_size
    then frame heartbeat braces (9 ∷ [])
    else payload_too_large)
read_frame-write_frame_example =
    read_frame-write_frame closed heartbeat braces beat (9 ∷ []) write_beat

read_frame-truncated_example : read_frame silent (take 9 beat) ≡ cut_short silent
read_frame-truncated_example =
    read_frame-truncated silent heartbeat braces beat 9 write_beat (omega arith) (omega arith)

abbrev window : Window
window = record { before = 2000000; after = 2000000; lookback = 600000000 }

abbrev cctv_frame : Frame
cctv_frame = record { id = 1; received_at = 10000000; dust_inspection_id = none; paired_at = none }

abbrev far : Inspection
far = record { id = 5; received_at = 8500000 }

abbrev near : Inspection
near = record { id = 6; received_at = 10700000 }

abbrev measurements : List Inspection
measurements = far ∷ near ∷ record { id = 7; received_at = 90000000 } ∷ []

paired_near : pair_of window 20000000 measurements cctv_frame ≡ some near
unfolding pair_of
paired_near = refl

pair_of-nearest_example :
    (wants_pair window 20000000 cctv_frame ≡ true)
    × ((in_window window cctv_frame near ≡ true)
        × All
            (λ e. distance cctv_frame near ≤ distance cctv_frame e)
            (keep (in_window window cctv_frame) measurements))
pair_of-nearest_example = pair_of-nearest window 20000000 measurements cctv_frame near paired_near
