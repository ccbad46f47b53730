-- ===== src/Gateway/Correlator.antt =====
-- SocketDaim/ingestion_gateway/correlator.py: the statement _PAIR_SQL and `tick`. Times and windows
-- are microseconds.
use dust_monitoring.Prelude.{
  ℕ, ◌+◌, ◌-◌, Bool, ◌&&◌, not, Option, none, some, is_some, List, [], ◌∷◌, map, keep, ltb, leb,
  if◌then◌else◌, length,
}

pub record Frame : Type 0 where
  pub id : ℕ
  pub received_at : ℕ
  pub dust_inspection_id : Option ℕ
  pub paired_at : Option ℕ

pub record Inspection : Type 0 where
  pub id : ℕ
  pub received_at : ℕ

pub record Window : Type 0 where
  pub before : ℕ
  pub after : ℕ
  pub lookback : ℕ

-- `received_at BETWEEN di.received_at - before AND di.received_at + after`
abbrev pub in_window : Window → Frame → Inspection → Bool
in_window w f d =
    leb d.received_at (f.received_at + w.before) && leb f.received_at (d.received_at + w.after)

abbrev pub wants_pair : Window → ℕ → Frame → Bool
wants_pair w now f = not (is_some f.dust_inspection_id) && ltb now (f.received_at + w.lookback)

abbrev pub distance : Frame → Inspection → ℕ
distance f d = (f.received_at - d.received_at) + (d.received_at - f.received_at)

abbrev pub nearer : Frame → Inspection → Option Inspection → Option Inspection
nearer f d none = some d
nearer f d (some e) = if leb (distance f d) (distance f e) then some d else some e

-- DISTINCT ON with ORDER BY the distance.
unfoldable pub nearest : Frame → List Inspection → Option Inspection
nearest f [] = none
nearest f (d ∷ ds) = nearer f d (nearest f ds)

unfoldable pub pair_of : Window → ℕ → List Inspection → Frame → Option Inspection
unfolding nearest
pair_of w now inspections f =
    if wants_pair w now f then nearest f (keep (in_window w f) inspections) else none

abbrev pub paired : ℕ → Frame → Option Inspection → Frame
paired now f none = f
paired now f (some d) = record f { dust_inspection_id = some d.id; paired_at = some now }

-- The number of the frames paired, and the table after.
unfoldable pub tick : Window → ℕ → List Inspection → List Frame → ℕ × List Frame
unfolding pair_of
tick w now inspections frames = (
  length (keep (λ f. is_some (pair_of w now inspections f)) frames),
  map (λ f. paired now f (pair_of w now inspections f)) frames,
)
