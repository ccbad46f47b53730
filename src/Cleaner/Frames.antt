-- ===== src/Cleaner/Frames.antt =====
-- SocketDaim/cleaner/cleanup.py, `emergency_purge` and `purge_all_frames`. Percents are tenths.
use dust_monitoring.Prelude.{
  ℕ, zero, suc, Bool, true, false, not, Option, none, some, List, [], ◌∷◌, ◌++◌, any, keep, take,
  ◌==◌, ltb, leb, if◌then◌else◌, length, sort_by, Text,
}

pub record Frame : Type 0 where
  pub id : ℕ
  pub file_path : Text
  pub received_at : ℕ

-- `os.unlink`: done, `FileNotFoundError`, or another `OSError`.
pub data Unlink : Type 0 where
  done file_not_found os_error : Unlink

-- The table cctv_frame, the attempts to unlink so far with their outcomes, and the counts.
pub record Purge : Type 0 where
  pub frames : List Frame
  pub attempts : List (Text × Unlink)
  pub deleted : ℕ
  pub unlink_failures : ℕ
  pub iterations : ℕ

-- What the n-th unlink of a path does, and what the n-th `_disk_percent` says.
pub record Disk : Type 0 where
  pub unlink : ℕ → Text → Unlink
  pub percent : ℕ → Option ℕ

abbrev pub is_gone : Unlink → Bool
is_gone done = true
is_gone file_not_found = true
is_gone os_error = false

-- One round of the loop over the fetched rows, with the ids to delete so far.
abbrev pub counted : Unlink → Purge → Purge
counted done s = record s { deleted = suc s.deleted }
counted file_not_found s = s
counted os_error s = record s { unlink_failures = suc s.unlink_failures }

unfoldable pub unlink_row : Disk → Frame → List ℕ × Purge → List ℕ × Purge
unlink_row disk r (ids, s) =
    let o = disk.unlink (length s.attempts) r.file_path in
    (
      if is_gone o then ids ++ r.id ∷ [] else ids,
      record (counted o s) { attempts = s.attempts ++ (r.file_path, o) ∷ [] },
    )

unfoldable pub unlink_rows : Disk → List Frame → List ℕ × Purge → List ℕ × Purge
unfolding unlink_row
unlink_rows disk [] s = s
unlink_rows disk (r ∷ rs) s = unlink_rows disk rs (unlink_row disk r s)

abbrev pub older : Frame → Frame → Bool
older a b = leb a.received_at b.received_at

unfoldable pub oldest : ℕ → List Frame → List Frame
oldest batch rows = take batch (sort_by older rows)

unfoldable pub delete_frames : List ℕ → List Frame → List Frame
delete_frames ids rows = keep (λ r. not (any (λ i. i == r.id) ids)) rows

-- After the rows: the loop goes on only if a row can be deleted.
unfoldable pub settle : ℕ → Purge → List ℕ × Purge → Bool × Purge
unfolding delete_frames
settle found s (ids, s') =
    if found == 0
    then (false, s)
    else if length ids == 0
    then (false, s')
    else (true, record s' { frames = delete_frames ids s'.frames })

-- The body of the loop from the fetch on.
unfoldable pub purge_batch : Disk → ℕ → Purge → Bool × Purge
unfolding oldest unlink_rows settle
purge_batch disk batch s =
    let rows = oldest batch s.frames in settle (length rows) s (unlink_rows disk rows ([], s))

abbrev pub next : Purge → Purge
next s = record s { iterations = suc s.iterations }

-- `while iterations < max_iterations`, on the iterations left.
unfoldable pub purge_all_loop : ℕ → Disk → ℕ → Purge → Purge
unfolding purge_batch
purge_all_loop zero disk batch s = s
purge_all_loop (suc n) disk batch s =
    let (go_on, s') = purge_batch disk batch (next s) in
    let rest = purge_all_loop n disk batch s' in if go_on then rest else s'

abbrev pub start : List Frame → Purge
start rows = record {
  frames = rows;
  attempts = [];
  deleted = 0;
  unlink_failures = 0;
  iterations = 0;
}

unfoldable pub purge_all_frames : Disk → ℕ → List Frame → Purge
unfolding purge_all_loop
purge_all_frames disk batch rows = purge_all_loop 100000 disk batch (start rows)

abbrev pub is_reached : ℕ → Option ℕ → Bool
is_reached target none = true
is_reached target (some p) = leb p target

unfoldable pub emergency_loop : ℕ → Disk → ℕ → ℕ → Purge → Purge
unfolding purge_batch
emergency_loop zero disk target batch s = s
emergency_loop (suc n) disk target batch s =
    let (go_on, s') = purge_batch disk batch (next s) in
    let rest = emergency_loop n disk target batch s' in
    if is_reached target (disk.percent (suc s.iterations))
    then next s
    else if go_on
    then rest
    else s'

-- The Boolean is `activated`; the percent measured at the end, which only goes into the report, is
-- left out.
unfoldable pub emergency_at : Disk → ℕ → ℕ → ℕ → List Frame → Option ℕ → Bool × Purge
unfolding emergency_loop
emergency_at disk threshold target batch rows none = (false, start rows)
emergency_at disk threshold target batch rows (some p) =
    if ltb p threshold
    then (false, start rows)
    else (true, emergency_loop 1000 disk target batch (start rows))

unfoldable pub emergency_purge : Disk → ℕ → ℕ → ℕ → List Frame → Bool × Purge
unfolding emergency_at
emergency_purge disk threshold target batch rows =
    emergency_at disk threshold target batch rows (disk.percent 0)
