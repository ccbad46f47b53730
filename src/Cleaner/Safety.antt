-- ===== src/Cleaner/Safety.antt =====
-- A frame leaves the table only when its file is gone.
use dust_monitoring.Prelude.{
  ℕ, zero, suc, ◌≡◌, refl, sym, ap, subst, Bool, true, false, not, ◌&&◌, ◌||◌, Option, none, some,
  List, [], ◌∷◌, any, ◌==◌, ==_iff, ltb, if◌then◌else◌, length, sort_by-All, take-All, keep-All,
  Text, arith, All, Bool-cases, inl, inr,
}
use dust_monitoring.Cleaner.Frames.{
  Frame, Purge, Disk, unlink_rows, older, oldest, delete_frames, settle, purge_batch, next,
  purge_all_loop, start, purge_all_frames, is_reached, emergency_loop, emergency_at,
  emergency_purge,
}
use dust_monitoring.Cleaner.Unlinking.{in_table, is_unlinked, Placed, backed, unlink_rows-backed}

any-delete_frames :
    (i : ℕ) (ids : List ℕ) (rows : List Frame)
    → in_table i (delete_frames ids rows) ≡ (in_table i rows && not (any (λ j. j == i) ids))
unfolding delete_frames
any-delete_frames i ids [] = refl
any-delete_frames i ids (r ∷ rs) =
    let same : (r.id == i) ≡ true → any (λ j. j == r.id) ids ≡ any (λ j. j == i) ids =
      λ h. ap (λ k. any (λ j. j == k) ids) ((==_iff r.id i).0 h) in
    ground (arith, any-delete_frames i ids rs, same)

oldest-Placed :
    (disk : Disk) (path_of : ℕ → Text) (batch : ℕ) (rows : List Frame)
    → Placed disk path_of rows
    → Placed disk path_of (oldest batch rows)
unfolding oldest
oldest-Placed disk path_of batch rows p = take-All _ batch _ (sort_by-All older _ rows p)

module _ (disk : Disk) (path_of : ℕ → Text) where
  -- The frame is in the table or its file is gone.
  abbrev held : ℕ → Purge → Bool
  held i s = in_table i s.frames || is_unlinked (path_of i) s.attempts

  settle-held :
      (i found : ℕ) (s : Purge) (x : List ℕ × Purge)
      → Placed disk path_of s.frames
      → held i s ≡ true
      → backed disk path_of i x ≡ true
      → x.1.frames ≡ s.frames
      → (is_unlinked (path_of i) s.attempts ≡ true → is_unlinked (path_of i) x.1.attempts ≡ true)
      → (held i (settle found s x).1 ≡ true) × Placed disk path_of (settle found s x).1.frames
  unfolding settle
  settle-held i found s (ids, s') p h b f u = elim (Bool-cases (found == 0)) [
    | inl e ↦ rw e (h, p)
    | inr e ↦ elim (Bool-cases (length ids == 0)) [
      | inl g ↦
          rw e
            (rw g (ground (arith, h, u, ap (in_table i) f), subst (Placed disk path_of) (sym f) p))
      | inr g ↦ rw e (
          rw g (
            ground (arith, h, u, b, ap (in_table i) f, any-delete_frames i ids s'.frames),
            keep-All _ _ s'.frames (subst (Placed disk path_of) (sym f) p),
          ))
    ]
  ]

  purge_batch-held :
      (i batch : ℕ) (s : Purge)
      → Placed disk path_of s.frames
      → held i s ≡ true
      → (held i (purge_batch disk batch s).1 ≡ true)
        × Placed disk path_of (purge_batch disk batch s).1.frames
  unfolding purge_batch
  purge_batch-held i batch s p h =
      let rows = oldest batch s.frames in
      let (b, (f, u)) =
        unlink_rows-backed disk path_of i rows ([], s) (oldest-Placed disk path_of batch s.frames p)
          refl in
      settle-held i (length rows) s (unlink_rows disk rows ([], s)) p h b f u

  purge_all_loop-held :
      (n i batch : ℕ) (s : Purge)
      → Placed disk path_of s.frames
      → held i s ≡ true
      → held i (purge_all_loop n disk batch s) ≡ true
  unfolding purge_all_loop
  purge_all_loop-held zero i batch s p h = h
  purge_all_loop-held (suc n) i batch s p h =
      let (h', p') = purge_batch-held i batch (next s) p h in
      elim (Bool-cases (purge_batch disk batch (next s)).0) [
        | inl e ↦ rw e (purge_all_loop-held n i batch (purge_batch disk batch (next s)).1 p' h')
        | inr e ↦ rw e h'
      ]

  emergency_loop-held :
      (n i target batch : ℕ) (s : Purge)
      → Placed disk path_of s.frames
      → held i s ≡ true
      → held i (emergency_loop n disk target batch s) ≡ true
  unfolding emergency_loop
  emergency_loop-held zero i target batch s p h = h
  emergency_loop-held (suc n) i target batch s p h =
      let (h', p') = purge_batch-held i batch (next s) p h in
      elim (Bool-cases (is_reached target (disk.percent (suc s.iterations)))) [
        | inl r ↦ rw r h
        | inr r ↦ elim (Bool-cases (purge_batch disk batch (next s)).0) [
          | inl e ↦ rw r (
              rw e (emergency_loop-held n i target batch (purge_batch disk batch (next s)).1 p' h'))
          | inr e ↦ rw r (rw e h')
        ]
      ]

-- No file is orphaned by the manual purge: a frame that was in the table is still in it, or an
-- unlink of its path has been answered by "done" or "not found". The path of an id is `path_of`.
pub purge_all_frames-held :
    (disk : Disk) (path_of : ℕ → Text) (batch i : ℕ) (rows : List Frame)
    → All (λ r. r.file_path ≡ path_of r.id) rows
    → in_table i rows ≡ true
    → (in_table i (purge_all_frames disk batch rows).frames
        || is_unlinked (path_of i) (purge_all_frames disk batch rows).attempts)
      ≡ true
unfolding purge_all_frames
purge_all_frames-held disk path_of batch i rows p h =
    purge_all_loop-held disk path_of 100000 i batch (start rows) p (rw h refl)

pick-held :
    (path_of : ℕ → Text) (i : ℕ) (b : Bool) (x y : Bool × Purge)
    → (in_table i x.1.frames || is_unlinked (path_of i) x.1.attempts) ≡ true
    → (in_table i y.1.frames || is_unlinked (path_of i) y.1.attempts) ≡ true
    → (in_table i (if b then x else y).1.frames
        || is_unlinked (path_of i) (if b then x else y).1.attempts)
      ≡ true
pick-held path_of i true x y h g = h
pick-held path_of i false x y h g = g

emergency_at-held :
    (disk : Disk) (path_of : ℕ → Text) (threshold target batch i : ℕ) (rows : List Frame)
    → All (λ r. r.file_path ≡ path_of r.id) rows
    → in_table i rows ≡ true
    → (o : Option ℕ)
    → (in_table i (emergency_at disk threshold target batch rows o).1.frames
        || is_unlinked (path_of i) (emergency_at disk threshold target batch rows o).1.attempts)
      ≡ true
unfolding emergency_at
emergency_at-held disk path_of threshold target batch i rows p h none = rw h refl
emergency_at-held disk path_of threshold target batch i rows p h (some q) =
    pick-held path_of i (ltb q threshold) (false, start rows)
      (true, emergency_loop 1000 disk target batch (start rows)) (rw h refl)
      (emergency_loop-held disk path_of 1000 i target batch (start rows) p (rw h refl))

-- No file is orphaned by the emergency purge, whatever the disk says of its usage, and when: a
-- frame that was in the table is still in it, or an unlink of its path has been answered by "done"
-- or "not found". The path of an id is `path_of`.
pub emergency_purge-held :
    (disk : Disk) (path_of : ℕ → Text) (threshold target batch i : ℕ) (rows : List Frame)
    → All (λ r. r.file_path ≡ path_of r.id) rows
    → in_table i rows ≡ true
    → (in_table i (emergency_purge disk threshold target batch rows).1.frames
        || is_unlinked (path_of i) (emergency_purge disk threshold target batch rows).1.attempts)
      ≡ true
unfolding emergency_purge
emergency_purge-held disk path_of threshold target batch i rows p h =
    emergency_at-held disk path_of threshold target batch i rows p h (disk.percent 0)
