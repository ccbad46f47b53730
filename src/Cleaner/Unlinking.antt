-- ===== src/Cleaner/Unlinking.antt =====
-- What a round over the fetched frames collects for deletion is gone from the disk.
use dust_monitoring.Prelude.{
  ℕ, ◌≡◌, refl, ap, ◌∙◌, Bool, true, not, ◌&&◌, ◌||◌, List, [], ◌∷◌, any, ◌==◌, ==_iff, length,
  any-append, Text, equal, equal_iff, arith, All,
}
use dust_monitoring.Cleaner.Frames.{
  Frame, Unlink, done, file_not_found, os_error, Purge, Disk, is_gone, counted, unlink_row,
  unlink_rows,
}

abbrev pub in_table : ℕ → List Frame → Bool
in_table i = any (λ r. r.id == i)

-- An unlink of the path has been answered by "done" or "not found".
abbrev pub is_unlinked : Text → List (Text × Unlink) → Bool
is_unlinked p = any (λ a. equal a.0 p && is_gone a.1)

counted-frames : (o : Unlink) (s : Purge) → (counted o s).frames ≡ s.frames
counted-frames done s = refl
counted-frames file_not_found s = refl
counted-frames os_error s = refl

counted-attempts : (o : Unlink) (s : Purge) → (counted o s).attempts ≡ s.attempts
counted-attempts done s = refl
counted-attempts file_not_found s = refl
counted-attempts os_error s = refl

module _ (disk : Disk) (path_of : ℕ → Text) where
  abbrev pub Placed : List Frame → Type 0
  Placed = All (λ r. r.file_path ≡ path_of r.id)

  -- What is collected for deletion is gone from the disk.
  abbrev pub backed : ℕ → List ℕ × Purge → Bool
  backed i (ids, s) = not (any (λ j. j == i) ids) || is_unlinked (path_of i) s.attempts

  same_path :
      (i : ℕ) (r : Frame)
      → r.file_path ≡ path_of r.id
      → (r.id == i) ≡ true
      → equal r.file_path (path_of i) ≡ true
  same_path i r e h = (equal_iff r.file_path (path_of i)).1 (e ∙ ap path_of ((==_iff r.id i).0 h))

  unlink_row-backed :
      (i : ℕ) (r : Frame) (x : List ℕ × Purge)
      → r.file_path ≡ path_of r.id
      → backed i x ≡ true
      → (backed i (unlink_row disk r x) ≡ true)
        × (((unlink_row disk r x).1.frames ≡ x.1.frames)
            × (is_unlinked (path_of i) x.1.attempts ≡ true
                → is_unlinked (path_of i) (unlink_row disk r x).1.attempts ≡ true))
  unfolding unlink_row
  unlink_row-backed i r (ids, s) e h =
      let o = disk.unlink (length s.attempts) r.file_path in
      (
        ground (
          arith,
          any-append (λ j. j == i) ids (r.id ∷ []),
          same_path i r e,
          any-append (λ a. equal a.0 (path_of i) && is_gone a.1) s.attempts ((r.file_path, o) ∷ []),
        ),
        (
          counted-frames o s,
          λ u. ground (
            arith,
            any-append (λ a. equal a.0 (path_of i) && is_gone a.1) s.attempts
                ((r.file_path, o) ∷ []),
            u,
          ),
        ),
      )

  pub unlink_rows-backed :
      (i : ℕ) (rs : List Frame) (x : List ℕ × Purge)
      → Placed rs
      → backed i x ≡ true
      → (backed i (unlink_rows disk rs x) ≡ true)
        × (((unlink_rows disk rs x).1.frames ≡ x.1.frames)
            × (is_unlinked (path_of i) x.1.attempts ≡ true
                → is_unlinked (path_of i) (unlink_rows disk rs x).1.attempts ≡ true))
  unfolding unlink_rows
  unlink_rows-backed i [] x p h = (h, (refl, λ u. u))
  unlink_rows-backed i (r ∷ rs) x (e, p) h =
      let (b, (f, u)) = unlink_row-backed i r x e h in
      let (b', (f', u')) = unlink_rows-backed i rs (unlink_row disk r x) p b in
      (b', (f' ∙ f, λ y. u' (u y)))
