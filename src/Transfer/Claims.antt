-- ===== src/Transfer/Claims.antt =====
-- Which rows a waypoint batch claims.
use dust_monitoring.Prelude.{
  ℕ, ◌≤◌, ◌≡◌, Bool, true, false, not, List, [], ◌∷◌, map, length, keep, All, arith, Bool-cases,
  inl, inr, Text, ℤ, take-All, All-map, sort_by-All, sort_by, length-take,
}
use dust_monitoring.Transfer.Tables.{Entry, QueueRow, State}
use dust_monitoring.Transfer.Queue.{join, is_orphan, at_waypoint, older, fetch_batch_for_waypoint}
use dust_monitoring.Transfer.Contents.{holds, queued}

module _ {F : Type 0} (locked : ℕ → Bool) (s : State F) (amr : Text) (wp : ℤ) where
  -- What is known of a claimed row.
  pub record IsClaim (r : QueueRow F) : Type 0 where
    pub here : at_waypoint amr wp r ≡ true
    pub free : locked r.frame_id ≡ false
    pub in_queue : queued r.frame_id s ≡ true
    pub has_image : is_orphan r ≡ false

  has_image_here : (q : Entry) → at_waypoint amr wp (join s q) ≡ true → is_orphan (join s q) ≡ false
  unfolding at_waypoint join is_orphan
  has_image_here q h = ground arith

  joined : (l : List Entry) → All (λ r. holds r.frame_id l ≡ true) (map (join s) l)
  unfolding join
  joined [] = tt
  joined (q ∷ l) = (ground arith, All-map (λ r h. ground arith) (map (join s) l) (joined l))

  abbrev Found : QueueRow F → Type 0
  Found r = (at_waypoint amr wp r ≡ true) × (queued r.frame_id s ≡ true) × (is_orphan r ≡ false)

  Found-ok :
      (l : List Entry)
      → All (λ r. queued r.frame_id s ≡ true) (map (join s) l)
      → All Found (keep (at_waypoint amr wp) (map (join s) l))
  Found-ok [] h = tt
  Found-ok (q ∷ l) (a, h) = elim (Bool-cases (at_waypoint amr wp (join s q))) [
    | inl e ↦ rw e ((e, a, has_image_here q e), Found-ok l h)
    | inr e ↦ rw e (Found-ok l h)
  ]

  unlocked_ok :
      (rs : List (QueueRow F)) → All Found rs → All IsClaim (keep (λ r. not (locked r.frame_id)) rs)
  unlocked_ok [] h = tt
  unlocked_ok (r ∷ rs) ((a, b, c), h) = elim (Bool-cases (locked r.frame_id)) [
    | inl e ↦ rw e (unlocked_ok rs h)
    | inr e ↦ rw e (record { here = a; free = e; in_queue = b; has_image = c }, unlocked_ok rs h)
  ]

  -- Every row that a waypoint batch claims is a queued row of that AMR and waypoint that no other
  -- consumer holds, and it has its frame; there are at most as many as the limit.
  pub fetch_batch_for_waypoint-IsClaim :
      (limit : ℕ)
      → All IsClaim (fetch_batch_for_waypoint locked s amr wp limit)
        × (length (fetch_batch_for_waypoint locked s amr wp limit) ≤ limit)
  unfolding fetch_batch_for_waypoint
  fetch_batch_for_waypoint-IsClaim limit = (
    take-All IsClaim limit _
        (unlocked_ok _ (sort_by-All older Found _ (Found-ok s.queue (joined s.queue)))),
    omega (
      arith,
      length-take limit (
          keep (λ r. not (locked r.frame_id))
            (sort_by older (keep (at_waypoint amr wp) (map (join s) s.queue)))),
    ),
  )
