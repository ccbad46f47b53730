-- ===== src/Transfer/Overflow.antt =====
-- A full batch that fails while one of its rows is over the retry cap: the dead letter counts as
-- progress, and the rows left at the waypoint are purged, the failed ones among them.
use dust_monitoring.Prelude.{
  ℕ, ◌+◌, ◌≤◌, ◌<◌, ◌≡◌, refl, ◌∙◌, Bool, true, false, not, ◌&&◌, ◌||◌, List, [], ◌∷◌, ltb, ◌==◌,
  ==_iff, lt→ltb, if◌then◌else◌, length, any, All, arith, Bool-cases, inl, inr, Text, ℤ,
  keep-passes, All-map, take,
}
use dust_monitoring.Transfer.Floats.{Floats}
use dust_monitoring.Transfer.Tables.{QueueRow, State}
use dust_monitoring.Transfer.Queue.{
  join, at_waypoint, delete, bump_attempts, fetch_batch_for_waypoint, purge_waypoint_remainder,
}
use dust_monitoring.Transfer.Batch.{
  Env, dead_letter, handle_failure, fail_all, cleared, process_waypoint_batch, count_discarded,
}
use dust_monitoring.Transfer.Contents.{dead, holds_letter-put_letter}
use dust_monitoring.Transfer.Failure.{decisions-fail_all}
use dust_monitoring.Transfer.Claims.{fetch_batch_for_waypoint-IsClaim}
use dust_monitoring.Transfer.Delivery.{HasImages, Fails, process_batch_rows-fail_all}

module _ {F : Type 0} (env : Env F) where
  -- The row goes to the dead letters when its batch fails.
  abbrev pub is_dead_lettered : QueueRow F → Bool
  is_dead_lettered r = ltb env.max_attempts (r.attempts + 1) && env.dlq_up r.frame_id

  cleared-handle_failure :
      (r : QueueRow F) (s : State F)
      → cleared (handle_failure env r s) ≡ cleared s + (if is_dead_lettered r then 1 else 0)
  unfolding handle_failure dead_letter delete bump_attempts
  cleared-handle_failure r s = elim (Bool-cases (is_dead_lettered r)) [
    | inl e ↦ rw e (omega arith)
    | inr e ↦ rw e (omega arith)
  ]

  cleared-le-fail_all :
      (rs : List (QueueRow F)) (s : State F) → cleared s ≤ cleared (fail_all env rs s)
  unfolding fail_all
  cleared-le-fail_all [] s = omega arith
  cleared-le-fail_all (r ∷ rs) s =
      omega (arith, cleared-le-fail_all rs (handle_failure env r s), cleared-handle_failure r s)

  cleared-lt-fail_all :
      (rs : List (QueueRow F)) (s : State F)
      → any is_dead_lettered rs ≡ true
      → cleared s < cleared (fail_all env rs s)
  unfolding fail_all
  cleared-lt-fail_all [] s h = cc
  cleared-lt-fail_all (r ∷ rs) s h = elim (Bool-cases (is_dead_lettered r)) [
    | inl e ↦
        let c = cleared-handle_failure r s in
        let c' : cleared (handle_failure env r s) ≡ cleared s + 1 = rw e at c in
        omega (arith, c', cleared-le-fail_all rs (handle_failure env r s))
    | inr e ↦
        let more = cleared-lt-fail_all rs (handle_failure env r s) (rw e at h) in
        omega (arith, cleared-handle_failure r s, more)
  ]

  dead-handle_failure :
      (i : ℕ) (r : QueueRow F) (s : State F)
      → dead i (handle_failure env r s) ≡ (dead i s || (r.frame_id == i && is_dead_lettered r))
  unfolding handle_failure
  dead-handle_failure i r s = elim (Bool-cases (is_dead_lettered r)) [
    | inl e ↦ rw e (
        ground (
          arith,
          holds_letter-put_letter i
              (record {
                frame_id = r.frame_id;
                attempts = r.attempts + 1;
                last_error = take 2000 env.reason;
                source_row = r;
              })
              s.dead_letters,
        ))
    | inr e ↦ rw e (ground arith)
  ]

  dead-fail_all :
      (i : ℕ) (rs : List (QueueRow F)) (s : State F)
      → dead i (fail_all env rs s)
        ≡ (dead i s || any (λ r. r.frame_id == i && is_dead_lettered r) rs)
  unfolding fail_all
  dead-fail_all i [] s = ground arith
  dead-fail_all i (r ∷ rs) s =
      ground (arith, dead-fail_all i rs (handle_failure env r s), dead-handle_failure i r s)

module _ {F : Type 0} ⦃fl : Floats F⦄ (env : Env F) (amr : Text) (wp : ℤ) where
  purged-here :
      (s : State F)
      → All
          (λ q. not (at_waypoint amr wp (join s q)) ≡ true)
          (purge_waypoint_remainder amr wp s).0.queue
  unfolding purge_waypoint_remainder
  purged-here s = keep-passes (λ q. not (at_waypoint amr wp (join s q))) s.queue

  kept :
      (s : State F)
      → let s' = count_discarded (purge_waypoint_remainder amr wp s) in
        All (λ q. not (at_waypoint amr wp (join s' q)) ≡ true) s'.queue
  unfolding purge_waypoint_remainder join
  kept s = purged-here s

  batch-purges :
      (s : State F) (r : QueueRow F) (rs : List (QueueRow F))
      → fetch_batch_for_waypoint env.locked s amr wp env.batch ≡ r ∷ rs
      → length (r ∷ rs) ≡ env.batch
      → Fails env amr wp r rs
      → any (is_dead_lettered env) (r ∷ rs) ≡ true
      → (process_waypoint_batch env amr wp s).0
        ≡ count_discarded (purge_waypoint_remainder amr wp (fail_all env (r ∷ rs) s))
  unfolding process_waypoint_batch
  batch-purges s r rs e n f d =
      let claims = rw e at ((fetch_batch_for_waypoint-IsClaim env.locked s amr wp env.batch).0) in
      let images : HasImages (r ∷ rs) = All-map (λ q c. c.has_image) (r ∷ rs) claims in
      let grew = lt→ltb _ _ (cleared-lt-fail_all env (r ∷ rs) s d) in
      rw e (
        rw (process_batch_rows-fail_all env amr wp r rs s images f)
          (rw ((==_iff _ _).1 n) (rw grew refl)))

  -- A full batch fails, one of its rows is over the retry cap, and the dead letter of that row can be
  -- written. Then nothing is decided, no row of that AMR and waypoint is left in the queue, and a frame
  -- of the batch that is not itself dead-lettered is in the dead letters only if it was there before.
  pub process_waypoint_batch-loses :
      (s : State F) (r : QueueRow F) (rs : List (QueueRow F)) (i : ℕ)
      → fetch_batch_for_waypoint env.locked s amr wp env.batch ≡ r ∷ rs
      → length (r ∷ rs) ≡ env.batch
      → Fails env amr wp r rs
      → any (is_dead_lettered env) (r ∷ rs) ≡ true
      → any (λ q. q.frame_id == i && is_dead_lettered env q) (r ∷ rs) ≡ false
      → let s' = (process_waypoint_batch env amr wp s).0 in
        (s'.decisions ≡ s.decisions)
        × All (λ q. not (at_waypoint amr wp (join s' q)) ≡ true) s'.queue
        × (dead i s' ≡ dead i s)
  process_waypoint_batch-loses s r rs i e n f d safe = rw (batch-purges s r rs e n f d) (
      unfold purge_waypoint_remainder in
      (
        decisions-fail_all env (r ∷ rs) s,
        kept (fail_all env (r ∷ rs) s),
        dead-fail_all env i (r ∷ rs) s ∙ rw safe (ground arith),
      ))
