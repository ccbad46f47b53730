-- ===== src/Transfer/Idempotence.antt =====
-- decision_record holds at most one row for a measurement, however often batches are re-delivered.
use dust_monitoring.Prelude.{
  ℕ, ◌≡◌, refl, ◌∙◌, Bool, false, not, ◌&&◌, Option, none, some, List, [], ◌∷◌, ◌++◌, ltb, leb,
  ◌==◌, length, keep, any, arith, Bool-cases, inl, inr, Text, ℤ, any-append, eq_int,
}
use dust_monitoring.Transfer.Floats.{Floats}
use dust_monitoring.Transfer.Tables.{QueueRow, State, Decision}
use dust_monitoring.Transfer.Queue.{
  delete, is_orphan, fetch_batch_for_waypoint, purge_waypoint_remainder, sweep_stale,
  fetch_current_waypoints,
}
use dust_monitoring.Transfer.Batch.{
  Env, insert_decision, same_dust, purge_orphans, settle, send, cleared, process_batch_rows,
  process_waypoint_batch, count_orphan,
}
use dust_monitoring.Transfer.Transition.{last_waypoint, visit, visit_all, count_transition, poll}
use dust_monitoring.Transfer.Contents.{stored}
use dust_monitoring.Transfer.Failure.{decisions-fail_all}
use dust_monitoring.Transfer.Delivery.{delete_all-rest}

module _ {F : Type 0} where
  abbrev pub IsUnique : List (Decision F) → Type 0
  IsUnique [] = Unit
  IsUnique (d ∷ ds) = (any (λ e. same_dust e.dust_id d.dust_id) ds ≡ false) × IsUnique ds

  IsUnique-append :
      (d : Decision F) (ds : List (Decision F))
      → IsUnique ds
      → any (λ e. same_dust e.dust_id d.dust_id) ds ≡ false
      → IsUnique (ds ++ d ∷ [])
  IsUnique-append d [] u h = (refl, tt)
  IsUnique-append d (e ∷ ds) (a, u) h = (
    any-append (λ x. same_dust x.dust_id e.dust_id) ds (d ∷ []) ∙ rw a (ground arith),
    IsUnique-append d ds u (ground arith),
  )

  insert_decision-IsUnique :
      (d : Decision F) (s : State F)
      → IsUnique s.decisions
      → IsUnique (insert_decision d s).decisions
  unfolding insert_decision
  insert_decision-IsUnique d s u = elim (Bool-cases (stored d.dust_id s)) [
    | inl e ↦ rw e u
    | inr e ↦ rw e (IsUnique-append d s.decisions u e)
  ]

  decisions-purge_orphans :
      (rs : List (QueueRow F)) (s : State F) → (purge_orphans rs s).decisions ≡ s.decisions
  unfolding purge_orphans delete
  decisions-purge_orphans [] s = refl
  decisions-purge_orphans (r ∷ rs) s =
      decisions-purge_orphans rs (count_orphan (delete r.frame_id s))

module _ {F : Type 0} ⦃fl : Floats F⦄ (env : Env F) where
  settle-IsUnique :
      (rows : List (QueueRow F)) (o : Option (Decision F)) (s : State F)
      → IsUnique s.decisions
      → IsUnique (settle env rows o s).decisions
  unfolding settle
  settle-IsUnique rows none s u = rw decisions-fail_all u
  settle-IsUnique rows (some d) s u = elim (Bool-cases env.decision_up) [
    | inl e ↦
        rw e (rw (delete_all-rest rows (insert_decision d s)).0 (insert_decision-IsUnique d s u))
    | inr e ↦ rw e (rw decisions-fail_all u)
  ]

  send-IsUnique :
      (amr : Text) (wp : ℤ) (rows : List (QueueRow F)) (s : State F)
      → IsUnique s.decisions
      → IsUnique (send env amr wp rows s).decisions
  unfolding send
  send-IsUnique amr wp [] s u = u
  send-IsUnique amr wp (r ∷ rs) s u = settle-IsUnique (r ∷ rs) _ s u

  process_batch_rows-IsUnique :
      (amr : Text) (wp : ℤ) (rows : List (QueueRow F)) (s : State F)
      → IsUnique s.decisions
      → IsUnique (process_batch_rows env amr wp rows s).decisions
  unfolding process_batch_rows
  process_batch_rows-IsUnique amr wp rows s u =
      send-IsUnique amr wp (keep (λ r. not (is_orphan r)) rows)
        (purge_orphans (keep is_orphan rows) s)
        (rw (decisions-purge_orphans (keep is_orphan rows) s) u)

  process_waypoint_batch-IsUnique :
      (amr : Text) (wp : ℤ) (s : State F)
      → IsUnique s.decisions
      → IsUnique (process_waypoint_batch env amr wp s).0.decisions
  unfolding process_waypoint_batch purge_waypoint_remainder
  process_waypoint_batch-IsUnique amr wp s u =
      let rows = fetch_batch_for_waypoint env.locked s amr wp env.batch in
      let s' = process_batch_rows env amr wp rows s in
      let u' = process_batch_rows-IsUnique amr wp rows s u in
      elim (Bool-cases (length rows == env.batch && ltb (cleared s) (cleared s'))) [
        | inl e ↦ rw e u'
        | inr e ↦ rw e u'
      ]

  visit-IsUnique :
      (init : ℤ) (amr : Text) (wp : ℤ) (s : State F)
      → IsUnique s.decisions
      → IsUnique (visit env init amr wp s).0.decisions
  unfolding visit
  visit-IsUnique init amr wp s u =
      elim (Bool-cases (eq_int wp (last_waypoint init s.last_waypoint_by_amr amr))) [
        | inl e ↦ rw e u
        | inr e ↦ rw e (process_waypoint_batch-IsUnique amr _ (count_transition s) u)
      ]

  visit_all-IsUnique :
      (init : ℤ) (l : List (Text × ℤ)) (s : State F)
      → IsUnique s.decisions
      → IsUnique (visit_all env init l s).0.decisions
  unfolding visit_all
  visit_all-IsUnique init [] s u = u
  visit_all-IsUnique init ((amr, wp) ∷ l) s u =
      visit_all-IsUnique init l (visit env init amr wp s).0 (visit-IsUnique init amr wp s u)

  -- A round of the poller, whatever the outside does, keeps at most one decision for each
  -- measurement.
  pub poll-IsUnique :
      (init : ℤ) (collate : Text → Text → Bool) (max_age : ℕ) (s : State F)
      → IsUnique s.decisions
      → IsUnique (poll env init collate max_age s).decisions
  unfolding poll sweep_stale
  poll-IsUnique init collate max_age s u = elim (Bool-cases (leb max_age 0)) [
    | inl e ↦ rw e (visit_all-IsUnique init (fetch_current_waypoints collate s) s u)
    | inr e ↦ rw e (visit_all-IsUnique init (fetch_current_waypoints collate s) s u)
  ]
