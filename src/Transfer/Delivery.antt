-- ===== src/Transfer/Delivery.antt =====
-- What a batch of rows with images leaves behind, delivered or failed.
use dust_monitoring.Prelude.{
  bind, ℕ, ◌+◌, ◌<◌, ◌≡◌, refl, ap, ◌∙◌, Bool, true, false, not, ◌&&◌, ◌||◌, none, some, List, [],
  ◌∷◌, map, ◌==◌, length, keep, All, arith, Bool-cases, Option-cases, inl, inr, Text, ℤ, ◌⊎◌,
  any-append,
}
use dust_monitoring.Transfer.Floats.{Floats}
use dust_monitoring.Transfer.Tables.{Decision, QueueRow, State}
use dust_monitoring.Transfer.Queue.{is_orphan, delete}
use dust_monitoring.Transfer.Batch.{
  Env, insert_decision, fail_all, delete_all, purge_orphans, build_decision, settle,
  process_batch_rows, same_dust, count_ok,
}
use dust_monitoring.Transfer.Contents.{holds, queued, dead, claimed, stored, queued-delete}
use dust_monitoring.Transfer.Failure.{fail_all-keeps, decisions-fail_all, tried, queue-fail_all}

abbrev pub HasImages : {F : Type 0} → List (QueueRow F) → Type 0
HasImages = All (λ r. is_orphan r ≡ false)

and_both : (a b c : Bool) → ((a && not b) && not c) ≡ (a && not (b || c))
and_both a b c = ground arith

module _ {F : Type 0} where
  without_orphans :
      (rows : List (QueueRow F))
      → HasImages rows
      → (keep (λ r. not (is_orphan r)) rows ≡ rows) × (keep is_orphan rows ≡ [])
  without_orphans [] h = (refl, refl)
  without_orphans (r ∷ rs) (a, h) = let (p, q) = without_orphans rs h in rw a (ap (◌∷◌ r) p, q)

  pub queued-delete_all :
      (i : ℕ) (rows : List (QueueRow F)) (s : State F)
      → queued i (delete_all rows s) ≡ (queued i s && not (claimed i rows))
  unfolding delete_all
  queued-delete_all i [] s = ground arith
  queued-delete_all i (r ∷ rs) s =
      queued-delete_all i rs (count_ok r (delete r.frame_id s))
      ∙ ap (λ b. b && not (claimed i rs)) (queued-delete i r.frame_id s)
      ∙ and_both (queued i s) (r.frame_id == i) (claimed i rs)

  pub delete_all-rest :
      (rows : List (QueueRow F)) (s : State F)
      → ((delete_all rows s).decisions ≡ s.decisions)
        × ((delete_all rows s).dead_letters ≡ s.dead_letters)
        × ((delete_all rows s).stats.processed_ok ≡ s.stats.processed_ok + length rows)
  unfolding delete_all delete
  delete_all-rest [] s = (refl, refl, omega arith)
  delete_all-rest (r ∷ rs) s =
      let (p, q, n) = delete_all-rest rs (count_ok r (delete r.frame_id s)) in
      (p, q, omega (arith, n))

  pub insert_decision-rest :
      (d : Decision F) (s : State F)
      → ((insert_decision d s).queue ≡ s.queue)
        × ((insert_decision d s).dead_letters ≡ s.dead_letters)
        × ((insert_decision d s).stats ≡ s.stats)
  unfolding insert_decision
  insert_decision-rest d s = ground arith

  pub insert_decision-stored :
      (i : ℕ) (d : Decision F) (s : State F)
      → d.dust_id ≡ some i
      → stored d.dust_id (insert_decision d s) ≡ true
  unfolding insert_decision
  insert_decision-stored i d s e = elim (Bool-cases (stored d.dust_id s)) [
    | inl old ↦ rw old old
    | inr new ↦ rw new (
        any-append (λ x. same_dust x.dust_id d.dust_id) s.decisions (d ∷ [])
        ∙ rw new (ground arith))
  ]

module _ {F : Type 0} ⦃fl : Floats F⦄ (env : Env F) (amr : Text) (wp : ℤ) where
  process_batch_rows-images :
      (r : QueueRow F) (rs : List (QueueRow F)) (s : State F)
      → HasImages (r ∷ rs)
      → process_batch_rows env amr wp (r ∷ rs) s
        ≡ settle env
            (r ∷ rs)
            (bind (env.send_batch amr wp (r ∷ rs)) (build_decision env amr wp r rs))
            s
  unfolding process_batch_rows purge_orphans
  process_batch_rows-images r rs s h = let (p, q) = without_orphans (r ∷ rs) h in rw (p, q) refl

  -- For a batch of rows that have their images, where the REST call answers, its answer makes a
  -- decision, and decision_db takes it: the decision is stored unless its measurement has one,
  -- exactly the frames of the batch leave the queue, no dead letter is written, and every row counts
  -- as processed.
  pub process_batch_rows-delivered :
      (r : QueueRow F) (rs : List (QueueRow F)) (s : State F) (i : ℕ) {d : Decision F}
      → HasImages (r ∷ rs)
      → bind (env.send_batch amr wp (r ∷ rs)) (build_decision env amr wp r rs) ≡ some d
      → env.decision_up ≡ true
      → let s' = process_batch_rows env amr wp (r ∷ rs) s in
        (s'.decisions ≡ (insert_decision d s).decisions)
        × (queued i s' ≡ (queued i s && not (claimed i (r ∷ rs))))
        × (s'.dead_letters ≡ s.dead_letters)
        × (s'.stats.processed_ok ≡ s.stats.processed_ok + length (r ∷ rs))
  unfolding settle
  process_batch_rows-delivered r rs s i {d} h e up = rw (process_batch_rows-images r rs s h) (
      rw e (
        rw up (
          let (dec, dl, ok) = delete_all-rest (r ∷ rs) (insert_decision d s) in
          let (q, dl', st) = insert_decision-rest d s in
          (
            dec,
            queued-delete_all i (r ∷ rs) (insert_decision d s)
                ∙ ap (λ l. holds i l && not (claimed i (r ∷ rs))) q,
            dl ∙ dl',
            ok ∙ ap (λ t. t.processed_ok + length (r ∷ rs)) st,
          ))))

  -- The REST call, the making of the decision or its INSERT fails.
  abbrev pub Fails : QueueRow F → List (QueueRow F) → Type 0
  Fails r rs =
      (bind (env.send_batch amr wp (r ∷ rs)) (build_decision env amr wp r rs) ≡ none)
      ⊎ (env.decision_up ≡ false)

  pub process_batch_rows-fail_all :
      (r : QueueRow F) (rs : List (QueueRow F)) (s : State F)
      → HasImages (r ∷ rs)
      → Fails r rs
      → process_batch_rows env amr wp (r ∷ rs) s ≡ fail_all env (r ∷ rs) s
  unfolding settle
  process_batch_rows-fail_all r rs s h (inl e) = rw (process_batch_rows-images r rs s h) (rw e refl)
  process_batch_rows-fail_all r rs s h (inr e) =
      rw (process_batch_rows-images r rs s h)
        (elim (Option-cases
          (bind (env.send_batch amr wp (r ∷ rs)) (build_decision env amr wp r rs))) [
            | inl n ↦ rw n refl
            | inr (d, n) ↦ rw n (rw e refl)
          ])

  -- Where a batch of rows with images fails, nothing is decided, and a queued frame is still queued or in the dead
  -- letters.
  pub process_batch_rows-failed :
      (r : QueueRow F) (rs : List (QueueRow F)) (s : State F) (i : ℕ)
      → HasImages (r ∷ rs)
      → Fails r rs
      → queued i s ≡ true
      → let s' = process_batch_rows env amr wp (r ∷ rs) s in
        (s'.decisions ≡ s.decisions) × ((queued i s' || dead i s') ≡ true)
  process_batch_rows-failed r rs s i h f q =
      rw (process_batch_rows-fail_all r rs s h f)
        (decisions-fail_all env (r ∷ rs) s, fail_all-keeps env i (r ∷ rs) s (ground arith))

  -- Where a batch of rows with images fails and each has an attempt left, the queue keeps all its rows
  -- in their order, each with as many attempts more as it stands in the batch, and the dead
  -- letters are what they were.
  pub process_batch_rows-retried :
      (r : QueueRow F) (rs : List (QueueRow F)) (s : State F)
      → HasImages (r ∷ rs)
      → Fails r rs
      → All (λ q. q.attempts < env.max_attempts) (r ∷ rs)
      → let s' = process_batch_rows env amr wp (r ∷ rs) s in
        (s'.queue ≡ map (tried (r ∷ rs)) s.queue) × (s'.dead_letters ≡ s.dead_letters)
  process_batch_rows-retried r rs s h f a =
      rw (process_batch_rows-fail_all r rs s h f) (queue-fail_all env (r ∷ rs) s a)
