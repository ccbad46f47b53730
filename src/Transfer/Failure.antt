-- ===== src/Transfer/Failure.antt =====
-- A batch that fails: no row is lost, none is decided, and the rows below the retry cap are kept
-- with one attempt more.
use dust_monitoring.Prelude.{
  ℕ, ◌+◌, ◌≤◌, ◌<◌, ◌≡◌, refl, ◌∙◌, Bool, true, false, not, ◌&&◌, ◌||◌, List, [], ◌∷◌, map, ltb,
  ◌==◌, if◌then◌else◌, All, arith, Bool-cases, inl, inr, ap₂,
}
use dust_monitoring.Transfer.Tables.{Entry, QueueRow, State}
use dust_monitoring.Transfer.Queue.{bump, bump_attempts}
use dust_monitoring.Transfer.Batch.{Env, handle_failure, fail_all, count_failed}
use dust_monitoring.Transfer.Contents.{
  queued, dead, holds-keep, holds-bump, holds_letter-put_letter,
}

ltb-false : (a b : ℕ) → b ≤ a → ltb a b ≡ false
ltb-false a b h = ground arith

moved : (a b c : Bool) → (a || b) ≡ true → (a && not c || (b || c)) ≡ true
moved a b c h = ground arith

module _ {F : Type 0} (env : Env F) where
  handle_failure-keeps :
      (i : ℕ) (r : QueueRow F) (s : State F)
      → (queued i s || dead i s) ≡ true
      → (queued i (handle_failure env r s) || dead i (handle_failure env r s)) ≡ true
  unfolding handle_failure
  handle_failure-keeps i r s h =
      elim (Bool-cases (ltb env.max_attempts (r.attempts + 1) && env.dlq_up r.frame_id)) [
        | inl e ↦ rw e (
            rw (holds-keep i r.frame_id s.queue) (
              rw (holds_letter-put_letter i _ s.dead_letters)
                (moved (queued i s) (dead i s) (r.frame_id == i) h)))
        | inr e ↦ rw e (rw (holds-bump i r.frame_id s.queue) h)
      ]

  -- No queued frame is lost, whatever rows fail.
  pub fail_all-keeps :
      (i : ℕ) (rs : List (QueueRow F)) (s : State F)
      → (queued i s || dead i s) ≡ true
      → (queued i (fail_all env rs s) || dead i (fail_all env rs s)) ≡ true
  unfolding fail_all
  fail_all-keeps i [] s h = h
  fail_all-keeps i (r ∷ rs) s h =
      fail_all-keeps i rs (handle_failure env r s) (handle_failure-keeps i r s h)

  pub decisions-fail_all :
      (rs : List (QueueRow F)) (s : State F) → (fail_all env rs s).decisions ≡ s.decisions
  unfolding fail_all handle_failure
  decisions-fail_all [] s = refl
  decisions-fail_all (r ∷ rs) s = decisions-fail_all rs (handle_failure env r s) ∙ ground arith

module _ {F : Type 0} where
  -- How often a frame stands among the rows.
  abbrev pub occurs : ℕ → List (QueueRow F) → ℕ
  occurs i [] = 0
  occurs i (r ∷ rs) = (if r.frame_id == i then 1 else 0) + occurs i rs

  abbrev pub tried : List (QueueRow F) → Entry → Entry
  tried rs q = record q { attempts = q.attempts + occurs q.frame_id rs }

  tried-bump :
      (r : QueueRow F) (rs : List (QueueRow F)) (q : Entry)
      → tried rs (bump r.frame_id q) ≡ tried (r ∷ rs) q
  tried-bump r rs q = elim (Bool-cases (q.frame_id == r.frame_id)) [
    | inl e ↦ rw e (ground arith)
    | inr e ↦ rw e (ground arith)
  ]

  map-tried-bump :
      (r : QueueRow F) (rs : List (QueueRow F)) (l : List Entry)
      → map (tried rs) (map (bump r.frame_id) l) ≡ map (tried (r ∷ rs)) l
  map-tried-bump r rs [] = refl
  map-tried-bump r rs (q ∷ l) = ap₂ ◌∷◌ (tried-bump r rs q) (map-tried-bump r rs l)

map-tried-nil : (F : Type 0) (l : List Entry) → l ≡ map (tried {F = F} []) l
map-tried-nil F [] = refl
map-tried-nil F (q ∷ l) = ap₂ ◌∷◌ (ground arith) (map-tried-nil F l)

module _ {F : Type 0} where
  handle_failure-below :
      (env : Env F) (r : QueueRow F) (s : State F)
      → r.attempts < env.max_attempts
      → handle_failure env r s ≡ count_failed (bump_attempts r.frame_id s)
  unfolding handle_failure
  handle_failure-below env r s a =
      rw (ltb-false env.max_attempts (r.attempts + 1) (omega arith)) refl

  -- Where every row has an attempt left, the queue keeps all its rows in their order, and each
  -- has as many attempts more as it stands among the failed rows; no dead letter is written.
  pub queue-fail_all :
      (env : Env F) (rs : List (QueueRow F)) (s : State F)
      → All (λ r. r.attempts < env.max_attempts) rs
      → ((fail_all env rs s).queue ≡ map (tried rs) s.queue)
        × ((fail_all env rs s).dead_letters ≡ s.dead_letters)
  unfolding fail_all bump_attempts
  queue-fail_all env [] s h = (map-tried-nil F s.queue, refl)
  queue-fail_all env (r ∷ rs) s (a, h) =
      rw (fail_all, handle_failure-below env r s a)
        (let (q, d) = queue-fail_all env rs (count_failed (bump_attempts r.frame_id s)) h in
          (q ∙ map-tried-bump r rs s.queue, d))
