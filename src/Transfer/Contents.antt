-- ===== src/Transfer/Contents.antt =====
-- What a state holds, by frame and by measurement, and how each statement changes it.
use dust_monitoring.Prelude.{
  ℕ, ◌≡◌, refl, Bool, not, ◌&&◌, ◌||◌, Option, List, [], ◌∷◌, map, ◌==◌, keep, any, arith,
}
use dust_monitoring.Transfer.Tables.{Entry, DeadLetter, QueueRow, State}
use dust_monitoring.Transfer.Queue.{delete, bump, bump_attempts}
use dust_monitoring.Transfer.Batch.{put_letter, same_dust}

abbrev pub holds : ℕ → List Entry → Bool
holds i = any (λ q. q.frame_id == i)

module _ {F : Type 0} where
  abbrev pub queued : ℕ → State F → Bool
  queued i s = holds i s.queue

  abbrev pub holds_letter : ℕ → List (DeadLetter F) → Bool
  holds_letter i = any (λ d. d.frame_id == i)

  abbrev pub dead : ℕ → State F → Bool
  dead i s = holds_letter i s.dead_letters

  abbrev pub claimed : ℕ → List (QueueRow F) → Bool
  claimed i = any (λ r. r.frame_id == i)

  -- A decision for that measurement is stored.
  abbrev pub stored : Option ℕ → State F → Bool
  stored k s = any (λ e. same_dust e.dust_id k) s.decisions

pub holds-keep :
    (i j : ℕ) (l : List Entry)
    → holds i (keep (λ q. not (q.frame_id == j)) l) ≡ (holds i l && not (j == i))
holds-keep i j [] = refl
holds-keep i j (q ∷ l) = ground (arith, holds-keep i j l)

pub holds-bump : (i j : ℕ) (l : List Entry) → holds i (map (bump j) l) ≡ holds i l
holds-bump i j [] = refl
holds-bump i j (q ∷ l) = ground (arith, holds-bump i j l)

module _ {F : Type 0} where
  pub queued-delete : (i j : ℕ) (s : State F) → queued i (delete j s) ≡ (queued i s && not (j == i))
  unfolding delete
  queued-delete i j s = holds-keep i j s.queue

  pub queued-bump_attempts : (i j : ℕ) (s : State F) → queued i (bump_attempts j s) ≡ queued i s
  unfolding bump_attempts
  queued-bump_attempts i j s = holds-bump i j s.queue

  pub holds_letter-put_letter :
      (i : ℕ) (d : DeadLetter F) (l : List (DeadLetter F))
      → holds_letter i (put_letter d l) ≡ (holds_letter i l || d.frame_id == i)
  unfolding put_letter
  holds_letter-put_letter i d [] = ground arith
  holds_letter-put_letter i d (e ∷ l) = ground (arith, holds_letter-put_letter i d l)
