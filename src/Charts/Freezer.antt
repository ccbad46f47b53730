-- ===== src/Charts/Freezer.antt =====
-- Dumopro_Data_Analysis_WebApp/apps/poller/freezer.py: `GraceFreezer`. Times are those of the clock.
use dust_monitoring.Prelude.{
  ℕ, ◌+◌, Bool, false, not, Option, none, some, List, [], ◌∷◌, ◌++◌, leb, if◌then◌else◌, map, keep,
}
use dust_monitoring.Charts.Buckets.{BucketUnit, day, week, month, BucketKey, same_unit, same_key}
use dust_monitoring.Charts.Redis.{Slot}

pub record PendingFreeze : Type 0 where
  pub bucket_key : BucketKey
  pub ready_at : ℕ

-- `pending`
abbrev pub Pending : Type 0
Pending = List (BucketUnit × PendingFreeze)

abbrev pub units : List BucketUnit
units = day ∷ week ∷ month ∷ []

unfoldable pub pending_of : BucketUnit → Pending → Option PendingFreeze
pending_of u [] = none
pending_of u ((v, p) ∷ t) = let rest = pending_of u t in if same_unit v u then some p else rest

unfoldable pub set_pending : BucketUnit → PendingFreeze → Pending → Pending
set_pending u q [] = (u, q) ∷ []
set_pending u q ((v, p) ∷ t) =
    let rest = set_pending u q t in if same_unit v u then (v, q) ∷ t else (v, p) ∷ rest

unfoldable pub is_pending : BucketUnit → BucketKey → Pending → Bool
unfolding pending_of same_key
is_pending u k f = elim (pending_of u f) [ none ↦ false | some p ↦ same_key p.bucket_key k ]

unfoldable pub schedule : ℕ → ℕ → BucketUnit → BucketKey → Pending → Pending
unfolding is_pending set_pending
schedule grace now u k f =
    if is_pending u k f
    then f
    else set_pending u (record { bucket_key = k; ready_at = now + grace }) f

abbrev pub due_of : ℕ → BucketUnit → Option PendingFreeze → List Slot
due_of now u none = []
due_of now u (some p) = if leb p.ready_at now then (u, p.bucket_key) ∷ [] else []

abbrev pub due_in : ℕ → List BucketUnit → Pending → List Slot
due_in now [] f = []
due_in now (u ∷ us) f = due_of now u (pending_of u f) ++ due_in now us f

unfoldable pub due : ℕ → Pending → List Slot
unfolding pending_of
due now f = due_in now units f

unfoldable pub drop : BucketUnit → BucketKey → Pending → Pending
unfolding is_pending
drop u k f = if is_pending u k f then keep (λ x. not (same_unit x.0 u)) f else f

unfoldable pub force_freeze_all : Pending → List Slot × Pending
force_freeze_all f = (map (λ (u, p). (u, p.bucket_key)) f, [])
