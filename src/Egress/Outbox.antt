-- ===== src/Egress/Outbox.antt =====
-- SocketDaim/egress_gateway/outbox.py: the rows in the order of outbox_id, so that `add` appends.
use dust_monitoring.Prelude.{
  ℕ, suc, Bool, not, List, [], ◌∷◌, ◌++◌, map, any, keep, ◌==◌, if◌then◌else◌, length,
}

abbrev pub Bytes : Type 0
Bytes = List ℕ

pub record OutboxRow : Type 0 where
  pub decision_id : ℕ
  pub msg_type : ℕ
  pub payload : Bytes
  pub attempts : ℕ

abbrev pub Outbox : Type 0
Outbox = List OutboxRow

abbrev pub has : ℕ → Outbox → Bool
has i = any (λ r. r.decision_id == i)

-- INSERT OR IGNORE
unfoldable pub add : ℕ → ℕ → Bytes → Outbox → Outbox
add i t p rows =
    if has i rows
    then rows
    else rows ++ record { decision_id = i; msg_type = t; payload = p; attempts = 0 } ∷ []

unfoldable pub remove : ℕ → Outbox → Outbox
remove i rows = keep (λ r. not (r.decision_id == i)) rows

abbrev pub bump : ℕ → OutboxRow → OutboxRow
bump i r = if r.decision_id == i then record r { attempts = suc r.attempts } else r

unfoldable pub bump_attempts : ℕ → Outbox → Outbox
bump_attempts i rows = map (bump i) rows

unfoldable pub iter_pending : Outbox → Outbox
iter_pending rows = rows

unfoldable pub count : Outbox → ℕ
count rows = length rows
