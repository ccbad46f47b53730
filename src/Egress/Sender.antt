-- ===== src/Egress/Sender.antt =====
-- SocketDaim/egress_gateway/sender.py, with the statements of repository/decision_repo.py.
use dust_monitoring.Prelude.{
  ℕ, Bool, true, false, not, ◌&&◌, Option, none, some, List, [], ◌∷◌, ◌++◌, map, any, ◌==◌,
  if◌then◌else◌, length, Text, codes, equal, leb, keep, take, sort_by,
}
use dust_monitoring.Egress.Row.{DecisionRecord, Dust, Row, build_row}
use dust_monitoring.Egress.Outbox.{Bytes, Outbox, add, remove, bump_attempts}

-- What becomes of one `sink.write`: it answers True or False, or raises, before or after the row
-- is committed.
pub data SinkOutcome : Type 0 where
  inserted refused raised raised_after_commit : SinkOutcome

abbrev pub is_ok : SinkOutcome → Bool
is_ok inserted = true
is_ok refused = false
is_ok raised = false
is_ok raised_after_commit = false

abbrev pub is_stored : SinkOutcome → Bool
is_stored inserted = true
is_stored refused = false
is_stored raised = false
is_stored raised_after_commit = true

-- What becomes of the two statements after a `sink.write` that answered True: both are executed, the
-- removal from the outbox raises, or the update of `sent_at` does.
pub data Closing : Type 0 where
  closed remove_raised mark_raised : Closing

abbrev pub is_closed : Closing → Bool
is_closed closed = true
is_closed remove_raised = false
is_closed mark_raised = false

pub record Call : Type 0 where
  pub decision_id : ℕ
  pub values : Row
  pub outcome : SinkOutcome

-- The tables that the gateway works on, and the calls of the sink so far.
pub record Gateway : Type 0 where
  pub decisions : List DecisionRecord
  pub dust : List (ℕ × Dust)
  pub outbox : Outbox
  pub calls : List Call

abbrev pub is_unsent : DecisionRecord → Bool
is_unsent r = elim r.sent_at [ none ↦ true | some _ ↦ false ]

unfoldable pub is_waiting : DecisionRecord → Bool
is_waiting r = not (equal r.final_decision (codes "pending")) && is_unsent r

-- Ascending, and NULL last.
abbrev pub decided_before : DecisionRecord → DecisionRecord → Bool
decided_before a b = elim a.decided_at [
  | none ↦ elim b.decided_at [ none ↦ true | some _ ↦ false ]
  | some t ↦ elim b.decided_at [ none ↦ true | some u ↦ leb t u ]
]

unfoldable pub fetch_pending : ℕ → List DecisionRecord → List DecisionRecord
unfolding is_waiting
fetch_pending limit rows = take limit (sort_by decided_before (keep is_waiting rows))

abbrev pub sent_row : ℕ → ℕ → DecisionRecord → DecisionRecord
sent_row now i r = if r.id == i && is_unsent r then record r { sent_at = some now } else r

unfoldable pub mark_sent : ℕ → ℕ → List DecisionRecord → List DecisionRecord
mark_sent now i rows = map (sent_row now i) rows

unfoldable pub fetch_dust : ℕ → List (ℕ × Dust) → Option Dust
fetch_dust i [] = none
fetch_dust i ((j, d) ∷ t) = if j == i then some d else fetch_dust i t

abbrev pub fetch_dust? : Option ℕ → List (ℕ × Dust) → Option Dust
fetch_dust? none t = none
fetch_dust? (some i) t = fetch_dust i t

-- `event_id not in allowed`: None is in no set of numbers.
abbrev pub is_allowed : List ℕ → Option ℕ → Bool
is_allowed allowed none = false
is_allowed allowed (some e) = any (λ a. a == e) allowed

-- `allowed_event_ids if allowed_event_ids else {0, 1, 2, 3}`
abbrev pub allowed_or_all : Option (List ℕ) → List ℕ
allowed_or_all none = 0 ∷ 1 ∷ 2 ∷ 3 ∷ []
allowed_or_all (some []) = 0 ∷ 1 ∷ 2 ∷ 3 ∷ []
allowed_or_all (some (e ∷ es)) = e ∷ es

-- `answer` says how the sink takes its n-th call with a row, `closing` how the two statements after
-- that call end, `str_float`, `dumps` and `loads` are Python's.
pub record World : Type 0 where
  pub now : ℕ
  pub answer : ℕ → Row → SinkOutcome
  pub closing : ℕ → Closing
  pub str_float : ℕ → Text
  pub dumps : Row → Bytes
  pub loads : Bytes → Row

abbrev pub called : World → ℕ → Row → Gateway → Gateway
called w i values s = record s {
  calls =
      s.calls
      ++ record { decision_id = i; values = values; outcome = w.answer (length s.calls) values }
        ∷ [];
}

-- The statements after a `sink.write` that answered True.
unfoldable pub close : World → ℕ → Closing → Gateway → Bool × Gateway
unfolding remove mark_sent
close w i closed s =
    (true, record s { outbox = remove i s.outbox; decisions = mark_sent w.now i s.decisions })
close w i remove_raised s = (false, s)
close w i mark_raised s = (false, record s { outbox = remove i s.outbox })

-- `Sender._write`. An exception counts as False, which ends a tick, and the drain, just as it does;
-- that one leaves the process, at its start, is not told apart.
unfoldable pub write : World → ℕ → Row → Gateway → Bool × Gateway
unfolding close bump_attempts
write w i values s =
    if is_ok (w.answer (length s.calls) values)
    then close w i (w.closing (length s.calls)) (called w i values s)
    else (false, record (called w i values s) { outbox = bump_attempts i s.outbox })

-- The sink answers True, and the two statements after it are executed.
abbrev pub is_done : World → ℕ → Row → Bool
is_done w n values = is_ok (w.answer n values) && is_closed (w.closing n)

abbrev pub skip : World → ℕ → Gateway → Bool × Gateway
skip w i s = (true, record s { decisions = mark_sent w.now i s.decisions })

unfoldable pub send_row : World → List ℕ → DecisionRecord → Row → Gateway → Bool × Gateway
unfolding write add
send_row w allowed r values s =
    if not (is_allowed allowed values.event_id)
    then skip w r.id s
    else write w r.id values (record s { outbox = add r.id 0 (w.dumps values) s.outbox })

abbrev pub send_found : World → List ℕ → DecisionRecord → Option Dust → Gateway → Bool × Gateway
send_found w allowed r none s = skip w r.id s
send_found w allowed r (some d) s = send_row w allowed r (build_row w.str_float r d) s

unfoldable pub send_record : World → Option (List ℕ) → DecisionRecord → Gateway → Bool × Gateway
unfolding fetch_dust build_row send_row
send_record w allowed r s = send_found w (allowed_or_all allowed) r (fetch_dust? r.dust_id s.dust) s

unfoldable pub replay : World → ℕ → ℕ → Bytes → Gateway → Bool × Gateway
unfolding write
replay w i msg_type payload s = write w i (w.loads payload) s
