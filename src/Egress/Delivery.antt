-- ===== src/Egress/Delivery.antt =====
-- What a send promises of its decision, and a tick of the decisions it fetches.
use dust_monitoring.Prelude.{
  ℕ, ◌≡◌, refl, sym, ap, ◌∙◌, Bool, true, false, not, ◌&&◌, Option, some, List, [], ◌∷◌, ◌++◌, any,
  ◌==◌, ==_refl, length, Text, arith, Bool-cases, Option-cases, inl, inr, any-append, is_some,
}
use dust_monitoring.Egress.Row.{DecisionRecord, Dust, Row, build_row, event_id_of}
use dust_monitoring.Egress.Outbox.{Outbox, has, add, remove, bump_attempts}
use dust_monitoring.Egress.Sender.{
  is_ok, Closing, closed, remove_raised, mark_raised, is_closed, is_done, close, Call, Gateway,
  World, is_unsent, mark_sent, fetch_dust?, is_allowed, allowed_or_all, called, write, skip,
  send_row, send_found, send_record,
}

-- The decision is not marked as sent.
abbrev pub unsent : ℕ → Gateway → Bool
unsent i s = any (λ r. r.id == i && is_unsent r) s.decisions

any-mark_sent :
    (now i j : ℕ) (rows : List DecisionRecord)
    → any (λ r. r.id == j && is_unsent r) (mark_sent now i rows)
      ≡ (not (i == j) && any (λ r. r.id == j && is_unsent r) rows)
unfolding mark_sent
any-mark_sent now i j [] = ground arith
any-mark_sent now i j (r ∷ rs) = elim (Option-cases r.sent_at) [
  | inl e ↦ rw e (ground (arith, any-mark_sent now i j rs))
  | inr (t, e) ↦ rw e (ground (arith, any-mark_sent now i j rs))
]

has-add : (i t : ℕ) (p : List ℕ) (rows : Outbox) → has i (add i t p rows) ≡ true
unfolding add
has-add i t p rows = ground (
  arith,
  any-append (λ r. r.decision_id == i) rows
      (record { decision_id = i; msg_type = t; payload = p; attempts = 0 } ∷ []),
  ==_refl i,
)

pub has-bump_attempts : (i j : ℕ) (rows : Outbox) → has j (bump_attempts i rows) ≡ has j rows
unfolding bump_attempts
has-bump_attempts i j [] = refl
has-bump_attempts i j (r ∷ rs) = ground (arith, has-bump_attempts i j rs)

pub has-remove : (i j : ℕ) (rows : Outbox) → has j (remove i rows) ≡ (has j rows && not (i == j))
unfolding remove
has-remove i j [] = refl
has-remove i j (r ∷ rs) = ground (arith, has-remove i j rs)

pub unsent-skip :
    (w : World) (i j : ℕ) (s : Gateway) → unsent j (skip w i s).1 ≡ (not (i == j) && unsent j s)
unsent-skip w i j s = any-mark_sent w.now i j s.decisions

unsent-close :
    (w : World) (i : ℕ) (c : Closing) (s : Gateway) (j : ℕ)
    → unsent j (close w i c s).1 ≡ (not (is_closed c && i == j) && unsent j s)
unfolding close
unsent-close w i closed s j = any-mark_sent w.now i j s.decisions
unsent-close w i remove_raised s j = refl
unsent-close w i mark_raised s j = refl

pub unsent-write :
    (w : World) (i : ℕ) (values : Row) (s : Gateway) (j : ℕ)
    → unsent j (write w i values s).1
      ≡ (not (is_done w (length s.calls) values && i == j) && unsent j s)
unfolding write
unsent-write w i values s j = elim (Bool-cases (is_ok (w.answer (length s.calls) values))) [
  | inl e ↦ rw e (unsent-close w i (w.closing (length s.calls)) (called w i values s) j)
  | inr e ↦ rw e refl
]

-- The event code that a decision has is one of those to load.
abbrev pub is_selected : Option (List ℕ) → DecisionRecord → Bool
is_selected allowed r = is_allowed (allowed_or_all allowed) (event_id_of r.final_decision)

abbrev pub call_of : World → DecisionRecord → Dust → Gateway → Call
call_of w r d s = record {
  decision_id = r.id;
  values = build_row w.str_float r d;
  outcome = w.answer (length s.calls) (build_row w.str_float r d);
}

abbrev pub with_row : World → ℕ → Row → Gateway → Gateway
with_row w i values s = record s { outbox = add i 0 (w.dumps values) s.outbox }

close-closed :
    (w : World) (i : ℕ) (c : Closing) (s : Gateway)
    → is_closed c ≡ true
    → close w i c s
      ≡ (true, record s { outbox = remove i s.outbox; decisions = mark_sent w.now i s.decisions })
unfolding close
close-closed w i closed s h = refl
close-closed w i remove_raised s h = cc
close-closed w i mark_raised s h = cc

pub write-ok :
    (w : World) (i : ℕ) (values : Row) (s : Gateway)
    → is_done w (length s.calls) values ≡ true
    → write w i values s ≡ (
      true,
      record (called w i values s) {
        outbox = remove i s.outbox;
        decisions = mark_sent w.now i s.decisions;
      },
    )
unfolding write
write-ok w i values s h =
    let ok : is_ok (w.answer (length s.calls) values) ≡ true = ground (arith, h) in
    rw ok (close-closed w i (w.closing (length s.calls)) (called w i values s) (ground (arith, h)))

pub write-failed :
    (w : World) (i : ℕ) (values : Row) (s : Gateway)
    → is_ok (w.answer (length s.calls) values) ≡ false
    → write w i values s
      ≡ (false, record (called w i values s) { outbox = bump_attempts i s.outbox })
unfolding write
write-failed w i values s h = rw h refl

send_row-write :
    (w : World) (allowed : List ℕ) (r : DecisionRecord) (values : Row) (s : Gateway)
    → is_allowed allowed values.event_id ≡ true
    → send_row w allowed r values s ≡ write w r.id values (with_row w r.id values s)
unfolding send_row
send_row-write w allowed r values s h = rw h refl

event_id-build_row :
    (f : ℕ → Text) (r : DecisionRecord) (d : Dust)
    → (build_row f r d).event_id ≡ event_id_of r.final_decision
unfolding build_row
event_id-build_row f r d = refl

pub send_record-write :
    (w : World) (allowed : Option (List ℕ)) (r : DecisionRecord) (s : Gateway) (d : Dust)
    → fetch_dust? r.dust_id s.dust ≡ some d
    → is_selected allowed r ≡ true
    → send_record w allowed r s
      ≡ write w r.id (build_row w.str_float r d) (with_row w r.id (build_row w.str_float r d) s)
unfolding send_record
send_record-write w allowed r s d e a =
    ap (λ o. send_found w (allowed_or_all allowed) r o s) e
    ∙ send_row-write w (allowed_or_all allowed) r (build_row w.str_float r d) s
        (ap (is_allowed (allowed_or_all allowed)) (event_id-build_row w.str_float r d) ∙ a)

send_row-skip :
    (w : World) (allowed : List ℕ) (r : DecisionRecord) (values : Row) (s : Gateway)
    → is_allowed allowed values.event_id ≡ false
    → send_row w allowed r values s ≡ skip w r.id s
unfolding send_row
send_row-skip w allowed r values s h = rw h refl

pub send_record-skip :
    (w : World) (allowed : Option (List ℕ)) (r : DecisionRecord) (s : Gateway)
    → is_some (fetch_dust? r.dust_id s.dust) && is_selected allowed r ≡ false
    → send_record w allowed r s ≡ skip w r.id s
unfolding send_record
send_record-skip w allowed r s h = elim (Option-cases (fetch_dust? r.dust_id s.dust)) [
  | inl e ↦ ap (λ o. send_found w (allowed_or_all allowed) r o s) e
  | inr (d, e) ↦
      ap (λ o. send_found w (allowed_or_all allowed) r o s) e
      ∙ send_row-skip w (allowed_or_all allowed) r (build_row w.str_float r d) s (
          ap (is_allowed (allowed_or_all allowed)) (event_id-build_row w.str_float r d)
          ∙ ap (λ o. is_some o && is_selected allowed r) (sym e)
          ∙ h)
]

-- A decision whose measurement is there and whose event code is to be loaded is sent where the
-- sink answers True and neither the removal from the outbox nor the mark fails: the call of the sink
-- is the joined row, the decision is marked as sent, and the outbox has nothing of it left.
pub send_record-delivers :
    (w : World) (allowed : Option (List ℕ)) (r : DecisionRecord) (s : Gateway) (d : Dust)
    → fetch_dust? r.dust_id s.dust ≡ some d
    → is_selected allowed r ≡ true
    → is_done w (length s.calls) (build_row w.str_float r d) ≡ true
    → ((send_record w allowed r s).0 ≡ true)
      × (((send_record w allowed r s).1.calls ≡ s.calls ++ call_of w r d s ∷ [])
          × ((unsent r.id (send_record w allowed r s).1 ≡ false)
              × (has r.id (send_record w allowed r s).1.outbox ≡ false)))
send_record-delivers w allowed r s d e a ok = rw (send_record-write w allowed r s d e a) (
    rw
      (write-ok w r.id (build_row w.str_float r d) (with_row w r.id (build_row w.str_float r d) s)
        ok)
      (
        refl,
        (
          refl,
          (
            ground (arith, any-mark_sent w.now r.id r.id s.decisions, ==_refl r.id),
            has-remove r.id r.id _ ∙ ground (arith, ==_refl r.id),
          ),
        ),
      ))

-- A decision whose measurement is there and whose event code is to be loaded is not lost where the
-- sink does not answer True: the decision table stays as it was, and the outbox has its row.
pub send_record-keeps :
    (w : World) (allowed : Option (List ℕ)) (r : DecisionRecord) (s : Gateway) (d : Dust)
    → fetch_dust? r.dust_id s.dust ≡ some d
    → is_selected allowed r ≡ true
    → is_ok (w.answer (length s.calls) (build_row w.str_float r d)) ≡ false
    → ((send_record w allowed r s).0 ≡ false)
      × (((send_record w allowed r s).1.decisions ≡ s.decisions)
          × (has r.id (send_record w allowed r s).1.outbox ≡ true))
send_record-keeps w allowed r s d e a ok =
    let values = build_row w.str_float r d in
    rw (send_record-write w allowed r s d e a) (
      rw (write-failed w r.id values (with_row w r.id values s) ok)
        (refl, (refl, has-bump_attempts r.id r.id _ ∙ has-add r.id 0 (w.dumps values) s.outbox)))

-- A decision whose measurement is gone, or whose event code is not one to load, is marked as sent
-- without a call of the sink, and leaves the outbox as it is.
pub send_record-skips :
    (w : World) (allowed : Option (List ℕ)) (r : DecisionRecord) (s : Gateway)
    → is_some (fetch_dust? r.dust_id s.dust) && is_selected allowed r ≡ false
    → ((send_record w allowed r s).0 ≡ true)
      × (((send_record w allowed r s).1.calls ≡ s.calls)
          × ((unsent r.id (send_record w allowed r s).1 ≡ false)
              × ((send_record w allowed r s).1.outbox ≡ s.outbox)))
send_record-skips w allowed r s h =
    rw (send_record-skip w allowed r s h) (
      refl,
      (refl, (ground (arith, any-mark_sent w.now r.id r.id s.decisions, ==_refl r.id), refl)),
    )
