-- ===== src/Egress/Once.antt =====
-- A row is stored at most once for a decision, as long as nothing fails from the commit of the row to
-- the mark of the decision. Where something does, sender.py promises at least once, and no more.
use dust_monitoring.Prelude.{
  ℕ, ◌≡◌, sym, ap, subst, ◌∙◌, true, false, ◌&&◌, Option, is_some, List, [], ◌∷◌, any, keep, ◌==◌,
  ==_refl, arith, All, All-map, take-All, sort_by-All, Bool-cases, Option-cases, inl, inr,
}
use dust_monitoring.Egress.Row.{DecisionRecord, build_row}
use dust_monitoring.Egress.Outbox.{OutboxRow, Outbox, iter_pending, has}
use dust_monitoring.Egress.Sender.{
  Gateway, World, is_unsent, is_waiting, decided_before, fetch_pending, fetch_dust?, send_record,
  replay,
}
use dust_monitoring.Egress.Service.{send_all, tick, drain_rows, drain_outbox}
use dust_monitoring.Egress.Delivery.{
  unsent, unsent-skip, is_selected, with_row, unsent-write, send_record-write, send_record-skip,
}
use dust_monitoring.Egress.Rounds.{
  send_all-goes_on, send_all-breaks, drain_rows-goes_on, drain_rows-breaks,
}
use dust_monitoring.Egress.Storing.{Once, Honest, write-Once, add-Once, skip-Once, has-write}

-- The ids of the records are different.
abbrev pub Distinct : List DecisionRecord → Type 0
Distinct [] = Unit
Distinct (r ∷ rs) = All (λ q. (r.id == q.id) ≡ false) rs × Distinct rs

module _ (w : World) (allowed : Option (List ℕ)) (hon : Honest w) where
  send_record-Once :
      (r : DecisionRecord) (s : Gateway)
      → Once s
      → unsent r.id s ≡ true
      → Once (send_record w allowed r s).1
        × ((j : ℕ)
            → (r.id == j) ≡ false
            → unsent j s ≡ true
            → unsent j (send_record w allowed r s).1 ≡ true)
  send_record-Once r s o u =
      elim (Bool-cases (is_some (fetch_dust? r.dust_id s.dust) && is_selected allowed r)) [
        | inl e ↦ elim (Option-cases (fetch_dust? r.dust_id s.dust)) [
          | inl n ↦ cc (e, ap (λ q. is_some q && is_selected allowed r) n)
          | inr (d, y) ↦
              let values = build_row w.str_float r d in
              rw
                (send_record-write w allowed r s d y
                  (ap (λ q. is_some q && is_selected allowed r) (sym y) ∙ e))
                (
                  write-Once w r.id values (with_row w r.id values s) hon
                      (add-Once w r.id values s o u) ((o r.id).1 (ground (arith, u))),
                  λ j other uj.
                      unsent-write w r.id values (with_row w r.id values s) j
                      ∙ ground (arith, other, uj),
                )
        ]
        | inr e ↦
            rw (send_record-skip w allowed r s e) (
              skip-Once w r.id s o,
              λ j other uj. unsent-skip w r.id j s ∙ ground (arith, other, uj),
            )
      ]

  still-unsent :
      (r : DecisionRecord) (rs : List DecisionRecord) (s : Gateway)
      → ((j : ℕ)
          → (r.id == j) ≡ false
          → unsent j s ≡ true
          → unsent j (send_record w allowed r s).1 ≡ true)
      → All (λ q. (r.id == q.id) ≡ false) rs
      → All (λ q. unsent q.id s ≡ true) rs
      → All (λ q. unsent q.id (send_record w allowed r s).1 ≡ true) rs
  still-unsent r [] s k d u = tt
  still-unsent r (q ∷ rs) s k (a, d) (b, u) = (k q.id a b, still-unsent r rs s k d u)

  send_all-Once :
      (rs : List DecisionRecord) (s : Gateway)
      → Once s
      → Distinct rs
      → All (λ q. unsent q.id s ≡ true) rs
      → Once (send_all w allowed rs s)
  send_all-Once [] s o d u = unfold send_all in o
  send_all-Once (r ∷ rs) s o (a, d) (b, u) =
      let (o', k) = send_record-Once r s o b in
      elim (Bool-cases (send_record w allowed r s).0) [
        | inl e ↦
            subst Once (sym (send_all-goes_on w allowed r rs s e))
              (send_all-Once rs (send_record w allowed r s).1 o' d (still-unsent r rs s k a u))
        | inr e ↦ subst Once (sym (send_all-breaks w allowed r rs s e)) o'
      ]

All-unsent :
    (rows : List DecisionRecord)
    → All (λ q. is_unsent q ≡ true → any (λ r. r.id == q.id && is_unsent r) rows ≡ true) rows
All-unsent [] = tt
All-unsent (q ∷ rows) = (
  λ h. ground (arith, ==_refl q.id, h),
  All-map (λ p f h. ground (arith, f h)) rows (All-unsent rows),
)

is_waiting-unsent : (q : DecisionRecord) → is_waiting q ≡ true → is_unsent q ≡ true
unfolding is_waiting
is_waiting-unsent q h = ground arith

keep-unsent :
    (P : DecisionRecord → Type 0) (rows : List DecisionRecord)
    → All (λ q. is_unsent q ≡ true → P q) rows
    → All P (keep is_waiting rows)
keep-unsent P [] h = tt
keep-unsent P (q ∷ rows) (f, h) = elim (Bool-cases (is_waiting q)) [
  | inl e ↦ rw e (f (is_waiting-unsent q e), keep-unsent P rows h)
  | inr e ↦ rw e (keep-unsent P rows h)
]

fetch_pending-unsent :
    (batch : ℕ) (s : Gateway) → All (λ q. unsent q.id s ≡ true) (fetch_pending batch s.decisions)
unfolding fetch_pending
fetch_pending-unsent batch s = take-All _ batch _ (
    sort_by-All decided_before _ _
      (keep-unsent (λ q. unsent q.id s ≡ true) s.decisions (All-unsent s.decisions)))

-- Where the sink stores a row exactly if it answers True, neither the removal from the outbox nor the
-- mark as sent fails after it, and the fetched batch has each id once, a tick keeps it so that a row is stored at most once for each decision, and not while the decision
-- is unsent or in the outbox.
pub tick-Once :
    (w : World) (allowed : Option (List ℕ)) (batch : ℕ) (s : Gateway)
    → Honest w
    → Distinct (fetch_pending batch s.decisions)
    → Once s
    → Once (tick w allowed batch s)
unfolding tick
tick-Once w allowed batch s hon d o =
    send_all-Once w allowed hon (fetch_pending batch s.decisions) s o d
      (fetch_pending-unsent batch s)

-- The ids of the outbox are different.
abbrev pub DistinctRows : Outbox → Type 0
DistinctRows [] = Unit
DistinctRows (r ∷ rs) = All (λ q. (r.decision_id == q.decision_id) ≡ false) rs × DistinctRows rs

module _ (w : World) (hon : Honest w) where
  still-has :
      (r : OutboxRow) (rs : Outbox) (s : Gateway)
      → All (λ q. (r.decision_id == q.decision_id) ≡ false) rs
      → All (λ q. has q.decision_id s.outbox ≡ true) rs
      → All
          (λ q. has q.decision_id (replay w r.decision_id r.msg_type r.payload s).1.outbox ≡ true)
          rs
  unfolding replay
  still-has r [] s d h = tt
  still-has r (q ∷ rs) s (a, d) (b, h) = (
    has-write w r.decision_id q.decision_id (w.loads r.payload) s hon ∙ ground (arith, a, b),
    still-has r rs s d h,
  )

  replay-Once :
      (r : OutboxRow) (s : Gateway)
      → Once s
      → has r.decision_id s.outbox ≡ true
      → Once (replay w r.decision_id r.msg_type r.payload s).1
  unfolding replay
  replay-Once r s o h =
      write-Once w r.decision_id (w.loads r.payload) s hon o
        ((o r.decision_id).1 (ground (arith, h)))

  drain_rows-Once :
      (rs : Outbox) (s : Gateway)
      → Once s
      → DistinctRows rs
      → All (λ q. has q.decision_id s.outbox ≡ true) rs
      → Once (drain_rows w rs s).1
  drain_rows-Once [] s o d h = unfold drain_rows in o
  drain_rows-Once (r ∷ rs) s o (a, d) (b, h) =
      let o' = replay-Once r s o b in
      elim (Bool-cases (replay w r.decision_id r.msg_type r.payload s).0) [
        | inl e ↦
            subst (λ x. Once x.1) (sym (drain_rows-goes_on w r rs s e))
              (drain_rows-Once rs (replay w r.decision_id r.msg_type r.payload s).1 o' d
                (still-has r rs s a h))
        | inr e ↦ subst (λ x. Once x.1) (sym (drain_rows-breaks w r rs s e)) o'
      ]

All-has : (rows : Outbox) → All (λ q. has q.decision_id rows ≡ true) rows
All-has [] = tt
All-has (q ∷ rows) =
    (ground (arith, ==_refl q.decision_id), All-map (λ p h. ground (arith, h)) rows (All-has rows))

-- Where the sink stores a row exactly if it answers True, neither the removal from the outbox nor the
-- mark as sent fails after it, and the outbox has each id once, the drain keeps it so that a row is stored at most once for each decision, and not while the decision
-- is unsent or in the outbox.
pub drain_outbox-Once :
    (w : World) (s : Gateway)
    → Honest w
    → DistinctRows s.outbox
    → Once s
    → Once (drain_outbox w s).1
unfolding drain_outbox iter_pending
drain_outbox-Once w s hon d o = drain_rows-Once w hon s.outbox s o d (All-has s.outbox)
