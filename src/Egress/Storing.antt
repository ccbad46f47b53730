-- ===== src/Egress/Storing.antt =====
-- How often a row is stored for a decision, and what one call of the sink does to that.
use dust_monitoring.Prelude.{
  ℕ, suc, ◌+◌, ◌≤◌, ◌≡◌, refl, sym, ap, ◌∙◌, Bool, true, false, not, ◌&&◌, ◌||◌, List, [], ◌∷◌,
  ◌++◌, any-append, ◌==◌, ==_iff, if◌then◌else◌, length, arith, Bool-cases, inl, inr,
}
use dust_monitoring.Egress.Row.{Row}
use dust_monitoring.Egress.Outbox.{Outbox, has, add}
use dust_monitoring.Egress.Sender.{
  SinkOutcome, inserted, refused, raised, raised_after_commit, is_ok, is_stored, is_done, Call,
  Gateway, World, write, skip,
}
use dust_monitoring.Egress.Delivery.{
  unsent, unsent-skip, with_row, unsent-write, write-ok, write-failed, has-remove,
  has-bump_attempts,
}

-- How often a row was stored for the decision.
abbrev pub stored : ℕ → List Call → ℕ
stored i [] = 0
stored i (c ∷ cs) =
    if c.decision_id == i && is_stored c.outcome then suc (stored i cs) else stored i cs

-- At most once, and not yet while the decision waits in a table or in the outbox.
abbrev pub Once : Gateway → Type 0
Once s =
    (i : ℕ)
    → (stored i s.calls ≤ 1) × ((unsent i s || has i s.outbox) ≡ true → stored i s.calls ≡ 0)

stored-append :
    (i : ℕ) (cs : List Call) (c : Call)
    → stored i (cs ++ c ∷ [])
      ≡ stored i cs + (if c.decision_id == i && is_stored c.outcome then 1 else 0)
stored-append i [] c = ground arith
stored-append i (d ∷ cs) c = ground (arith, stored-append i cs c)

has-add_any :
    (i j t : ℕ) (p : List ℕ) (rows : Outbox) → has j (add i t p rows) ≡ ((i == j) || has j rows)
unfolding add
has-add_any i j t p rows = ground (
  arith,
  any-append (λ r. r.decision_id == j) rows
      (record { decision_id = i; msg_type = t; payload = p; attempts = 0 } ∷ []),
  ==_iff i j,
  same,
)
  where
    same : i ≡ j → has i rows ≡ has j rows
    same e = ap (λ k. has k rows) e

-- The sink answers True exactly where it stores the row, and what follows it never fails.
abbrev pub Honest : World → Type 0
Honest w = (n : ℕ) (values : Row) → is_stored (w.answer n values) ≡ is_done w n values

abbrev counts : Bool → ℕ
counts b = if b then 1 else 0

pub ok_stored : (o : SinkOutcome) → is_ok o ≡ true → is_stored o ≡ true
ok_stored inserted h = refl
ok_stored refused h = cc
ok_stored raised h = cc
ok_stored raised_after_commit h = refl

failed :
    (w : World) (n : ℕ) (values : Row)
    → Honest w
    → is_done w n values ≡ false
    → is_ok (w.answer n values) ≡ false
failed w n values hon e = elim (Bool-cases (is_ok (w.answer n values))) [
  | inl y ↦ cc (sym (ok_stored (w.answer n values) y) ∙ hon n values ∙ e)
  | inr y ↦ y
]

stored-write :
    (w : World) (i j : ℕ) (values : Row) (s : Gateway)
    → Honest w
    → stored j (write w i values s).1.calls
      ≡ stored j s.calls + counts (i == j && is_done w (length s.calls) values)
stored-write w i j values s hon = elim (Bool-cases (is_done w (length s.calls) values)) [
  | inl e ↦
      rw (write-ok w i values s e)
        (stored-append j s.calls _ ∙ rw (hon (length s.calls) values) refl)
  | inr e ↦
      rw (write-failed w i values s (failed w (length s.calls) values hon e))
        (stored-append j s.calls _ ∙ rw (hon (length s.calls) values) refl)
]

pub has-write :
    (w : World) (i j : ℕ) (values : Row) (s : Gateway)
    → Honest w
    → has j (write w i values s).1.outbox
      ≡ (has j s.outbox && not (is_done w (length s.calls) values && i == j))
has-write w i j values s hon = elim (Bool-cases (is_done w (length s.calls) values)) [
  | inl e ↦ rw (write-ok w i values s e) (rw e (has-remove i j s.outbox))
  | inr e ↦
      rw (write-failed w i values s (failed w (length s.calls) values hon e))
        (rw e (has-bump_attempts i j s.outbox ∙ ground arith))
]

pub write-Once :
    (w : World) (i : ℕ) (values : Row) (s : Gateway)
    → Honest w
    → Once s
    → stored i s.calls ≡ 0
    → Once (write w i values s).1
write-Once w i values s hon o z j =
    let (le, free) = o j in
    let same : (i == j) ≡ true → stored j s.calls ≡ 0 =
      λ e. ap (λ k. stored k s.calls) (sym ((==_iff i j).0 e)) ∙ z in
    (
      ground (arith, stored-write w i j values s hon, le, same),
      λ h. ground (
        arith,
        stored-write w i j values s hon,
        has-write w i j values s hon,
        unsent-write w i values s j,
        h,
        free,
        same,
      ),
    )

pub add-Once :
    (w : World) (i : ℕ) (values : Row) (s : Gateway)
    → Once s
    → unsent i s ≡ true
    → Once (with_row w i values s)
add-Once w i values s o u j =
    let (le, free) = o j in
    let same : (i == j) ≡ true → unsent j s ≡ true =
      λ e. ap (λ k. unsent k s) (sym ((==_iff i j).0 e)) ∙ u in
    (le, λ h. ground (arith, has-add_any i j 0 (w.dumps values) s.outbox, h, free, same))

pub skip-Once : (w : World) (i : ℕ) (s : Gateway) → Once s → Once (skip w i s).1
skip-Once w i s o j =
    let (le, free) = o j in (le, λ h. ground (arith, unsent-skip w i j s, h, free))
