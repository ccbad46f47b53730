-- ===== src/Egress/Loss.antt =====
-- At least once: a decision that is to be loaded is not marked as sent before a row is stored for it,
-- whatever fails. SocketDaim/egress_gateway/sender.py with a tick of poller.py.
use dust_monitoring.Prelude.{
  ℕ, ◌≡◌, refl, sym, ap, subst, ◌∙◌, Bool, true, ◌&&◌, ◌||◌, Option, is_some, List, [], ◌∷◌, any,
  any-append, ◌==◌, length, arith, All, Bool-cases, Option-cases, inl, inr,
}
use dust_monitoring.Egress.Row.{DecisionRecord, Dust, Row, build_row}
use dust_monitoring.Egress.Sender.{
  is_ok, is_stored, Closing, closed, remove_raised, mark_raised, close, Call, Gateway, World,
  fetch_pending, fetch_dust?, called, write, send_record,
}
use dust_monitoring.Egress.Service.{send_all, tick}
use dust_monitoring.Egress.Delivery.{
  unsent, unsent-skip, unsent-write, is_selected, with_row, send_record-write, send_record-skip,
}
use dust_monitoring.Egress.Rounds.{send_all-goes_on, send_all-breaks}
use dust_monitoring.Egress.Storing.{ok_stored}

-- The decision is not marked as sent, or a row is stored for it.
abbrev pub is_kept : ℕ → Gateway → Bool
is_kept i s = unsent i s || any (λ c. c.decision_id == i && is_stored c.outcome) s.calls

close-calls :
    (w : World) (i : ℕ) (c : Closing) (s : Gateway)
    → ((close w i c s).1.calls ≡ s.calls) × ((close w i c s).1.dust ≡ s.dust)
unfolding close
close-calls w i closed s = (refl, refl)
close-calls w i remove_raised s = (refl, refl)
close-calls w i mark_raised s = (refl, refl)

write-calls :
    (w : World) (i : ℕ) (values : Row) (s : Gateway)
    → ((write w i values s).1.calls ≡ (called w i values s).calls)
      × ((write w i values s).1.dust ≡ s.dust)
unfolding write
write-calls w i values s = elim (Bool-cases (is_ok (w.answer (length s.calls) values))) [
  | inl e ↦ rw e (close-calls w i (w.closing (length s.calls)) (called w i values s))
  | inr e ↦ rw e (refl, refl)
]

write-is_kept :
    (w : World) (i j : ℕ) (values : Row) (s : Gateway)
    → is_kept j s ≡ true
    → is_kept j (write w i values s).1 ≡ true
write-is_kept w i j values s k =
    let stored = λ (c : Call). c.decision_id == j && is_stored c.outcome in
    ground (
      arith,
      k,
      unsent-write w i values s j,
      ap (any stored) (write-calls w i values s).0,
      any-append stored s.calls (
          record { decision_id = i; values = values; outcome = w.answer (length s.calls) values }
          ∷ []),
      ok_stored (w.answer (length s.calls) values),
    )

module _ (w : World) (allowed : Option (List ℕ)) (i : ℕ) where
  -- A record of that id has its measurement, and its event code is to be loaded.
  abbrev pub ToLoad : List (ℕ × Dust) → DecisionRecord → Type 0
  ToLoad dust r =
      (r.id == i) ≡ true → is_some (fetch_dust? r.dust_id dust) && is_selected allowed r ≡ true

  send_record-is_kept :
      (r : DecisionRecord) (s : Gateway)
      → ToLoad s.dust r
      → is_kept i s ≡ true
      → (is_kept i (send_record w allowed r s).1 ≡ true)
        × ((send_record w allowed r s).1.dust ≡ s.dust)
  send_record-is_kept r s load k =
      elim (Bool-cases (is_some (fetch_dust? r.dust_id s.dust) && is_selected allowed r)) [
        | inl e ↦ elim (Option-cases (fetch_dust? r.dust_id s.dust)) [
          | inl n ↦ cc (e, ap (λ q. is_some q && is_selected allowed r) n)
          | inr (d, y) ↦
              let values = build_row w.str_float r d in
              rw
                (send_record-write w allowed r s d y
                  (ap (λ q. is_some q && is_selected allowed r) (sym y) ∙ e))
                (
                  write-is_kept w r.id i values (with_row w r.id values s) k,
                  (write-calls w r.id values (with_row w r.id values s)).1,
                )
        ]
        | inr e ↦
            rw (send_record-skip w allowed r s e)
              (ground (arith, k, e, load, unsent-skip w r.id i s), refl)
      ]

  send_all-is_kept :
      (rs : List DecisionRecord) (s : Gateway)
      → All (ToLoad s.dust) rs
      → is_kept i s ≡ true
      → is_kept i (send_all w allowed rs s) ≡ true
  send_all-is_kept [] s load k = unfold send_all in k
  send_all-is_kept (r ∷ rs) s (l, load) k =
      let (k', same) = send_record-is_kept r s l k in
      elim (Bool-cases (send_record w allowed r s).0) [
        | inl e ↦
            subst (λ t. is_kept i t ≡ true) (sym (send_all-goes_on w allowed r rs s e))
              (send_all-is_kept rs (send_record w allowed r s).1
                (subst (λ d. All (ToLoad d) rs) (sym same) load) k')
        | inr e ↦ subst (λ t. is_kept i t ≡ true) (sym (send_all-breaks w allowed r rs s e)) k'
      ]

  -- Whatever the sink answers or raises, and whether the removal from the outbox and the mark as sent
  -- fail or not: a decision whose fetched record has its measurement and an event code to be loaded is
  -- after a tick unsent still, or a row is stored for it, if it was so before.
  pub tick-is_kept :
      (batch : ℕ) (s : Gateway)
      → All (ToLoad s.dust) (fetch_pending batch s.decisions)
      → is_kept i s ≡ true
      → is_kept i (tick w allowed batch s) ≡ true
  unfolding tick
  tick-is_kept batch s load k = send_all-is_kept (fetch_pending batch s.decisions) s load k
