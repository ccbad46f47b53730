-- ===== src/Egress/Rounds.antt =====
-- What a tick does to the decisions that it fetches, and the drain to the outbox.
use dust_monitoring.Prelude.{
  ℕ, zero, suc, ◌≡◌, refl, sym, ap, subst, ◌∙◌, true, false, not, ◌&&◌, ◌||◌, Option, some, is_some,
  List, [], ◌∷◌, ◌==◌, ==_refl, length, arith, All, Bool-cases, Option-cases, inl, inr,
}
use dust_monitoring.Egress.Row.{DecisionRecord, Dust, Row, build_row}
use dust_monitoring.Egress.Outbox.{OutboxRow, Outbox, has, bump_attempts, iter_pending, count}
use dust_monitoring.Egress.Sender.{
  is_ok, is_done, Gateway, World, fetch_pending, fetch_dust?, called, send_record, replay,
}
use dust_monitoring.Egress.Service.{send_all, tick, drain_rows, drain_outbox}
use dust_monitoring.Egress.Delivery.{
  unsent, unsent-skip, is_selected, with_row, unsent-write, write-ok, write-failed,
  send_record-write, send_record-delivers, send_record-skips, send_record-skip, has-remove,
}

module _ (w : World) (allowed : Option (List ℕ)) where
  pub send_all-goes_on :
      (r : DecisionRecord) (rs : List DecisionRecord) (s : Gateway)
      → (send_record w allowed r s).0 ≡ true
      → send_all w allowed (r ∷ rs) s ≡ send_all w allowed rs (send_record w allowed r s).1
  unfolding send_all
  send_all-goes_on r rs s e =
      ap
        (λ b. elim b [
          | true ↦ send_all w allowed rs (send_record w allowed r s).1
          | false ↦ (send_record w allowed r s).1
        ])
        e

  pub send_all-breaks :
      (r : DecisionRecord) (rs : List DecisionRecord) (s : Gateway)
      → (send_record w allowed r s).0 ≡ false
      → send_all w allowed (r ∷ rs) s ≡ (send_record w allowed r s).1
  unfolding send_all
  send_all-breaks r rs s e =
      ap
        (λ b. elim b [
          | true ↦ send_all w allowed rs (send_record w allowed r s).1
          | false ↦ (send_record w allowed r s).1
        ])
        e

  unsent-send_record :
      (r : DecisionRecord) (s : Gateway) (i : ℕ)
      → unsent i s ≡ false
      → unsent i (send_record w allowed r s).1 ≡ false
  unsent-send_record r s i h =
      elim (Bool-cases (is_some (fetch_dust? r.dust_id s.dust) && is_selected allowed r)) [
        | inl e ↦ elim (Option-cases (fetch_dust? r.dust_id s.dust)) [
          | inl n ↦ cc (e, ap (λ o. is_some o && is_selected allowed r) n)
          | inr (d, y) ↦
              rw
                (send_record-write w allowed r s d y
                  (ap (λ o. is_some o && is_selected allowed r) (sym y) ∙ e))
                (unsent-write w r.id (build_row w.str_float r d)
                    (with_row w r.id (build_row w.str_float r d) s) i
                  ∙ ground (arith, h))
        ]
        | inr e ↦ rw (send_record-skip w allowed r s e) (unsent-skip w r.id i s ∙ ground (arith, h))
      ]

  unsent-send_all :
      (rs : List DecisionRecord) (s : Gateway) (i : ℕ)
      → unsent i s ≡ false
      → unsent i (send_all w allowed rs s) ≡ false
  unsent-send_all [] s i h = unfold send_all in h
  unsent-send_all (r ∷ rs) s i h = elim (Bool-cases (send_record w allowed r s).0) [
    | inl e ↦
        rw (send_all-goes_on r rs s e)
          (unsent-send_all rs (send_record w allowed r s).1 i (unsent-send_record r s i h))
    | inr e ↦ rw (send_all-breaks r rs s e) (unsent-send_record r s i h)
  ]

  send_record-ok :
      (r : DecisionRecord) (s : Gateway)
      → ((n : ℕ) (values : Row) → is_done w n values ≡ true)
      → ((send_record w allowed r s).0 ≡ true) × (unsent r.id (send_record w allowed r s).1 ≡ false)
  send_record-ok r s ok =
      elim (Bool-cases (is_some (fetch_dust? r.dust_id s.dust) && is_selected allowed r)) [
        | inl e ↦ elim (Option-cases (fetch_dust? r.dust_id s.dust)) [
          | inl n ↦ cc (e, ap (λ o. is_some o && is_selected allowed r) n)
          | inr (d, y) ↦
              let all =
                send_record-delivers w allowed r s d y
                  (ap (λ o. is_some o && is_selected allowed r) (sym y) ∙ e)
                  (ok (length s.calls) (build_row w.str_float r d)) in
              (all.0, all.1.1.0)
        ]
        | inr e ↦ let all = send_record-skips w allowed r s e in (all.0, all.1.1.0)
      ]

  send_all-sends :
      (rs : List DecisionRecord) (s : Gateway)
      → ((n : ℕ) (values : Row) → is_done w n values ≡ true)
      → All (λ r. unsent r.id (send_all w allowed rs s) ≡ false) rs
  send_all-sends [] s ok = tt
  send_all-sends (r ∷ rs) s ok =
      let (e, sent) = send_record-ok r s ok in
      subst (λ t. All (λ q. unsent q.id t ≡ false) (r ∷ rs)) (sym (send_all-goes_on r rs s e))
        (
          unsent-send_all rs (send_record w allowed r s).1 r.id sent,
          send_all-sends rs (send_record w allowed r s).1 ok,
        )

-- While the sink answers True and nothing fails after it, a tick leaves no decision unsent of those that it fetched.
pub tick-sends :
    (w : World) (allowed : Option (List ℕ)) (batch : ℕ) (s : Gateway)
    → ((n : ℕ) (values : Row) → is_done w n values ≡ true)
    → All (λ r. unsent r.id (tick w allowed batch s) ≡ false) (fetch_pending batch s.decisions)
unfolding tick
tick-sends w allowed batch s ok = send_all-sends w allowed (fetch_pending batch s.decisions) s ok

tick-breaks :
    (w : World) (allowed : Option (List ℕ)) (batch : ℕ) (s : Gateway) (r : DecisionRecord)
    (rs : List DecisionRecord)
    → fetch_pending batch s.decisions ≡ r ∷ rs
    → (send_record w allowed r s).0 ≡ false
    → tick w allowed batch s ≡ (send_record w allowed r s).1
unfolding tick
tick-breaks w allowed batch s r rs f e =
    ap (λ q. send_all w allowed q s) f ∙ send_all-breaks w allowed r rs s e

-- So many ticks.
unfoldable pub ticks : World → Option (List ℕ) → ℕ → ℕ → Gateway → Gateway
ticks w allowed batch zero s = s
ticks w allowed batch (suc n) s = ticks w allowed batch n (tick w allowed batch s)

-- If the sink never takes the row of the first decision that is fetched, one whose measurement is
-- there and whose event code is to be loaded, then no number of ticks changes the decision table:
-- all the decisions behind it stay unsent.
pub ticks-blocked :
    (w : World) (allowed : Option (List ℕ)) (batch n : ℕ) (s : Gateway) (r : DecisionRecord)
    (rs : List DecisionRecord) (d : Dust)
    → fetch_pending batch s.decisions ≡ r ∷ rs
    → fetch_dust? r.dust_id s.dust ≡ some d
    → is_selected allowed r ≡ true
    → ((m : ℕ) → is_ok (w.answer m (build_row w.str_float r d)) ≡ false)
    → (ticks w allowed batch n s).decisions ≡ s.decisions
unfolding ticks
ticks-blocked w allowed batch zero s r rs d f e a fails = refl
ticks-blocked w allowed batch (suc n) s r rs d f e a fails =
    let values = build_row w.str_float r d in
    let s' = record (called w r.id values (with_row w r.id values s)) {
      outbox = bump_attempts r.id (with_row w r.id values s).outbox;
    } in
    let sent : send_record w allowed r s ≡ (false, s') =
      send_record-write w allowed r s d e a
      ∙ write-failed w r.id values (with_row w r.id values s) (fails (length s.calls)) in
    let step : tick w allowed batch s ≡ s' =
      tick-breaks w allowed batch s r rs f (ap (λ x. x.0) sent) ∙ ap (λ x. x.1) sent in
    ap (λ t. (ticks w allowed batch n t).decisions) step
    ∙ ticks-blocked w allowed batch n s' r rs d f e a fails

no-has : (rows : Outbox) → ((i : ℕ) → has i rows ≡ false) → rows ≡ []
no-has [] h = refl
no-has (r ∷ rs) h =
    cc (h r.decision_id, ap (λ b. b || has r.decision_id rs) (==_refl r.decision_id))

pub drain_rows-goes_on :
    (w : World) (r : OutboxRow) (rs : Outbox) (s : Gateway)
    → (replay w r.decision_id r.msg_type r.payload s).0 ≡ true
    → drain_rows w (r ∷ rs) s ≡ (
        let s' = (replay w r.decision_id r.msg_type r.payload s).1 in
        (suc (drain_rows w rs s').0, (drain_rows w rs s').1))
unfolding drain_rows
drain_rows-goes_on w r rs s e =
    let s' = (replay w r.decision_id r.msg_type r.payload s).1 in
    ap
      (λ b. elim b [
        | true ↦ (suc (drain_rows w rs s').0, (drain_rows w rs s').1)
        | false ↦ (0, s')
      ])
      e

pub drain_rows-breaks :
    (w : World) (r : OutboxRow) (rs : Outbox) (s : Gateway)
    → (replay w r.decision_id r.msg_type r.payload s).0 ≡ false
    → drain_rows w (r ∷ rs) s ≡ (0, (replay w r.decision_id r.msg_type r.payload s).1)
unfolding drain_rows
drain_rows-breaks w r rs s e =
    let s' = (replay w r.decision_id r.msg_type r.payload s).1 in
    ap
      (λ b. elim b [
        | true ↦ (suc (drain_rows w rs s').0, (drain_rows w rs s').1)
        | false ↦ (0, s')
      ])
      e

replay-ok :
    (w : World) (r : OutboxRow) (s : Gateway) (i : ℕ)
    → ((n : ℕ) (values : Row) → is_done w n values ≡ true)
    → ((replay w r.decision_id r.msg_type r.payload s).0 ≡ true)
      × (has i (replay w r.decision_id r.msg_type r.payload s).1.outbox
          ≡ (has i s.outbox && not (r.decision_id == i)))
unfolding replay
replay-ok w r s i ok =
    rw (write-ok w r.decision_id (w.loads r.payload) s (ok (length s.calls) (w.loads r.payload)))
      (refl, has-remove r.decision_id i s.outbox)

drain_rows-has :
    (w : World) (rows : Outbox) (s : Gateway) (i : ℕ)
    → ((n : ℕ) (values : Row) → is_done w n values ≡ true)
    → (has i (drain_rows w rows s).1.outbox ≡ (has i s.outbox && not (has i rows)))
      × ((drain_rows w rows s).0 ≡ length rows)
drain_rows-has w [] s i ok = unfold drain_rows in (ground arith, refl)
drain_rows-has w (r ∷ rs) s i ok =
    let s' = (replay w r.decision_id r.msg_type r.payload s).1 in
    let (e, removed) = replay-ok w r s i ok in
    let (kept, counted) = drain_rows-has w rs s' i ok in
    let step = drain_rows-goes_on w r rs s e in
    (
      ap (λ x. has i x.1.outbox) step ∙ kept ∙ ground (arith, removed),
      ap (λ x. x.0) step ∙ ap suc counted,
    )

-- While the sink answers True and nothing fails after it, the drain empties the outbox and counts its rows.
pub drain_outbox-empties :
    (w : World) (s : Gateway)
    → ((n : ℕ) (values : Row) → is_done w n values ≡ true)
    → ((drain_outbox w s).1.outbox ≡ []) × ((drain_outbox w s).0 ≡ count s.outbox)
unfolding drain_outbox iter_pending count
drain_outbox-empties w s ok = (
  no-has _ (λ i. (drain_rows-has w s.outbox s i ok).0 ∙ ground arith),
  (drain_rows-has w s.outbox s 0 ok).1,
)
