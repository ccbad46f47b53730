-- ===== src/Egress/Service.antt =====
-- SocketDaim/egress_gateway/poller.py, one tick, and main.py, the drain of the outbox at the start.
use dust_monitoring.Prelude.{ℕ, suc, true, false, Option, List, [], ◌∷◌}
use dust_monitoring.Egress.Row.{DecisionRecord}
use dust_monitoring.Egress.Outbox.{Outbox, iter_pending}
use dust_monitoring.Egress.Sender.{Gateway, World, fetch_pending, send_record, replay}

-- The loop over the fetched records, which a failed send breaks.
unfoldable pub send_all : World → Option (List ℕ) → List DecisionRecord → Gateway → Gateway
send_all w allowed [] s = s
send_all w allowed (r ∷ rs) s =
    let (ok, s') = send_record w allowed r s in
    elim ok [ true ↦ send_all w allowed rs s' | false ↦ s' ]

unfoldable pub tick : World → Option (List ℕ) → ℕ → Gateway → Gateway
unfolding send_all
tick w allowed batch s = send_all w allowed (fetch_pending batch s.decisions) s

-- `_drain_outbox`, with the number of the rows drained.
unfoldable pub drain_rows : World → Outbox → Gateway → ℕ × Gateway
drain_rows w [] s = (0, s)
drain_rows w (r ∷ rs) s =
    let (ok, s') = replay w r.decision_id r.msg_type r.payload s in
    elim ok [ true ↦ let (n, t) = drain_rows w rs s' in (suc n, t) | false ↦ (0, s') ]

unfoldable pub drain_outbox : World → Gateway → ℕ × Gateway
unfolding drain_rows
drain_outbox w s = drain_rows w (iter_pending s.outbox) s
