-- ===== src/Charts/Silence.antt =====
-- What becomes of the subscribers of a pump that failed:
-- Dumopro_Data_Analysis_WebApp/apps/api/services/sse_broadcaster.py.
use dust_monitoring.Prelude.{
  ℕ, ◌≡◌, ap, sym, ◌∙◌, true, false, List, [], ◌∷◌, arith, Text, equal, equal_iff,
}
use dust_monitoring.Charts.Broadcaster.{SseBroadcaster, queues_of, has_pump, subscribe, pump_fails}
use dust_monitoring.Charts.Pumps.{
  Reachable, subscribed, failed, is_any, has_pump-added, has_pump-remove, running-added,
  Reachable-Pumped,
}

-- Subscriptions, one after the other.
unfoldable pub subscribe_each : List (Text × ℕ) → SseBroadcaster → SseBroadcaster
unfolding subscribe
subscribe_each [] b = b
subscribe_each (x ∷ xs) b = subscribe_each xs (subscribe x.0 x.1 b)

-- Nothing runs for a station that has a pump, and so it stays.
silent :
    (s : Text) (xs : List (Text × ℕ)) (b : SseBroadcaster)
    → has_pump s b.pumps ≡ true
    → has_pump s b.running ≡ false
    → (has_pump s (subscribe_each xs b).pumps ≡ true)
      × (has_pump s (subscribe_each xs b).running ≡ false)
unfolding subscribe_each subscribe
silent s [] b p r = (p, r)
silent s (x ∷ xs) b p r =
    let same : equal x.0 s ≡ true → has_pump x.0 b.pumps ≡ true =
      λ e. ap (λ t. has_pump t b.pumps) ((equal_iff x.0 s).0 e) ∙ p in
    silent s xs (subscribe x.0 x.1 b) (ground (arith, p, has_pump-added s x.0 b.pumps))
      (ground (arith, p, r, running-added s x.0 b.pumps b.running, same))

Reachable-each :
    (xs : List (Text × ℕ)) {b : SseBroadcaster} → Reachable b → Reachable (subscribe_each xs b)
unfolding subscribe_each
Reachable-each [] r = r
Reachable-each (x ∷ xs) r = Reachable-each xs (subscribed x.0 x.1 r)

-- Where somebody is subscribed to a station and its pump fails, no subscriptions that follow start a
-- pump for it: its subscribers stay subscribed, and nothing runs for them.
pub subscribe_each-silent :
    {b : SseBroadcaster} (station : Text) (xs : List (Text × ℕ))
    → Reachable b
    → is_any (queues_of station b.queues) ≡ true
    → let b' = subscribe_each xs (pump_fails station b) in
      (is_any (queues_of station b'.queues) ≡ true) × (has_pump station b'.running ≡ false)
unfolding pump_fails
subscribe_each-silent {b} station xs r e =
    let h = Reachable-Pumped r in
    let (p, q) =
      silent station xs (pump_fails station b) (h.each station ∙ e)
        (has_pump-remove station station b.running ∙ ground (arith, equal_iff station station)) in
    (sym ((Reachable-Pumped (Reachable-each xs (failed station r))).each station) ∙ p, q)
