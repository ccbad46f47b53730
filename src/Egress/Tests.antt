-- ===== src/Egress/Tests.antt =====
-- A run of the egress gateway on two decisions, and the theorems about it at that run.
use dust_monitoring.Prelude.{
  arith, ℕ, ◌≡◌, refl, true, false, none, some, [], ◌∷◌, ◌++◌, Text, codes, sort_by, equal,
}
use dust_monitoring.Egress.Row.{DecisionRecord, Dust, build_row, event_id_of}
use dust_monitoring.Egress.Outbox.{has}
use dust_monitoring.Egress.Sender.{
  inserted, raised, SinkOutcome, closed, mark_raised, Gateway, World, fetch_pending, fetch_dust,
  send_record,
}
use dust_monitoring.Egress.Service.{tick}
use dust_monitoring.Egress.Delivery.{unsent, call_of, send_record-delivers, send_record-keeps}
use dust_monitoring.Egress.Storing.{Once}
use dust_monitoring.Egress.Once.{tick-Once}
use dust_monitoring.Egress.Loss.{is_kept, tick-is_kept}
use dust_monitoring.Egress.Rounds.{ticks, ticks-blocked}

abbrev measured : Dust
measured = record {
  sensor_datetime = some (codes "2026-06-25 17:08:58");
  sensor_type = none;
  sensor_index = none;
  target_index = none;
  dust_value = some 7;
  waypoint_x = none;
  waypoint_y = none;
  waypoint_z = none;
  location_id = none;
  map_id = none;
  navigation_id = none;
  exec_id = none;
  plant_id = none;
  target_id = some (codes "1102");
  ugv_id = none;
  waypoint_id = none;
  inspection_local_id = none;
  inspection_pan = none;
  inspection_tilt = none;
  inspection_lift = none;
  object_id = none;
  rot_x = none;
  rot_y = none;
  rot_z = none;
  rot_w = none;
}

abbrev decision : ℕ → Text → ℕ → DecisionRecord
decision i final at = record {
  id = i;
  dust_id = some 40;
  final_decision = final;
  image_b64 = none;
  decided_at = some at;
  sent_at = none;
}

abbrev orphan : DecisionRecord
orphan = record {
  id = 9;
  dust_id = some 41;
  final_decision = codes "normal";
  image_b64 = none;
  decided_at = some 5;
  sent_at = none;
}

abbrev start : Gateway
start = record {
  decisions = decision 1 (codes "warning") 10 ∷ decision 2 (codes "normal") 20 ∷ [];
  dust = (40, measured) ∷ [];
  outbox = record { decision_id = 1; msg_type = 0; payload = []; attempts = 3 } ∷ [];
  calls = [];
}

abbrev plain : ℕ → Text
plain n = n ∷ []

abbrev world : SinkOutcome → World
world o = record {
  now = 100;
  answer = λ n r. o;
  closing = λ n. closed;
  str_float = plain;
  dumps = λ r. [];
  loads = λ p. unfold build_row in build_row plain orphan measured;
}

abbrev first : DecisionRecord
first = decision 1 (codes "warning") 10

send_record-delivers_example :
    ((send_record (world inserted) none first start).0 ≡ true)
    × (((send_record (world inserted) none first start).1.calls
          ≡ start.calls ++ call_of (world inserted) first measured start ∷ [])
        × ((unsent 1 (send_record (world inserted) none first start).1 ≡ false)
            × (has 1 (send_record (world inserted) none first start).1.outbox ≡ false)))
unfolding fetch_dust event_id_of equal
send_record-delivers_example =
    send_record-delivers (world inserted) none first start measured refl refl refl

send_record-keeps_example :
    ((send_record (world raised) none first start).0 ≡ false)
    × (((send_record (world raised) none first start).1.decisions ≡ start.decisions)
        × (has 1 (send_record (world raised) none first start).1.outbox ≡ true))
unfolding fetch_dust event_id_of equal
send_record-keeps_example =
    send_record-keeps (world raised) none first start measured refl refl refl

fetched : fetch_pending 100 start.decisions ≡ first ∷ decision 2 (codes "normal") 20 ∷ []
unfolding fetch_pending sort_by equal
fetched = refl

ticks-blocked_example : (ticks (world raised) none 100 12 start).decisions ≡ start.decisions
unfolding fetch_dust event_id_of equal
ticks-blocked_example =
    ticks-blocked (world raised) none 100 12 start first (decision 2 (codes "normal") 20 ∷ [])
      measured fetched refl refl (λ m. refl)

tick-Once_example : Once (tick (world inserted) none 100 start)
unfolding fetch_pending sort_by equal
tick-Once_example =
    tick-Once (world inserted) none 100 start (λ n r. refl) ((refl, tt), (tt, tt))
      (λ i. (omega arith, λ h. refl))

-- The row is stored, and the mark as sent fails: the decision is unsent still.
abbrev interrupted : World
interrupted = record (world inserted) { closing = λ n. mark_raised }

tick-is_kept_example : is_kept 1 (tick interrupted none 100 start) ≡ true
unfolding fetch_dust fetch_pending sort_by event_id_of equal
tick-is_kept_example = tick-is_kept interrupted none 1 100 start (λ h. refl, (λ h. refl, tt)) refl
