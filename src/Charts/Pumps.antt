-- ===== src/Charts/Pumps.antt =====
-- The pumps and the queues of Dumopro_Data_Analysis_WebApp/apps/api/services/sse_broadcaster.py in every
-- state that its methods lead to.
use dust_monitoring.Prelude.{
  ℕ, ◌≡◌, refl, ap, sym, ◌∙◌, Bool, true, false, not, ◌&&◌, ◌||◌, List, [], ◌∷◌, ◌++◌, any-append,
  map, arith, if◌then◌else◌, Text, equal, equal_iff, Bool-cases, inl, inr,
}
use dust_monitoring.Charts.Broadcaster.{
  SubscriberQueue, SseBroadcaster, queues_of, add_queue, has_pump, new_queue, subscribe, without,
  set_queues, remove_station, remove_pump, leave, unsubscribe_from, unsubscribe, subscribe_all,
  unsubscribe_all, close, put, fan_out, fan_out_all, pump_fails, pump_all_fails,
}

abbrev pub started : SseBroadcaster
started = record {
  queues = [];
  pumps = [];
  running = [];
  all_queues = [];
  all_pump = false;
  all_running = false;
  cancelled = 0;
}

-- The states that the methods lead to, and the pumps that fail, in any order.
pub data Reachable : SseBroadcaster → Type 0 where
  start : Reachable started
  subscribed :
      {b : SseBroadcaster} (station : Text) (id : ℕ)
      → Reachable b
      → Reachable (subscribe station id b)
  unsubscribed :
      {b : SseBroadcaster} (station : Text) (id : ℕ)
      → Reachable b
      → Reachable (unsubscribe station id b)
  subscribed_all : {b : SseBroadcaster} (id : ℕ) → Reachable b → Reachable (subscribe_all id b)
  unsubscribed_all : {b : SseBroadcaster} (id : ℕ) → Reachable b → Reachable (unsubscribe_all id b)
  fanned_out :
      {b : SseBroadcaster} (station payload : Text)
      → Reachable b
      → Reachable (fan_out station payload b)
  fanned_out_all :
      {b : SseBroadcaster} (payload : Text) → Reachable b → Reachable (fan_out_all payload b)
  failed : {b : SseBroadcaster} (station : Text) → Reachable b → Reachable (pump_fails station b)
  failed_all : {b : SseBroadcaster} → Reachable b → Reachable (pump_all_fails b)
  closed : {b : SseBroadcaster} → Reachable b → Reachable (close b)

abbrev pub is_any : List SubscriberQueue → Bool
is_any [] = false
is_any (q ∷ qs) = true

-- A pump is registered for a station exactly if somebody is subscribed to it, and none runs that is
-- not registered; and so it is for the pump of all stations.
pub record Pumped (b : SseBroadcaster) : Type 0 where
  pub each : (station : Text) → has_pump station b.pumps ≡ is_any (queues_of station b.queues)
  pub all : b.all_pump ≡ is_any b.all_queues
  pub runs : (station : Text) → has_pump station b.running ≡ true → has_pump station b.pumps ≡ true
  pub runs_all : b.all_running ≡ true → b.all_pump ≡ true

is_any-append : (qs : List SubscriberQueue) (q : SubscriberQueue) → is_any (qs ++ q ∷ []) ≡ true
is_any-append [] q = refl
is_any-append (x ∷ qs) q = refl

queues_of-add_queue :
    (s station : Text) (q : SubscriberQueue) (t : List (Text × List SubscriberQueue))
    → is_any (queues_of s (add_queue station q t)) ≡ (equal station s || is_any (queues_of s t))
unfolding queues_of add_queue
queues_of-add_queue s station q [] = ground arith
queues_of-add_queue s station q ((r, qs) ∷ t) = ground (
  arith,
  is_any-append qs q,
  queues_of-add_queue s station q t,
  equal_iff r station,
  equal_iff r s,
  equal_iff s station,
  equal_iff station s,
)

queues_of-set_queues :
    (s station : Text) (q : SubscriberQueue) (qs : List SubscriberQueue)
    (t : List (Text × List SubscriberQueue))
    → is_any (queues_of station t) ≡ true
    → is_any (queues_of s (set_queues station (q ∷ qs) t)) ≡ is_any (queues_of s t)
unfolding queues_of set_queues
queues_of-set_queues s station q qs [] h = refl
queues_of-set_queues s station q qs ((r, rs) ∷ t) h = elim (Bool-cases (equal r station)) [
  | inl e ↦
      ground
        (arith, e, h, equal_iff r station, equal_iff r s, equal_iff s station, equal_iff station s)
  | inr e ↦ ground (
    arith,
    e,
    h,
    queues_of-set_queues s station q qs t (ground (arith, e, h)),
    equal_iff r station,
    equal_iff r s,
    equal_iff s station,
    equal_iff station s,
  )
]

queues_of-remove :
    (s station : Text) (t : List (Text × List SubscriberQueue))
    → is_any (queues_of s (remove_station station t))
      ≡ (not (equal s station) && is_any (queues_of s t))
unfolding queues_of
queues_of-remove s station [] = ground arith
queues_of-remove s station ((r, rs) ∷ t) = ground (
  arith,
  queues_of-remove s station t,
  equal_iff r station,
  equal_iff r s,
  equal_iff s station,
  equal_iff station s,
)

pub has_pump-remove :
    (s station : Text) (pumps : List Text)
    → has_pump s (remove_pump station pumps) ≡ (not (equal s station) && has_pump s pumps)
has_pump-remove s station [] = ground arith
has_pump-remove s station (r ∷ pumps) = ground (
  arith,
  has_pump-remove s station pumps,
  equal_iff r station,
  equal_iff r s,
  equal_iff s station,
  equal_iff station s,
)

pub has_pump-added :
    (s station : Text) (pumps : List Text)
    → has_pump s (if has_pump station pumps then pumps else pumps ++ station ∷ [])
      ≡ (equal station s || has_pump s pumps)
has_pump-added s station pumps = elim (Bool-cases (has_pump station pumps)) [
  | inl e ↦ elim (Bool-cases (equal station s)) [
    | inl f ↦
        let p : station ≡ s = ground (arith, f, equal_iff station s) in
        rw e (rw f (ap (λ x. has_pump x pumps) (sym p) ∙ e))
    | inr f ↦ rw e (rw f refl)
  ]
  | inr e ↦ rw e (any-append (λ x. equal x s) pumps (station ∷ []) ∙ ground arith)
]

-- The pump of another station, or a failed one, is not started.
pub running-added :
    (s station : Text) (pumps running : List Text)
    → has_pump s (if has_pump station pumps then running else running ++ station ∷ [])
      ≡ (has_pump s running || not (has_pump station pumps) && equal station s)
running-added s station pumps running = elim (Bool-cases (has_pump station pumps)) [
  | inl e ↦ rw e (ground arith)
  | inr e ↦ rw e (any-append (λ x. equal x s) running (station ∷ []) ∙ ground arith)
]

subscribe-Pumped :
    (station : Text) (id : ℕ) (b : SseBroadcaster) → Pumped b → Pumped (subscribe station id b)
unfolding subscribe
subscribe-Pumped station id b h = record {
  each = λ s.
      has_pump-added s station b.pumps
      ∙ ap (λ x. equal station s || x) (h.each s)
      ∙ sym (queues_of-add_queue s station (new_queue id) b.queues);
  all = h.all;
  runs = λ s r. ground (
    arith,
    r,
    running-added s station b.pumps b.running,
    has_pump-added s station b.pumps,
    h.runs s,
  );
  runs_all = h.runs_all;
}

leave-Pumped :
    (station : Text) (qs : List SubscriberQueue) (b : SseBroadcaster)
    → is_any (queues_of station b.queues) ≡ true
    → Pumped b
    → Pumped (leave station qs b)
leave-Pumped station [] b e h = record {
  each = λ s.
      has_pump-remove s station b.pumps
      ∙ ap (λ x. not (equal s station) && x) (h.each s)
      ∙ sym (queues_of-remove s station b.queues);
  all = h.all;
  runs = λ s r.
      ground (
        arith,
        r,
        has_pump-remove s station b.running,
        has_pump-remove s station b.pumps,
        h.runs s,
      );
  runs_all = h.runs_all;
}
leave-Pumped station (q ∷ qs) b e h = record {
  each = λ s. h.each s ∙ sym (queues_of-set_queues s station q qs b.queues e);
  all = h.all;
  runs = h.runs;
  runs_all = h.runs_all;
}

unsubscribe-Pumped :
    (station : Text) (id : ℕ) (b : SseBroadcaster) → Pumped b → Pumped (unsubscribe station id b)
unfolding unsubscribe
unsubscribe-Pumped station id b h = go (queues_of station b.queues) refl
  where
    go :
        (qs : List SubscriberQueue)
        → queues_of station b.queues ≡ qs
        → Pumped (unsubscribe_from station id qs b)
    go [] e = h
    go (q ∷ qs) e = leave-Pumped station (without id (q ∷ qs)) b (ap is_any e) h

last_one :
    (p : Bool) (after : List SubscriberQueue)
    → (is_any after ≡ true → p ≡ true)
    → (p && not (p && elim after [ [] ↦ true | q ∷ t ↦ false ])) ≡ is_any after
last_one true [] h = refl
last_one false [] h = refl
last_one true (q ∷ t) h = refl
last_one false (q ∷ t) h = h refl

pump_left :
    (id : ℕ) (qs : List SubscriberQueue) (p : Bool)
    → p ≡ is_any qs
    → (p && not (p && elim (without id qs) [ [] ↦ true | q ∷ t ↦ false ])) ≡ is_any (without id qs)
pump_left id [] p h = last_one p [] (λ e. h ∙ e)
pump_left id (q ∷ qs) p h = last_one p (without id (q ∷ qs)) (λ e. h)

and_true : (p q c : Bool) → (p ≡ true → q ≡ true) → (p && c) ≡ true → (q && c) ≡ true
and_true true q c h r = rw (h refl) r
and_true false q c h r = cc

unsubscribe_all-Pumped : (id : ℕ) (b : SseBroadcaster) → Pumped b → Pumped (unsubscribe_all id b)
unfolding unsubscribe_all
unsubscribe_all-Pumped id b h = record {
  each = h.each;
  all = pump_left id b.all_queues b.all_pump h.all;
  runs = h.runs;
  runs_all = λ r. and_true b.all_running b.all_pump _ h.runs_all r;
}

is_any-map :
    (f : SubscriberQueue → SubscriberQueue) (qs : List SubscriberQueue)
    → is_any (map f qs) ≡ is_any qs
is_any-map f [] = refl
is_any-map f (q ∷ qs) = refl

queues_of-fan_out :
    (s station payload : Text) (t : List (Text × List SubscriberQueue))
    → is_any (
        queues_of s
          (map (λ (r, qs). (r, if equal r station then map (put 256 payload) qs else qs)) t))
      ≡ is_any (queues_of s t)
unfolding queues_of
queues_of-fan_out s station payload [] = refl
queues_of-fan_out s station payload ((r, qs) ∷ t) =
    ground (arith, queues_of-fan_out s station payload t, is_any-map (put 256 payload) qs)

-- In every state that the methods and the failures of pumps lead to, a pump is registered for a
-- station exactly if somebody is subscribed to it, and the pump of all stations exactly if somebody is
-- subscribed to all; and a pump that runs is registered, so that none runs without subscribers.
pub Reachable-Pumped : {b : SseBroadcaster} → Reachable b → Pumped b
unfolding queues_of subscribe_all fan_out fan_out_all close pump_fails pump_all_fails
Reachable-Pumped start = record { each = λ s. refl; all = refl; runs = λ s r. r; runs_all = λ r. r }
Reachable-Pumped (subscribed {b} station id r) = subscribe-Pumped station id b (Reachable-Pumped r)
Reachable-Pumped (unsubscribed {b} station id r) =
    unsubscribe-Pumped station id b (Reachable-Pumped r)
Reachable-Pumped (subscribed_all {b} id r) =
    let h = Reachable-Pumped r in
    record {
      each = h.each;
      all = sym (is_any-append b.all_queues (new_queue id));
      runs = h.runs;
      runs_all = λ e. refl;
    }
Reachable-Pumped (unsubscribed_all {b} id r) = unsubscribe_all-Pumped id b (Reachable-Pumped r)
Reachable-Pumped (fanned_out {b} station payload r) =
    let h = Reachable-Pumped r in
    record {
      each = λ s. h.each s ∙ sym (queues_of-fan_out s station payload b.queues);
      all = h.all;
      runs = h.runs;
      runs_all = h.runs_all;
    }
Reachable-Pumped (fanned_out_all {b} payload r) =
    let h = Reachable-Pumped r in
    record {
      each = h.each;
      all = h.all ∙ sym (is_any-map (put 512 payload) b.all_queues);
      runs = h.runs;
      runs_all = h.runs_all;
    }
Reachable-Pumped (failed {b} station r) =
    let h = Reachable-Pumped r in
    record {
      each = h.each;
      all = h.all;
      runs = λ s e. h.runs s (ground (arith, e, has_pump-remove s station b.running));
      runs_all = h.runs_all;
    }
Reachable-Pumped (failed_all {b} r) =
    let h = Reachable-Pumped r in
    record { each = h.each; all = h.all; runs = h.runs; runs_all = λ e. cc }
Reachable-Pumped (closed r) = record {
  each = λ s. refl;
  all = refl;
  runs = λ s r. r;
  runs_all = λ r. r;
}
