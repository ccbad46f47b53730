-- ===== src/Charts/Queues.antt =====
-- The lengths of the queues of Dumopro_Data_Analysis_WebApp/apps/api/services/sse_broadcaster.py.
use dust_monitoring.Prelude.{
  ℕ, ◌≤◌, not, List, [], ◌∷◌, ◌++◌, map, arith, ltb, if◌then◌else◌, length, length-append, All,
  All-append, keep-All, Text, equal, Bool-cases, inl, inr, ◌==◌,
}
use dust_monitoring.Charts.Broadcaster.{
  SubscriberQueue, SseBroadcaster, queues_of, add_queue, new_queue, subscribe, without, set_queues,
  leave, unsubscribe_from, unsubscribe, subscribe_all, unsubscribe_all, close, tail_of, put,
  fan_out, fan_out_all, pump_fails, pump_all_fails,
}
use dust_monitoring.Charts.Pumps.{
  Reachable, start, subscribed, unsubscribed, subscribed_all, unsubscribed_all, fanned_out,
  fanned_out_all, failed, failed_all, closed,
}

abbrev pub Queues : Type 0
Queues = List (Text × List SubscriberQueue)

abbrev pub Fits : ℕ → List SubscriberQueue → Type 0
Fits n qs = All (λ q. length q.payloads ≤ n) qs

abbrev pub AllFit : Queues → Type 0
AllFit t = All (λ x. Fits 256 x.1) t

-- No queue is longer than its limit.
abbrev pub Bounded : SseBroadcaster → Type 0
Bounded b = AllFit b.queues × Fits 512 b.all_queues

put-Fits :
    (n : ℕ) (payload : Text) (q : SubscriberQueue)
    → 1 ≤ n
    → length q.payloads ≤ n
    → length (put n payload q).payloads ≤ n
unfolding put
put-Fits n payload q pos h = elim (Bool-cases (ltb (length q.payloads) n)) [
  | inl e ↦ rw e (ground (arith, e, length-append q.payloads (payload ∷ [])))
  | inr e ↦ rw e (dropped q.payloads h)
]
  where
    dropped : (ps : List Text) → length ps ≤ n → length (tail_of ps ++ payload ∷ []) ≤ n
    dropped [] h = omega (arith, pos)
    dropped (p ∷ ps) h = omega (arith, length-append ps (payload ∷ []), h)

map-Fits :
    (n : ℕ) (payload : Text) (qs : List SubscriberQueue)
    → 1 ≤ n
    → Fits n qs
    → Fits n (map (put n payload) qs)
map-Fits n payload [] pos h = tt
map-Fits n payload (q ∷ qs) pos (a, h) = (put-Fits n payload q pos a, map-Fits n payload qs pos h)

fan_out-Fits :
    (station payload : Text) (t : Queues)
    → AllFit t
    → AllFit (map (λ (s, qs). (s, if equal s station then map (put 256 payload) qs else qs)) t)
fan_out-Fits station payload [] h = tt
fan_out-Fits station payload ((s, qs) ∷ t) (a, h) = elim (Bool-cases (equal s station)) [
  | inl e ↦ (rw e (map-Fits 256 payload qs (omega arith) a), fan_out-Fits station payload t h)
  | inr e ↦ (rw e a, fan_out-Fits station payload t h)
]

add_queue-Fits :
    (station : Text) (id : ℕ) (t : Queues) → AllFit t → AllFit (add_queue station (new_queue id) t)
unfolding add_queue
add_queue-Fits station id [] h = ((omega arith, tt), tt)
add_queue-Fits station id ((s, qs) ∷ t) (a, h) = elim (Bool-cases (equal s station)) [
  | inl e ↦
      rw e (All-append (λ q. length q.payloads ≤ 256) qs (new_queue id ∷ []) a (omega arith, tt), h)
  | inr e ↦ rw e (a, add_queue-Fits station id t h)
]

queues_of-Fits : (station : Text) (t : Queues) → AllFit t → Fits 256 (queues_of station t)
unfolding queues_of
queues_of-Fits station [] h = tt
queues_of-Fits station ((s, qs) ∷ t) (a, h) = elim (Bool-cases (equal s station)) [
  | inl e ↦ rw e a
  | inr e ↦ rw e (queues_of-Fits station t h)
]

set_queues-Fits :
    (station : Text) (qs : List SubscriberQueue) (t : Queues)
    → Fits 256 qs
    → AllFit t
    → AllFit (set_queues station qs t)
unfolding set_queues
set_queues-Fits station qs [] f h = tt
set_queues-Fits station qs ((s, rs) ∷ t) f (a, h) = elim (Bool-cases (equal s station)) [
  | inl e ↦ rw e (f, h)
  | inr e ↦ rw e (a, set_queues-Fits station qs t f h)
]

leave-Fits :
    (station : Text) (qs : List SubscriberQueue) (b : SseBroadcaster)
    → Fits 256 qs
    → Bounded b
    → Bounded (leave station qs b)
leave-Fits station [] b f (a, c) =
    (keep-All (λ x. Fits 256 x.1) (λ x. not (equal x.0 station)) b.queues a, c)
leave-Fits station (q ∷ qs) b f (a, c) = (set_queues-Fits station (q ∷ qs) b.queues f a, c)

unsubscribe_from-Fits :
    (station : Text) (id : ℕ) (qs : List SubscriberQueue) (b : SseBroadcaster)
    → Fits 256 qs
    → Bounded b
    → Bounded (unsubscribe_from station id qs b)
unsubscribe_from-Fits station id [] b f h = h
unsubscribe_from-Fits station id (q ∷ qs) b f h =
    leave-Fits station (without id (q ∷ qs)) b
      (keep-All (λ x. length x.payloads ≤ 256) (λ x. not (x.id == id)) (q ∷ qs) f) h

-- In every state that the methods lead to, no queue of a station has more than 256 payloads, and none
-- of those of all stations more than 512.
pub Reachable-Bounded : {b : SseBroadcaster} → Reachable b → Bounded b
unfolding subscribe unsubscribe subscribe_all unsubscribe_all fan_out fan_out_all close pump_fails
    pump_all_fails
Reachable-Bounded start = (tt, tt)
Reachable-Bounded (subscribed {b} station id r) =
    let (a, c) = Reachable-Bounded r in (add_queue-Fits station id b.queues a, c)
Reachable-Bounded (unsubscribed {b} station id r) =
    let h = Reachable-Bounded r in
    unsubscribe_from-Fits station id (queues_of station b.queues) b
      (queues_of-Fits station b.queues h.0) h
Reachable-Bounded (subscribed_all {b} id r) =
    let (a, c) = Reachable-Bounded r in
    (
      a,
      All-append (λ q. length q.payloads ≤ 512) b.all_queues (new_queue id ∷ []) c
          (omega arith, tt),
    )
Reachable-Bounded (unsubscribed_all {b} id r) =
    let (a, c) = Reachable-Bounded r in
    (a, keep-All (λ x. length x.payloads ≤ 512) (λ x. not (x.id == id)) b.all_queues c)
Reachable-Bounded (fanned_out {b} station payload r) =
    let (a, c) = Reachable-Bounded r in (fan_out-Fits station payload b.queues a, c)
Reachable-Bounded (fanned_out_all {b} payload r) =
    let (a, c) = Reachable-Bounded r in (a, map-Fits 512 payload b.all_queues (omega arith) c)
Reachable-Bounded (failed station r) = Reachable-Bounded r
Reachable-Bounded (failed_all r) = Reachable-Bounded r
Reachable-Bounded (closed r) = (tt, tt)
