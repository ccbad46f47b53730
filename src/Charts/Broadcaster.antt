-- ===== src/Charts/Broadcaster.antt =====
-- Dumopro_Data_Analysis_WebApp/apps/api/services/sse_broadcaster.py: the queues of the subscribers and
-- the pumps. Each method holds the lock, so a method is one step.
use dust_monitoring.Prelude.{
  ℕ, ◌+◌, Bool, true, false, not, ◌&&◌, List, [], ◌∷◌, ◌++◌, any, keep, map, ◌==◌, ltb,
  if◌then◌else◌, length, Text, equal,
}

-- A queue with the identity of its subscriber.
pub record SubscriberQueue : Type 0 where
  pub id : ℕ
  pub payloads : List Text

-- `pumps` are the keys of `_pumps`, and `all_pump` says that `_all_pump` is a task. `running` and
-- `all_running` say of these tasks which have not ended yet: a task that an exception has ended stays
-- registered. `cancelled` counts the tasks that were cancelled so far.
pub record SseBroadcaster : Type 0 where
  pub queues : List (Text × List SubscriberQueue)
  pub pumps : List Text
  pub running : List Text
  pub all_queues : List SubscriberQueue
  pub all_pump : Bool
  pub all_running : Bool
  pub cancelled : ℕ

unfoldable pub queues_of : Text → List (Text × List SubscriberQueue) → List SubscriberQueue
queues_of station [] = []
queues_of station ((s, qs) ∷ t) =
    let rest = queues_of station t in if equal s station then qs else rest

unfoldable pub add_queue :
    Text → SubscriberQueue → List (Text × List SubscriberQueue) → List (Text × List SubscriberQueue)
add_queue station q [] = (station, q ∷ []) ∷ []
add_queue station q ((s, qs) ∷ t) =
    let rest = add_queue station q t in
    if equal s station then (s, qs ++ q ∷ []) ∷ t else (s, qs) ∷ rest

abbrev pub has_pump : Text → List Text → Bool
has_pump station pumps = any (λ s. equal s station) pumps

abbrev pub new_queue : ℕ → SubscriberQueue
new_queue id = record { id = id; payloads = [] }

unfoldable pub subscribe : Text → ℕ → SseBroadcaster → SseBroadcaster
unfolding add_queue
subscribe station id b = record b {
  queues = add_queue station (new_queue id) b.queues;
  pumps = if has_pump station b.pumps then b.pumps else b.pumps ++ station ∷ [];
  running = if has_pump station b.pumps then b.running else b.running ++ station ∷ [];
}

abbrev pub without : ℕ → List SubscriberQueue → List SubscriberQueue
without id qs = keep (λ q. not (q.id == id)) qs

unfoldable pub set_queues :
    Text
    → List SubscriberQueue
    → List (Text × List SubscriberQueue)
    → List (Text × List SubscriberQueue)
set_queues station qs [] = []
set_queues station qs ((s, rs) ∷ t) =
    let rest = set_queues station qs t in if equal s station then (s, qs) ∷ t else (s, rs) ∷ rest

abbrev pub remove_station :
    Text → List (Text × List SubscriberQueue) → List (Text × List SubscriberQueue)
remove_station station t = keep (λ x. not (equal x.0 station)) t

abbrev pub remove_pump : Text → List Text → List Text
remove_pump station pumps = keep (λ s. not (equal s station)) pumps

abbrev pub one_if : Bool → ℕ
one_if true = 1
one_if false = 0

-- What `unsubscribe` does with the queues that are left to the station.
abbrev pub leave : Text → List SubscriberQueue → SseBroadcaster → SseBroadcaster
leave station [] b = record b {
  queues = remove_station station b.queues;
  pumps = remove_pump station b.pumps;
  running = remove_pump station b.running;
  cancelled = b.cancelled + one_if (has_pump station b.pumps);
}
leave station (q ∷ qs) b = record b { queues = set_queues station (q ∷ qs) b.queues }

abbrev pub unsubscribe_from : Text → ℕ → List SubscriberQueue → SseBroadcaster → SseBroadcaster
unsubscribe_from station id [] b = b
unsubscribe_from station id (q ∷ qs) b = leave station (without id (q ∷ qs)) b

unfoldable pub unsubscribe : Text → ℕ → SseBroadcaster → SseBroadcaster
unfolding queues_of set_queues
unsubscribe station id b = unsubscribe_from station id (queues_of station b.queues) b

unfoldable pub subscribe_all : ℕ → SseBroadcaster → SseBroadcaster
subscribe_all id b = record b {
  all_queues = b.all_queues ++ new_queue id ∷ [];
  all_pump = true;
  all_running = if b.all_pump then b.all_running else true;
}

unfoldable pub unsubscribe_all : ℕ → SseBroadcaster → SseBroadcaster
unsubscribe_all id b =
    let qs = without id b.all_queues in
    let last = b.all_pump && elim qs [ [] ↦ true | q ∷ t ↦ false ] in
    record b {
      all_queues = qs;
      all_pump = b.all_pump && not last;
      all_running = b.all_running && not last;
      cancelled = b.cancelled + one_if last;
    }

unfoldable pub close : SseBroadcaster → SseBroadcaster
close b = record {
  queues = [];
  pumps = [];
  running = [];
  all_queues = [];
  all_pump = false;
  all_running = false;
  cancelled = b.cancelled + (length b.pumps + one_if b.all_pump);
}

-- `_pump` ends: Redis fails, and `except Exception` logs it. Nothing takes the task out of `_pumps`.
unfoldable pub pump_fails : Text → SseBroadcaster → SseBroadcaster
pump_fails station b = record b { running = remove_pump station b.running }

-- `_pump_all` ends likewise.
unfoldable pub pump_all_fails : SseBroadcaster → SseBroadcaster
pump_all_fails b = record b { all_running = false }

abbrev pub tail_of : List Text → List Text
tail_of [] = []
tail_of (p ∷ ps) = ps

-- `put_nowait` on a queue of `maxsize`; a full queue loses its oldest payload.
unfoldable pub put : ℕ → Text → SubscriberQueue → SubscriberQueue
put maxsize payload q =
    if ltb (length q.payloads) maxsize
    then record q { payloads = q.payloads ++ payload ∷ [] }
    else record q { payloads = tail_of q.payloads ++ payload ∷ [] }

-- `_fan_out`, to the queues of one station.
unfoldable pub fan_out : Text → Text → SseBroadcaster → SseBroadcaster
unfolding put
fan_out station payload b = record b {
  queues = map (λ (s, qs). (s, if equal s station then map (put 256 payload) qs else qs)) b.queues;
}

unfoldable pub fan_out_all : Text → SseBroadcaster → SseBroadcaster
unfolding put
fan_out_all payload b = record b { all_queues = map (put 512 payload) b.all_queues }
