-- ===== src/Charts/Redis.antt =====
-- Dumopro_Data_Analysis_WebApp/libs/dumopro_core/redis_client.py: the keys of one station.
use dust_monitoring.Prelude.{
  ℕ, zero, suc, ◌-◌, Bool, not, ◌&&◌, Option, none, some, List, [], ◌∷◌, ◌++◌, ◌==◌, if◌then◌else◌,
  length, drop, keep, map,
}
use dust_monitoring.Charts.Buckets.{BucketUnit, BucketKey, Timestamp, same_unit, same_key}

-- A bucket of a unit, of which each live and each frozen key is.
abbrev pub Slot : Type 0
Slot = BucketUnit × BucketKey

abbrev pub same_slot : Slot → Slot → Bool
same_slot (u, k) (v, l) = same_unit u v && same_key k l

-- A mapping from the slots; `set` of a key that is there replaces its value.
abbrev pub Slots {ℓ} : Type ℓ → Type ℓ
Slots A = List (Slot × A)

module _ {ℓ} {A : Type ℓ} where
  unfoldable pub get : Slot → Slots A → Option A
  unfolding same_key
  get k [] = none
  get k ((j, v) ∷ t) = let rest = get k t in if same_slot j k then some v else rest

  unfoldable pub set : Slot → A → Slots A → Slots A
  unfolding same_key
  set k v [] = (k, v) ∷ []
  set k v ((j, u) ∷ t) = let rest = set k v t in if same_slot j k then (j, v) ∷ t else (j, u) ∷ rest

  -- `DEL`
  unfoldable pub delete : Slot → Slots A → Slots A
  unfolding same_key
  delete k t = keep (λ x. not (same_slot x.0 k)) t

-- A sorted set: members with their scores.
abbrev pub ZSet : Type 0 → Type 0
ZSet F = List (ℕ × F)

-- `ZADD` of one member.
unfoldable pub zadd : {F : Type 0} → ℕ → F → ZSet F → ZSet F
zadd i v [] = (i, v) ∷ []
zadd i v ((j, u) ∷ t) = let rest = zadd i v t in if j == i then (j, v) ∷ t else (j, u) ∷ rest

-- What is published on the channel of the station.
pub data Event (S : Type 0) : Type 0 where
  candle_update candle_frozen : Slot → S → Event S
  station_stalled : Event S

-- `last_id` 0 stands for no cursor too; S are the statistics, as the JSON that is stored.
pub record Redis (F S : Type 0) : Type 0 where
  pub last_id : ℕ
  pub last_sampled_at : Option Timestamp
  pub live_raw : Slots (ZSet F)
  pub live_stats : Slots S
  pub frozen : Slots S
  pub frozen_index : Slots ℕ
  pub published : List (Event S)

abbrev pub or_empty : {F : Type 0} → Option (ZSet F) → ZSet F
or_empty none = []
or_empty (some z) = z

module _ {F S : Type 0} where
  unfoldable pub add_live_raw : Slot → ℕ → F → Redis F S → Redis F S
  unfolding get set zadd
  add_live_raw k i v r = record r {
    live_raw = set k (zadd i v (or_empty (get k r.live_raw))) r.live_raw;
  }

  -- The members of a set; the order, by the scores, does not matter to the statistics.
  unfoldable pub get_live_raw_values : Slot → Redis F S → List F
  unfolding get
  get_live_raw_values k r = map (λ x. x.1) (or_empty (get k r.live_raw))

  unfoldable pub set_live_stats : Slot → S → Redis F S → Redis F S
  unfolding set
  set_live_stats k s r = record r { live_stats = set k s r.live_stats }

  -- One transaction.
  unfoldable pub freeze_bucket : Slot → S → ℕ → Redis F S → Redis F S
  unfolding set delete
  freeze_bucket k s score r = record r {
    frozen = set k s r.frozen;
    frozen_index = set k score r.frozen_index;
    live_raw = delete k r.live_raw;
    live_stats = delete k r.live_stats;
  }

  unfoldable pub publish_candle_event : Event S → Redis F S → Redis F S
  publish_candle_event e r = record r { published = r.published ++ e ∷ [] }

  unfoldable pub set_cursor : ℕ → Timestamp → Redis F S → Redis F S
  set_cursor i t r = record r { last_id = i; last_sampled_at = some t }

-- `LTRIM key -cap -1`: the last elements of a list; `-0` is the index of the first one, so that a
-- cap of 0 keeps them all.
abbrev pub last_of : {A : Type 0} → ℕ → List A → List A
last_of zero xs = xs
last_of (suc c) xs = drop (length xs - suc c) xs

-- `residual_push`, on the list of one key.
unfoldable pub residual_push : {A : Type 0} → ℕ → List A → List A → List A
residual_push cap [] xs = xs
residual_push cap (r ∷ rs) xs = last_of cap (xs ++ r ∷ rs)
