-- ===== src/Agent/Judge.antt =====
-- decision_agent/src/decision_agent/judge.py: the alarm_mapping table, its cache, and the lookup.
pub mod Cache
use dust_monitoring.Prelude.{
  ℕ, ◌≡◌, Bool, true, false, not, ◌&&◌, ◌||◌, Option, none, some, List, [], ◌∷◌, map, any, ◌==◌,
  if◌then◌else◌, Text, codes, equal,
}

-- A row of alarm_mapping.
pub record Mapping : Type 0 where
  pub id : ℕ
  pub iot_sensor_level : Text
  pub static_model_result : Text
  pub dynamic_model_result : Text
  pub final_decision : Text

abbrev pub Key : Type 0
Key = Text × Text × Text

abbrev pub Table : Type 0
Table = List (Key × (Text × ℕ))

-- The table in the database, and the cache that `judge` reads.
pub record Judge : Type 0 where
  pub rows : List Mapping
  pub cache : Table

unfoldable pub same_key : Key → Key → Bool
same_key (a, b, c) (a', b', c') = equal a a' && equal b b' && equal c c'

-- `d[k] = v`
unfoldable pub put : Key → Text × ℕ → Table → Table
put k v [] = (k, v) ∷ []
put k v ((j, w) ∷ t) = if same_key j k then (j, v) ∷ t else (j, w) ∷ put k v t

unfoldable pub lookup : Table → Key → Option (Text × ℕ)
lookup [] k = none
lookup ((j, w) ∷ t) k = if same_key j k then some w else lookup t k

abbrev pub key_of : Mapping → Key
key_of r = (r.iot_sensor_level, r.static_model_result, r.dynamic_model_result)

abbrev pub value_of : Mapping → Text × ℕ
value_of r = (r.final_decision, r.id)

-- The dictionary comprehension of `load`, from the entries put so far.
unfoldable pub fill : Table → List Mapping → Table
fill t [] = t
fill t (r ∷ rs) = fill (put (key_of r) (value_of r) t) rs

unfoldable pub load : Judge → Judge
load j = record j { cache = fill [] j.rows }

abbrev pub valid_final_levels : List Text
valid_final_levels = codes "normal" ∷ codes "caution" ∷ codes "warning" ∷ codes "danger" ∷ []

abbrev pub set_final : ℕ → Text → Mapping → Mapping
set_final i f r = if r.id == i then record r { final_decision = f } else r

pub data Update {ℓ} (A : Type ℓ) : Type ℓ where
  invalid : Update A
  updated : A → Bool → Update A

-- `invalid` is the `ValueError`; the Boolean says whether a row was updated.
unfoldable pub update_final : ℕ → Text → Judge → Update Judge
unfolding load
update_final i f j =
    if not (any (equal f) valid_final_levels)
    then invalid
    else if any (λ r. r.id == i) j.rows
    then updated (load (record j { rows = map (set_final i f) j.rows })) true
    else updated j false

-- `none` is `JudgeLookupError`.
unfoldable pub judge : Judge → Text → Text → Text → Option (Text × ℕ)
unfolding lookup same_key
judge j iot static dynamic = lookup j.cache (iot, static, dynamic)
