-- ===== src/Charts/Buckets.antt =====
-- Dumopro_Data_Analysis_WebApp/libs/dumopro_core/buckets.py: the buckets that a time lies in.
use dust_monitoring.Prelude.{ℕ, Bool, true, false, not, ◌&&◌, ◌==◌, List, [], ◌∷◌}

pub data BucketUnit : Type 0 where
  hour day week month : BucketUnit

abbrev pub unit_list : List BucketUnit
unit_list = hour ∷ day ∷ week ∷ month ∷ []

-- A time in UTC: the fields of `datetime`, and the year and the week of `isocalendar`.
pub record Timestamp : Type 0 where
  pub year : ℕ
  pub month_of_year : ℕ
  pub day_of_month : ℕ
  pub hour_of_day : ℕ
  pub iso_year : ℕ
  pub iso_week : ℕ

-- The text of a bucket, as the numbers that it prints.
pub data BucketKey : Type 0 where
  of_hour : ℕ → ℕ → ℕ → ℕ → BucketKey
  of_day : ℕ → ℕ → ℕ → BucketKey
  of_week : ℕ → ℕ → BucketKey
  of_month : ℕ → ℕ → BucketKey

unfoldable pub bucket_key : Timestamp → BucketUnit → BucketKey
bucket_key t hour = of_hour t.year t.month_of_year t.day_of_month t.hour_of_day
bucket_key t day = of_day t.year t.month_of_year t.day_of_month
bucket_key t week = of_week t.iso_year t.iso_week
bucket_key t month = of_month t.year t.month_of_year

unfoldable pub same_key : BucketKey → BucketKey → Bool
same_key (of_hour a b c d) (of_hour x y z w) = a == x && b == y && c == z && d == w
same_key (of_day a b c) (of_day x y z) = a == x && b == y && c == z
same_key (of_week a b) (of_week x y) = a == x && b == y
same_key (of_month a b) (of_month x y) = a == x && b == y
same_key _ _ = false

abbrev pub same_unit : BucketUnit → BucketUnit → Bool
same_unit hour hour = true
same_unit day day = true
same_unit week week = true
same_unit month month = true
same_unit _ _ = false

unfoldable pub is_boundary_crossed : Timestamp → Timestamp → BucketUnit → Bool
unfolding bucket_key same_key
is_boundary_crossed prev new unit = not (same_key (bucket_key prev unit) (bucket_key new unit))
