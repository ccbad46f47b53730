-- ===== src/Transfer/Floats.antt =====
-- Python's floats, of which the program uses the order and the conversions.
use dust_monitoring.Prelude.{Bool, Option, Text}

pub record Floats (F : Type 0) : Type 0 where
  -- `a > b`
  pub gt : F → F → Bool
  -- `float("-inf")`
  pub neg_inf : F
  -- `float(b)` of a Boolean, and `float(s)` of a text, which may raise `ValueError`.
  pub of_bool : Bool → F
  pub of_text : Text → Option F
  -- `not x`
  pub is_zero : F → Bool
