-- ===== src/Prelude/Texts.antt =====
-- Texts as lists of code points (for ASCII, of bytes), with their test of equality.
use Prim.Native.Nat.{ℕ}
use Prim.Native.Char.{code}
use Prim.Native.String.{String}
use mathlib.Core.Path.{◌≡◌, ap}
use mathlib.Core.Logic.{◌↔◌}
use mathlib.Core.Bool.{Bool, true, false, ◌&&◌}
use mathlib.Core.List.{List, [], ◌∷◌}
use native.Mathlib.Omega.{arith}
use dust_monitoring.Prelude.Tests.{◌==◌}

abbrev pub Text : Type 0
Text = List ℕ

abbrev pub codes : String → Text
codes String.[] = []
codes (String.◌∷◌ c s) = code c ∷ codes s

unfoldable pub equal : Text → Text → Bool
equal [] [] = true
equal (x ∷ a) (y ∷ b) = x == y && equal a b
equal _ _ = false

pub equal_iff : (a b : Text) → (equal a b ≡ true) ↔ (a ≡ b)
unfolding equal
equal_iff (x ∷ a) (y ∷ b) = ground (arith, equal_iff a b)
equal_iff _ _ = ground arith

pub equal_refl : (a : Text) → equal a a ≡ true
equal_refl a = ground (arith, equal_iff a a)

pub equal_sym : (a b : Text) → equal a b ≡ equal b a
equal_sym a b = ground (arith, equal_iff a b, equal_iff b a)

-- Equal texts pass the same tests.
pub equal_to : (t a b : Text) → equal t a ≡ true → equal t b ≡ equal a b
equal_to t a b h = let p : t ≡ a = ground (arith, h, equal_iff t a) in ap (λ x. equal x b) p
