-- ===== src/Base/Floats.antt =====
-- float64 as an interface: what the source uses of its comparisons and of strconv, and the laws
-- that IEEE 754 and strconv document.
use mathlib.Core.Path.{◌≡◌}
use mathlib.Core.Bool.{Bool, true, false}
use ki_db.Base.Text.{Bytes}

pub record Score : Type 1 where
  pub Float : Type 0
  -- `a <= b` and `a < b`; both are false at a NaN.
  pub le : Float → Float → Bool
  pub lt : Float → Float → Bool
  pub neg_inf : Float
  pub pos_inf : Float
  -- The value and the success of `strconv.ParseFloat(s, 64)`.
  pub parse : Bytes → Float × Bool
  -- `strconv.FormatFloat(v, 'g', -1, 64)`
  pub format : Float → Bytes

-- What the theorems use of it. `IsNumber` is false of the NaNs alone.
pub record IsOrdered (s : Score) : Type 1 where
  pub IsNumber : s.Float → Type 0
  pub neg_inf_least : (a : s.Float) → IsNumber a → s.le s.neg_inf a ≡ true
  pub pos_inf_greatest : (a : s.Float) → s.lt s.pos_inf a ≡ false
  pub infinities : s.lt s.neg_inf s.pos_inf ≡ true
  pub pos_inf_number : IsNumber s.pos_inf
  pub le_refl : (a : s.Float) → IsNumber a → s.le a a ≡ true
  pub lt_le : (a b : s.Float) → s.lt a b ≡ true → s.le a b ≡ true
  pub total : (a b : s.Float) → IsNumber a → IsNumber b → s.lt a b ≡ false → s.le b a ≡ true
  pub lt_not_ge : (a b : s.Float) → s.lt a b ≡ true → s.le b a ≡ false
