-- ===== src/GoFloat.antt =====
-- Go's `float64`. A value is its pattern of 64 bits; the arithmetic of IEEE 754 and the functions
-- of the package `math` are the machine's and the library's, and are a parameter. The field
-- `literal m n` is the float nearest to m / n, as the compiler reads a constant, `of_int` is the
-- conversion `float64(i)` and `to_int` is `int(x)`.
use go_temporal_timeline.Prelude.{ℕ, Bool, List}
use go_temporal_timeline.Prelude.Int.{ℤ}

pub record Float64 : Type 0 where
  pub bits : ℕ

pub record FloatOps : Type 0 where
  pub add : Float64 → Float64 → Float64
  pub sub : Float64 → Float64 → Float64
  pub mul : Float64 → Float64 → Float64
  pub div : Float64 → Float64 → Float64
  pub neg : Float64 → Float64
  pub lt : Float64 → Float64 → Bool
  pub le : Float64 → Float64 → Bool
  pub sqrt : Float64 → Float64
  -- `sort.Float64s`.
  pub sort_floats : List Float64 → List Float64
  pub literal : ℕ → ℕ → Float64
  pub of_int : ℤ → Float64
  pub to_int : Float64 → ℤ
  -- `d.Seconds()` and `d.Hours()` of a `time.Duration`.
  pub seconds : ℤ → Float64
  pub hours : ℤ → Float64

-- The zero value of `float64`.
abbrev pub zero_float : Float64
zero_float = record { bits = 0 }

abbrev pub float_gt : ⦃f : FloatOps⦄ → Float64 → Float64 → Bool
float_gt ⦃f⦄ x y = f.lt y x
