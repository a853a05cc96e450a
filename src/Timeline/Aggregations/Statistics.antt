-- ===== src/Timeline/Aggregations/Statistics.antt =====
-- The helper functions at the end of pkg/timeline/aggregations.go.
use go_temporal_timeline.Prelude.{◌-◌, none, some, List, [], ◌∷◌, length, get_elem?, if◌then◌else◌}
use go_temporal_timeline.Prelude.Int.{ℤ, pos, negsuc, ◌+ℤ◌, leb_ℤ}
use go_temporal_timeline.GoFloat.{Float64, FloatOps, zero_float}
use go_temporal_timeline.GoResult.{Outcome, ok, panic, ◌>>=◌}

-- `xs[i]`, which panics out of range.
pub index_float : List Float64 → ℤ → Outcome Float64
index_float xs (pos n) = elim (get_elem? xs n) [ some x ↦ ok x | none ↦ panic ]
index_float xs (negsuc n) = panic

module _ ⦃f : FloatOps⦄ where
  sum_loop : Float64 → List Float64 → Float64
  sum_loop sum [] = sum
  sum_loop sum (v ∷ vs) = sum_loop (f.add sum v) vs

  unfoldable pub sum_values : List Float64 → Float64
  unfolding sum_loop
  sum_values values = sum_loop zero_float values

  unfoldable pub avg_values : List Float64 → Float64
  unfolding sum_values
  avg_values [] = zero_float
  avg_values (v ∷ vs) = f.div (sum_values (v ∷ vs)) (f.of_int (pos (length (v ∷ vs))))

  min_loop : Float64 → List Float64 → Float64
  min_loop min [] = min
  min_loop min (v ∷ vs) = min_loop (if f.lt v min then v else min) vs

  unfoldable pub min_values : List Float64 → Float64
  unfolding min_loop
  min_values [] = zero_float
  min_values (v ∷ vs) = min_loop v (v ∷ vs)

  max_loop : Float64 → List Float64 → Float64
  max_loop max [] = max
  max_loop max (v ∷ vs) = max_loop (if f.lt max v then v else max) vs

  unfoldable pub max_values : List Float64 → Float64
  unfolding max_loop
  max_values [] = zero_float
  max_values (v ∷ vs) = max_loop v (v ∷ vs)

  squares_loop : Float64 → Float64 → List Float64 → Float64
  squares_loop avg sum [] = sum
  squares_loop avg sum (v ∷ vs) =
      let diff = f.sub v avg in squares_loop avg (f.add sum (f.mul diff diff)) vs

  unfoldable pub variance_values : List Float64 → Float64
  unfolding squares_loop avg_values
  variance_values [] = zero_float
  variance_values (v ∷ vs) =
      f.div (squares_loop (avg_values (v ∷ vs)) zero_float (v ∷ vs))
        (f.of_int (pos (length (v ∷ vs))))

  unfoldable pub std_dev_values : List Float64 → Float64
  unfolding variance_values
  std_dev_values values = f.sqrt (variance_values values)

  -- From `lower` and `upper` on: the linear interpolation.
  interpolate : List Float64 → Float64 → ℤ → Outcome Float64
  interpolate sorted index lower =
      let upper = lower +ℤ pos 1 in
      if leb_ℤ (pos (length sorted)) upper then index_float sorted (pos (length sorted - 1)) else do
        let weight = f.sub index (f.of_int lower)
        a ← index_float sorted lower
        b ← index_float sorted upper
        ok (f.add (f.mul a (f.sub (f.literal 1 1) weight)) (f.mul b weight))

  percentile_sorted : List Float64 → Float64 → Outcome Float64
  percentile_sorted sorted percentile =
      if f.le percentile zero_float
      then index_float sorted (pos 0)
      else if f.le (f.literal 100 1) percentile
      then index_float sorted (pos (length sorted - 1))
      else let index =
          f.mul (f.div percentile (f.literal 100 1)) (f.of_int (pos (length sorted - 1))) in
        interpolate sorted index (f.to_int index)

  unfoldable pub percentile_values : List Float64 → Float64 → Outcome Float64
  unfolding percentile_sorted interpolate index_float ◌+ℤ◌
  percentile_values [] percentile = ok zero_float
  percentile_values (v ∷ vs) percentile = percentile_sorted (f.sort_floats (v ∷ vs)) percentile
