-- ===== src/Image/Params.antt =====
-- `Params.Quantize` and `roundUp` of image/limiter.go, over the parameters of image/transform.go,
-- which are never negative.
pub mod Quantize
use cloodsy_s.Prelude.{ℕ, ◌+◌, ◌-◌, ◌%◌, ◌==◌, ltb, leb, ◌||◌, Bytes, if◌then◌else◌}

abbrev pub max_dimension : ℕ
max_dimension = 5000

pub record Params : Type 0 where
  pub width : ℕ
  pub height : ℕ
  pub mode : Bytes
  pub quality : ℕ

unfoldable pub round_up : ℕ → ℕ → ℕ
round_up v step = if leb step 1 || (v % step) == 0 then v else v + (step - v % step)

-- A positive value is rounded up and cut off at `top`.
unfoldable pub quantize_to : ℕ → ℕ → ℕ → ℕ
quantize_to top step v =
    if ltb 0 v then (if ltb top (round_up v step) then top else round_up v step) else v

unfoldable pub quantize : Params → ℕ → Params
quantize p step = record p {
  width = if ltb 1 step then quantize_to max_dimension step p.width else p.width;
  height = if ltb 1 step then quantize_to max_dimension step p.height else p.height;
  quality = quantize_to 100 5 p.quality;
}
