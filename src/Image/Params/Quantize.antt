-- ===== src/Image/Params/Quantize.antt =====
-- What rounding guarantees.
use native.Mathlib.Nat.{mod-lt, div-add-mod, mul-mod_right, mul-add}
use cloodsy_s.Prelude.{
  ap, Bytes, ◌∙◌, ℕ, ◌+◌, ◌*◌, ◌-◌, ◌%◌, ◌/◌, ◌<◌, ◌≤◌, ◌≡◌, refl, true, false, ltb, leb, ◌==◌,
  arith, Bool-cases, inl, inr,
}
use cloodsy_s.Image.Params.{Params, max_dimension, round_up, quantize_to, quantize}

round_up_whole : (v step : ℕ) → (v % step) ≡ 0 → round_up v step ≡ v
unfolding round_up
round_up_whole v step h = let e : ((v % step) == 0) ≡ true = ground arith in ground arith

round_up_part :
    (v step : ℕ) → 1 < step → ((v % step) == 0) ≡ false → round_up v step ≡ v + (step - v % step)
unfolding round_up
round_up_part v step h e = let f : leb step 1 ≡ false = ground arith in rw (f, e)

next-whole : (step q n : ℕ) → n ≡ step * q + step * 1 → n % step ≡ 0
next-whole step q n h = rw (h, ← mul-add step q 1) (mul-mod_right step (q + 1))

whole-part : (v step : ℕ) → 1 < step → (v + (step - v % step)) % step ≡ 0
whole-part v step h =
    let small = mod-lt v {m = step} (omega arith) in
    let parts = div-add-mod v step in
    let next : v + (step - v % step) ≡ step * (v / step) + step * 1 = omega (arith, parts, small) in
    next-whole step (v / step) (v + (step - v % step)) next

-- For a step above 1 the rounded value is a multiple of the step, is not below the value, and
-- exceeds it by less than the step.
pub round_up-least :
    (v step : ℕ)
    → 1 < step
    → (round_up v step % step ≡ 0) × (v ≤ round_up v step) × (round_up v step < v + step)
round_up-least v step h = elim (Bool-cases ((v % step) == 0)) [
  | inl e ↦
      let z : v % step ≡ 0 = ground arith in
      rw (round_up_whole v step z) (z, omega arith, omega arith)
  | inr e ↦
      let small = mod-lt v {m = step} (omega arith) in
      let some_left : 0 < v % step = ground arith in
      rw (round_up_part v step h e) (whole-part v step h, omega arith, omega arith)
]

quantize_to_over : (top step v : ℕ) → 0 < v → top < round_up v step → quantize_to top step v ≡ top
unfolding quantize_to
quantize_to_over top step v h g = ground arith

quantize_to_under :
    (top step v : ℕ) → 0 < v → round_up v step ≤ top → quantize_to top step v ≡ round_up v step
unfolding quantize_to
quantize_to_under top step v h g = ground arith

quantize_to_zero : (top step v : ℕ) → v ≡ 0 → quantize_to top step v ≡ v
unfolding quantize_to
quantize_to_zero top step v h = ground arith

quantize_to_top : (top step : ℕ) → 0 < top → 1 < step → quantize_to top step top ≡ top
quantize_to_top top step h g = elim (Bool-cases (ltb top (round_up top step))) [
  | inl e ↦ quantize_to_over top step top h (ground arith)
  | inr e ↦
      let (whole, above, near) = round_up-least top step g in
      quantize_to_under top step top h (ground arith) ∙ ground arith
]

quantize_to_twice :
    (top step v : ℕ)
    → 0 < top
    → 1 < step
    → quantize_to top step (quantize_to top step v) ≡ quantize_to top step v
quantize_to_twice top step v h g = elim (Bool-cases (ltb 0 v)) [
  | inr e ↦ ap (quantize_to top step) (quantize_to_zero top step v (ground arith))
  | inl e ↦ elim (Bool-cases (ltb top (round_up v step))) [
    | inl o ↦
        rw (quantize_to_over top step v (ground arith) (ground arith))
          (quantize_to_top top step h g)
    | inr u ↦
        let (whole, above, near) = round_up-least v step g in
        let positive : 0 < v = ground arith in
        let same = round_up_whole (round_up v step) step whole in
        rw (quantize_to_under top step v positive (ground arith)) (
          quantize_to_under top step (round_up v step) (omega arith) (rw same (ground arith))
          ∙ same)
  ]
]

params_path :
    {w w' h h' q q' : ℕ} (m : Bytes)
    → w ≡ w'
    → h ≡ h'
    → q ≡ q'
    → ◌≡◌ {A = Params}
        (record { width = w; height = h; mode = m; quality = q })
        (record { width = w'; height = h'; mode = m; quality = q' })
params_path m e f g = λ i. record { width = e i; height = f i; mode = m; quality = g i }

-- Rounding is idempotent, for every step and all parameters: a request for a rounded size has the
-- rounded size.
pub quantize_idempotent :
    (p : Params) (step : ℕ) → quantize (quantize p step) step ≡ quantize p step
unfolding quantize
quantize_idempotent p step = elim (Bool-cases (ltb 1 step)) [
  | inl e ↦
      let g : 1 < step = ground arith in
      rw e (
        params_path p.mode (quantize_to_twice max_dimension step p.width (omega arith) g)
          (quantize_to_twice max_dimension step p.height (omega arith) g)
          (quantize_to_twice 100 5 p.quality (omega arith) (omega arith)))
  | inr e ↦
      rw e (
        params_path p.mode refl refl
          (quantize_to_twice 100 5 p.quality (omega arith) (omega arith)))
]
