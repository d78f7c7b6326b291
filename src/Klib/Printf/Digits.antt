-- ===== src/Klib/Printf/Digits.antt =====
-- src/klib/cstdio.cpp: `num_digits` and the repeated division.
use native.Mathlib.Nat.{div-eq_of_lt, div-lt_self}
use fish_os.Base.{
  ℕ, zero, suc, ◌+◌, ◌/◌, ◌≤◌, ◌<◌, ◌≡◌, refl, ap, ◌∙◌, false, Bool-cases, inl, inr, ◌==◌, arith,
}
use fish_os.Klib.Printf.{count_digits, num_digits, div_times}

pub div_times-div : (n v base : ℕ) → div_times n (v / base) base ≡ div_times n v base / base
unfolding div_times
div_times-div zero v base = refl
div_times-div (suc n) v base = div_times-div n (v / base) base

quotient-positive : (x base : ℕ) → 0 < base → (x / base == 0) ≡ false → 0 < x
quotient-positive zero base b more =
    let e = div-eq_of_lt {n = 0} {m = base} b in absurd (ground (arith, e, more))
quotient-positive (suc x) base b more = omega arith

count_digits-enough :
    (fuel x base : ℕ) → 2 ≤ base → x ≤ fuel → div_times (count_digits fuel x base + 1) x base ≡ 0
unfolding count_digits div_times
count_digits-enough zero x base b h =
    let none_left : x ≡ 0 = omega arith in
    ap (λ y. y / base) none_left ∙ div-eq_of_lt {n = 0} {m = base} (omega arith)
count_digits-enough (suc fuel) x base b h = elim (Bool-cases (x / base == 0)) [
  | inl last ↦ let e : x / base ≡ 0 = ground arith in rw (last, count_digits) e
  | inr more ↦
      let positive : 0 < x = quotient-positive x base (omega arith) more in
      let less = div-lt_self {n = x} {k = base} positive (omega arith) in
      let n = count_digits fuel (x / base) base in
      let e : n + 1 + 1 ≡ suc (n + 1) = omega arith in
      rw (more, count_digits)
        (ap (λ k. div_times k x base) e
          ∙ count_digits-enough fuel (x / base) base b (omega (arith, less)))
]

-- one division more than `num_digits` counts leaves nothing
pub div_times-num_digits : (x base : ℕ) → 2 ≤ base → div_times (suc (num_digits x base)) x base ≡ 0
unfolding num_digits
div_times-num_digits x base b =
    let e : suc (count_digits x x base) ≡ count_digits x x base + 1 = omega arith in
    ap (λ k. div_times k x base) e ∙ count_digits-enough x x base b (omega arith)
