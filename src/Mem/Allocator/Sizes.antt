-- ===== src/Mem/Allocator/Sizes.antt =====
-- src/mem/allocator.hpp, `size_required`: the sizes of blocks.
use fish_os.Base.{
  ℕ, zero, suc, ◌+◌, ◌*◌, ◌%◌, ◌^◌, ◌≤◌, ◌<◌, ◌≡◌, ◌⊎◌, refl, ap, Bool-cases, inl, inr, ◌==◌, ltb,
  arith,
}
use native.Mathlib.Decide.{dec_lt}
use fish_os.Mem.Allocator.{align, double_until, size_required}

-- 16 * 2 ^ k
unfoldable pub power : ℕ → ℕ
power zero = 16
power (suc k) = 2 * power k

pub power_mono : (i j : ℕ) → i ≤ j → power i ≤ power j
unfolding power
power_mono zero zero h = omega arith
power_mono zero (suc j) h = omega (arith, power_mono zero j (omega arith))
power_mono (suc i) zero h = absurd (omega arith)
power_mono (suc i) (suc j) h = omega (arith, power_mono i j (omega arith))

pub power_aligned : (k : ℕ) → power k % 16 ≡ 0
unfolding power
power_aligned zero = refl
power_aligned (suc k) = omega (arith, power_aligned k)

pub power_59 : power 59 ≡ 2 ^ 63
unfolding power
power_59 = refl

-- the least of the powers that has room
pub record Least (size from result : ℕ) : Type 0 where
  pub exponent : ℕ
  pub power_of : result ≡ power exponent
  pub small : exponent ≤ 59
  pub room : size ≤ result
  pub least : (exponent ≡ from) ⊎ ((i : ℕ) × (exponent ≡ suc i) × (power i < size))

double-power : (j : ℕ) → power (suc j) ≤ power 59 → power j * 2 % 2 ^ 64 ≡ power (suc j)
unfolding power
double-power j fits = omega (arith, fits, power_59)

Least-next : (j size result : ℕ) → power j < size → Least size (suc j) result → Least size j result
Least-next j size result below l = record {
  exponent = l.exponent;
  power_of = l.power_of;
  small = l.small;
  room = l.room;
  least = elim l.least [ inl e ↦ inr (j, e, below) | inr (i, e, lt) ↦ inr (i, e, lt) ];
}

double_until-Least :
    (rounds j size : ℕ)
    → size ≤ 2 ^ 63
    → j ≤ 59
    → 59 ≤ j + rounds
    → Least size j (double_until rounds size (power j))
unfolding double_until
double_until-Least zero j size h small enough =
    let e : j ≡ 59 = omega arith in
    record {
      exponent = j;
      power_of = refl;
      small = small;
      room = omega (arith, ap power e, power_59);
      least = inl refl;
    }
double_until-Least (suc rounds) j size h small enough = elim (Bool-cases (ltb (power j) size)) [
  | inl more ↦
      let below : power j < size = ground (arith, more) in
      let inside : j < 59 = elim (dec_lt j 59) [
        | yes lt ↦ lt
        | no last ↦
            let e : j ≡ 59 = omega (arith, last) in
            absurd (omega (arith, below, ap power e, power_59))
      ] in
      let fits = power_mono (suc j) 59 inside in
      let doubled : power j * 2 % 2 ^ 64 ≡ power (suc j) = double-power j fits in
      let l = double_until-Least rounds (suc j) size h inside (omega arith) in
      rw (double_until, more, doubled)
        (Least-next j size (double_until rounds size (power (suc j))) below l)
  | inr enough_room ↦
      rw (double_until, enough_room)
        (record {
          exponent = j;
          power_of = refl;
          small = small;
          room = ground (arith, enough_room);
          least = inl refl;
        })
]

align-room : (size : ℕ) → size ≤ 2 ^ 63 → (size ≤ align size) × (align size ≤ 2 ^ 63)
unfolding align
align-room size h = (ground arith, ground arith)

-- a multiple of 16 with room for a size has room for the aligned size
align-least : (size p : ℕ) → size ≤ 2 ^ 63 → p % 16 ≡ 0 → p < align size → p < size
unfolding align
align-least size p h multiple below = elim (Bool-cases (size % 16 == 0)) [
  | inl aligned ↦ ground (arith, aligned, below)
  | inr other ↦ ground (arith, other, below, multiple)
]

-- Up to 2 ^ 63 `size_required` of a size is the least 16 * 2 ^ k that has room for it.
pub size_required-Least : (size : ℕ) → size ≤ 2 ^ 63 → Least size 0 (size_required size)
unfolding size_required power
size_required-Least size h =
    let (room, small) = align-room size h in
    let l = double_until-Least 60 0 (align size) small (omega arith) (omega arith) in
    record {
      exponent = l.exponent;
      power_of = l.power_of;
      small = l.small;
      room = omega (arith, room, l.room);
      least = elim l.least [
        | inl e ↦ inl e
        | inr (i, e, lt) ↦ inr (i, e, align-least size (power i) h (power_aligned i) lt)
      ];
    }

-- a power is required for itself
pub size_required-power : (k : ℕ) → k ≤ 59 → size_required (power k) ≡ power k
size_required-power k h =
    let fits = power_mono k 59 h in
    let l = size_required-Least (power k) (omega (arith, fits, power_59)) in
    let at_most : l.exponent ≤ k = elim l.least [
      | inl e ↦ omega (arith, e)
      | inr (i, e, lt) ↦ elim (dec_lt i k) [
        | yes less ↦ omega (arith, e, less)
        | no more ↦ absurd (omega (arith, lt, power_mono k i (omega (arith, more))))
      ]
    ] in
    omega (arith, l.room, l.power_of, power_mono l.exponent k at_most)
