-- ===== src/Mem/Allocator/Split.antt =====
-- src/mem/allocator.cpp, `Block::split_until`: a block is halved until it has the size asked for.
use fish_os.Base.{
  ℕ, zero, suc, ◌+◌, ◌/◌, ◌%◌, ◌^◌, ◌≤◌, ◌<◌, ◌≡◌, ◌⊎◌, refl, sym, ap, ◌∙◌, true, false, inl, inr,
  ◌==◌, ltb, leb, arith,
}
use native.Mathlib.Decide.{dec_lt}
use fish_os.Mem.Allocator.{
  Block, Blocks, size_required, put_block, put_size, next, split_loop, split_until,
}
use fish_os.Mem.Allocator.Sizes.{power, power_mono, size_required-power}

-- `d` more than `j`
unfoldable pub up : ℕ → ℕ → ℕ
up zero j = j
up (suc d) j = suc (up d j)

le_up : (d j : ℕ) → j ≤ up d j
unfolding up
le_up zero j = omega arith
le_up (suc d) j = omega (arith, le_up d j)

power-positive : (k : ℕ) → 0 < power k
unfolding power
power-positive zero = omega arith
power-positive (suc k) = omega (arith, power-positive k)

double : (k : ℕ) → power (suc k) ≡ power k + power k
unfolding power
double k = omega arith

half : (k : ℕ) → power (suc k) / 2 ≡ power k
unfolding power
half k = omega arith

power_less : (k : ℕ) → power k < power (suc k)
power_less k = omega (arith, double k, power-positive k)

-- Behind a block halved `d` times stand its halves, each with half the size of the one before, the last
-- as large as the one in front of it; all but the first are free.
unfoldable pub Halved : Blocks → ℕ → ℕ → ℕ → Type 0
Halved h block zero j = (h block).size ≡ power j
Halved h block (suc d) j =
    ((h block).size ≡ power (up d j))
    × (((h (block + power (up d j))).is_free ≡ true) × Halved h (block + power (up d j)) d j)

-- what the loop leaves of a block of the size `power (up d j)`
pub record Splits (h h' : Blocks) (block d j found : ℕ) : Type 0 where
  pub at_end : found + power j ≡ block + power (up d j)
  pub halved : Halved h' block d j
  pub outside : (x : ℕ) → (x < block) ⊎ (block + power (up d j) ≤ x) → h' x ≡ h x
  pub flag : (h' block).is_free ≡ (h block).is_free
  pub free : (h block).is_free ≡ true → (h' found).is_free ≡ true

split_loop-stop :
    (rounds j block : ℕ) (h : Blocks)
    → split_loop rounds (power j) block (power j) h ≡ (block, power j, h)
unfolding split_loop
split_loop-stop zero j block h = refl
split_loop-stop (suc rounds) j block h =
    let done : ltb (power j) (power j) ≡ false = ground arith in rw (split_loop, done) refl

-- one round: two halves
module _ (block k : ℕ) (h : Blocks) (small : k ≤ 59) (inside : block + power (suc k) < 2 ^ 64) where
  abbrev first_half : Blocks
  first_half = put_size block (power k) h

  abbrev halves : Blocks
  halves = put_block (block + power k) (record { size = power k; is_free = true }) first_half

  next_half : next block first_half ≡ block + power k
  unfolding next put_size put_block power
  next_half =
      let read : (first_half block).size ≡ power k = ground arith in
      let e : size_required (first_half block).size ≡ power k =
        ap size_required read ∙ size_required-power k small in
      ap (λ n. (block + n) % 2 ^ 64) e ∙ omega (arith, inside)

  split_loop-round :
      (rounds size : ℕ)
      → ltb size (power (suc k)) ≡ true
      → split_loop (suc rounds) size block (power (suc k)) h
        ≡ split_loop rounds size (block + power k) (power k) halves
  unfolding split_loop
  split_loop-round rounds size more =
      rw (split_loop, more, half k)
        (ap
          (λ b.
            split_loop rounds size b (power k)
              (put_block b (record { size = power k; is_free = true }) first_half))
          next_half)

  halves-block : halves block ≡ record { size = power k; is_free = (h block).is_free }
  unfolding put_size put_block
  halves-block =
      let positive = power-positive k in
      let other : (block == block + power k) ≡ false = ground (arith, positive) in
      ground (arith, other)

  halves-behind : halves (block + power k) ≡ record { size = power k; is_free = true }
  unfolding put_block
  halves-behind = ground arith

  halves-outside : (x : ℕ) → (x < block) ⊎ (block + power (suc k) ≤ x) → halves x ≡ h x
  unfolding put_size put_block power
  halves-outside x side =
      let positive = power-positive k in
      let a : (x == block) ≡ false = elim side [
        | inl lt ↦ ground arith
        | inr le ↦ ground (arith, positive)
      ] in
      let b : (x == block + power k) ≡ false = elim side [
        | inl lt ↦ ground arith
        | inr le ↦ ground (arith, positive)
      ] in
      ground (arith, a, b)

  -- the halves of the second half come after the first
  Splits-half :
      (d j found : ℕ) (h' : Blocks)
      → up d j ≡ k
      → Splits halves h' (block + power k) d j found
      → Splits h h' block (suc d) j found
  unfolding Halved up power
  Splits-half d j found h' e s =
      let p : power (up d j) ≡ power k = ap power e in
      let positive = power-positive k in
      let kept = s.outside block (inl (omega (arith, positive))) ∙ halves-block in
      let behind = s.flag ∙ ap (λ (b : Block). b.is_free) halves-behind in
      record {
        at_end = omega (arith, s.at_end, p);
        halved = (
          ap (λ (b : Block). b.size) kept ∙ sym p,
          (ap (λ n. (h' (block + n)).is_free) p ∙ behind, rw p s.halved),
        );
        outside = λ x side. elim side [
          | inl lt ↦ s.outside x (inl (omega arith)) ∙ halves-outside x (inl lt)
          | inr le ↦
              s.outside x (inr (omega (arith, le, p)))
              ∙ halves-outside x (inr (omega (arith, le, p)))
        ];
        flag = ap (λ (b : Block). b.is_free) kept;
        free = λ _. s.free (ap (λ (b : Block). b.is_free) halves-behind);
      }

pub split_loop-Splits :
    (rounds d j block : ℕ) (h : Blocks)
    → d ≤ rounds
    → up d j ≤ 59
    → block + power (up d j) < 2 ^ 64
    → (h block).size ≡ power (up d j)
    → (found : ℕ) × (h' : Blocks) × (split_loop rounds (power j) block (power (up d j)) h
        ≡ (found, power j, h'))
      × Splits h h' block d j found
unfolding split_loop Halved up
split_loop-Splits rounds zero j block h enough small inside exact = (
  block,
  h,
  split_loop-stop rounds j block h,
  record {
    at_end = refl;
    halved = exact;
    outside = λ x side. refl;
    flag = refl;
    free = λ free. free;
  },
)
split_loop-Splits zero (suc d) j block h enough small inside exact = absurd (omega arith)
split_loop-Splits (suc rounds) (suc d) j block h enough small inside exact =
    let k = up d j in
    let at_least = power_mono j k (le_up d j) in
    let less = power_less k in
    let more : ltb (power j) (power (suc k)) ≡ true = ground (arith, at_least, less) in
    let h2 = halves block k h (omega (arith, small)) inside in
    let (found, h', run, s) =
      split_loop-Splits rounds d j (block + power k) h2 (omega arith) (omega (arith, small))
        (omega (arith, inside, double k))
        (ap (λ (b : Block). b.size) (halves-behind block k h (omega (arith, small)) inside)) in
    (
      found,
      h',
      split_loop-round block k h (omega (arith, small)) inside rounds (power j) more ∙ run,
      Splits-half block k h (omega (arith, small)) inside d j found h' refl s,
    )

-- A block of 16 * 2 ^ (j + d) bytes, split for 16 * 2 ^ j, gives its last part of that size.
pub split_until-Splits :
    (d j block : ℕ) (h : Blocks)
    → d ≤ 64
    → up d j ≤ 59
    → block + power (up d j) < 2 ^ 64
    → (h block).size ≡ power (up d j)
    → (found : ℕ) × (h' : Blocks) × (split_until (power j) block h ≡ (found, h'))
      × Splits h h' block d j found
unfolding split_until
split_until-Splits d j block h enough small inside exact =
    let (found, h', run, s) = split_loop-Splits 64 d j block h enough small inside exact in
    let class : size_required (h block).size ≡ power (up d j) =
      ap size_required exact ∙ size_required-power (up d j) small in
    let positive = power-positive j in
    let some_size : (power j == 0) ≡ false = ground (arith, positive) in
    let room : leb (power j) (power j) ≡ true = ground arith in
    (found, h', rw (split_until, class, run, some_size, room) refl, s)

-- each exponent from `j` on is some steps above it
pub up_reaches : (j m : ℕ) → j ≤ m → (d : ℕ) × (d ≤ m) × (up d j ≡ m)
unfolding up
up_reaches j zero h = (0, omega arith, omega arith)
up_reaches j (suc m) h = elim (dec_lt j (suc m)) [
  | yes less ↦ let (d, le, e) = up_reaches j m (omega arith) in (suc d, omega arith, ap suc e)
  | no same ↦ (0, omega arith, omega (arith, same))
]
