-- ===== src/Base/Bits.antt =====
-- Laws of `bit_and` and `bit_or` on numbers, from the law for their lowest digit.
use Prim.Native.Nat.{
  ℕ, zero, suc, ◌+◌, ◌*◌, ◌/◌, ◌%◌, ◌≤◌, ◌<◌, ◌^◌, min, max, bit_and, bit_or, digits,
  bit_and-bitwise, bit_or-bitwise,
}
use mathlib.Core.Path.{◌≡◌, refl, sym, ap, ◌∙◌}
use native.Mathlib.Omega.{arith}

-- the digits of `a`, with fuel for them, depend on the number alone
digits_fuel :
    (z : ℕ → ℕ) (f : ℕ → ℕ → ℕ) (n m a b : ℕ) → a ≤ n → a ≤ m → digits z f n a b ≡ digits z f m a b
digits_fuel z f zero zero a b p q = refl
digits_fuel z f zero (suc m) zero b p q = refl
digits_fuel z f zero (suc m) (suc a) b p q = absurd (omega arith)
digits_fuel z f (suc n) zero zero b p q = refl
digits_fuel z f (suc n) zero (suc a) b p q = absurd (omega arith)
digits_fuel z f (suc n) (suc m) zero b p q = refl
digits_fuel z f (suc n) (suc m) (suc a) b p q =
    ap (λ d. d * 2 + f (suc a % 2) (b % 2))
      (digits_fuel z f n m (suc a / 2) (b / 2) (omega arith) (omega arith))

zero-bit_and : (b : ℕ) → bit_and 0 b ≡ 0
zero-bit_and b = bit_and-bitwise 0 b

zero-bit_or : (b : ℕ) → bit_or 0 b ≡ b
zero-bit_or b = bit_or-bitwise 0 b

bit_and-lowest : (a b : ℕ) → bit_and a b ≡ bit_and (a / 2) (b / 2) * 2 + min (a % 2) (b % 2)
bit_and-lowest zero b = omega (arith, zero-bit_and b, zero-bit_and (b / 2))
bit_and-lowest (suc a) b =
    let fuel =
      digits_fuel (λ _. zero) min a (suc a / 2) (suc a / 2) (b / 2) (omega arith) (omega arith) in
    omega (arith, bit_and-bitwise (suc a) b, bit_and-bitwise (suc a / 2) (b / 2), fuel)

bit_or-lowest : (a b : ℕ) → bit_or a b ≡ bit_or (a / 2) (b / 2) * 2 + max (a % 2) (b % 2)
bit_or-lowest zero b = omega (arith, zero-bit_or b, zero-bit_or (b / 2))
bit_or-lowest (suc a) b =
    let fuel =
      digits_fuel (λ d. d) max a (suc a / 2) (suc a / 2) (b / 2) (omega arith) (omega arith) in
    omega (arith, bit_or-bitwise (suc a) b, bit_or-bitwise (suc a / 2) (b / 2), fuel)

half-bit_and : (a b : ℕ) → bit_and a b / 2 ≡ bit_and (a / 2) (b / 2)
half-bit_and a b = omega (arith, bit_and-lowest a b)

half-bit_or : (a b : ℕ) → bit_or a b / 2 ≡ bit_or (a / 2) (b / 2)
half-bit_or a b = omega (arith, bit_or-lowest a b)

-- numbers with the same digits are the same
same_digits : (a b : ℕ) → a / 2 ≡ b / 2 → a % 2 ≡ b % 2 → a ≡ b
same_digits a b h l = omega arith

module _ (a b c : ℕ) where
  distribute_half :
      bit_and (bit_or (a / 2) (b / 2)) (c / 2)
        ≡ bit_or (bit_and (a / 2) (c / 2)) (bit_and (b / 2) (c / 2))
      → bit_and (bit_or a b) c ≡ bit_or (bit_and a c) (bit_and b c)
  distribute_half ih =
      same_digits _ _
        (half-bit_and (bit_or a b) c
          ∙ ap (λ x. bit_and x (c / 2)) (half-bit_or a b)
          ∙ ih
          ∙ ap (λ x. bit_or x (bit_and (b / 2) (c / 2))) (sym (half-bit_and a c))
          ∙ ap (λ x. bit_or (bit_and a c / 2) x) (sym (half-bit_and b c))
          ∙ sym (half-bit_or (bit_and a c) (bit_and b c)))
        (omega (
          arith,
          bit_and-lowest (bit_or a b) c,
          bit_or-lowest a b,
          bit_and-lowest a c,
          bit_and-lowest b c,
          bit_or-lowest (bit_and a c) (bit_and b c),
        ))

distribute_fuel :
    (n a b c : ℕ) → a ≤ n → bit_and (bit_or a b) c ≡ bit_or (bit_and a c) (bit_and b c)
distribute_fuel n zero b c h =
    ap (λ x. bit_and x c) (zero-bit_or b)
    ∙ sym (zero-bit_or (bit_and b c))
    ∙ ap (λ x. bit_or x (bit_and b c)) (sym (zero-bit_and c))
distribute_fuel zero (suc a) b c h = absurd (omega arith)
distribute_fuel (suc n) (suc a) b c h =
    distribute_half (suc a) b c (distribute_fuel n (suc a / 2) (b / 2) (c / 2) (omega arith))

-- `bit_and` distributes over `bit_or`
pub bit_and-bit_or : (a b c : ℕ) → bit_and (bit_or a b) c ≡ bit_or (bit_and a c) (bit_and b c)
bit_and-bit_or a b c = distribute_fuel a a b c (omega arith)

or_zero_fuel : (n a : ℕ) → a ≤ n → bit_or a 0 ≡ a
or_zero_fuel n zero h = zero-bit_or 0
or_zero_fuel zero (suc a) h = absurd (omega arith)
or_zero_fuel (suc n) (suc a) h =
    omega (arith, bit_or-lowest (suc a) 0, or_zero_fuel n (suc a / 2) (omega arith))

pub bit_or-zero : (a : ℕ) → bit_or a 0 ≡ a
bit_or-zero a = or_zero_fuel a a (omega arith)

pub zero_or : (b : ℕ) → bit_or 0 b ≡ b
zero_or b = zero-bit_or b

and_zero_fuel : (n a : ℕ) → a ≤ n → bit_and a 0 ≡ 0
and_zero_fuel n zero h = zero-bit_and 0
and_zero_fuel zero (suc a) h = absurd (omega arith)
and_zero_fuel (suc n) (suc a) h =
    omega (arith, bit_and-lowest (suc a) 0, and_zero_fuel n (suc a / 2) (omega arith))

pub bit_and-zero : (a : ℕ) → bit_and a 0 ≡ 0
bit_and-zero a = and_zero_fuel a a (omega arith)

pub bit_and-one : (a : ℕ) → bit_and a 1 ≡ a % 2
bit_and-one a = omega (arith, bit_and-lowest a 1, bit_and-zero (a / 2))

-- masking twice with the same mask is masking once
masked_fuel : (n a m : ℕ) → a ≤ n → bit_and (bit_and a m) m ≡ bit_and a m
masked_fuel n zero m h = ap (λ x. bit_and x m) (zero-bit_and m)
masked_fuel zero (suc a) m h = absurd (omega arith)
masked_fuel (suc n) (suc a) m h =
    same_digits _ _
      (half-bit_and (bit_and (suc a) m) m
        ∙ ap (λ x. bit_and x (m / 2)) (half-bit_and (suc a) m)
        ∙ masked_fuel n (suc a / 2) (m / 2) (omega arith)
        ∙ sym (half-bit_and (suc a) m))
      (omega (arith, bit_and-lowest (bit_and (suc a) m) m, bit_and-lowest (suc a) m))

pub bit_and_twice : (a m : ℕ) → bit_and (bit_and a m) m ≡ bit_and a m
bit_and_twice a m = masked_fuel a a m (omega arith)

-- `n` twos multiplied to `m`, and `n` ones in a row
shifted : ℕ → ℕ → ℕ
shifted zero m = m
shifted (suc n) m = 2 * shifted n m

ones : ℕ → ℕ
ones zero = 0
ones (suc n) = 2 * ones n + 1

bit_and-ones : (n a : ℕ) → a < suc (ones n) → bit_and a (ones n) ≡ a
unfolding ones
bit_and-ones zero a h = bit_and-zero a ∙ omega arith
bit_and-ones (suc n) a h =
    let half : ones (suc n) / 2 ≡ ones n = omega arith in
    let ih = bit_and-ones n (a / 2) (omega arith) in
    same_digits _ _ (half-bit_and a (ones (suc n)) ∙ ap (λ x. bit_and (a / 2) x) half ∙ ih)
      (omega (arith, bit_and-lowest a (ones (suc n))))

bit_and-shifted : (n a m : ℕ) → bit_and (shifted n a) (shifted n m) ≡ shifted n (bit_and a m)
unfolding shifted
bit_and-shifted zero a m = refl
bit_and-shifted (suc n) a m =
    let ha : shifted (suc n) a / 2 ≡ shifted n a = omega arith in
    let hm : shifted (suc n) m / 2 ≡ shifted n m = omega arith in
    same_digits _ _
      (half-bit_and (shifted (suc n) a) (shifted (suc n) m)
        ∙ ap (λ x. bit_and x (shifted (suc n) m / 2)) ha
        ∙ ap (λ x. bit_and (shifted n a) x) hm
        ∙ bit_and-shifted n a m
        ∙ omega arith)
      (omega (arith, bit_and-lowest (shifted (suc n) a) (shifted (suc n) m)))

-- the mask of an address leaves the address of a page below 2 ^ 52 as it is
pub page_mask : (p : ℕ) → p < 2 ^ 40 → bit_and (p * 0x1000) 0x000ffffffffff000 ≡ p * 0x1000
unfolding shifted ones
page_mask p h =
    let low = bit_and-ones 40 p (omega arith) in
    let high = bit_and-shifted 12 p (ones 40) in
    let wide : shifted 12 p ≡ p * 0x1000 = omega arith in
    let back : shifted 12 (bit_and p (ones 40)) ≡ p * 0x1000 = omega (arith, low) in
    ap (λ x. bit_and x 0x000ffffffffff000) (sym wide) ∙ high ∙ back

-- a multiple of a power of two and a number below it have no bit in common
pub bit_or-disjoint : (n a m : ℕ) → a < 2 ^ n → bit_or a (m * 2 ^ n) ≡ a + m * 2 ^ n
bit_or-disjoint zero a m h =
    let none : a ≡ 0 = omega arith in
    ap (λ x. bit_or x (m * 2 ^ zero)) none ∙ zero_or (m * 2 ^ zero) ∙ omega arith
bit_or-disjoint (suc n) a m h =
    let two : 2 ^ suc n ≡ 2 * 2 ^ n = omega arith in
    let twice : m * 2 ^ suc n ≡ 2 * (m * 2 ^ n) = ap (λ k. m * k) two ∙ grind arith in
    let bound : a < 2 * 2 ^ n = omega arith in
    let half : m * 2 ^ suc n / 2 ≡ m * 2 ^ n = omega (arith, twice) in
    let ih = bit_or-disjoint n (a / 2) m (omega (arith, bound)) in
    let rest : bit_or (a / 2) (m * 2 ^ suc n / 2) ≡ a / 2 + m * 2 ^ n =
      ap (λ x. bit_or (a / 2) x) half ∙ ih in
    omega (arith, bit_or-lowest a (m * 2 ^ suc n), rest, twice)
