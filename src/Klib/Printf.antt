-- ===== src/Klib/Printf.antt =====
-- src/klib/cstdio.cpp (and userspace/test/src/print.cpp, whose text is the same): how `vprintf` prints
-- a number. The characters are the sequence of the calls of `putchar`.
mod Digits
pub mod Number
pub mod Format
pub mod Pieces
pub mod Directives
pub mod Output
mod Tests
use fish_os.Base.{
  ℕ, zero, suc, ◌+◌, ◌-◌, ◌/◌, ◌%◌, Bool, true, false, not, ◌&&◌, List, [], ◌∷◌, ◌++◌, ◌==◌, ltb,
  if◌then◌else◌, replicate,
}

-- the loop of `num_digits`; a quotient is smaller than its dividend, so `x` rounds are enough
unfoldable pub count_digits : ℕ → ℕ → ℕ → ℕ
count_digits zero x base = 0
count_digits (suc fuel) x base =
    let rest = count_digits fuel (x / base) base in if x / base == 0 then 0 else rest + 1

unfoldable pub num_digits : ℕ → ℕ → ℕ
num_digits x base = count_digits x x base

-- `v /= base`, `n` times
unfoldable pub div_times : ℕ → ℕ → ℕ → ℕ
div_times zero v base = v
div_times (suc n) v base = div_times n (v / base) base

-- `used[d]` for the lower and the upper case; `'0' + d` is either for a decimal digit
unfoldable pub digit_char : Bool → ℕ → ℕ
digit_char upper d = if ltb d 10 then 48 + d else if upper then 55 + d else 87 + d

-- the loop over `di`, from `n` down to 0
unfoldable pub put_digits : Bool → ℕ → ℕ → ℕ → List ℕ
put_digits upper zero value base = digit_char upper (div_times 0 value base % base) ∷ []
put_digits upper (suc n) value base =
    digit_char upper (div_times (suc n) value base % base) ∷ put_digits upper n value base

unfoldable pub padding : ℕ → ℕ → List ℕ
padding zero_pad digits =
    if not (zero_pad == 0) && ltb digits zero_pad then replicate (zero_pad - digits - 1) 48 else []

-- the characters of `%d`, with base 10, and of `%x` and `%X`, with base 16
unfoldable pub put_number : Bool → ℕ → ℕ → ℕ → List ℕ
put_number upper zero_pad value base =
    let digits = num_digits value base in
    padding zero_pad digits ++ put_digits upper digits value base

-- what `written` is increased by, and the characters of `0x` before a hexadecimal number
unfoldable pub put_hex : Bool → Bool → ℕ → ℕ → List ℕ
put_hex upper alt_form zero_pad value =
    (if alt_form then 48 ∷ 120 ∷ [] else []) ++ put_number upper zero_pad value 16
