-- ===== src/Klib/Printf/Number.antt =====
-- src/klib/cstdio.cpp: what `vprintf` prints for a number, read back.
use native.Mathlib.Nat.{div-add-mod', mod-lt}
use fish_os.Base.{
  ℕ, zero, suc, ◌+◌, ◌-◌, ◌*◌, ◌/◌, ◌%◌, ◌≤◌, ◌<◌, ◌≡◌, refl, sym, ap, ◌∙◌, Bool, true, false, not,
  ◌&&◌, Bool-cases, inl, inr, List, [], ◌∷◌, ◌++◌, ◌==◌, ltb, if◌then◌else◌, replicate, length,
  length-append, length-replicate, arith,
}
use fish_os.Klib.Printf.{num_digits, div_times, digit_char, put_digits, padding, put_number}
use fish_os.Klib.Printf.Digits.{div_times-div, div_times-num_digits}

-- the value of a digit, in either case
unfoldable pub digit_of : ℕ → ℕ
digit_of c = if ltb c 58 then c - 48 else if ltb c 71 then c - 55 else c - 87

-- the number that the digits write behind `acc`
unfoldable pub parse : ℕ → ℕ → List ℕ → ℕ
parse base acc [] = acc
parse base acc (c ∷ cs) = parse base (acc * base + digit_of c) cs

digit_of-digit_char : (upper : Bool) (d : ℕ) → d < 16 → digit_of (digit_char upper d) ≡ d
unfolding digit_of digit_char
digit_of-digit_char true d h = ground arith
digit_of-digit_char false d h = ground arith

-- a division with its remainder, through the character of the digit
digit-step :
    (upper : Bool) (w base : ℕ)
    → 2 ≤ base
    → base ≤ 16
    → w / base * base + digit_of (digit_char upper (w % base)) ≡ w
digit-step upper w base two sixteen =
    ap (λ d. w / base * base + d)
      (digit_of-digit_char upper (w % base) (omega (arith, mod-lt w {m = base} (omega arith))))
    ∙ div-add-mod' w base

parse-put_digits :
    (upper : Bool) (n v base acc : ℕ)
    → 2 ≤ base
    → base ≤ 16
    → acc ≡ div_times (suc n) v base
    → parse base acc (put_digits upper n v base) ≡ v
unfolding parse put_digits div_times
parse-put_digits upper zero v base acc two sixteen e =
    ap (λ a. a * base + digit_of (digit_char upper (v % base))) e
    ∙ digit-step upper v base two sixteen
parse-put_digits upper (suc n) v base acc two sixteen e =
    let w = div_times (suc n) v base in
    parse-put_digits upper n v base (acc * base + digit_of (digit_char upper (w % base))) two
      sixteen
      (ap (λ a. a * base + digit_of (digit_char upper (w % base)))
          (e ∙ div_times-div (suc n) v base)
        ∙ digit-step upper w base two sixteen)

parse-zeros : (k base : ℕ) (cs : List ℕ) → parse base 0 (replicate k 48 ++ cs) ≡ parse base 0 cs
unfolding parse digit_of
parse-zeros zero base cs = refl
parse-zeros (suc k) base cs =
    let e : 0 * base + 0 ≡ 0 = omega arith in
    ap (λ a. parse base a (replicate k 48 ++ cs)) e ∙ parse-zeros k base cs

-- For a base from 2 to 16, the digits that are printed for a number, with any padding, are read back as
-- the number.
pub parse-put_number :
    (upper : Bool) (zero_pad v base : ℕ)
    → 2 ≤ base
    → base ≤ 16
    → parse base 0 (put_number upper zero_pad v base) ≡ v
unfolding put_number padding
parse-put_number upper zero_pad v base two sixteen =
    let n = num_digits v base in
    let digits =
      parse-put_digits upper n v base 0 two sixteen (sym (div_times-num_digits v base two)) in
    elim (Bool-cases (not (zero_pad == 0) && ltb n zero_pad)) [
      | inl pad ↦ rw pad (parse-zeros (zero_pad - n - 1) base (put_digits upper n v base) ∙ digits)
      | inr plain ↦ rw plain digits
    ]

length-put_digits : (upper : Bool) (n v base : ℕ) → length (put_digits upper n v base) ≡ suc n
unfolding put_digits
length-put_digits upper zero v base = refl
length-put_digits upper (suc n) v base = ap suc (length-put_digits upper n v base)

-- A number is printed with as many characters as the padding asks for, or as it has digits, whichever
-- is more.
pub length-put_number :
    (upper : Bool) (zero_pad v base : ℕ)
    → length (put_number upper zero_pad v base)
      ≡ (if ltb (num_digits v base + 1) zero_pad then zero_pad else num_digits v base + 1)
unfolding put_number padding
length-put_number upper zero_pad v base =
    let n = num_digits v base in
    let digits = length-put_digits upper n v base in
    elim (Bool-cases (not (zero_pad == 0) && ltb n zero_pad)) [
      | inl pad ↦ rw pad (
          length-append (replicate (zero_pad - n - 1) 48) (put_digits upper n v base)
          ∙ ground (arith, digits, length-replicate {A = ℕ} (zero_pad - n - 1) 48))
      | inr plain ↦ rw plain (digits ∙ ground arith)
    ]
