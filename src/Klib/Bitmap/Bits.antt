-- ===== src/Klib/Bitmap/Bits.antt =====
-- src/klib/bitmap.hpp: what reads see after writes.
use fish_os.Base.{
  ℕ, zero, suc, ◌/◌, ◌%◌, ◌≤◌, ◌<◌, ◌≡◌, refl, ◌∙◌, Bool, true, false, ◌&&◌, List, arith, ◌==◌,
  if◌then◌else◌, length, get_or, get_or-set, length-set, set-of_le, ap, ltb,
}
use native.Mathlib.Decide.{dec_lt, ℕ_discrete}
use fish_os.Klib.Bitmap.{Bitmap, bit_of, put_bit, get, set_bit}

-- the test passes at every number under the bound
unfoldable pub passes : (ℕ → Bool) → ℕ → Bool
passes test zero = true
passes test (suc bound) = passes test bound && test bound

pub passes-at :
    (test : ℕ → Bool) (k bound : ℕ) → passes test bound ≡ true → k < bound → test k ≡ true
unfolding passes
passes-at test k zero ran under = elim under [ ]
passes-at test k (suc bound) ran under = elim (ℕ_discrete k bound) [
  | yes top ↦ rw top (ground arith)
  | no lower ↦ passes-at test k bound (ground arith) (omega arith)
]

abbrev pub same : Bool → Bool → Bool
same true b = b
same false true = false
same false false = true

pub same→eq : (a b : Bool) → same a b ≡ true → a ≡ b
same→eq a b h = ground arith

abbrev bit_test : Bool → ℕ → ℕ → ℕ → Bool
bit_test v byte r q = same (bit_of (put_bit byte r v) q) (if r == q then v else bit_of byte q)

abbrev byte_test : Bool → ℕ → Bool
byte_test v byte = passes (λ r. passes (bit_test v byte r) 8) 8

bit_table : (v : Bool) → passes (byte_test v) 256 ≡ true
unfolding passes bit_of put_bit
bit_table true = refl
bit_table false = refl

all_bits : (v : Bool) (byte r q : ℕ) → byte < 256 → r < 8 → q < 8 → bit_test v byte r q ≡ true
all_bits v byte r q hb hr hq =
    passes-at (bit_test v byte r) q 8
      (passes-at (λ r. passes (bit_test v byte r) 8) r 8
        (passes-at (byte_test v) byte 256 (bit_table v) hb) hr)
      hq

bit_of-put_bit :
    (v : Bool) (byte r q : ℕ)
    → byte < 256
    → r < 8
    → q < 8
    → bit_of (put_bit byte r v) q ≡ (if r == q then v else bit_of byte q)
bit_of-put_bit v byte r q hb hr hq = same→eq _ _ (all_bits v byte r q hb hr hq)

abbrev fits_byte : Bool → ℕ → ℕ → Bool
fits_byte v byte r = ltb (put_bit byte r v) 256

put_bit_table : (v : Bool) → passes (λ b. passes (fits_byte v b) 8) 256 ≡ true
unfolding passes put_bit
put_bit_table true = refl
put_bit_table false = refl

put_bit-lt : (v : Bool) (byte r : ℕ) → byte < 256 → r < 8 → put_bit byte r v < 256
put_bit-lt v byte r hb hr = ground (
  arith,
  passes-at (fits_byte v byte) r 8
      (passes-at (λ b. passes (fits_byte v b) 8) byte 256 (put_bit_table v) hb) hr,
)

-- every element is a byte
abbrev pub IsBytes : List ℕ → Type 0
IsBytes xs = (d : ℕ) → get_or xs d 0 < 256

pub set_bit-IsBytes :
    (b : Bitmap) (i : ℕ) (v : Bool)
    → IsBytes b.buffer
    → i / 8 < length b.buffer
    → IsBytes (set_bit b i v).buffer
unfolding set_bit
set_bit-IsBytes b i v h lt d = rw (get_or-set b.buffer (i / 8) d _ 0 lt) (
    ground (arith, h d, put_bit-lt v (get_or b.buffer (i / 8) 0) (i % 8) (h (i / 8)) (omega arith)))

-- A write in bounds changes its own bit alone.
pub get-set_bit :
    (b : Bitmap) (i j : ℕ) (v : Bool)
    → IsBytes b.buffer
    → i / 8 < length b.buffer
    → get (set_bit b i v) j ≡ (if i == j then v else get b j)
unfolding get set_bit
get-set_bit b i j v h lt = rw (get_or-set b.buffer (i / 8) (j / 8) _ 0 lt) (
    ground (
      arith,
      bit_of-put_bit v (get_or b.buffer (i / 8) 0) (i % 8) (j % 8) (h (i / 8)) (omega arith)
          (omega arith),
    ))

pub get-set_bit_self :
    (b : Bitmap) (i : ℕ) (v : Bool)
    → IsBytes b.buffer
    → i / 8 < length b.buffer
    → get (set_bit b i v) i ≡ v
get-set_bit_self b i v h lt = get-set_bit b i i v h lt ∙ ground arith

pub size-set_bit : (b : Bitmap) (i : ℕ) (v : Bool) → (set_bit b i v).size ≡ b.size
unfolding set_bit
size-set_bit b i v = refl

pub length-set_bit :
    (b : Bitmap) (i : ℕ) (v : Bool) → length (set_bit b i v).buffer ≡ length b.buffer
unfolding set_bit
length-set_bit b i v = length-set b.buffer _ _

-- A write out of bounds changes nothing.
set_bit-of_le : (b : Bitmap) (i : ℕ) (v : Bool) → length b.buffer ≤ i / 8 → set_bit b i v ≡ b
unfolding set_bit
set_bit-of_le b i v h =
    ap (λ (xs : List ℕ). record b { buffer = xs }) (set-of_le b.buffer (i / 8) _ h)

pub set_bit-IsBytes_any :
    (b : Bitmap) (i : ℕ) (v : Bool) → IsBytes b.buffer → IsBytes (set_bit b i v).buffer
set_bit-IsBytes_any b i v h = elim (dec_lt (i / 8) (length b.buffer)) [
  | yes lt ↦ set_bit-IsBytes b i v h lt
  | no ge ↦ rw (set_bit-of_le b i v (omega arith)) h
]

-- A read in bounds after any write.
pub get_in-set_bit :
    (b : Bitmap) (i j : ℕ) (v : Bool)
    → IsBytes b.buffer
    → j / 8 < length b.buffer
    → get (set_bit b i v) j ≡ (if i == j then v else get b j)
get_in-set_bit b i j v h lt = elim (dec_lt (i / 8) (length b.buffer)) [
  | yes inside ↦ get-set_bit b i j v h inside
  | no ge ↦ rw (set_bit-of_le b i v (omega arith)) (ground arith)
]
