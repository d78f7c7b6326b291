-- ===== src/Klib/Bitmap/Fill.antt =====
-- src/klib/bitmap.hpp, `fill`: which bits it sets.

use fish_os.Base.{
  ℕ, zero, suc, ◌+◌, ◌-◌, ◌*◌, ◌/◌, ◌%◌, ◌≤◌, ◌<◌, ◌≡◌, refl, ◌∙◌, Bool, true, ◌&&◌, ◌||◌, List, [],
  ◌∷◌, arith, ltb, leb, if◌then◌else◌, length, get_or,
}
use fish_os.Klib.Bitmap.{Bitmap, bit_of, get, set_bit, memset, fill_tail, fill}
use fish_os.Klib.Bitmap.Bits.{
  IsBytes, passes, passes-at, set_bit-IsBytes_any, get_in-set_bit, size-set_bit, length-set_bit,
}

get_or-memset :
    (xs : List ℕ) (value n d : ℕ)
    → d < length xs
    → get_or (memset xs value n) d 0 ≡ (if ltb d n then value else get_or xs d 0)
unfolding memset
get_or-memset [] value n d h = absurd (omega arith)
get_or-memset (x ∷ xs) value zero d h = ground arith
get_or-memset (x ∷ xs) value (suc n) zero h = ground arith
get_or-memset (x ∷ xs) value (suc n) (suc d) h = ground (arith, get_or-memset xs value n d)

length-memset : (xs : List ℕ) (value n : ℕ) → length (memset xs value n) ≡ length xs
unfolding memset
length-memset [] value n = refl
length-memset (x ∷ xs) value zero = refl
length-memset (x ∷ xs) value (suc n) = omega (arith, length-memset xs value n)

memset-IsBytes : (xs : List ℕ) (n d : ℕ) → IsBytes xs → get_or (memset xs 255 n) d 0 < 256
unfolding memset
memset-IsBytes [] n d h = h d
memset-IsBytes (x ∷ xs) zero d h = h d
memset-IsBytes (x ∷ xs) (suc n) zero h = omega arith
memset-IsBytes (x ∷ xs) (suc n) (suc d) h = memset-IsBytes xs n d (λ d. h (suc d))

full_byte : passes (bit_of 255) 8 ≡ true
unfolding passes bit_of
full_byte = refl

get-memset :
    (b : Bitmap) (n j : ℕ)
    → j / 8 < length b.buffer
    → get (record b { buffer = memset b.buffer 255 n }) j
      ≡ (if ltb (j / 8) n then true else get b j)
unfolding get
get-memset b n j lt =
    rw (get_or-memset b.buffer 255 n (j / 8) lt)
      (ground (arith, passes-at (bit_of 255) (j % 8) 8 full_byte (omega arith)))

-- `j` is one of the bits that the loop over the tail sets, from round `i` on
abbrev tail_bit : ℕ → ℕ → ℕ → ℕ → Bool
tail_bit size rounds i j = ltb size (j + i + rounds) && leb (j + i) size

get-fill_tail :
    (rounds i j : ℕ) (b : Bitmap)
    → i + rounds ≤ b.size
    → IsBytes b.buffer
    → j / 8 < length b.buffer
    → get (fill_tail rounds i b) j ≡ (if tail_bit b.size rounds i j then true else get b j)
unfolding fill_tail
get-fill_tail zero i j b le h lt = ground arith
get-fill_tail (suc rounds) i j b le h lt = ground (
  arith,
  get-fill_tail rounds (i + 1) j (set_bit b (b.size - i) true) (rw size-set_bit (omega arith))
      (set_bit-IsBytes_any b (b.size - i) true h) (rw length-set_bit lt),
  get_in-set_bit b (b.size - i) j true h lt,
  size-set_bit b (b.size - i) true,
)

-- the bits that `fill` sets: those of the whole bytes, and from the one after the next up to `size`
abbrev pub filled : ℕ → ℕ → Bool
filled size j = ltb j (8 * (size / 8)) || (ltb (size - size % 8) j && leb j size)

-- Whatever value it is given, `fill` sets to 1 the bits of the whole bytes; of the bits behind them
-- it misses the first, at `size - size % 8`, and sets the others and bit `size`, which is past the
-- end. It changes no other bit of the buffer.
pub get-fill :
    (b : Bitmap) (value : Bool) (j : ℕ)
    → IsBytes b.buffer
    → j / 8 < length b.buffer
    → get (fill b value) j ≡ (if filled b.size j then true else get b j)
unfolding fill
get-fill b value j h lt = ground (
  arith,
  get-fill_tail (b.size % 8) 0 j (record b { buffer = memset b.buffer 255 (b.size / 8) })
      (omega arith) (λ d. memset-IsBytes b.buffer (b.size / 8) d h) (rw length-memset lt),
  get-memset b (b.size / 8) j lt,
)

-- what stays as it is when bits are written
pub record Shape (b r : Bitmap) : Type 0 where
  pub bytes : IsBytes r.buffer
  pub size : r.size ≡ b.size
  pub room : length r.buffer ≡ length b.buffer

fill_tail-Shape : (rounds i : ℕ) (b : Bitmap) → IsBytes b.buffer → Shape b (fill_tail rounds i b)
unfolding fill_tail
fill_tail-Shape zero i b h = record { bytes = h; size = refl; room = refl }
fill_tail-Shape (suc rounds) i b h =
    let ih =
      fill_tail-Shape rounds (i + 1) (set_bit b (b.size - i) true)
        (set_bit-IsBytes_any b (b.size - i) true h) in
    record {
      bytes = ih.bytes;
      size = ih.size ∙ size-set_bit b (b.size - i) true;
      room = ih.room ∙ length-set_bit b (b.size - i) true;
    }

pub fill-Shape : (b : Bitmap) (value : Bool) → IsBytes b.buffer → Shape b (fill b value)
unfolding fill
fill-Shape b value h =
    let whole =
      fill_tail-Shape (b.size % 8) 0 (record b { buffer = memset b.buffer 255 (b.size / 8) })
        (λ d. memset-IsBytes b.buffer (b.size / 8) d h) in
    record {
      bytes = whole.bytes;
      size = whole.size;
      room = whole.room ∙ length-memset b.buffer 255 (b.size / 8);
    }
