-- ===== src/Klib/Bitmap.antt =====
-- src/klib/bitmap.hpp: a bit array over a byte buffer.
-- The buffer is the list of its bytes. A read past it gives 0 and a write past it is dropped; the
-- laws below ask for an index in bounds.
pub mod Bits
pub mod Fill
mod Tests
use Prim.Native.Nat.{bit_and, bit_or}
use fish_os.Base.{
  ℕ, zero, suc, ◌+◌, ◌-◌, ◌*◌, ◌/◌, ◌%◌, ◌^◌, ◌≤◌, ◌<◌, ◌≡◌, refl, Bool, true, false, ◌&&◌, List,
  ◌∷◌, [], arith, ◌==◌, ==_iff, if◌then◌else◌, length, get_or, set, get_or-set, length-set,
}

pub record Bitmap : Type 0 where
  pub buffer : List ℕ
  pub size : ℕ

abbrev pub to_nat : Bool → ℕ
to_nat true = 1
to_nat false = 0

-- bit `r` of a byte
unfoldable pub bit_of : ℕ → ℕ → Bool
bit_of byte r = bit_and (byte / 2 ^ r) 1 == 1

-- the byte with bit `r` cleared by `&= ~(1 << r)` and then given by `|= value << r`
unfoldable pub put_bit : ℕ → ℕ → Bool → ℕ
put_bit byte r value = bit_or (bit_and byte (255 - 2 ^ r)) (to_nat value * 2 ^ r)

unfoldable pub get : Bitmap → ℕ → Bool
get b index = bit_of (get_or b.buffer (index / 8) 0) (index % 8)

unfoldable pub set_bit : Bitmap → ℕ → Bool → Bitmap
set_bit b index value =
    let d = index / 8 in
    let r = index % 8 in
    record b { buffer = set b.buffer d (put_bit (get_or b.buffer d 0) r value) }

-- `memset` of the first `n` bytes
unfoldable pub memset : List ℕ → ℕ → ℕ → List ℕ
memset [] value n = []
memset (x ∷ xs) value zero = x ∷ xs
memset (x ∷ xs) value (suc n) = value ∷ memset xs value n

-- the loop of `fill` over the bits behind the last whole byte, from round `i` on
fill_tail : ℕ → ℕ → Bitmap → Bitmap
fill_tail zero i b = b
fill_tail (suc rounds) i b = fill_tail rounds (i + 1) (set_bit b (b.size - i) true)

-- the parameter `value` is not read, as in the source
unfoldable pub fill : Bitmap → Bool → Bitmap
unfolding fill_tail memset
fill b value = fill_tail (b.size % 8) 0 (record b { buffer = memset b.buffer 255 (b.size / 8) })
