-- ===== src/Mem/Pmm/Range.antt =====
-- src/mem/pmm.cpp: what a marked range of pages reads as, and when the bitmap is well formed.
use fish_os.Base.{
  ℕ, zero, suc, ◌+◌, ◌*◌, ◌≤◌, ◌<◌, ◌≡◌, refl, Bool, ◌&&◌, arith, ltb, leb, if◌then◌else◌, length,
}
use fish_os.Klib.Bitmap.{Bitmap, get, set_bit}
use fish_os.Klib.Bitmap.Bits.{IsBytes, set_bit-IsBytes, get-set_bit, size-set_bit, length-set_bit}
use fish_os.Mem.Pmm.{set_range}

-- The buffer holds bytes, and a bit for every page up to `size`.
pub record IsBitmap (b : Bitmap) : Type 0 where
  pub bytes : IsBytes b.buffer
  pub room : b.size ≤ 8 * length b.buffer

pub set_bit-IsBitmap :
    (b : Bitmap) (i : ℕ) (v : Bool)
    → IsBitmap b
    → i < 8 * length b.buffer
    → IsBitmap (set_bit b i v)
set_bit-IsBitmap b i v w lt = record {
  bytes = set_bit-IsBytes b i v w.bytes (omega arith);
  room = omega (arith, w.room, size-set_bit b i v, length-set_bit b i v);
}

-- `j` is one of the `k` pages from `i` on
abbrev pub in_range : ℕ → ℕ → ℕ → Bool
in_range i k j = leb i j && ltb j (i + k)

pub record Ranged (k i : ℕ) (v : Bool) (b r : Bitmap) : Type 0 where
  pub bitmap : IsBitmap r
  pub size : r.size ≡ b.size
  pub bits : (j : ℕ) → get r j ≡ (if in_range i k j then v else get b j)

pub set_range-Ranged :
    (k i : ℕ) (v : Bool) (b : Bitmap)
    → IsBitmap b
    → i + k ≤ 8 * length b.buffer
    → Ranged k i v b (set_range k i v b)
unfolding set_range
set_range-Ranged zero i v b w fits = record { bitmap = w; size = refl; bits = λ j. ground arith }
set_range-Ranged (suc k) i v b w fits =
    let ih =
      set_range-Ranged k (i + 1) v (set_bit b i v) (set_bit-IsBitmap b i v w (omega arith))
        (omega (arith, length-set_bit b i v)) in
    record {
      bitmap = ih.bitmap;
      size = omega (arith, ih.size, size-set_bit b i v);
      bits = λ j. ground (arith, ih.bits j, get-set_bit b i j v w.bytes (omega arith));
    }
