-- ===== src/Klib/Bitmap/Tests.antt =====
-- The bit array on two bytes.
use fish_os.Base.{ℕ, zero, suc, ◌<◌, ◌≡◌, refl, true, [], ◌∷◌, arith, get_or}
use fish_os.Klib.Bitmap.{Bitmap, put_bit, set_bit, memset, fill_tail, fill}

abbrev bits : Bitmap
bits = record { buffer = 0x05 ∷ 0x00 ∷ []; size = 12 }

bytes : (d : ℕ) → get_or bits.buffer d 0 < 256
bytes zero = omega arith
bytes (suc zero) = omega arith
bytes (suc (suc d)) = omega arith

-- of the bits 8 to 11 the last three are set, and bit 12 too
fill_twelve : fill bits true ≡ record { buffer = 0xff ∷ 0x1e ∷ []; size = 12 }
unfolding fill fill_tail memset set_bit put_bit
fill_twelve = refl
