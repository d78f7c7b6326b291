-- ===== src/Cpu/Pic/Masks.antt =====
-- src/cpu/interrupts/pic.cpp: masking a line leaves the others alone.
use Prim.Native.Nat.{bit_and, bit_or}
use fish_os.Base.{
  ℕ, ◌-◌, ◌%◌, ◌^◌, ◌<◌, ◌≡◌, refl, Bool, true, false, [], ◌∷◌, ◌++◌, ◌==◌, if◌then◌else◌, arith,
}
use fish_os.Klib.Bitmap.{bit_of}
use fish_os.Klib.Bitmap.Bits.{passes, passes-at, same, same→eq}
use fish_os.Cpu.Pic.{Writes, mask_port, set_mask, clear_mask}

-- the byte after line `r` of a controller is masked, or open
unfoldable pub masked : Bool → ℕ → ℕ → ℕ
masked true current r = bit_or current (2 ^ r) % 2 ^ 8
masked false current r = bit_and current (255 - 2 ^ r)

abbrev line_test : Bool → ℕ → ℕ → ℕ → Bool
line_test v current r q =
    same (bit_of (masked v current r) q) (if r == q then v else bit_of current q)

line_table : (v : Bool) → passes (λ c. passes (λ r. passes (line_test v c r) 8) 8) 256 ≡ true
unfolding passes bit_of masked
line_table true = refl
line_table false = refl

masked_bits :
    (v : Bool) (current r q : ℕ)
    → current < 256
    → r < 8
    → q < 8
    → bit_of (masked v current r) q ≡ (if r == q then v else bit_of current q)
masked_bits v current r q hc hr hq = same→eq _ _ (
    passes-at (line_test v current r) q 8
      (passes-at (λ r. passes (line_test v current r) 8) r 8
        (passes-at (λ c. passes (λ r. passes (line_test v c r) 8) 8) current 256 (line_table v) hc)
        hr)
      hq)

-- one byte, to the controller of the line, in which just the bit of the line may differ from before
pub record Masked (irq current : ℕ) (v : Bool) (ws ws' : Writes) : Type 0 where
  pub byte : ℕ
  pub written : ws' ≡ ws ++ (mask_port irq, byte) ∷ []
  pub bits : (q : ℕ) → q < 8 → bit_of byte q ≡ (if irq % 8 == q then v else bit_of current q)

-- Where the port of the line reads a byte, `set_mask` writes it back with the bit of the line set, and
-- `clear_mask` with the bit cleared; the bits of the other lines are as they were.
pub set_mask-Masked :
    (current irq : ℕ) (ws : Writes)
    → current < 256
    → Masked irq current true ws (set_mask current irq ws)
      × Masked irq current false ws (clear_mask current irq ws)
unfolding set_mask clear_mask masked
set_mask-Masked current irq ws h = (
  record {
    byte = masked true current (irq % 8);
    written = refl;
    bits = λ q hq. masked_bits true current (irq % 8) q h (omega arith) hq;
  },
  record {
    byte = masked false current (irq % 8);
    written = refl;
    bits = λ q hq. masked_bits false current (irq % 8) q h (omega arith) hq;
  },
)
