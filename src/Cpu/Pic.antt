-- ===== src/Cpu/Pic.antt =====
-- src/cpu/interrupts/pic.cpp: the two old interrupt controllers.
-- Of each write to a port there is the port and the byte, the oldest first; bytes read are arguments.
mod Masks
use Prim.Native.Nat.{bit_and, bit_or}
use fish_os.Base.{ℕ, ◌+◌, ◌-◌, ◌%◌, ◌^◌, Bool, List, [], ◌∷◌, ◌++◌, leb, ltb, if◌then◌else◌}

abbrev pub pic1_command : ℕ
pic1_command = 0x20

abbrev pub pic1_data : ℕ
pic1_data = 0x21

abbrev pub pic2_command : ℕ
pic2_command = 0xa0

abbrev pub pic2_data : ℕ
pic2_data = 0xa1

abbrev pub Writes : Type 0
Writes = List (ℕ × ℕ)

-- a write to port 0x80 is a short wait; `m1` and `m2` are the masks that are read first
unfoldable pub remap : ℕ → ℕ → ℕ → ℕ → Writes → Writes
remap m1 m2 offset1 offset2 ws =
    ws
    ++ (pic1_command, 0x11)
      ∷ (0x80, 0)
      ∷ (pic2_command, 0x11)
      ∷ (0x80, 0)
      ∷ (pic1_data, offset1)
      ∷ (0x80, 0)
      ∷ (pic2_data, offset2)
      ∷ (0x80, 0)
      ∷ (pic1_data, 4)
      ∷ (0x80, 0)
      ∷ (pic2_data, 2)
      ∷ (0x80, 0)
      ∷ (pic1_data, 1)
      ∷ (0x80, 0)
      ∷ (pic2_data, 1)
      ∷ (0x80, 0)
      ∷ (pic1_data, m1)
      ∷ (pic2_data, m2)
      ∷ []

unfoldable pub send_eoi : ℕ → Writes → Writes
send_eoi irq ws =
    (if leb 8 irq then ws ++ (pic2_command, 0x20) ∷ [] else ws) ++ (pic1_command, 0x20) ∷ []

unfoldable pub mask_port : ℕ → ℕ
mask_port irq = if ltb irq 8 then pic1_data else pic2_data

-- `current` is what the port of the line reads
unfoldable pub set_mask : ℕ → ℕ → Writes → Writes
set_mask current irq ws = ws ++ (mask_port irq, bit_or current (2 ^ (irq % 8)) % 2 ^ 8) ∷ []

unfoldable pub clear_mask : ℕ → ℕ → Writes → Writes
clear_mask current irq ws = ws ++ (mask_port irq, bit_and current (255 - 2 ^ (irq % 8))) ∷ []
