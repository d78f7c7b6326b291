-- ===== src/Ps2/Keyboard.antt =====
-- src/ps2/kbd/keyboard.cpp: scan codes to characters, and the ring buffer between the interrupt handler
-- and `read`.
-- `echoed` is the sequence of the calls of `klib::putchar`. The waiting loop of `read` sees the
-- interrupts that arrive before each of its checks, one list of scan codes for each check; `none` is a
-- read that still waits at the end of the schedule.
mod Window
pub mod Queue
pub mod Read
mod Tests
use fish_os.Base.{
  ℕ, zero, suc, ◌+◌, ◌-◌, ◌*◌, ◌/◌, ◌%◌, Bool, true, false, not, ◌&&◌, ◌||◌, List, [], ◌∷◌, ◌++◌,
  Option, none, some, ◌==◌, leb, ltb, if◌then◌else◌, get_or, set, replicate,
}

-- the characters of the scan codes, 0 for a key without one
unfoldable pub map : List ℕ
map =
    0 ∷ 27 ∷ 49 ∷ 50 ∷ 51 ∷ 52 ∷ 53 ∷ 54 ∷ 55 ∷ 56 ∷ 57 ∷ 48 ∷ 45 ∷ 61 ∷ 8 ∷ 9 ∷ 113 ∷ 119 ∷ 101
    ∷ 114 ∷ 116 ∷ 121 ∷ 117 ∷ 105 ∷ 111 ∷ 112 ∷ 91 ∷ 93 ∷ 10 ∷ 0 ∷ 97 ∷ 115 ∷ 100 ∷ 102 ∷ 103 ∷ 104
    ∷ 106 ∷ 107 ∷ 108 ∷ 59 ∷ 39 ∷ 96 ∷ 0 ∷ 92 ∷ 122 ∷ 120 ∷ 99 ∷ 118 ∷ 98 ∷ 110 ∷ 109 ∷ 44 ∷ 46 ∷ 47
    ∷ 0 ∷ 42 ∷ 0 ∷ 32 ∷ 0 ∷ 0 ∷ 0 ∷ 0 ∷ 0 ∷ 0 ∷ 0 ∷ 0 ∷ 0 ∷ 0 ∷ 0 ∷ 0 ∷ 0 ∷ 0 ∷ 0 ∷ 0 ∷ 45 ∷ 0 ∷ 0
    ∷ 0 ∷ 43 ∷ 0 ∷ 0 ∷ 0 ∷ 0 ∷ 0 ∷ 0 ∷ 0 ∷ 0 ∷ 0 ∷ 0 ∷ 0 ∷ 0 ∷ 0 ∷ 0 ∷ 0 ∷ 0 ∷ 0 ∷ 0 ∷ 0 ∷ 0 ∷ 0 ∷ 0
    ∷ 0 ∷ 0 ∷ 0 ∷ 0 ∷ 0 ∷ 0 ∷ 0 ∷ 0 ∷ 0 ∷ 0 ∷ 0 ∷ 0 ∷ 0 ∷ 0 ∷ 0 ∷ 0 ∷ 0 ∷ 0 ∷ 0 ∷ 0 ∷ 0 ∷ 0 ∷ 0 ∷ 0
    ∷ 0 ∷ 0 ∷ 0 ∷ []

abbrev pub buffer_size : ℕ
buffer_size = 256

pub record Keyboard : Type 0 where
  pub buffer : List ℕ
  pub buffer_write_index : ℕ
  pub buffer_read_index : ℕ
  pub left_shift : Bool
  pub right_shift : Bool
  pub caps_lock : Bool
  pub echoed : List ℕ

unfoldable pub init : Keyboard
init = record {
  buffer = replicate 256 0;
  buffer_write_index = 0;
  buffer_read_index = 0;
  left_shift = false;
  right_shift = false;
  caps_lock = false;
  echoed = [];
}

-- `caps_lock ^ (left_shift || right_shift)`
unfoldable pub is_caps : Keyboard → Bool
is_caps k = let shift = k.left_shift || k.right_shift in if k.caps_lock then not shift else shift

-- `scancode & 127` of a scan code with the bit 128 set
unfoldable pub release : ℕ → Keyboard → Keyboard
release code k =
    if code == 42
    then record k { left_shift = false }
    else if code == 54
    then record k { right_shift = false }
    else if code == 58
    then record k { caps_lock = not k.caps_lock }
    else k

-- the character in the case that the shift keys ask for
unfoldable pub cased : ℕ → Keyboard → ℕ
cased c k = if is_caps k && (leb 97 c && leb c 122) then c - 97 + 65 else c

-- a full buffer, which keeps one slot free, drops the character
unfoldable pub push : ℕ → Keyboard → Keyboard
push c k =
    let next = (k.buffer_write_index + 1) % buffer_size in
    if next == k.buffer_read_index then k else record k {
      buffer = set k.buffer k.buffer_write_index c;
      buffer_write_index = next;
      echoed = k.echoed ++ (c ∷ []);
    }

unfoldable pub press : ℕ → Keyboard → Keyboard
press code k =
    if code == 42
    then record k { left_shift = true }
    else if code == 54
    then record k { right_shift = true }
    else let c = get_or map code 0 in if c == 0 then k else push (cased c k) k

-- a scan code is a byte, so bit 128 is set from 128 on
unfoldable pub irq : ℕ → Keyboard → Keyboard
irq scancode k = if leb 128 scancode then release (scancode % 128) k else press scancode k

unfoldable pub irqs : List ℕ → Keyboard → Keyboard
irqs [] k = k
irqs (scancode ∷ later) k = irqs later (irq scancode k)

-- the loop on `pause`: the state at the check that finds a character, and the rest of the schedule
unfoldable pub wait : List (List ℕ) → Keyboard → Option (Keyboard × List (List ℕ))
wait [] k = none
wait (arrived ∷ schedule) k =
    let now = irqs arrived k in
    let later = wait schedule now in
    if now.buffer_read_index == now.buffer_write_index then later else some (now, schedule)

-- the bytes put into `buf`, the state and the rest of the schedule
unfoldable pub read : ℕ → List (List ℕ) → Keyboard → Option (List ℕ × Keyboard × List (List ℕ))
read zero schedule k = some ([], k, schedule)
read (suc count) schedule k = elim (wait schedule k) [
  | none ↦ none
  | some (now, later) ↦
      let c = get_or now.buffer now.buffer_read_index 0 in
      let after = record now { buffer_read_index = (now.buffer_read_index + 1) % buffer_size } in
      let rest = read count later after in
      if c == 10
      then some (c ∷ [], after, later)
      else elim rest [ none ↦ none | some (bytes, k', schedule') ↦ some (c ∷ bytes, k', schedule') ]
]
