-- ===== src/Mem/Allocator.antt =====
-- src/mem/allocator.cpp and src/mem/allocator.hpp: the kernel's heap, a buddy allocator.
-- `blocks` is the memory of the block headers, at their addresses; 0 is the null pointer. The data of
-- the blocks is left out, so `realloc` says how many bytes it copies from where to where. Locking is
-- left out, and the heap lies above the first 16 addresses. `size_required` is for sizes up to 2 ^ 63: for a larger one the loop of the source does not
-- end, and the model stops with 0.
pub mod Search
pub mod Coalesce
pub mod Malloc
pub mod Sizes
pub mod Split
pub mod First
mod Tests
use fish_os.Base.{
  ℕ, zero, suc, ◌+◌, ◌-◌, ◌*◌, ◌/◌, ◌%◌, ◌^◌, Bool, true, false, not, ◌&&◌, ◌||◌, Option, none,
  some, ◌==◌, ltb, leb, if◌then◌else◌,
}

abbrev pub alignment : ℕ
alignment = 16

unfoldable pub align : ℕ → ℕ
align i = if i % alignment == 0 then i else ((i / alignment + 1) * alignment) % 2 ^ 64

-- `while (size > actual_size) actual_size *= 2;`
unfoldable pub double_until : ℕ → ℕ → ℕ → ℕ
double_until zero size actual_size = actual_size
double_until (suc rounds) size actual_size =
    let rest = double_until rounds size (actual_size * 2 % 2 ^ 64) in
    if ltb actual_size size then rest else actual_size

unfoldable pub size_required : ℕ → ℕ
size_required size = double_until 60 (align size) alignment

pub record Block : Type 0 where
  pub size : ℕ
  pub is_free : Bool

abbrev pub Blocks : Type 0
Blocks = ℕ → Block

pub record BuddyAlloc : Type 0 where
  pub head : ℕ
  pub tail : ℕ
  pub blocks : Blocks

-- `sizeof(Block)`
abbrev pub header : ℕ
header = 16

unfoldable pub put_block : ℕ → Block → Blocks → Blocks
put_block p b h a = if a == p then b else h a

unfoldable pub put_size : ℕ → ℕ → Blocks → Blocks
put_size p size h = put_block p (record (h p) { size = size }) h

unfoldable pub next : ℕ → Blocks → ℕ
next p h = (p + size_required (h p).size) % 2 ^ 64

-- the loop of `split_until`: the block it ends at, its size, and the blocks
unfoldable pub split_loop : ℕ → ℕ → ℕ → ℕ → Blocks → ℕ × ℕ × Blocks
split_loop zero size block current h = (block, current, h)
split_loop (suc rounds) size block current h =
    let half = current / 2 in
    let h1 = put_size block half h in
    let block' = next block h1 in
    let h2 = put_block block' (record { size = half; is_free = true }) h1 in
    let rest = split_loop rounds size block' half h2 in
    if ltb size current then rest else (block, current, h)

-- the block, null where the size is 0 or there is no room, and the blocks
unfoldable pub split_until : ℕ → ℕ → Blocks → ℕ × Blocks
split_until size block h =
    let (found, current, h') = split_loop 64 size block (size_required (h block).size) h in
    if size == 0 then (0, h) else (if leb size current then (found, h') else (0, h'))

unfoldable pub init : ℕ → ℕ → BuddyAlloc → BuddyAlloc
init base size s =
    let h = put_block base (record { size = size; is_free = true }) s.blocks in
    record { head = base; tail = next base h; blocks = h }
