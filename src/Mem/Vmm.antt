-- ===== src/Mem/Vmm.antt =====
-- src/mem/vmm.cpp: the mapped ranges of a user pagemap, `addr_to_range` and `syscall_mmap`.
-- The circular list behind `range_list_head` is the list of its ranges in the order of `next`; `add` on
-- the head puts a range in front. `prot` and `flags` are the bits of the `int`s. The allocation of the
-- range is taken to succeed.
pub mod Pages
pub mod Ranges
mod Tests
use Prim.Native.Nat.{bit_and, bit_or}
use fish_os.Base.{
  ℕ, ◌+◌, ◌-◌, ◌*◌, ◌/◌, ◌%◌, ◌^◌, Bool, true, false, not, ◌&&◌, ◌||◌, List, [], ◌∷◌, Option, none,
  some, ◌==◌, leb, if◌then◌else◌,
}
use fish_os.Base.Int.{ℤ, pos, negsuc}

pub data RangeType : Type 0 where
  direct : RangeType
  anonymous : RangeType

pub record MappedRange : Type 0 where
  pub base : ℕ
  pub length : ℕ
  pub page_flags : ℕ
  pub type : RangeType

-- the ranges of a task's pagemap and where its next mapping begins
pub record Space : Type 0 where
  pub ranges : List MappedRange
  pub mmap_anon_base : ℕ

unfoldable pub addr_to_range : ℕ → List MappedRange → Option MappedRange
addr_to_range virt [] = none
addr_to_range virt (range ∷ ranges) =
    let rest = addr_to_range virt ranges in
    if leb range.base virt && leb virt ((range.base + range.length) % 2 ^ 64)
    then some range
    else rest

-- `klib::align_up<usize, 0x1000>`
unfoldable pub align_up : ℕ → ℕ
align_up i = if i % 0x1000 == 0 then i else ((i / 0x1000 + 1) * 0x1000) % 2 ^ 64

-- only private anonymous mappings: `MAP_PRIVATE` is 1, `MAP_SHARED` 2 and `MAP_ANONYMOUS` 8
unfoldable pub is_supported : ℕ → Bool
is_supported flags =
    not (bit_and flags 1 == 0) && (bit_and flags 2 == 0) && not (bit_and flags 8 == 0)

-- present and for the user; writable for `PROT_WRITE`, not executable without `PROT_EXEC`
unfoldable pub mmap_flags : ℕ → ℕ
mmap_flags prot =
    let writable = if bit_and prot 2 == 0 then 5 else bit_or 5 2 in
    if bit_and prot 4 == 0 then bit_or writable (2 ^ 63) else writable

unfoldable pub mapped : ℕ → ℕ → Space → MappedRange
mapped length prot s = record {
  base = s.mmap_anon_base;
  length = align_up length;
  page_flags = mmap_flags prot;
  type = anonymous;
}

-- the address, as an unsigned number, or `-ENOSYS`
unfoldable pub syscall_mmap : ℕ → ℕ → ℕ → Space → ℤ × Space
syscall_mmap length prot flags s =
    if is_supported flags
    then (
      pos s.mmap_anon_base,
      record {
        ranges = mapped length prot s ∷ s.ranges;
        mmap_anon_base = (s.mmap_anon_base + align_up length) % 2 ^ 64;
      },
    )
    else (negsuc 1050, s)
