-- ===== src/Mem/Pmm/Init.antt =====
-- src/mem/pmm.cpp, `init`: the bitmap of the pages from the memory map of the boot loader.
-- A page behind the buffer of the bitmap, which the source would set in the memory there, is dropped.
mod Bits
pub mod Ready
mod Tests
use fish_os.Base.{
  ℕ, ◌+◌, ◌-◌, ◌*◌, ◌/◌, ◌%◌, ◌^◌, Bool, true, false, ◌&&◌, List, [], ◌∷◌, Option, none, some, ◌==◌,
  ltb, leb, if◌then◌else◌,
}
use fish_os.Klib.Bitmap.{Bitmap, fill}
use fish_os.Mem.Pmm.{Pmm, set_range}
use fish_os.Mem.Vmm.{align_up}

-- what is read of an entry of the memory map; type 0 is usable memory
pub record MemmapEntry : Type 0 where
  pub base : ℕ
  pub length : ℕ
  pub type : ℕ

-- the first loop
unfoldable pub last_usable : List MemmapEntry → ℕ → ℕ
last_usable [] last_usable_mem = last_usable_mem
last_usable (entry ∷ entries) last_usable_mem =
    let top = (entry.base + entry.length) % 2 ^ 64 in
    last_usable entries
      (if ltb last_usable_mem top && (entry.type == 0) then top else last_usable_mem)

-- the second loop: the base of the first usable region with room for `size` bits
unfoldable pub bitmap_base : ℕ → List MemmapEntry → Option ℕ
bitmap_base size [] = none
bitmap_base size (entry ∷ entries) =
    let rest = bitmap_base size entries in
    if (entry.type == 0) && leb (size / 8) entry.length then some entry.base else rest

unfoldable pub page_start : MemmapEntry → ℕ
page_start entry = if entry.base % 0x1000 == 0 then entry.base / 0x1000 else entry.base / 0x1000 + 1

unfoldable pub page_end : MemmapEntry → ℕ
page_end entry =
    let p = (entry.base / 0x1000 + entry.length / 0x1000) % 2 ^ 64 in
    if entry.length % 0x1000 == 0 then p else (p + 2 ^ 64 - 1) % 2 ^ 64

-- the third loop, in which the pages of the usable regions become free
unfoldable pub free_usable : List MemmapEntry → Bitmap → Bitmap
free_usable [] b = b
free_usable (entry ∷ entries) b = free_usable entries (
    if entry.type == 0
    then set_range (page_end entry - page_start entry) (page_start entry) false b
    else b)

-- `total_usable_size` after the third loop
unfoldable pub usable_size : List MemmapEntry → ℕ → ℕ
usable_size [] total = total
usable_size (entry ∷ entries) total = usable_size entries (
    if entry.type == 0
    then (total + (page_end entry - page_start entry) * 0x1000) % 2 ^ 64
    else total)

-- the number of the pages of the bitmap itself
unfoldable pub own_pages : ℕ → ℕ
own_pages size = align_up (size / 8) / 0x1000

-- the static variables that `init` sets
pub record PmmState : Type 0 where
  pub pmm : Pmm
  pub last_usable_mem : ℕ
  pub total_usable_size : ℕ

-- `memory` gives what the bytes from an address on hold; `none` is a bitmap at a null pointer, where no
-- region has room
unfoldable pub init : List MemmapEntry → (ℕ → List ℕ) → Option PmmState
init memmap memory =
    let last = last_usable memmap 0 in
    let size = last / 0x1000 in
    elim (bitmap_base size memmap) [
      | none ↦ none
      | some base ↦
          let filled : Bitmap = fill (record { buffer = memory base; size = size }) true in
          let usable : Bitmap = free_usable memmap filled in
          some (record {
            pmm = record {
              page_bitmap = set_range (own_pages size) (base / 0x1000) true usable;
              page_bitmap_index = 0;
              total_allocated = 0;
            };
            last_usable_mem = last;
            total_usable_size = (usable_size memmap 0 + 2 ^ 64 - own_pages size * 0x1000) % 2 ^ 64;
          })
    ]
