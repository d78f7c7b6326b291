-- ===== src/Mem/Pmm.antt =====
-- src/mem/pmm.cpp: the physical page allocator over a bitmap, one bit to a page of 4 KiB.
-- Locking and printing are left out; `uptr` and `usize` are numbers below 2 ^ 64.
pub mod Range
pub mod Search
pub mod Alloc
pub mod Free
pub mod Sample
pub mod Init
mod Tests
use fish_os.Base.{
  ℕ, zero, suc, ◌+◌, ◌-◌, ◌*◌, ◌/◌, ◌%◌, ◌^◌, Bool, true, false, ok, panic, Result, ◌==◌, ltb,
  if◌then◌else◌,
}
use fish_os.Klib.Bitmap.{Bitmap, get, set_bit}

-- the static variables that the allocator works on
pub record Pmm : Type 0 where
  pub page_bitmap : Bitmap
  pub page_bitmap_index : ℕ
  pub total_allocated : ℕ

abbrev pub page_size : ℕ
page_size = 0x1000

-- `for (usize i = first; i < first + rounds; i++) page_bitmap->set(i, value);`
pub set_range : ℕ → ℕ → Bool → Bitmap → Bitmap
set_range zero first value b = b
set_range (suc rounds) first value b = set_range rounds (first + 1) value (set_bit b first value)

advance : Pmm → Pmm
advance s = record s { page_bitmap_index = s.page_bitmap_index + 1 }

-- the branch that has met the last page of a run: the run is marked and its address returned
claim : ℕ → Pmm → Pmm × ℕ
claim num_pages s =
    let beginning = s.page_bitmap_index - num_pages in
    (
      record s { page_bitmap = set_range num_pages beginning true s.page_bitmap },
      (beginning * page_size) % 2 ^ 64,
    )

-- the `while` loop, with the rounds that are left: the index moves on by one in each
search : ℕ → ℕ → ℕ → Pmm → Pmm × ℕ
search zero num_pages pages s = (s, 0)
search (suc rounds) num_pages pages s = elim (get s.page_bitmap s.page_bitmap_index) [
  | true ↦ search rounds num_pages 0 (advance s)
  | false ↦ elim (pages + 1 == num_pages) [
    | true ↦ claim num_pages (advance s)
    | false ↦ search rounds num_pages (pages + 1) (advance s)
  ]
]

-- returns 0 when no run was found
pub inner_alloc : ℕ → ℕ → Pmm → Pmm × ℕ
inner_alloc num_pages limit s = search (limit - s.page_bitmap_index) num_pages 0 s

account : ℕ → Pmm × ℕ → Pmm × ℕ
account num_pages (s, address) =
    (record s { total_allocated = (s.total_allocated + num_pages * page_size) % 2 ^ 64 }, address)

-- the second search, from page 0 up to the index at which the first one began
retry : ℕ → ℕ → Pmm → Result (Pmm × ℕ)
retry num_pages last s =
    let (s', result) = inner_alloc num_pages last (record s { page_bitmap_index = 0 }) in
    if result == 0 then panic else ok (account num_pages (s', result))

pub alloc_pages : ℕ → Pmm → Result (Pmm × ℕ)
alloc_pages num_pages s =
    let (s', result) = inner_alloc num_pages s.page_bitmap.size s in
    if result == 0
    then retry num_pages s.page_bitmap_index s'
    else ok (account num_pages (s', result))

-- `for (; i < num_pages + i; i++) page_bitmap->set(i, false);` with fuel for its rounds
free_loop : ℕ → ℕ → ℕ → Bitmap → Bitmap
free_loop zero num_pages i b = b
free_loop (suc fuel) num_pages i b = elim (ltb i ((num_pages + i) % 2 ^ 64)) [
  | true ↦ free_loop fuel num_pages ((i + 1) % 2 ^ 64) (set_bit b i false)
  | false ↦ b
]

pub free_pages : ℕ → ℕ → Pmm → Pmm
free_pages phy num_pages s =
    let i = phy / page_size in
    record {
      page_bitmap = free_loop (2 ^ 64) num_pages i s.page_bitmap;
      page_bitmap_index = if ltb i s.page_bitmap_index then i else s.page_bitmap_index;
      total_allocated = (s.total_allocated + 2 ^ 64 - (num_pages * page_size) % 2 ^ 64) % 2 ^ 64;
    }

pub get_total_allocated : Pmm → ℕ
get_total_allocated s = s.total_allocated
