-- ===== src/Mem/Vmm/Pages.antt =====
-- src/mem/vmm.cpp: the page tables of a pagemap.
-- The kernel reaches physical memory through the direct map at `hhdm`; here a pointer into it is the
-- physical address, so `+ hhdm` is left out. A table is the 512 entries of a page, and the memory that
-- the operations see is that of the pages. Locking and `invlpg` are left out; `map_page` returns
-- whether it would be called. `panic` is that of `alloc_pages`.
pub mod Enough
pub mod Tree
pub mod Step
pub mod Walk
pub mod Mapped
pub mod Fault
pub mod Sample
mod Tests
use Prim.Native.Nat.{bit_and, bit_or}
use fish_os.Base.{
  ℕ, zero, suc, ◌+◌, ◌*◌, ◌/◌, ◌%◌, ◌^◌, ◌-◌, Bool, true, false, not, ◌&&◌, List, Option, none,
  some, ok, panic, Result, ◌==◌, if◌then◌else◌,
}
use fish_os.Mem.Pmm.{Pmm, alloc_pages}
use fish_os.Mem.Vmm.{MappedRange, direct, anonymous, addr_to_range, align_up}

-- the entries of the table in the page at an address, and the allocator
pub record Paging : Type 0 where
  pub tables : ℕ → ℕ → ℕ
  pub pmm : Pmm

-- bits 12 to 51, the address in an entry
abbrev pub address_mask : ℕ
address_mask = 0x000ffffffffff000

-- `PAGE_PRESENT | PAGE_WRITABLE | PAGE_USER`
abbrev pub table_flags : ℕ
table_flags = 7

-- `!(entry & PAGE_PRESENT)`
unfoldable pub is_absent : ℕ → Bool
is_absent entry = bit_and entry 1 == 0

unfoldable pub put_entry : ℕ → ℕ → ℕ → (ℕ → ℕ → ℕ) → ℕ → ℕ → ℕ
put_entry table index entry tables t i = if (t == table) && (i == index) then entry else tables t i

-- `memset` of a page to 0
unfoldable pub clear : ℕ → (ℕ → ℕ → ℕ) → ℕ → ℕ → ℕ
clear page tables t i = if t == page then 0 else tables t i

unfoldable pub page_table_next_level : ℕ → ℕ → Paging → Result (ℕ × Paging)
page_table_next_level current_table index s =
    let current_entry = s.tables current_table index in
    if is_absent current_entry
    then elim (alloc_pages 1 s.pmm) [
      | panic ↦ panic
      | ok (pmm, new_page) ↦ ok (
        new_page,
        record {
          tables =
              put_entry current_table index (bit_or new_page table_flags) (clear new_page s.tables);
          pmm = pmm;
        },
      )
    ]
    else ok (bit_and current_entry address_mask, s)

-- `(virt >> shift) & 0x1FF`
abbrev pub index_at : ℕ → ℕ → ℕ
index_at virt shift = virt / 2 ^ shift % 512

-- the three calls of `page_table_next_level` from the `pml4` on
unfoldable pub page_table : ℕ → ℕ → Paging → Result (ℕ × Paging)
page_table virt pml4 s = elim (page_table_next_level pml4 (index_at virt 39) s) [
  | panic ↦ panic
  | ok (t3, s3) ↦ elim (page_table_next_level t3 (index_at virt 30) s3) [
    | panic ↦ panic
    | ok (t2, s2) ↦ page_table_next_level t2 (index_at virt 21) s2
  ]
]

-- whether the entry was replaced, and the new state
unfoldable pub map_page : ℕ → ℕ → ℕ → ℕ → Paging → Result (Bool × Paging)
map_page phy virt flags pml4 s = elim (page_table virt pml4 s) [
  | panic ↦ panic
  | ok (table, s') ↦
      let index = index_at virt 12 in
      ok (
        not (s'.tables table index == 0),
        record s' {
          tables = put_entry table index (bit_or (bit_and phy address_mask) flags) s'.tables;
        },
      )
]

-- the loop of `map_pages`, with the rounds that are left
unfoldable pub map_pages_from : ℕ → ℕ → ℕ → ℕ → ℕ → ℕ → Paging → Result Paging
map_pages_from zero i phy virt flags pml4 s = ok s
map_pages_from (suc rounds) i phy virt flags pml4 s =
    let rest = map_pages_from rounds (i + 1) phy virt flags pml4 in
    elim (map_page ((phy + i * 0x1000) % 2 ^ 64) ((virt + i * 0x1000) % 2 ^ 64) flags pml4 s) [
      | panic ↦ panic
      | ok (replaced, s') ↦ rest s'
    ]

pub map_pages : ℕ → ℕ → ℕ → ℕ → ℕ → Paging → Result Paging
map_pages phy virt size flags pml4 s =
    map_pages_from (align_up size / 0x1000) 0 phy virt flags pml4 s

-- the entries from `i` on, as many as there are rounds, copied one after another
unfoldable pub copy_entries : ℕ → ℕ → ℕ → ℕ → (ℕ → ℕ → ℕ) → ℕ → ℕ → ℕ
copy_entries zero i pml4 kernel tables = tables
copy_entries (suc rounds) i pml4 kernel tables =
    copy_entries rounds (i + 1) pml4 kernel (put_entry pml4 i (tables kernel i) tables)

unfoldable pub map_kernel : ℕ → ℕ → Paging → Paging
map_kernel pml4 kernel s = record s { tables = copy_entries 256 256 pml4 kernel s.tables }

unfoldable pub physical_addr : ℕ → ℕ → Paging → Result (ℕ × Paging)
physical_addr virt pml4 s = elim (page_table virt pml4 s) [
  | panic ↦ panic
  | ok (table, s') ↦ ok (bit_and (s'.tables table (index_at virt 12)) address_mask, s')
]

-- the entry of a page that is not present, filled for the range of its address
unfoldable pub fill_entry : ℕ → ℕ → ℕ → ℕ → MappedRange → Paging → Result (Bool × Paging)
fill_entry hhdm virt table index range s = elim range.type [
  | anonymous ↦ elim (alloc_pages 1 s.pmm) [
    | panic ↦ panic
    | ok (pmm, new_page) ↦ ok (
      false,
      record {
        tables = put_entry table index (bit_or new_page range.page_flags) (clear new_page s.tables);
        pmm = pmm;
      },
    )
  ]
  | direct ↦ ok (
    false,
    record s {
      tables =
          put_entry table index
            (bit_or (bit_and ((virt + 2 ^ 64 - hhdm) % 2 ^ 64) address_mask) range.page_flags)
            s.tables;
    },
  )
]

-- true if the page fault could not be handled
unfoldable pub handle_page_fault : ℕ → ℕ → List MappedRange → ℕ → Paging → Result (Bool × Paging)
handle_page_fault hhdm virt ranges pml4 s = elim (page_table virt pml4 s) [
  | panic ↦ panic
  | ok (table, s') ↦
      let index = index_at virt 12 in
      if is_absent (s'.tables table index)
      then elim (addr_to_range virt ranges) [
        | none ↦ ok (true, s')
        | some range ↦ fill_entry hhdm virt table index range s'
      ]
      else ok (true, s')
]
