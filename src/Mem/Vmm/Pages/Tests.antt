-- ===== src/Mem/Vmm/Pages/Tests.antt =====
-- src/mem/vmm.cpp: the page tables of an empty pagemap whose root is page 1, with six free pages.
use Prim.Native.Nat.{bit_and}
use fish_os.Base.{◌≡◌, refl, Bool, [], ◌∷◌, ok}
use fish_os.Mem.Vmm.{MappedRange, anonymous, addr_to_range}
use fish_os.Mem.Vmm.Pages.{
  Paging, address_mask, is_absent, put_entry, map_page, physical_addr, handle_page_fault,
  copy_entries, map_kernel,
}
use fish_os.Mem.Vmm.Pages.Enough.{Enough, AreFree}
use fish_os.Mem.Vmm.Pages.Tree.{Levels, IsTree}
use fish_os.Mem.Vmm.Pages.Sample.{
  pmm, paging, level, paging-IsTree, free_pages-Enough, flags, heap, in_heap,
}
use fish_os.Mem.Vmm.Pages.Mapped.{map_page-physical_addr}
use fish_os.Mem.Vmm.Pages.Fault.{Handled, handle_page_fault-Handled}

three-Enough : Enough 3 pmm
three-Enough = fish_os.Mem.Vmm.Pages.Enough.Enough-less 3 pmm free_pages-Enough

map_page-physical_addr_example :
    (replaced : Bool) × (s' : Paging) × (level' : Levels) × (map_page 0x7123 0x40201000 flags 0x1000
        paging
      ≡ ok (replaced, s'))
    × (IsTree level' s'
        × ((level' 0x1000 ≡ 4)
            × (physical_addr 0x40201000 0x1000 s' ≡ ok (bit_and 0x7123 address_mask, s'))))
map_page-physical_addr_example =
    map_page-physical_addr level 0x7123 0x40201000 flags 0x1000 paging paging-IsTree refl
      three-Enough refl

handle_page_fault-Handled_example :
    (handled : Bool) × (s' : Paging) × (level' : Levels) × (handle_page_fault 0 0x40201008
        (heap ∷ [])
        0x1000
        paging
      ≡ ok (handled, s'))
    × Handled level' 0 0x40201008 (heap ∷ []) 0x1000 handled s'
handle_page_fault-Handled_example =
    handle_page_fault-Handled level 0 0x40201008 (heap ∷ []) 0x1000 heap paging paging-IsTree refl
      free_pages-Enough in_heap refl (refl, refl)
