-- ===== src/Mem/Vmm/Pages/Sample.antt =====
-- src/mem/vmm.cpp: the page tables of an empty pagemap whose root is page 1, with six free pages, for the
-- tests of the page tables and their clients.
use fish_os.Base.{
  ℕ, zero, suc, ◌<◌, ◌≡◌, refl, true, [], ◌∷◌, some, ◌==◌, if◌then◌else◌, get_or, arith,
}
use fish_os.Klib.Bitmap.{Bitmap, bit_of, get}
use fish_os.Klib.List.Ring.{Apart, Unique}
use fish_os.Mem.Pmm.{Pmm}
use fish_os.Mem.Pmm.Alloc.{IsValid}
use fish_os.Mem.Vmm.{MappedRange, anonymous, addr_to_range}
use fish_os.Mem.Vmm.Pages.{Paging, is_absent}
use fish_os.Mem.Vmm.Pages.Enough.{Enough, AreFree}
use fish_os.Mem.Vmm.Pages.Tree.{Levels, Linked, IsTree}

abbrev pub bitmap : Bitmap
bitmap = record { buffer = 0x03 ∷ []; size = 8 }

abbrev pub pmm : Pmm
pmm = record { page_bitmap = bitmap; page_bitmap_index = 0; total_allocated = 0 }

bytes : (d : ℕ) → get_or bitmap.buffer d 0 < 256
bytes zero = omega arith
bytes (suc d) = omega arith

pub pmm-IsValid : IsValid pmm
unfolding get bit_of
pmm-IsValid = record {
  bitmap = record { bytes = bytes; room = omega arith };
  small = omega arith;
  index = omega arith;
  page_zero = refl;
}

abbrev pub paging : Paging
paging = record { tables = λ t i. 0; pmm = pmm }

abbrev pub level : Levels
level t = if t == 0x1000 then 4 else 0

root_used : get bitmap 1 ≡ true
unfolding get bit_of
root_used = refl

no_link : (t i next : ℕ) → Linked paging t i next → ⊥
unfolding is_absent
no_link t i next l = ground (arith, l.present)

pub paging-IsTree : IsTree level paging
paging-IsTree = record {
  lower = λ t i n next lt l. absurd (no_link t i next l);
  fresh = λ p inside free. ground (arith, free, root_used);
  valid = pmm-IsValid;
  small = omega arith;
}

pub free_pages-Enough : Enough 4 pmm
unfolding Unique Apart AreFree get bit_of
free_pages-Enough = record {
  pages = 2 ∷ 3 ∷ 4 ∷ 5 ∷ [];
  number = omega arith;
  unique = (
    (ground arith, (ground arith, (ground arith, tt))),
    ((ground arith, (ground arith, tt)), ((ground arith, tt), (tt, tt))),
  );
  free = (
    (omega arith, refl),
    ((omega arith, refl), ((omega arith, refl), ((omega arith, refl), tt))),
  );
}

-- present, writable and not executable
abbrev pub flags : ℕ
flags = 0x8000000000000003

abbrev pub heap : MappedRange
heap = record { base = 0x40200000; length = 0x2000; page_flags = flags; type = anonymous }

pub in_heap : addr_to_range 0x40201008 (heap ∷ []) ≡ some heap
unfolding addr_to_range
in_heap = refl
