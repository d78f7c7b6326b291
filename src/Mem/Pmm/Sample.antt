-- ===== src/Mem/Pmm/Sample.antt =====
-- src/mem/pmm.cpp: an allocation of 16 pages, for the tests of the allocator's clients.
use fish_os.Base.{◌≡◌, refl, [], ◌∷◌, ok}
use fish_os.Klib.Bitmap.{bit_of, put_bit, get, set_bit}
use fish_os.Mem.Pmm.{Pmm, set_range, advance, claim, search, inner_alloc, account, alloc_pages}

-- 24 pages, of which page 0 is in use
abbrev pub before : Pmm
before = record {
  page_bitmap = record { buffer = 0x01 ∷ 0 ∷ 0 ∷ []; size = 24 };
  page_bitmap_index = 0;
  total_allocated = 0;
}

abbrev pub after : Pmm
after = record {
  page_bitmap = record { buffer = 0xff ∷ 0xff ∷ 0x01 ∷ []; size = 24 };
  page_bitmap_index = 17;
  total_allocated = 0x10000;
}

pub sixteen : alloc_pages 16 before ≡ ok (after, 0x1000)
unfolding get set_bit bit_of put_bit set_range advance claim search inner_alloc account alloc_pages
sixteen = refl
