-- ===== src/Mem/Pmm/Tests.antt =====
-- The page allocator on a bitmap of 16 pages.
use fish_os.Base.{ℕ, zero, suc, ◌<◌, ◌≡◌, refl, false, [], ◌∷◌, arith, ok, panic, get_or}
use fish_os.Klib.Bitmap.{Bitmap, bit_of, put_bit, get, set_bit}
use fish_os.Mem.Pmm.{
  Pmm, set_range, advance, claim, search, inner_alloc, account, retry, alloc_pages, free_pages,
}
use fish_os.Mem.Pmm.Alloc.{IsValid, Outcome, alloc_pages-Allocated}
use fish_os.Mem.Pmm.Free.{get-free_pages}

-- pages 0, 3 and 8 to 15 are in use
abbrev bitmap : Bitmap
bitmap = record { buffer = 0x09 ∷ 0xff ∷ []; size = 16 }

abbrev state : Pmm
state = record { page_bitmap = bitmap; page_bitmap_index = 2; total_allocated = 0 }

bytes : (d : ℕ) → get_or bitmap.buffer d 0 < 256
bytes zero = omega arith
bytes (suc zero) = omega arith
bytes (suc (suc d)) = omega arith

state-IsValid : IsValid state
unfolding get bit_of
state-IsValid = record {
  bitmap = record { bytes = bytes; room = omega arith };
  small = omega arith;
  index = omega arith;
  page_zero = refl;
}

evaluate : Unit {0}
unfolding get set_bit bit_of put_bit set_range advance claim search inner_alloc account retry
    alloc_pages
evaluate = tt

-- the run from page 4 is found from index 2 on
alloc_three :
    alloc_pages 3 state
    ≡ ok (
      record {
        page_bitmap = record { buffer = 0x79 ∷ 0xff ∷ []; size = 16 };
        page_bitmap_index = 7;
        total_allocated = 0x3000;
      },
      0x4000,
    )
unfolding evaluate
alloc_three = refl

-- the two free pages 1 and 2 stand on either side of the index, and are not found together
alloc_across :
    alloc_pages 2 (record state { page_bitmap = record bitmap { buffer = 0xf9 ∷ 0xff ∷ [] } })
    ≡ panic
unfolding evaluate
alloc_across = refl

alloc_pages-Allocated_example : Outcome 3 state (alloc_pages 3 state)
alloc_pages-Allocated_example = alloc_pages-Allocated state-IsValid (omega arith)

get-free_pages_example : get (free_pages 0x4000 1 state).page_bitmap 9 ≡ false
get-free_pages_example =
    get-free_pages 0x4000 1 9 state (omega arith) (omega arith) bytes (omega arith)
