-- ===== src/Mem/Pmm/Free.antt =====
-- src/mem/pmm.cpp, `free_pages`: which pages its loop clears.
use fish_os.Base.{
  ℕ, zero, suc, ◌+◌, ◌/◌, ◌%◌, ◌^◌, ◌≤◌, ◌<◌, ◌≡◌, Bool, false, ◌&&◌, arith, ltb, leb,
  if◌then◌else◌, Bool-cases, length, inl, inr,
}
use fish_os.Klib.Bitmap.{Bitmap, get, set_bit}
use fish_os.Klib.Bitmap.Bits.{IsBytes, set_bit-IsBytes_any, get_in-set_bit, length-set_bit}
use fish_os.Mem.Pmm.{Pmm, page_size, free_loop, free_pages}

-- `j` stands between `i` and the page at which `n + i` wraps
abbrev pub swept : ℕ → ℕ → ℕ → Bool
swept n i j = leb i j && ltb (n + j) (2 ^ 64)

free_loop-bits :
    (fuel n i j : ℕ) (b : Bitmap)
    → 0 < n
    → n + i ≤ 2 ^ 64
    → 2 ^ 64 ≤ fuel + n + i
    → IsBytes b.buffer
    → j / 8 < length b.buffer
    → get (free_loop fuel n i b) j ≡ (if swept n i j then false else get b j)
unfolding free_loop
free_loop-bits zero n i j b pos le enough h lt = ground arith
free_loop-bits (suc fuel) n i j b pos le enough h lt =
    elim (Bool-cases (ltb i ((n + i) % 2 ^ 64))) [
      | inl more ↦
          rw (more, free_loop)
            (ground (
              arith,
              free_loop-bits fuel n ((i + 1) % 2 ^ 64) j (set_bit b i false) pos (ground arith)
                  (ground arith) (set_bit-IsBytes_any b i false h) (rw length-set_bit lt),
              get_in-set_bit b i j false h lt,
            ))
      | inr done ↦ rw (done, free_loop) (ground arith)
    ]

-- `free_pages` of at least one page clears every page of the bitmap from the first page on for as
-- long as adding the page count does not wrap at 2 ^ 64, not only the pages it was asked to free, and
-- leaves the pages before the first as they were.
pub get-free_pages :
    (phy n j : ℕ) (s : Pmm)
    → 0 < n
    → n + phy / page_size ≤ 2 ^ 64
    → IsBytes s.page_bitmap.buffer
    → j / 8 < length s.page_bitmap.buffer
    → get (free_pages phy n s).page_bitmap j
      ≡ (if swept n (phy / page_size) j then false else get s.page_bitmap j)
unfolding free_pages
get-free_pages phy n j s pos le h lt =
    free_loop-bits (2 ^ 64) n (phy / page_size) j s.page_bitmap pos le (omega arith) h lt
