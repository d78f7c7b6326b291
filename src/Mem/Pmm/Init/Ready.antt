-- ===== src/Mem/Pmm/Init/Ready.antt =====
-- src/mem/pmm.cpp, `init`: the allocator after the set-up.
use fish_os.Base.{
  ℕ, ◌+◌, ◌-◌, ◌*◌, ◌/◌, ◌%◌, ◌^◌, ◌≤◌, ◌<◌, ◌≡◌, ◌⊎◌, inl, inr, refl, ap, ◌∙◌, true, false,
  Bool-cases, List, [], ◌∷◌, some, ◌==◌, if◌then◌else◌, length, arith,
}
use fish_os.Klib.Bitmap.{Bitmap, get, fill}
use fish_os.Klib.Bitmap.Bits.{IsBytes}
use fish_os.Klib.Bitmap.Fill.{Shape, fill-Shape, get-fill}
use fish_os.Mem.Pmm.{Pmm, set_range}
use fish_os.Mem.Vmm.{align_up}
use fish_os.Mem.Pmm.Range.{in_range}
use fish_os.Mem.Pmm.Alloc.{IsValid}
use fish_os.Mem.Pmm.Init.{
  MemmapEntry, PmmState, last_usable, bitmap_base, page_start, page_end, free_usable, own_pages,
  init,
}
use fish_os.Mem.Pmm.Init.Bits.{
  set_range-Shape, get_in-set_range, frees, freed, free_usable-Shape, get-free_usable,
  last_usable-lt,
}

-- the usable regions lie above page 0 and below the end of the addresses
unfoldable pub AreUsable : List MemmapEntry → Type 0
AreUsable [] = Unit {0}
AreUsable (e ∷ es) = (e.type ≡ 0 → (0x1000 ≤ e.base) × (e.base + e.length < 2 ^ 64)) × AreUsable es

-- page `j` lies in a usable region as a whole
unfoldable pub IsInside : ℕ → List MemmapEntry → Type 0
IsInside j [] = ⊥
IsInside j (e ∷ es) =
    ((e.type ≡ 0) × (e.base ≤ j * 0x1000) × ((j + 1) * 0x1000 ≤ e.base + e.length)) ⊎ IsInside j es

-- page `j` lies in a usable region that begins and ends at a page
unfoldable pub IsWhole : ℕ → List MemmapEntry → Type 0
IsWhole j [] = ⊥
IsWhole j (e ∷ es) =
    ((e.type ≡ 0)
      × (e.base % 0x1000 ≡ 0)
      × (e.length % 0x1000 ≡ 0)
      × (e.base ≤ j * 0x1000)
      × (j * 0x1000 < e.base + e.length))
    ⊎ IsWhole j es

whole-frees :
    (j : ℕ) (e : MemmapEntry)
    → e.base + e.length < 2 ^ 64
    → e.base % 0x1000 ≡ 0
    → e.length % 0x1000 ≡ 0
    → e.base ≤ j * 0x1000
    → j * 0x1000 < e.base + e.length
    → in_range (page_start e) (page_end e - page_start e) j ≡ true
unfolding page_start page_end
whole-frees j e high begins ends from to = ground arith

IsWhole-freed : (j : ℕ) (es : List MemmapEntry) → AreUsable es → IsWhole j es → freed j es ≡ true
unfolding AreUsable IsWhole freed
IsWhole-freed j [] usable whole = absurd whole
IsWhole-freed j (e ∷ es) (here, usable) (inl (type, begins, ends, from, to)) =
    let (_, high) = here type in
    let one = whole-frees j e high begins ends from to in
    elim (Bool-cases (freed j es)) [
      | inl later ↦ ground (arith, later)
      | inr not_later ↦ ground (arith, not_later, one, type)
    ]
IsWhole-freed j (e ∷ es) (here, usable) (inr whole) =
    let later = IsWhole-freed j es usable whole in ground (arith, later)

frees-inside :
    (j : ℕ) (e : MemmapEntry)
    → 0x1000 ≤ e.base
    → e.base + e.length < 2 ^ 64
    → in_range (page_start e) (page_end e - page_start e) j ≡ true
    → (e.base ≤ j * 0x1000) × ((j + 1) * 0x1000 ≤ e.base + e.length) × (0 < j)
unfolding page_start page_end
frees-inside j e low high h = elim (Bool-cases (e.base % 0x1000 == 0)) [
  | inl aligned ↦ elim (Bool-cases (e.length % 0x1000 == 0)) [
    | inl whole ↦ ground arith
    | inr part ↦ ground arith
  ]
  | inr unaligned ↦ elim (Bool-cases (e.length % 0x1000 == 0)) [
    | inl whole ↦ ground arith
    | inr part ↦ ground arith
  ]
]

freed-IsInside :
    (j : ℕ) (es : List MemmapEntry) → AreUsable es → freed j es ≡ true → IsInside j es × (0 < j)
unfolding AreUsable IsInside freed
freed-IsInside j [] usable h = cc
freed-IsInside j (e ∷ es) (here, usable) h = elim (Bool-cases (freed j es)) [
  | inl later ↦ let (inside, above) = freed-IsInside j es usable later in (inr inside, above)
  | inr not_later ↦
      let one : frees j e ≡ true = ground (arith, not_later) in
      let type : e.type ≡ 0 = ground (arith, one) in
      let (low, high) = here type in
      let (from, to, above) = frees-inside j e low high (ground (arith, one)) in
      (inl (type, from, to), above)
]

-- the allocator's invariant holds; a page that is free, of those whose bits lie in the whole bytes of the
-- bitmap, is usable memory, and each page with one of the first `size / 8` bytes from the page of `base` on
-- is in use; any other page of a usable region that begins and ends at a page is free
pub record Ready (memmap : List MemmapEntry) (size base room : ℕ) (s : Pmm) : Type 0 where
  pub valid : IsValid s
  pub same_size : s.page_bitmap.size ≡ size
  pub usable : (j : ℕ) → j < 8 * (size / 8) → get s.page_bitmap j ≡ false → IsInside j memmap
  pub free :
      (j : ℕ)
      → j < 8 * (size / 8)
      → IsWhole j memmap
      → (j < base / 0x1000) ⊎ (base / 0x1000 * 0x1000 + size / 8 ≤ j * 0x1000)
      → get s.page_bitmap j ≡ false
  pub own :
      (j : ℕ)
      → j / 8 < room
      → base / 0x1000 ≤ j
      → j * 0x1000 < base / 0x1000 * 0x1000 + size / 8
      → get s.page_bitmap j ≡ true

-- a page that begins below the end of the whole bytes is one of the bitmap's own
own_pages-end :
    (size first j : ℕ)
    → size < 2 ^ 64
    → j * 0x1000 < first * 0x1000 + size / 8
    → j < first + own_pages size
unfolding own_pages align_up
own_pages-end size first j small h = elim (Bool-cases (size / 8 % 0x1000 == 0)) [
  | inl whole ↦ ground (arith, whole)
  | inr part ↦ ground (arith, part)
]

own_pages-apart :
    (size first j : ℕ)
    → size < 2 ^ 64
    → (j < first) ⊎ (first * 0x1000 + size / 8 ≤ j * 0x1000)
    → in_range first (own_pages size) j ≡ false
unfolding own_pages align_up
own_pages-apart size first j small (inl below) = ground arith
own_pages-apart size first j small (inr behind) = elim (Bool-cases (size / 8 % 0x1000 == 0)) [
  | inl whole ↦ ground (arith, whole)
  | inr part ↦ ground (arith, part)
]

module _ (memmap : List MemmapEntry) (memory : ℕ → List ℕ) (base : ℕ) (regions : AreUsable memmap)
    (bytes : (a : ℕ) → IsBytes (memory a))
    (found : bitmap_base (last_usable memmap 0 / 0x1000) memmap ≡ some base)
    (enough : 8 ≤ last_usable memmap 0 / 0x1000)
    (room : last_usable memmap 0 / 0x1000 ≤ 8 * length (memory base)) where
  abbrev pages : ℕ
  pages = last_usable memmap 0 / 0x1000

  pages_lt : pages < 2 ^ 64
  pages_lt = omega (arith, last_usable-lt memmap 0 (omega arith))

  abbrev raw : Bitmap
  raw = record { buffer = memory base; size = pages }

  abbrev free_bits : Bitmap
  free_bits = free_usable memmap (fill raw true)

  abbrev ready : Pmm
  ready = record {
    page_bitmap = set_range (own_pages pages) (base / 0x1000) true free_bits;
    page_bitmap_index = 0;
    total_allocated = 0;
  }

  raw-Shape : Shape raw (fill raw true)
  raw-Shape = fill-Shape raw true (bytes base)

  free_bits-Shape : Shape (fill raw true) free_bits
  free_bits-Shape = free_usable-Shape memmap (fill raw true) raw-Shape.bytes

  ready-Shape : Shape free_bits ready.page_bitmap
  ready-Shape =
      set_range-Shape (own_pages pages) (base / 0x1000) true free_bits free_bits-Shape.bytes

  free_room : length free_bits.buffer ≡ length (memory base)
  free_room = free_bits-Shape.room ∙ raw-Shape.room

  ready_bit :
      (j : ℕ)
      → j / 8 < length (memory base)
      → get ready.page_bitmap j
        ≡ (if in_range (base / 0x1000) (own_pages pages) j then true else get free_bits j)
  ready_bit j lt =
      get_in-set_range (own_pages pages) (base / 0x1000) j true free_bits free_bits-Shape.bytes
        (omega (arith, free_room))

  free_bit :
      (j : ℕ) → j < 8 * (pages / 8) → get free_bits j ≡ (if freed j memmap then false else true)
  free_bit j lt =
      let set : get (fill raw true) j ≡ true =
        get-fill raw true j (bytes base) (omega (arith, room)) ∙ ground arith in
      get-free_usable memmap j (fill raw true) raw-Shape.bytes (omega (arith, raw-Shape.room, room))
      ∙ ap (λ v. if freed j memmap then false else v) set

  page_zero : get ready.page_bitmap 0 ≡ true
  page_zero = elim (Bool-cases (freed 0 memmap)) [
    | inl gone ↦
        absurd (let (_, above) = freed-IsInside 0 memmap regions gone in omega (arith, above))
    | inr stays ↦
        let old : get free_bits 0 ≡ true =
          free_bit 0 (omega (arith, enough)) ∙ ap (λ v. if v then false else true) stays in
        ready_bit 0 (omega (arith, enough, room)) ∙ ground (arith, old)
  ]

  -- With usable regions above page 0 that end below 2 ^ 64, a region that has room for the bitmap, as
  -- many bytes of memory there as its bits take, and at least 8 pages, `init` returns: the allocator's
  -- invariant holds, and each free page of those in the whole bytes of the bitmap lies in a usable region
  -- as a whole. Each page that has one of as many bytes as the bitmap has whole bytes, from the beginning
  -- of the page of its buffer on, is in use if its bit lies in the buffer. Every other page of a usable
  -- region that begins and ends at a page is free, if its bit lies in the whole bytes of the bitmap.
  pub init-Ready :
      (m : PmmState) × (init memmap memory ≡ some m)
      × Ready memmap pages base (length (memory base)) m.pmm
  unfolding init
  init-Ready = (
    record {
      pmm = ready;
      last_usable_mem = last_usable memmap 0;
      total_usable_size =
          (fish_os.Mem.Pmm.Init.usable_size memmap 0 + 2 ^ 64 - own_pages pages * 0x1000) % 2 ^ 64;
    },
    rw (init, found) refl,
    record {
      valid = record {
        bitmap = record {
          bytes = ready-Shape.bytes;
          room = omega (
            arith, ready-Shape.size, ready-Shape.room, free_bits-Shape.size, raw-Shape.size,
            free_room, room,
          );
        };
        small = omega (
          arith,
          ready-Shape.size,
          free_bits-Shape.size,
          raw-Shape.size,
          last_usable-lt memmap 0 (omega arith),
        );
        index = omega arith;
        page_zero = page_zero;
      };
      same_size = ready-Shape.size ∙ free_bits-Shape.size ∙ raw-Shape.size;
      usable = λ j lt free.
          let bit = ready_bit j (omega (arith, room, lt)) in
          let old = free_bit j lt in
          elim (Bool-cases (freed j memmap)) [
            | inl gone ↦ let (inside, _) = freed-IsInside j memmap regions gone in inside
            | inr stays ↦ absurd (ground (arith, bit, old, stays, free))
          ];
      free = λ j lt whole apart.
          let bit = ready_bit j (omega (arith, room, lt)) in
          let old : get free_bits j ≡ false =
            free_bit j lt
            ∙ ap (λ v. if v then false else true) (IsWhole-freed j memmap regions whole) in
          let out = own_pages-apart pages (base / 0x1000) j pages_lt apart in
          bit ∙ ap (λ v. if v then true else get free_bits j) out ∙ old;
      own = λ j lt from to.
          let behind = own_pages-end pages (base / 0x1000) j pages_lt to in
          ready_bit j lt ∙ ground (arith, from, behind);
    },
  )
