-- ===== src/Mem/Pmm/Search.antt =====
-- src/mem/pmm.cpp, `inner_alloc`: the run that the loop finds, and what it means that none is found.
use fish_os.Base.{
  ℕ, zero, suc, ◌+◌, ◌-◌, ◌*◌, ◌^◌, ◌≤◌, ◌<◌, ◌≡◌, refl, true, false, arith, ◌⊎◌, inl, inr, ◌==◌,
  Bool-cases, ==_iff, ◌≢◌,
}
use native.Mathlib.Decide.{dec_lt, ℕ_discrete}
use fish_os.Klib.Bitmap.{Bitmap, get}
use fish_os.Mem.Pmm.{Pmm, page_size, advance, claim, search, inner_alloc}
use fish_os.Mem.Pmm.Range.{IsBitmap, Ranged, set_range-Ranged}

-- the pages from `b` on are free, `n` of them
abbrev pub IsFreeRun : Bitmap → ℕ → ℕ → Type 0
IsFreeRun m n b = (j : ℕ) → b ≤ j → j < b + n → get m j ≡ false

-- one of the `n` pages from `b` on is in use
abbrev pub HasUsed : Bitmap → ℕ → ℕ → Type 0
HasUsed m n b = (j : ℕ) × (b ≤ j) × (j < b + n) × (get m j ≡ true)

-- The run from `b` was free, and its pages alone have been marked.
pub record Found (n lo hi : ℕ) (s : Pmm) (r : Pmm × ℕ) : Type 0 where
  pub beginning : ℕ
  pub low : lo ≤ beginning
  pub high : beginning + n ≤ hi
  pub address : r.1 ≡ beginning * page_size
  pub free : IsFreeRun s.page_bitmap n beginning
  pub marked : Ranged n beginning true s.page_bitmap r.0.page_bitmap
  pub index : r.0.page_bitmap_index ≡ beginning + n
  pub total : r.0.total_allocated ≡ s.total_allocated

-- No run between `lo` and `hi` is free, and only the index has moved.
pub record Missed (n lo hi : ℕ) (s : Pmm) (r : Pmm × ℕ) : Type 0 where
  pub address : r.1 ≡ 0
  pub bitmap : r.0.page_bitmap ≡ s.page_bitmap
  pub index : r.0.page_bitmap_index ≡ hi
  pub total : r.0.total_allocated ≡ s.total_allocated
  pub used : (b : ℕ) → lo ≤ b → b + n ≤ hi → HasUsed s.page_bitmap n b

-- What a search over the pages from `lo` up to `hi` leaves.
abbrev pub Searched : ℕ → ℕ → ℕ → Pmm → Pmm × ℕ → Type 0
Searched n lo hi s r = Found n lo hi s r ⊎ Missed n lo hi s r

-- The loop that starts at page `index` is started in this state, with `pages` free pages behind it.
record Ready (n pages hi : ℕ) (s : Pmm) : Type 0 where
  bitmap : IsBitmap s.page_bitmap
  few : pages < n
  behind : pages ≤ s.page_bitmap_index
  fits : hi ≤ s.page_bitmap.size
  small : s.page_bitmap.size ≤ 2 ^ 52
  free : IsFreeRun s.page_bitmap pages (s.page_bitmap_index - pages)

module _ (rounds n pages : ℕ) (s : Pmm) where
  search-used :
      get s.page_bitmap s.page_bitmap_index ≡ true
      → search (suc rounds) n pages s ≡ search rounds n 0 (advance s)
  unfolding search
  search-used e = rw (e, search)

  search-last :
      get s.page_bitmap s.page_bitmap_index ≡ false
      → (pages + 1 == n) ≡ true
      → search (suc rounds) n pages s ≡ claim n (advance s)
  unfolding search
  search-last e f = rw (e, f, search)

  search-free :
      get s.page_bitmap s.page_bitmap_index ≡ false
      → (pages + 1 == n) ≡ false
      → search (suc rounds) n pages s ≡ search rounds n (pages + 1) (advance s)
  unfolding search
  search-free e f = rw (e, f, search)

-- A used page ends every run that it is in.
HasUsed-used :
    (n lo hi : ℕ) (s : Pmm)
    → s.page_bitmap_index < lo + n
    → get s.page_bitmap s.page_bitmap_index ≡ true
    → ((b : ℕ) → s.page_bitmap_index + 1 ≤ b → b + n ≤ hi → HasUsed s.page_bitmap n b)
    → (b : ℕ) → lo ≤ b
    → b + n ≤ hi
    → HasUsed s.page_bitmap n b
HasUsed-used n lo hi s h e later b from upto = elim (dec_lt s.page_bitmap_index b) [
  | yes beyond ↦ later b (omega arith) upto
  | no before ↦ (s.page_bitmap_index, omega arith, omega arith, e)
]

Searched-used :
    {n lo hi : ℕ} {s : Pmm} {r : Pmm × ℕ}
    → lo ≤ s.page_bitmap_index
    → s.page_bitmap_index < lo + n
    → get s.page_bitmap s.page_bitmap_index ≡ true
    → Searched n (s.page_bitmap_index + 1) hi (advance s) r
    → Searched n lo hi s r
unfolding advance
Searched-used l h e (inl f) = inl (record {
  beginning = f.beginning;
  low = omega (arith, f.low);
  high = f.high;
  address = f.address;
  free = f.free;
  marked = f.marked;
  index = f.index;
  total = f.total;
})
Searched-used {n} {lo} {hi} {s} l h e (inr m) = inr (record {
  address = m.address;
  bitmap = m.bitmap;
  index = m.index;
  total = m.total;
  used = HasUsed-used n lo hi s h e m.used;
})

-- The step over a free page leaves the specification as it is.
Searched-advance :
    {n lo hi : ℕ} {s : Pmm} {r : Pmm × ℕ} → Searched n lo hi (advance s) r → Searched n lo hi s r
unfolding advance
Searched-advance (inl f) = inl (record {
  beginning = f.beginning;
  low = f.low;
  high = f.high;
  address = f.address;
  free = f.free;
  marked = f.marked;
  index = f.index;
  total = f.total;
})
Searched-advance (inr m) = inr (record {
  address = m.address;
  bitmap = m.bitmap;
  index = m.index;
  total = m.total;
  used = m.used;
})

claim-Found :
    (n pages lo hi : ℕ) (s : Pmm)
    → Ready n pages hi s
    → get s.page_bitmap s.page_bitmap_index ≡ false
    → pages + 1 ≡ n
    → s.page_bitmap_index < hi
    → lo ≡ s.page_bitmap_index - pages
    → Found n lo hi s (claim n (advance s))
unfolding claim advance
claim-Found n pages lo hi s w e last h l = record {
  beginning = s.page_bitmap_index + 1 - n;
  low = omega (arith, w.behind);
  high = omega (arith, w.behind);
  address = omega (arith, w.small, w.fits);
  free = λ j from upto. elim (ℕ_discrete j s.page_bitmap_index) [
    | yes here ↦ rw here e
    | no before ↦ w.free j (omega (arith, w.behind)) (omega (arith, w.behind))
  ];
  marked =
      set_range-Ranged n (s.page_bitmap_index + 1 - n) true s.page_bitmap w.bitmap
        (omega (arith, w.behind, w.fits, w.bitmap.room));
  index = omega (arith, w.behind);
  total = refl;
}

Ready-used : {n pages hi : ℕ} {s : Pmm} → Ready n pages hi s → Ready n 0 hi (advance s)
unfolding advance
Ready-used w = record {
  bitmap = w.bitmap;
  few = omega (arith, w.few);
  behind = omega arith;
  fits = w.fits;
  small = w.small;
  free = λ j from upto. absurd (omega arith);
}

Ready-free :
    {n pages hi : ℕ} {s : Pmm}
    → Ready n pages hi s
    → get s.page_bitmap s.page_bitmap_index ≡ false
    → pages + 1 ≢ n
    → Ready n (pages + 1) hi (advance s)
unfolding advance
Ready-free {s = s} w e more = record {
  bitmap = w.bitmap;
  few = omega (arith, w.few);
  behind = omega (arith, w.behind);
  fits = w.fits;
  small = w.small;
  free = λ j from upto. elim (ℕ_discrete j s.page_bitmap_index) [
    | yes here ↦ rw here e
    | no before ↦ w.free j (omega (arith, w.behind)) (omega (arith, w.behind))
  ];
}

search-Searched :
    (rounds n pages lo hi : ℕ) (s : Pmm)
    → Ready n pages hi s
    → s.page_bitmap_index + rounds ≡ hi
    → lo ≡ s.page_bitmap_index - pages
    → Searched n lo hi s (search rounds n pages s)
unfolding search
search-Searched zero n pages lo hi s w h l = inr (record {
  address = refl;
  bitmap = refl;
  index = omega arith;
  total = refl;
  used = λ b from upto. absurd (omega (arith, w.few, w.behind));
})
search-Searched (suc rounds) n pages lo hi s w h l =
    elim (Bool-cases (get s.page_bitmap s.page_bitmap_index)) [
      | inl e ↦ rw (search-used rounds n pages s e) (
          Searched-used (omega arith) (omega (arith, w.few, w.behind)) e (
            search-Searched rounds n 0 (s.page_bitmap_index + 1) hi (advance s) (Ready-used w)
              (unfold advance in omega arith) (unfold advance in omega arith)))
      | inr e ↦ elim (Bool-cases (pages + 1 == n)) [
        | inl f ↦
            rw (search-last rounds n pages s e f)
              (inl (claim-Found n pages lo hi s w e ((==_iff _ _).0 f) (omega arith) l))
        | inr f ↦ rw (search-free rounds n pages s e f) (
            Searched-advance (
              search-Searched rounds n (pages + 1) lo hi (advance s) (Ready-free w e (ground arith))
                (unfold advance in omega arith) (unfold advance in omega (arith, w.behind))))
      ]
    ]

-- `inner_alloc` finds a free run between its index and the limit, marks it and returns its address,
-- or there is none and it changes nothing but the index.
pub inner_alloc-Searched :
    (n limit : ℕ) (s : Pmm)
    → IsBitmap s.page_bitmap
    → s.page_bitmap.size ≤ 2 ^ 52
    → 0 < n
    → s.page_bitmap_index ≤ limit
    → limit ≤ s.page_bitmap.size
    → Searched n s.page_bitmap_index limit s (inner_alloc n limit s)
unfolding inner_alloc
inner_alloc-Searched n limit s w small pos le fits =
    search-Searched (limit - s.page_bitmap_index) n 0 s.page_bitmap_index limit s
      (record {
        bitmap = w;
        few = pos;
        behind = omega arith;
        fits = fits;
        small = small;
        free = λ j from upto. absurd (omega arith);
      })
      (omega arith) (omega arith)
