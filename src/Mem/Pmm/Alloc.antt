-- ===== src/Mem/Pmm/Alloc.antt =====
-- src/mem/pmm.cpp, `alloc_pages`: what it returns on both searches, and when it panics.
use fish_os.Base.{
  ℕ, ◌+◌, ◌*◌, ◌%◌, ◌^◌, ◌≤◌, ◌<◌, ◌≡◌, refl, ap, ◌∙◌, true, arith, ◌⊎◌, inl, inr, if◌then◌else◌,
  ok, panic, Result,
}
use mathlib.Core.Path.{subst}
use fish_os.Klib.Bitmap.{Bitmap, get}
use fish_os.Mem.Pmm.{Pmm, page_size, inner_alloc, account, retry, alloc_pages}
use fish_os.Mem.Pmm.Range.{IsBitmap, in_range}
use fish_os.Mem.Pmm.Search.{IsFreeRun, HasUsed, Found, Missed, inner_alloc-Searched}

-- Page 0 is never handed out, since `inner_alloc` says by 0 that it found nothing.
pub record IsValid (s : Pmm) : Type 0 where
  pub bitmap : IsBitmap s.page_bitmap
  pub small : s.page_bitmap.size ≤ 2 ^ 52
  pub index : s.page_bitmap_index ≤ s.page_bitmap.size
  pub page_zero : get s.page_bitmap 0 ≡ true

-- `n` pages that were free are marked and returned; every other page is as it was.
pub record Allocated (n : ℕ) (s : Pmm) (r : Pmm × ℕ) : Type 0 where
  pub beginning : ℕ
  pub above_zero : 0 < beginning
  pub fits : beginning + n ≤ s.page_bitmap.size
  pub address : r.1 ≡ beginning * page_size
  pub free : IsFreeRun s.page_bitmap n beginning
  pub bits :
      (j : ℕ)
      → get r.0.page_bitmap j ≡ (if in_range beginning n j then true else get s.page_bitmap j)
  pub total : r.0.total_allocated ≡ (s.total_allocated + n * page_size) % 2 ^ 64
  pub size : r.0.page_bitmap.size ≡ s.page_bitmap.size
  pub valid : IsValid r.0

Found-above_zero :
    {n lo hi : ℕ} {s : Pmm} {r : Pmm × ℕ}
    → get s.page_bitmap 0 ≡ true
    → 0 < n
    → (f : Found n lo hi s r) → 0 < f.beginning
Found-above_zero {n} {s = s} z pos f = ground (arith, f.free 0)

Found-Allocated :
    {n lo hi : ℕ} {s : Pmm} {r : Pmm × ℕ}
    → IsValid s
    → 0 < n
    → hi ≤ s.page_bitmap.size
    → Found n lo hi s r
    → Allocated n s (account n r)
unfolding account
Found-Allocated {n} {lo} {hi} {s} {r} w pos le f =
    let above = Found-above_zero w.page_zero pos f in
    record {
      beginning = f.beginning;
      above_zero = above;
      fits = omega (arith, f.high);
      address = f.address;
      free = f.free;
      bits = f.marked.bits;
      total = omega (arith, f.total);
      size = f.marked.size;
      valid = record {
        bitmap = f.marked.bitmap;
        small = omega (arith, f.marked.size, w.small);
        index = omega (arith, f.index, f.high, f.marked.size);
        page_zero = ground (arith, f.marked.bits 0, w.page_zero);
      };
    }

-- The runs that the two searches look at: behind the old index, and from it on.
abbrev pub Looked : Pmm → ℕ → ℕ → Type 0
Looked s n b =
    (b + n ≤ s.page_bitmap_index) ⊎ ((s.page_bitmap_index ≤ b) × (b + n ≤ s.page_bitmap.size))

Allocated-congr :
    {n : ℕ} (s t : Pmm) {r : Pmm × ℕ}
    → t.page_bitmap ≡ s.page_bitmap
    → t.total_allocated ≡ s.total_allocated
    → Allocated n t r
    → Allocated n s r
Allocated-congr {n} s t {r} e f a = record {
  beginning = a.beginning;
  above_zero = a.above_zero;
  fits = subst (λ (b : Bitmap). a.beginning + n ≤ b.size) e a.fits;
  address = a.address;
  free = subst (λ b. IsFreeRun b n a.beginning) e a.free;
  bits =
      subst
        (λ b.
          (j : ℕ) → get r.0.page_bitmap j ≡ (if in_range a.beginning n j then true else get b j))
        e a.bits;
  total = rw (← f) a.total;
  size = a.size ∙ ap (λ (b : Bitmap). b.size) e;
  valid = a.valid;
}

-- The second search finds a run behind `last`, or there is none.
retry-Allocated :
    (n last : ℕ) (s : Pmm)
    → IsValid (record s { page_bitmap_index = 0 })
    → 0 < n
    → last ≤ s.page_bitmap.size
    → ((r : Pmm × ℕ) × (retry n last s ≡ ok r) × Allocated n s r)
      ⊎ ((retry n last s ≡ panic) × ((b : ℕ) → b + n ≤ last → HasUsed s.page_bitmap n b))
unfolding retry
retry-Allocated n last s w pos le =
    let t : Pmm = record s { page_bitmap_index = 0 } in
    elim (inner_alloc-Searched n last t w.bitmap w.small pos (omega arith) le) [
      | inl f ↦
          let above = Found-above_zero w.page_zero pos f in
          inl (
            account n (inner_alloc n last t),
            ground (arith, above, f.address),
            Allocated-congr s t refl refl (Found-Allocated w pos le f),
          )
      | inr m ↦ inr (rw m.address, λ b le'. m.used b (omega arith) le')
    ]

-- what `alloc_pages` says of its outcome
abbrev pub Outcome : ℕ → Pmm → Result (Pmm × ℕ) → Type 0
Outcome n s o =
    ((r : Pmm × ℕ) × (o ≡ ok r) × Allocated n s r)
    ⊎ ((o ≡ panic) × ((b : ℕ) → Looked s n b → HasUsed s.page_bitmap n b))

module _ {n : ℕ} {s : Pmm} (w : IsValid s) (pos : 0 < n) where
  retry-Outcome :
      (t : Pmm)
      → Missed n s.page_bitmap_index s.page_bitmap.size s (t, 0)
      → Outcome n s (retry n s.page_bitmap_index t)
  retry-Outcome t m =
      let valid : IsValid (record t { page_bitmap_index = 0 }) = record {
        bitmap = rw m.bitmap w.bitmap;
        small = rw m.bitmap w.small;
        index = omega arith;
        page_zero = rw m.bitmap w.page_zero;
      } in
      elim (retry-Allocated n s.page_bitmap_index t valid pos (rw m.bitmap w.index)) [
        | inl (r, run, a) ↦ inl (r, run, Allocated-congr s t m.bitmap m.total a)
        | inr (run, used) ↦ inr (
          run,
          λ b look. elim look [
            | inl behind ↦ rw m.bitmap at (used b behind)
            | inr ahead ↦ m.used b ahead.0 ahead.1
          ],
        )
      ]

  -- On a valid state and for at least one page, `alloc_pages` either returns the address of a run of
  -- pages above page 0 and inside the bitmap that were all free, marks exactly those pages, adds their
  -- bytes to the total modulo 2 ^ 64 and keeps the state valid; or it panics, and then every run of
  -- that length which lies behind the old index, or from it on, has a page in use.
  pub alloc_pages-Allocated : Outcome n s (alloc_pages n s)
  unfolding alloc_pages
  alloc_pages-Allocated =
      elim (inner_alloc-Searched n s.page_bitmap.size s w.bitmap w.small pos w.index
        (omega arith)) [
          | inl f ↦
              let above = Found-above_zero w.page_zero pos f in
              inl (
                account n (inner_alloc n s.page_bitmap.size s),
                ground (arith, above, f.address),
                Found-Allocated w pos (omega arith) f,
              )
          | inr m ↦ rw m.address (
              retry-Outcome _ (record {
                address = refl;
                bitmap = m.bitmap;
                index = m.index;
                total = m.total;
                used = m.used;
              }))
        ]
