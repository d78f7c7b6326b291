-- ===== src/Mem/Vmm/Pages/Enough.antt =====
-- src/mem/pmm.cpp: with free pages left, `alloc_pages` of one page succeeds and takes one of them.
use fish_os.Base.{
  ℕ, suc, ◌+◌, ◌*◌, ◌≤◌, ◌<◌, ◌≡◌, ◌≢◌, sym, ap, ◌∙◌, true, false, Bool-cases, inl, inr, List, [],
  ◌∷◌, ok, ◌==◌, if◌then◌else◌, length, arith,
}
use native.Mathlib.Decide.{dec_lt}
use fish_os.Klib.Bitmap.{Bitmap, get}
use fish_os.Klib.List.Ring.{Apart, Unique}
use fish_os.Mem.Pmm.{Pmm, alloc_pages}
use fish_os.Mem.Pmm.Search.{HasUsed}
use fish_os.Mem.Pmm.Alloc.{IsValid, Allocated, Looked, alloc_pages-Allocated}

-- the list without the first `q` in it
without : ℕ → List ℕ → List ℕ
without q [] = []
without q (p ∷ ps) = if q == p then ps else p ∷ without q ps

length-without : (q : ℕ) (ps : List ℕ) → length ps ≤ length (without q ps) + 1
unfolding without
length-without q [] = omega arith
length-without q (p ∷ ps) = elim (Bool-cases (q == p)) [
  | inl same ↦ rw (without, same) (omega arith)
  | inr other ↦ rw (without, other) (omega (arith, length-without q ps))
]

Apart-without : (a q : ℕ) (ps : List ℕ) → Apart a ps → Apart a (without q ps)
unfolding without Apart
Apart-without a q [] h = tt
Apart-without a q (p ∷ ps) (ne, h) = elim (Bool-cases (q == p)) [
  | inl same ↦ rw (without, same) h
  | inr other ↦ rw (without, other) (ne, Apart-without a q ps h)
]

Unique-without : (q : ℕ) (ps : List ℕ) → Unique ps → Unique (without q ps) × Apart q (without q ps)
unfolding without Unique Apart
Unique-without q [] u = (tt, tt)
Unique-without q (p ∷ ps) (a, u) = elim (Bool-cases (q == p)) [
  | inl same ↦ let e : q ≡ p = ground (arith, same) in rw (without, same) (u, rw e a)
  | inr other ↦
      let (u', a') = Unique-without q ps u in
      let ne : q ≢ p = λ i. ground (arith, other, i) in
      rw (without, other) ((Apart-without p q ps a, u'), (ne, a'))
]

-- the pages are free
unfoldable pub AreFree : Bitmap → List ℕ → Type 0
AreFree b [] = Unit {0}
AreFree b (p ∷ ps) = ((p < b.size) × (get b p ≡ false)) × AreFree b ps

AreFree-without : (b : Bitmap) (q : ℕ) (ps : List ℕ) → AreFree b ps → AreFree b (without q ps)
unfolding without AreFree
AreFree-without b q [] f = tt
AreFree-without b q (p ∷ ps) (h, f) = elim (Bool-cases (q == p)) [
  | inl same ↦ rw (without, same) f
  | inr other ↦ rw (without, other) (h, AreFree-without b q ps f)
]

-- at least `n` pages are free
pub record Enough (n : ℕ) (s : Pmm) : Type 0 where
  pub pages : List ℕ
  pub number : n ≤ length pages
  pub unique : Unique pages
  pub free : AreFree s.page_bitmap pages

pub Enough-less : (n : ℕ) (s : Pmm) → Enough (suc n) s → Enough n s
Enough-less n s e = record {
  pages = e.pages;
  number = omega (arith, e.number);
  unique = e.unique;
  free = e.free;
}

-- one page that was free is taken, and nothing else changes in the bitmap
pub record OnePage (s p : Pmm) (address : ℕ) : Type 0 where
  pub page : ℕ
  pub inside : page < s.page_bitmap.size
  pub aligned : address ≡ page * 0x1000
  pub was_free : get s.page_bitmap page ≡ false
  pub taken : get p.page_bitmap page ≡ true
  pub others : (j : ℕ) → j ≢ page → get p.page_bitmap j ≡ get s.page_bitmap j
  pub size : p.page_bitmap.size ≡ s.page_bitmap.size
  pub valid : IsValid p

Allocated-OnePage : (s : Pmm) (r : Pmm × ℕ) → Allocated 1 s r → OnePage s r.0 r.1
Allocated-OnePage s r a = record {
  page = a.beginning;
  inside = omega (arith, a.fits);
  aligned = a.address;
  was_free = a.free a.beginning (omega arith) (omega arith);
  taken = ground (arith, a.bits a.beginning);
  others = λ j ne. ground (arith, a.bits j, ne);
  size = a.size;
  valid = a.valid;
}

AreFree-other :
    (s p : Pmm) (address : ℕ) (o : OnePage s p address) (ps : List ℕ)
    → AreFree s.page_bitmap ps
    → Apart o.page ps
    → AreFree p.page_bitmap ps
unfolding AreFree Apart
AreFree-other s p address o [] f a = tt
AreFree-other s p address o (q ∷ ps) ((h, free), f) (ne, a) = (
  (omega (arith, o.size, h), o.others q (λ i. ne (sym i)) ∙ free),
  AreFree-other s p address o ps f a,
)

-- a search that failed has found no free page
no_page :
    (s : Pmm) (ps : List ℕ)
    → 0 < length ps
    → AreFree s.page_bitmap ps
    → ((b : ℕ) → Looked s 1 b → HasUsed s.page_bitmap 1 b)
    → ⊥
unfolding AreFree
no_page s [] h f used = absurd (omega arith)
no_page s (p ∷ ps) h ((inside, free), f) used =
    let look : Looked s 1 p = elim (dec_lt p s.page_bitmap_index) [
      | yes behind ↦ inl (omega arith)
      | no ahead ↦ inr (omega (arith, ahead), omega arith)
    ] in
    let (j, low, high, taken) = used p look in
    let same : j ≡ p = omega arith in
    let clash : get s.page_bitmap p ≡ true = ap (λ i. get s.page_bitmap i) (sym same) ∙ taken in
    ground (arith, clash, free)

-- While `n + 1` pages are free, one can be allocated, and `n` stay free.
pub alloc_one :
    (n : ℕ) (s : Pmm)
    → IsValid s
    → Enough (suc n) s
    → (r : Pmm × ℕ) × (alloc_pages 1 s ≡ ok r) × (OnePage s r.0 r.1 × Enough n r.0)
unfolding AreFree
alloc_one n s w e = elim (alloc_pages-Allocated {n = 1} {s = s} w (omega arith)) [
  | inl (r, run, a) ↦
      let o = Allocated-OnePage s r a in
      let (u, apart) = Unique-without o.page e.pages e.unique in
      (
        r,
        run,
        (
          o,
          record {
            pages = without o.page e.pages;
            number = omega (arith, length-without o.page e.pages, e.number);
            unique = u;
            free =
                AreFree-other s r.0 r.1 o (without o.page e.pages)
                  (AreFree-without s.page_bitmap o.page e.pages e.free) apart;
          },
        ),
      )
  | inr (_, used) ↦ absurd (no_page s e.pages (omega (arith, e.number)) e.free used)
]
