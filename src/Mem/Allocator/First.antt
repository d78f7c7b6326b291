-- ===== src/Mem/Allocator/First.antt =====
-- src/mem/allocator.cpp: the first `malloc` on a heap.
use fish_os.Base.{
  ℕ, ◌+◌, ◌-◌, ◌%◌, ◌^◌, ◌≤◌, ◌<◌, ◌≡◌, ◌≢◌, refl, sym, ap, ◌∙◌, true, false, inl, inr, ◌&&◌, ◌==◌,
  arith,
}
use native.Mathlib.Decide.{dec_lt}
use fish_os.Mem.Allocator.{
  Block, Blocks, BuddyAlloc, header, put_block, size_required, next, split_until, init,
}
use fish_os.Mem.Allocator.Search.{find_best}
use fish_os.Mem.Allocator.Malloc.{find, claim, malloc}
use fish_os.Mem.Allocator.Sizes.{power, power_mono, power_59, Least, size_required-Least}
use fish_os.Mem.Allocator.Split.{up, Halved, split_until-Splits, up_reaches}

-- The exponent of the block that a size takes is at most that of a block with room for it.
required_fits :
    (size m : ℕ) (l : Least size 0 (size_required size)) → size ≤ power m → l.exponent ≤ m
required_fits size m l room = elim l.least [
  | inl e ↦ omega (arith, e)
  | inr (i, e, below) ↦ elim (dec_lt i m) [
    | yes less ↦ omega (arith, e, less)
    | no more ↦ absurd (omega (arith, below, room, power_mono m i (omega (arith, more))))
  ]
]

-- what the first `malloc` of `size` bytes leaves of a heap of 16 * 2 ^ m bytes at `base`
pub record FirstBlock (base m size ptr : ℕ) (s' : BuddyAlloc) : Type 0 where
  pub exponent : ℕ
  pub halvings : ℕ
  pub required : size_required (size + header) ≡ power exponent
  pub halves : up halvings exponent ≡ m
  pub at_end : ptr + power exponent ≡ base + power m + header
  pub before : Blocks
  pub halved : Halved before base halvings exponent
  pub block :
      s'.blocks ≡ put_block (ptr - header) (record { size = size + header; is_free = false }) before

-- the block that `init` makes
fresh-block :
    (base size : ℕ) (s : BuddyAlloc)
    → (init base size s).blocks base ≡ record { size = size; is_free = true }
unfolding init put_block
fresh-block base size s = ground arith

fresh-tail :
    (base size : ℕ) (s : BuddyAlloc) → (init base size s).tail ≡ next base (init base size s).blocks
unfolding init
fresh-tail base size s = refl

find_best-whole :
    (size found : ℕ) (s : BuddyAlloc) (h : Blocks)
    → ((next s.head s.blocks == s.tail) && (s.blocks s.head).is_free) ≡ true
    → split_until size s.head s.blocks ≡ (found, h)
    → find_best size s ≡ (found, record s { blocks = h })
unfolding find_best
find_best-whole size found s h whole run = rw (find_best, whole, run) refl

find-found :
    (size found : ℕ) (s s' : BuddyAlloc)
    → find_best size s ≡ (found, s')
    → found ≢ 0
    → find size s ≡ (found, s')
unfolding find
find-found size found s s' run ne =
    let some_block : (found == 0) ≡ false = ground (arith, ne) in rw (find, run, some_block) run

malloc-found :
    (size found : ℕ) (s s' : BuddyAlloc)
    → 0 < size
    → find (size_required ((size + header) % 2 ^ 64)) s ≡ (found, s')
    → found ≢ 0
    → malloc size s ≡ claim size found s'
unfolding malloc
malloc-found size found s s' some_size run ne =
    let some_block : (found == 0) ≡ false = ground (arith, ne) in
    let some_bytes : (size == 0) ≡ false = ground (arith, some_size) in
    rw (some_bytes, malloc, run, some_block) refl

fresh-find :
    (base size m found : ℕ) (s : BuddyAlloc) (h : Blocks)
    → split_until size base (init base (power m) s).blocks ≡ (found, h)
    → found ≢ 0
    → find size (init base (power m) s) ≡ (found, record (init base (power m) s) { blocks = h })
unfolding init
fresh-find base size m found s h run ne =
    let fresh = init base (power m) s in
    let free : (fresh.blocks base).is_free ≡ true =
      ap (λ (b : Block). b.is_free) (fresh-block base (power m) s) in
    let whole : ((next base fresh.blocks == fresh.tail) && (fresh.blocks base).is_free) ≡ true =
      ground (arith, free) in
    find-found size found fresh (record fresh { blocks = h })
      (find_best-whole size found fresh h whole run) ne

claim-block :
    (size found : ℕ) (s : BuddyAlloc)
    → size + header < 2 ^ 64
    → found + header < 2 ^ 64
    → claim size found s ≡ (
      found + header,
      record s {
        blocks = put_block found (record { size = size + header; is_free = false }) s.blocks;
      },
    )
unfolding claim
claim-block size found s small inside =
    let a : (size + header) % 2 ^ 64 ≡ size + header = omega arith in
    let b : (found + header) % 2 ^ 64 ≡ found + header = omega arith in rw (claim, a, b) refl

-- The first `malloc`, on a heap of 16 * 2 ^ m bytes with room for the size and a header, succeeds: it
-- takes the least block that has the room from the end of the heap, and the rest of the heap is halves
-- that are free.
pub malloc-FirstBlock :
    (base m size : ℕ) (s : BuddyAlloc)
    → 0 < base
    → m ≤ 59
    → base + power m < 2 ^ 64
    → 0 < size
    → size + header ≤ power m
    → (ptr : ℕ) × (s' : BuddyAlloc) × (malloc size (init base (power m) s) ≡ (ptr, s'))
      × FirstBlock base m size ptr s'
malloc-FirstBlock base m size s above small inside some_size room =
    let fresh = init base (power m) s in
    let top = power_mono m 59 small in
    let needed = size + header in
    let no_wrap : needed % 2 ^ 64 ≡ needed = omega (arith, room, top, power_59) in
    let l = size_required-Least needed (omega (arith, room, top, power_59)) in
    let (d, le, e) = up_reaches l.exponent m (required_fits needed m l room) in
    let pe : power (up d l.exponent) ≡ power m = ap power e in
    let exact = ap (λ (b : Block). b.size) (fresh-block base (power m) s) ∙ sym pe in
    let (found, h', run, sp) =
      split_until-Splits d l.exponent base fresh.blocks (omega (arith, le, small))
        (omega (arith, e, small)) (omega (arith, inside, pe)) exact in
    let fits = power_mono l.exponent m (required_fits needed m l room) in
    let found_at : found + power l.exponent ≡ base + power m = omega (arith, sp.at_end, pe) in
    let ne : found ≢ 0 = λ z. omega (arith, z, found_at, above, fits) in
    let required : size_required (needed % 2 ^ 64) ≡ power l.exponent =
      ap size_required no_wrap ∙ l.power_of in
    let after : BuddyAlloc = record fresh { blocks = h' } in
    let found_run =
      ap (λ n. find n fresh) required ∙ fresh-find base (power l.exponent) m found s h' run ne in
    let bound : found + header < 2 ^ 64 = omega (arith, found_at, inside, l.room, l.power_of) in
    (
      found + header,
      record fresh { blocks = put_block found (record { size = needed; is_free = false }) h' },
      malloc-found size found fresh after some_size found_run ne
          ∙ claim-block size found after (omega (arith, room, top, power_59)) bound,
      record {
        exponent = l.exponent;
        halvings = d;
        required = l.power_of;
        halves = e;
        at_end = omega (arith, found_at);
        before = h';
        halved = sp.halved;
        block = ap (λ a. put_block a (record { size = needed; is_free = false }) h') (omega arith);
      },
    )
