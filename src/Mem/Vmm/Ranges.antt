-- ===== src/Mem/Vmm/Ranges.antt =====
-- src/mem/vmm.cpp: the ranges that `syscall_mmap` stacks, and the search among them.
use fish_os.Base.{
  ℕ, zero, suc, ◌+◌, ◌%◌, ◌^◌, ◌≤◌, ◌<◌, ◌≡◌, refl, true, false, ◌&&◌, List, [], ◌∷◌, some, leb,
  if◌then◌else◌, arith, length, get_or,
}
use fish_os.Base.Int.{pos}
use fish_os.Mem.Vmm.{
  MappedRange, Space, anonymous, addr_to_range, align_up, mapped, syscall_mmap, is_supported,
}

-- each range ends at or below the base of the one before, the first at or below `top`
unfoldable pub Stacked : ℕ → List MappedRange → Type 0
Stacked top [] = Unit
Stacked top (range ∷ ranges) = (range.base + range.length ≤ top) × Stacked range.base ranges

abbrev pub range_at : List MappedRange → ℕ → MappedRange
range_at ranges i =
    get_or ranges i (record { base = 0; length = 0; page_flags = 0; type = anonymous })

under :
    (top : ℕ) (ranges : List MappedRange) (i : ℕ)
    → Stacked top ranges
    → i < length ranges
    → (range_at ranges i).base + (range_at ranges i).length ≤ top
unfolding Stacked
under top [] i s h = absurd (omega arith)
under top (range ∷ ranges) zero (e, s) h = e
under top (range ∷ ranges) (suc i) (e, s) h =
    omega (arith, e, under range.base ranges i s (omega arith))

-- In stacked ranges below 2 ^ 64 the search finds, for an address inside a range, that range.
pub addr_to_range-inside :
    (top : ℕ) (ranges : List MappedRange) (i virt : ℕ)
    → Stacked top ranges
    → top < 2 ^ 64
    → i < length ranges
    → (range_at ranges i).base ≤ virt
    → virt < (range_at ranges i).base + (range_at ranges i).length
    → addr_to_range virt ranges ≡ some (range_at ranges i)
unfolding addr_to_range Stacked
addr_to_range-inside top [] i virt s small h above below = absurd (omega arith)
addr_to_range-inside top (range ∷ ranges) zero virt (e, s) small h above below =
    ground (arith, e, above, below)
addr_to_range-inside top (range ∷ ranges) (suc i) virt (e, s) small h above below =
    let lower = under range.base ranges i s (omega arith) in
    let first : leb range.base virt ≡ false = ground (arith, lower, below) in
    let rest =
      addr_to_range-inside range.base ranges i virt s (omega (arith, e)) (omega arith) above
        below in
    ground (arith, first, rest)

align_up-bounds : (i : ℕ) → i + 4096 < 2 ^ 64 → (i ≤ align_up i) × (align_up i < i + 4096)
unfolding align_up
align_up-bounds i h = (ground arith, ground arith)

-- what a successful `syscall_mmap` does to the ranges of a task
pub record Mapped (len prot : ℕ) (s : Space) (t : Space) : Type 0 where
  pub stacked : Stacked t.mmap_anon_base t.ranges
  pub room : s.mmap_anon_base + len ≤ t.mmap_anon_base
  pub reads :
      (virt : ℕ)
      → addr_to_range virt t.ranges ≡ (
          if leb s.mmap_anon_base virt && leb virt t.mmap_anon_base
          then some (mapped len prot s)
          else addr_to_range virt s.ranges)

-- A supported mapping that ends below 2 ^ 64 returns the base of a new range above all others, with
-- room for the length. From then on the range is found for every address from its base to its end, the
-- first address behind it included, and for every other address what was found before.
pub syscall_mmap-Mapped :
    (len prot flags : ℕ) (s : Space)
    → is_supported flags ≡ true
    → Stacked s.mmap_anon_base s.ranges
    → s.mmap_anon_base + len + 4096 < 2 ^ 64
    → let (r, t) = syscall_mmap len prot flags s in (r ≡ pos s.mmap_anon_base) × Mapped len prot s t
unfolding syscall_mmap addr_to_range mapped Stacked
syscall_mmap-Mapped len prot flags s supported stacked small =
    let (low, high) = align_up-bounds len (omega arith) in
    let no_wrap : (s.mmap_anon_base + align_up len) % 2 ^ 64 ≡ s.mmap_anon_base + align_up len =
      omega (arith, low, high) in
    rw (supported, syscall_mmap)
      (
        refl,
        record {
          stacked = (omega (arith, no_wrap), stacked);
          room = omega (arith, no_wrap, low);
          reads = λ virt. refl;
        },
      )
