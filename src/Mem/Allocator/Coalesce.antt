-- ===== src/Mem/Allocator/Coalesce.antt =====
-- src/mem/allocator.cpp, `BuddyAlloc::coalescence`.
use fish_os.Base.{
  ℕ, zero, suc, ◌+◌, ◌-◌, ◌*◌, ◌%◌, ◌^◌, Bool, true, false, ◌&&◌, ◌||◌, ltb, if◌then◌else◌,
}
use fish_os.Mem.Allocator.{Blocks, BuddyAlloc, put_size, size_required, next}
use fish_os.Mem.Allocator.Search.{can_merge, delayed}

-- what a pass of `coalescence` works on, with the negation of `no_coalescence`
pub record Pass : Type 0 where
  pub block : ℕ
  pub buddy : ℕ
  pub coalesced : Bool
  pub blocks : Blocks

unfoldable pub pass_merge : ℕ → Pass → Pass
pass_merge tail p =
    let h = put_size p.block ((p.blocks p.block).size * 2 % 2 ^ 64) p.blocks in
    let block = next p.block h in
    record {
      block = block;
      buddy = delayed block p.buddy tail h;
      coalesced = p.coalesced || ltb block tail;
      blocks = h;
    }

unfoldable pub pass_step : ℕ → Pass → Pass
pass_step tail p =
    let h = p.blocks in
    let after = next p.buddy h in
    if can_merge p.block p.buddy h
    then pass_merge tail p
    else (if ltb (size_required (h p.block).size) (size_required (h p.buddy).size)
        then record p { block = p.buddy; buddy = after }
        else record p { block = after; buddy = delayed after p.buddy tail h })

unfoldable pub pass_loop : ℕ → ℕ → Pass → Pass
pass_loop zero tail p = p
pass_loop (suc rounds) tail p = elim (ltb p.block tail && ltb p.buddy tail) [
  | true ↦ pass_loop rounds tail (pass_step tail p)
  | false ↦ p
]

-- Passes until one merges nothing. A pass that goes on has merged two blocks, so there are no more
-- passes than addresses.
unfoldable pub coalesce : ℕ → BuddyAlloc → BuddyAlloc
coalesce zero s = s
coalesce (suc passes) s =
    let end = pass_loop (s.tail - s.head) s.tail (record {
      block = s.head;
      buddy = next s.head s.blocks;
      coalesced = false;
      blocks = s.blocks;
    }) in
    let s' : BuddyAlloc = record s { blocks = end.blocks } in
    elim end.coalesced [ true ↦ coalesce passes s' | false ↦ s' ]

unfoldable pub coalescence : BuddyAlloc → BuddyAlloc
coalescence s = coalesce (s.tail - s.head + 1) s
