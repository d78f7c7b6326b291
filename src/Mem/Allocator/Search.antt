-- ===== src/Mem/Allocator/Search.antt =====
-- src/mem/allocator.cpp, `BuddyAlloc::find_best`.
use fish_os.Base.{
  ℕ, zero, suc, ◌-◌, ◌*◌, ◌%◌, ◌^◌, Bool, true, false, ◌&&◌, ◌||◌, ◌==◌, ltb, leb, if◌then◌else◌,
}
use fish_os.Mem.Allocator.{Blocks, BuddyAlloc, put_size, size_required, next, split_until}

-- two free buddies of one size
unfoldable pub can_merge : ℕ → ℕ → Blocks → Bool
can_merge block buddy h =
    (h block).is_free && ((h buddy).is_free && ((h block).size == (h buddy).size))

-- `buddy` is read only where `block` is in front of the tail
unfoldable pub delayed : ℕ → ℕ → ℕ → Blocks → ℕ
delayed block buddy tail h = if ltb block tail then next block h else buddy

-- `block->is_free && size <= block->size && (best == nullptr || block->size <= best->size)`
unfoldable pub better_merged : ℕ → ℕ → ℕ → Blocks → ℕ
better_merged size best block h =
    if leb size (h block).size && ((best == 0) || leb (h block).size (h best).size)
    then block
    else best

unfoldable pub better_block : ℕ → ℕ → ℕ → Blocks → ℕ
better_block size best block h =
    let actual_best_size = if best == 0 then 0 else size_required (h best).size in
    if (h block).is_free
      && (leb size (h block).size && ((best == 0) || leb (h block).size actual_best_size))
    then block
    else best

-- `actual_best_size` is that of the best before the block was looked at
unfoldable pub better_buddy : ℕ → ℕ → ℕ → ℕ → Blocks → ℕ
better_buddy size old_best best buddy h =
    let actual_best_size = if old_best == 0 then 0 else size_required (h old_best).size in
    if (h buddy).is_free
      && (leb size (h buddy).size && ((best == 0) || ltb (h buddy).size actual_best_size))
    then buddy
    else best

-- what the loop of `find_best` works on
pub record Search : Type 0 where
  pub best : ℕ
  pub block : ℕ
  pub buddy : ℕ
  pub blocks : Blocks

-- on to the pair behind the buddy
unfoldable pub after_pair : ℕ → ℕ → ℕ → ℕ → Blocks → Search
after_pair tail best block buddy h = record {
  best = best;
  block = next buddy h;
  buddy = delayed (next buddy h) buddy tail h;
  blocks = h;
}

-- the two free buddies become one block
unfoldable pub merge_step : ℕ → ℕ → Search → Search
merge_step size tail s =
    let h = put_size s.block ((s.blocks s.block).size * 2 % 2 ^ 64) s.blocks in
    after_pair tail (better_merged size s.best s.block h) s.block s.buddy h

-- the buddies are looked at; a buddy that is split into smaller ones is the next block
unfoldable pub look_step : ℕ → ℕ → Search → Search
look_step size tail s =
    let h = s.blocks in
    let best = better_buddy size s.best (better_block size s.best s.block h) s.buddy h in
    if leb (size_required (h s.block).size) (size_required (h s.buddy).size)
    then after_pair tail best s.block s.buddy h
    else record { best = best; block = s.buddy; buddy = next s.buddy h; blocks = h }

unfoldable pub find_step : ℕ → ℕ → Search → Search
find_step size tail s =
    if can_merge s.block s.buddy s.blocks then merge_step size tail s else look_step size tail s

unfoldable pub find_loop : ℕ → ℕ → ℕ → Search → Search
find_loop zero size tail s = s
find_loop (suc rounds) size tail s = elim (ltb s.block tail && ltb s.buddy tail) [
  | true ↦ find_loop rounds size tail (find_step size tail s)
  | false ↦ s
]

-- each round moves the block up by a header at least, so a round for each address is enough
unfoldable pub find_best : ℕ → BuddyAlloc → ℕ × BuddyAlloc
find_best size s =
    let buddy = next s.head s.blocks in
    let start : Search = record { best = 0; block = s.head; buddy = buddy; blocks = s.blocks } in
    elim ((buddy == s.tail) && (s.blocks s.head).is_free) [
      | true ↦ let (found, h) = split_until size s.head s.blocks in (found, record s { blocks = h })
      | false ↦
          let end = find_loop (s.tail - s.head) size s.tail start in
          if end.best == 0
          then (0, record s { blocks = end.blocks })
          else (let (found, h) = split_until size end.best end.blocks in
              (found, record s { blocks = h }))
    ]
