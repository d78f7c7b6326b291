-- ===== src/Mem/Allocator/Malloc.antt =====
-- src/mem/allocator.cpp, `BuddyAlloc::malloc`, `realloc` and `free`.
use fish_os.Base.{
  ℕ, ◌+◌, ◌-◌, ◌%◌, ◌^◌, true, false, ◌||◌, Option, none, some, ◌==◌, ltb, leb, if◌then◌else◌,
}
use fish_os.Mem.Allocator.{Block, BuddyAlloc, header, put_block, put_size, size_required}
use fish_os.Mem.Allocator.Search.{find_best}
use fish_os.Mem.Allocator.Coalesce.{coalescence}

-- the search, and a second one after `coalescence` where the first found nothing
unfoldable pub find : ℕ → BuddyAlloc → ℕ × BuddyAlloc
find size s =
    let (found, s') = find_best size s in
    elim (found == 0) [ true ↦ find_best size (coalescence s') | false ↦ (found, s') ]

-- the block in use, and the address of its data
unfoldable pub claim : ℕ → ℕ → BuddyAlloc → ℕ × BuddyAlloc
claim size found s = (
  (found + header) % 2 ^ 64,
  record s {
    blocks = put_block found (record { size = (size + header) % 2 ^ 64; is_free = false }) s.blocks;
  },
)

unfoldable pub malloc : ℕ → BuddyAlloc → ℕ × BuddyAlloc
malloc size s = elim (size == 0) [
  | true ↦ (0, s)
  | false ↦
      let (found, s') = find (size_required ((size + header) % 2 ^ 64)) s in
      if found == 0 then (0, s') else claim size found s'
]

unfoldable pub free : ℕ → BuddyAlloc → BuddyAlloc
free ptr s =
    let block = ptr - header in
    let freed : Block = record { size = size_required (s.blocks block).size; is_free = true } in
    if (ptr == 0) || (ltb ptr s.head || leb s.tail ptr)
    then s
    else record s { blocks = put_block block freed s.blocks }

-- `memcpy(to, from, bytes)`
pub record Copy : Type 0 where
  pub to : ℕ
  pub from : ℕ
  pub bytes : ℕ

-- the data is copied to the block that was found, and the old block freed
unfoldable pub move : ℕ → ℕ → ℕ → ℕ → ℕ × BuddyAlloc → ℕ × Option Copy × BuddyAlloc
move ptr size old_size block (found, s) =
    let (to, s') = claim size found s in
    let old : Block = record (s'.blocks block) { is_free = true } in
    if found == 0 then (0, none, s) else (
      to,
      some (record { to = to; from = ptr; bytes = old_size - header }),
      record s' { blocks = put_block block old s'.blocks },
    )

-- the new address, the bytes copied, and the heap
unfoldable pub realloc : ℕ → ℕ → BuddyAlloc → ℕ × Option Copy × BuddyAlloc
realloc ptr size s =
    let block = ptr - header in
    let old_size = (s.blocks block).size in
    let actual_new_size = size_required ((size + header) % 2 ^ 64) in
    elim (ptr == 0) [
      | true ↦ let (p, s') = malloc size s in (p, none, s')
      | false ↦ elim (size == 0) [
        | true ↦ (0, none, free ptr s)
        | false ↦ elim (ltb ptr s.head || leb s.tail ptr) [
          | true ↦ (0, none, s)
          | false ↦ elim (size_required old_size == actual_new_size) [
            | true ↦ (
              ptr,
              none,
              record s { blocks = put_size block ((size + header) % 2 ^ 64) s.blocks },
            )
            | false ↦ move ptr size old_size block (find actual_new_size s)
          ]
        ]
      ]
    ]
