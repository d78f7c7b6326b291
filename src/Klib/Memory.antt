-- ===== src/Klib/Memory.antt =====
-- userspace/test/src/string.cpp and src/klib/cstring.cpp: the routines that work on bytes of memory.
-- Memory gives the byte at an address. A region that reaches over the end of the address space is not
-- modelled. `none` is a search for a NUL that does not end in the rounds it is given.
pub mod Move
pub mod Strings
mod Tests
use fish_os.Base.{
  ℕ, zero, suc, ◌+◌, ◌%◌, Bool, true, false, Option, none, some, ◌==◌, ltb, if◌then◌else◌,
}
use fish_os.Base.Int.{ℤ, pos, negsuc}

abbrev pub Memory : Type 0
Memory = ℕ → ℕ

unfoldable pub put_byte : ℕ → ℕ → Memory → Memory
put_byte p value m a = if a == p then value else m a

-- bytes from index `i` on, upwards
unfoldable pub copy_up : ℕ → ℕ → ℕ → ℕ → Memory → Memory
copy_up zero i dst src m = m
copy_up (suc rounds) i dst src m =
    copy_up rounds (i + 1) dst src (put_byte (dst + i) (m (src + i)) m)

-- the bytes below index `i`, downwards
unfoldable pub copy_down : ℕ → ℕ → ℕ → Memory → Memory
copy_down zero dst src m = m
copy_down (suc i) dst src m = copy_down i dst src (put_byte (dst + i) (m (src + i)) m)

unfoldable pub memcpy : ℕ → ℕ → ℕ → Memory → Memory
memcpy dst src size m = copy_up size 0 dst src m

unfoldable pub memmove : ℕ → ℕ → ℕ → Memory → Memory
memmove dst src size m = if ltb dst src then copy_up size 0 dst src m else copy_down size dst src m

-- the bytes from index `i` on
unfoldable pub fill_up : ℕ → ℕ → ℕ → ℕ → Memory → Memory
fill_up zero i dst value m = m
fill_up (suc rounds) i dst value m = fill_up rounds (i + 1) dst value (put_byte (dst + i) value m)

-- the value is a byte
unfoldable pub memset : ℕ → ℕ → ℕ → Memory → Memory
memset dst value size m = fill_up size 0 dst (value % 256) m

-- the bytes from index `i` on
unfoldable pub compare_up : ℕ → ℕ → ℕ → ℕ → Memory → ℤ
compare_up zero i a b m = pos 0
compare_up (suc rounds) i a b m =
    let rest = compare_up rounds (i + 1) a b m in
    if ltb (m (a + i)) (m (b + i))
    then negsuc 0
    else if ltb (m (b + i)) (m (a + i))
    then pos 1
    else rest

unfoldable pub memcmp : ℕ → ℕ → ℕ → Memory → ℤ
memcmp lhs rhs size m = compare_up size 0 lhs rhs m

-- `while (str[len]) len++;` from `len` on
unfoldable pub strlen_from : ℕ → ℕ → ℕ → Memory → Option ℕ
strlen_from zero len str m = none
strlen_from (suc rounds) len str m =
    let rest = strlen_from rounds (len + 1) str m in if m (str + len) == 0 then some len else rest

-- the search has a round for each of `rounds` bytes
unfoldable pub strcpy : ℕ → ℕ → ℕ → Memory → Option Memory
strcpy rounds dst src m = elim (strlen_from rounds 0 src m) [
  | none ↦ none
  | some len ↦ some (memcpy dst src (len + 1) m)
]

unfoldable pub strcat : ℕ → ℕ → ℕ → Memory → Option Memory
strcat rounds dst src m = elim (strlen_from rounds 0 dst m) [
  | none ↦ none
  | some len ↦ strcpy rounds (dst + len) src m
]

-- the new string, null where `malloc` has no room, and the memory
unfoldable pub strdup : (ℕ → ℕ) → ℕ → ℕ → Memory → Option (ℕ × Memory)
strdup malloc rounds src m = elim (strlen_from rounds 0 src m) [
  | none ↦ none
  | some len ↦
      let ptr = malloc (len + 1) in some (ptr, if ptr == 0 then m else memcpy ptr src (len + 1) m)
]
