-- ===== src/Klib/Cstring.antt =====
-- src/klib/cstring.cpp (and the same functions of userspace/test/src/string.cpp): NUL-terminated
-- strings. A string is the list of the bytes from its pointer on; the end of the list stands for the
-- NUL behind it, and a 0 inside the list ends the string too.
pub mod Compare
use fish_os.Base.{
  ℕ, zero, suc, ◌+◌, ◌-◌, Bool, true, false, ◌&&◌, not, List, [], ◌∷◌, Option, none, some, ◌==◌,
  if◌then◌else◌,
}
use fish_os.Base.Int.{ℤ, pos, sub_ℕ}

abbrev pub CString : Type 0
CString = List ℕ

unfoldable pub strlen : CString → ℕ
strlen [] = 0
strlen (c ∷ cs) = let rest = strlen cs in if c == 0 then 0 else rest + 1

-- the difference of the bytes at which the loop stops
unfoldable pub strcmp : CString → CString → ℤ
strcmp [] [] = pos 0
strcmp [] (y ∷ ys) = sub_ℕ 0 y
strcmp (x ∷ xs) [] = sub_ℕ x 0
strcmp (x ∷ xs) (y ∷ ys) =
    let rest = strcmp xs ys in if not (x == 0) && (x == y) then rest else sub_ℕ x y

unfoldable pub strncmp : CString → CString → ℕ → ℤ
strncmp lhs rhs zero = pos 0
strncmp [] [] (suc count) = pos 0
strncmp [] (y ∷ ys) (suc count) = sub_ℕ 0 y
strncmp (x ∷ xs) [] (suc count) = sub_ℕ x 0
strncmp (x ∷ xs) (y ∷ ys) (suc count) =
    let rest = strncmp xs ys count in if not (x == 0) && (x == y) then rest else sub_ℕ x y

-- the offset of the match, `none` for a null pointer; a search for 0 finds the terminator
unfoldable pub strchr : CString → ℕ → Option ℕ
strchr [] c = if c == 0 then some 0 else none
strchr (x ∷ xs) c =
    let rest = strchr xs c in
    if x == c
    then some 0
    else if x == 0
    then none
    else elim rest [ none ↦ none | some n ↦ some (n + 1) ]
