-- ===== src/Klib/Memory/Tests.antt =====
-- Tests of the memory routines on a memory of a few bytes, and the theorems at concrete inputs.
use fish_os.Base.{
  ℕ, ◌<◌, ◌≡◌, ◌⊎◌, inl, refl, List, [], ◌∷◌, Option, none, some, arith, get_or, map,
}
use fish_os.Base.Int.{pos, negsuc}
use fish_os.Klib.Memory.{
  Memory, put_byte, copy_up, copy_down, memcpy, memmove, fill_up, memset, compare_up, memcmp,
  strlen_from, strcpy, strcat, strdup,
}
use fish_os.Klib.Memory.Move.{Moved, memmove-Moved}
use fish_os.Klib.Memory.Strings.{Holds, strcat-Holds}

-- "ab" at 0 and "cd" at 8
abbrev bytes : Memory
bytes = λ a. get_or (97 ∷ 98 ∷ 0 ∷ 7 ∷ 7 ∷ 7 ∷ 7 ∷ 7 ∷ 99 ∷ 100 ∷ 0 ∷ []) a 0

abbrev first : Memory → List ℕ
first m = map m (0 ∷ 1 ∷ 2 ∷ 3 ∷ 4 ∷ 5 ∷ [])

memmove_up_test : first (memmove 1 0 3 bytes) ≡ 97 ∷ 97 ∷ 98 ∷ 0 ∷ 7 ∷ 7 ∷ []
unfolding memmove copy_up copy_down put_byte
memmove_up_test = refl

memset_test : first (memset 1 300 2 bytes) ≡ 97 ∷ 44 ∷ 44 ∷ 7 ∷ 7 ∷ 7 ∷ []
unfolding memset fill_up put_byte
memset_test = refl

memcmp_test : memcmp 0 8 2 bytes ≡ negsuc 0
unfolding memcmp compare_up
memcmp_test = refl

memcmp_same_test : memcmp 3 4 3 bytes ≡ pos 0
unfolding memcmp compare_up
memcmp_same_test = refl

text_of : Option Memory → List ℕ
text_of none = []
text_of (some m) = first m

strcat_test : text_of (strcat 9 0 8 bytes) ≡ 97 ∷ 98 ∷ 99 ∷ 100 ∷ 0 ∷ 7 ∷ []
unfolding text_of strcat strcpy strlen_from memcpy copy_up put_byte
strcat_test = refl

pointer_of : Option (ℕ × Memory) → ℕ × List ℕ
pointer_of none = (0, [])
pointer_of (some (p, m)) = (p, first m)

strdup_test : pointer_of (strdup (λ size. size) 9 8 bytes) ≡ (3, 97 ∷ 98 ∷ 0 ∷ 99 ∷ 100 ∷ 0 ∷ [])
unfolding pointer_of strdup strlen_from memcpy copy_up put_byte
strdup_test = refl

memmove-Moved_example : Moved bytes (memmove 1 0 3 bytes) 1 0 3
memmove-Moved_example = memmove-Moved 1 0 3 bytes

ab-Holds : Holds bytes 0 (97 ∷ 98 ∷ [])
ab-Holds = record { chars = λ i h. ground arith; not_nul = λ i h. ground arith; end = refl }

cd-Holds : Holds bytes 8 (99 ∷ 100 ∷ [])
cd-Holds = record { chars = λ i h. ground arith; not_nul = λ i h. ground arith; end = refl }

strcat-Holds_example :
    (m' : Memory) × (strcat 9 0 8 bytes ≡ some m')
    × Holds m' 0 (97 ∷ 98 ∷ 99 ∷ 100 ∷ [])
    × ((a : ℕ) → (a < 2) ⊎ (4 < a) → m' a ≡ bytes a)
strcat-Holds_example =
    strcat-Holds bytes 9 0 8 (97 ∷ 98 ∷ []) (99 ∷ 100 ∷ []) ab-Holds cd-Holds (omega arith)
      (omega arith) (inl (omega arith))
