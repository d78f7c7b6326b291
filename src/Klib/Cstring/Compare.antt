-- ===== src/Klib/Cstring/Compare.antt =====
-- src/klib/cstring.cpp: `strcmp` decides equality of the strings before the first NUL.
use fish_os.Base.{
  ℕ, zero, suc, ◌≡◌, refl, Bool, true, false, [], ◌∷◌, ◌==◌, if◌then◌else◌, arith, ◌↔◌, length,
  take,
}
use fish_os.Base.Int.{ℤ, pos, negsuc}
use fish_os.Klib.Cstring.{CString, strlen, strcmp, strncmp}

abbrev pub is_zero : ℤ → Bool
is_zero (pos n) = n == 0
is_zero (negsuc n) = false

-- `strcmp(a, b) == 0`
unfoldable pub equal : CString → CString → Bool
equal a b = is_zero (strcmp a b)

-- the bytes before the first NUL
unfoldable pub chars : CString → CString
chars [] = []
chars (c ∷ cs) = let rest = chars cs in if c == 0 then [] else c ∷ rest

-- `strlen` counts the bytes before the first NUL.
strlen-chars : (s : CString) → strlen s ≡ length (chars s)
unfolding strlen chars
strlen-chars [] = refl
strlen-chars (c ∷ cs) = ground (arith, strlen-chars cs)

-- `strcmp` returns 0 exactly for two strings with the same bytes before their first NUL.
pub strcmp-zero_iff : (a b : CString) → (strcmp a b ≡ pos 0) ↔ (chars a ≡ chars b)
unfolding strcmp chars
strcmp-zero_iff [] [] = (λ h. refl, λ h. refl)
strcmp-zero_iff [] (y ∷ ys) = ground arith
strcmp-zero_iff (x ∷ xs) [] = ground arith
strcmp-zero_iff (x ∷ xs) (y ∷ ys) = ground (arith, strcmp-zero_iff xs ys)

equal_iff : (a b : CString) → (equal a b ≡ true) ↔ (chars a ≡ chars b)
unfolding equal
equal_iff a b = ground (arith, strcmp-zero_iff a b)

pub equal_refl : (a : CString) → equal a a ≡ true
equal_refl a = (equal_iff a a).1 refl

pub equal_symm : (a b : CString) → equal a b ≡ equal b a
equal_symm a b = ground (arith, equal_iff a b, equal_iff b a)

pub equal_trans : (a b c : CString) → equal a b ≡ true → equal b c ≡ true → equal a c ≡ true
equal_trans a b c = ground (arith, equal_iff a b, equal_iff b c, equal_iff a c)

-- equal keys are told from a third one alike
pub equal_congr : (a b c : CString) → equal a b ≡ true → equal c a ≡ equal c b
equal_congr a b c h = ground (arith, equal_trans c a b, equal_trans c b a, equal_symm a b)

-- `strncmp` compares no more than `count` bytes: it is `strcmp` of the prefixes.
pub strncmp-take :
    (a b : CString) (count : ℕ) → strncmp a b count ≡ strcmp (take count a) (take count b)
unfolding strncmp strcmp
strncmp-take [] [] zero = refl
strncmp-take [] (y ∷ ys) zero = refl
strncmp-take (x ∷ xs) [] zero = refl
strncmp-take (x ∷ xs) (y ∷ ys) zero = refl
strncmp-take [] [] (suc n) = refl
strncmp-take [] (y ∷ ys) (suc n) = refl
strncmp-take (x ∷ xs) [] (suc n) = refl
strncmp-take (x ∷ xs) (y ∷ ys) (suc n) = ground (arith, strncmp-take xs ys n)
