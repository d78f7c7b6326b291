-- ===== src/User/Print/Tests.antt =====
-- Tests of the printing of a program from an empty buffer, and the theorems at concrete inputs.
use fish_os.Base.{ℕ, ◌≡◌, refl, [], ◌∷◌, ◌++◌, length, length-replicate, map, replicate, arith}
use fish_os.User.Print.{Printer, putchar, put_string, puts}
use fish_os.User.Print.Order.{written, text, IsValid, puts-written}

empty : Printer
empty = record { buffer = replicate 1024 0; index = 0; writes = [] }

empty-IsValid : IsValid empty
unfolding empty
empty-IsValid = record { room = omega arith; size = length-replicate {A = ℕ} 1024 0 }

puts_test : (puts (104 ∷ 105 ∷ 0 ∷ 9 ∷ []) empty).writes ≡ (104 ∷ 105 ∷ 10 ∷ []) ∷ []
unfolding puts put_string putchar empty
puts_test = refl

-- 2,000 characters are two writes, the first of the whole buffer
wrap_test : map length (puts (replicate 2000 7) empty).writes ≡ 1024 ∷ 977 ∷ []
unfolding puts put_string putchar empty
wrap_test = refl

puts-written_example :
    (written (puts (104 ∷ []) empty).writes ≡ (text empty ++ 104 ∷ []) ++ 10 ∷ [])
    × ((puts (104 ∷ []) empty).index ≡ 0)
    × IsValid (puts (104 ∷ []) empty)
unfolding fish_os.Klib.Cstring.Compare.chars
puts-written_example = puts-written (104 ∷ []) empty empty-IsValid
