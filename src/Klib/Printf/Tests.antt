-- ===== src/Klib/Printf/Tests.antt =====
-- Numbers as `vprintf` prints them.
use fish_os.Base.{
  ℕ, zero, suc, List, none, some, ◌≡◌, refl, ap, true, false, [], ◌∷◌, length, arith,
}
use fish_os.Klib.Printf.{
  count_digits, num_digits, div_times, digit_char, put_digits, padding, put_number, put_hex,
}
use fish_os.Klib.Cstring.Compare.{chars}
use fish_os.Klib.Printf.Format.{conversion, directive, directive_at, vprintf}
use fish_os.Klib.Printf.Pieces.{
  Piece, literal, hexadecimal, str, IsPrintable, argument_bits, flags, piece_format, piece_output,
  format_of, arguments_of, output_of,
}
use fish_os.Klib.Printf.Output.{vprintf-output_of}
use fish_os.Klib.Printf.Number.{parse, parse-put_number}

evaluate : Unit {0}
unfolding count_digits num_digits div_times digit_char put_digits padding put_number put_hex
evaluate = tt

-- `%d` of 405
decimal : put_number false 0 405 10 ≡ 52 ∷ 48 ∷ 53 ∷ []
unfolding evaluate
decimal = refl

-- `%#04X` of 0xAB
padded_hex : put_hex true true 4 171 ≡ 48 ∷ 120 ∷ 48 ∷ 48 ∷ 65 ∷ 66 ∷ []
unfolding evaluate
padded_hex = refl

parse-put_number_example : parse 16 0 (put_number true 4 171 16) ≡ 171
parse-put_number_example = parse-put_number true 4 171 16 (omega arith) (omega arith)

-- what `0x%lX: %s` and a new line print for 171 and a text of two characters
abbrev pieces : List Piece
pieces =
    literal 48
    ∷ literal 120
    ∷ hexadecimal true false true 171
    ∷ literal 58
    ∷ literal 32
    ∷ str (104 ∷ 105 ∷ 0 ∷ 7 ∷ [])
    ∷ literal 10
    ∷ []

pieces-IsPrintable : IsPrintable pieces
unfolding IsPrintable
pieces-IsPrintable = (
  (ground arith, ground arith),
  (
    (ground arith, ground arith),
    (
      (ground arith, ground arith),
      ((ground arith, ground arith), ((ground arith, ground arith), tt)),
    ),
  ),
)

pieces_output : output_of pieces ≡ 48 ∷ 120 ∷ 65 ∷ 66 ∷ 58 ∷ 32 ∷ 104 ∷ 105 ∷ 10 ∷ []
unfolding evaluate output_of piece_output argument_bits chars
pieces_output = refl

format_length : length (format_of pieces) ≡ 10
unfolding format_of piece_format flags
format_length = refl

vprintf-output_of_example :
    vprintf (format_of pieces) (arguments_of pieces)
    ≡ some (output_of pieces, length (output_of pieces))
vprintf-output_of_example =
    vprintf-output_of pieces pieces-IsPrintable (omega (arith, format_length))
      (omega (arith, ap (λ (l : List ℕ). length l) pieces_output))

-- after an unknown conversion no number of rounds ends the loop
endless : (rounds : ℕ) → directive rounds (37 ∷ 113 ∷ []) (directive_at 1) [] ≡ none
unfolding directive conversion
endless zero = refl
endless (suc rounds) = endless rounds
