-- ===== src/Klib/Printf/Pieces.antt =====
-- src/klib/cstdio.cpp: what `vprintf` prints for a format, piece by piece.
use fish_os.Base.{ℕ, ◌%◌, ◌^◌, ◌≢◌, Bool, false, List, [], ◌∷◌, ◌++◌, if◌then◌else◌}
use fish_os.Klib.Cstring.{CString}
use fish_os.Klib.Cstring.Compare.{chars}
use fish_os.Klib.Printf.{put_number}
use fish_os.Klib.Printf.Format.{Argument, number, pointer}

-- the parts of a format, each with its argument
pub data Piece : Type 0 where
  literal : ℕ → Piece
  dec : Bool → ℕ → Piece
  hexadecimal : Bool → Bool → Bool → ℕ → Piece
  str : List ℕ → Piece

-- a literal character is not the end of the format, nor a percent sign
unfoldable pub IsPrintable : List Piece → Type 0
IsPrintable [] = Unit {0}
IsPrintable (literal c ∷ ps) = ((c ≢ 0) × (c ≢ 37)) × IsPrintable ps
IsPrintable (_ ∷ ps) = IsPrintable ps

-- `#` and `l`
unfoldable pub flags : Bool → Bool → List ℕ
flags alt_form long_int = (if alt_form then 35 ∷ [] else []) ++ (if long_int then 108 ∷ [] else [])

unfoldable pub piece_format : Piece → CString
piece_format (literal c) = c ∷ []
piece_format (dec long_int n) = 37 ∷ (flags false long_int ++ (100 ∷ []))
piece_format (hexadecimal upper alt_form long_int n) =
    37 ∷ (flags alt_form long_int ++ ((if upper then 88 else 120) ∷ []))
piece_format (str s) = 37 ∷ 115 ∷ []

unfoldable pub piece_arguments : Piece → List Argument
piece_arguments (literal c) = []
piece_arguments (dec long_int n) = number n ∷ []
piece_arguments (hexadecimal upper alt_form long_int n) = number n ∷ []
piece_arguments (str s) = pointer s ∷ []

-- an argument without `l` has 32 bits
unfoldable pub argument_bits : Bool → ℕ → ℕ
argument_bits long_int n = if long_int then n % 2 ^ 64 else n % 2 ^ 32

unfoldable pub piece_output : Piece → List ℕ
piece_output (literal c) = c ∷ []
piece_output (dec long_int n) = put_number false 0 (argument_bits long_int n) 10
piece_output (hexadecimal upper alt_form long_int n) =
    (if alt_form then 48 ∷ 120 ∷ [] else []) ++ put_number upper 0 (argument_bits long_int n) 16
piece_output (str s) = chars s

unfoldable pub format_of : List Piece → CString
format_of [] = []
format_of (p ∷ ps) = piece_format p ++ format_of ps

unfoldable pub arguments_of : List Piece → List Argument
arguments_of [] = []
arguments_of (p ∷ ps) = piece_arguments p ++ arguments_of ps

unfoldable pub output_of : List Piece → List ℕ
output_of [] = []
output_of (p ∷ ps) = piece_output p ++ output_of ps
