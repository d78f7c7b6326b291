-- ===== src/Klib/Printf/Format.antt =====
-- src/klib/cstdio.cpp: the formats of `vprintf`.
-- The characters of a format are below 128, and it is read behind its end as zeros. `none` is a conversion that the loop does not know, on which
-- it goes on for ever, an argument of another kind than the conversion asks for, or a text shorter
-- than its precision, or an `int` that overflows: `i` on a format, or `written` on an output, of 2 ^ 31
-- characters or more. Each call of `putchar` adds 1 to `written`, so it is the number of the characters put.
use fish_os.Base.{
  ℕ, zero, suc, ◌+◌, ◌-◌, ◌*◌, ◌%◌, ◌^◌, Bool, true, false, ◌&&◌, List, [], ◌∷◌, ◌++◌, Option, none,
  some, ◌==◌, ltb, leb, if◌then◌else◌, length, take, get_or,
}
use fish_os.Klib.Cstring.{CString}
use fish_os.Klib.Cstring.Compare.{chars}
use fish_os.Klib.Printf.{put_number, put_hex}

-- what `va_arg` reads: a number or what the memory holds from a pointer on
pub data Argument : Type 0 where
  number : ℕ → Argument
  pointer : List ℕ → Argument

-- the variables of one directive, with the index into the format
pub record Directive : Type 0 where
  pub i : ℕ
  pub alt_form : Bool
  pub long_int : Bool
  pub zero_pad : ℕ
  pub s_length : ℕ

abbrev pub directive_at : ℕ → Directive
directive_at i = record { i = i; alt_form = false; long_int = false; zero_pad = 0; s_length = 0 }

-- the cases of the `switch`
pub data Conversion : Type 0 where
  alternate : Conversion
  pad : Conversion
  long : Conversion
  dot : Conversion
  hex : Bool → Conversion
  decimal : Conversion
  string : Conversion
  unknown : Conversion

unfoldable pub conversion : ℕ → Conversion
conversion c =
    if c == 35
    then alternate
    else if c == 48
    then pad
    else if c == 108
    then long
    else if c == 46
    then dot
    else if c == 120
    then hex false
    else if c == 88
    then hex true
    else if c == 100
    then decimal
    else if c == 115
    then string
    else unknown

-- `c - '0'`, a number of 64 bits
unfoldable pub char_digit : ℕ → ℕ
char_digit c = (c + 2 ^ 64 - 48) % 2 ^ 64

-- the one or two digits behind a 0
unfoldable pub read_pad : CString → Directive → Directive
read_pad format d =
    let first = get_or format (d.i + 1) 0 in
    let second = get_or format (d.i + 2) 0 in
    if leb 48 second && leb second 57
    then record d { i = d.i + 3; zero_pad = (char_digit first * 10 + char_digit second) % 2 ^ 64 }
    else record d { i = d.i + 2; zero_pad = char_digit first }

-- the precision behind a dot, which is an argument
unfoldable pub read_precision :
    CString → Directive → List Argument → Option (Directive × List Argument)
read_precision format d args =
    if get_or format (d.i + 1) 0 == 42
    then elim args [
      | [] ↦ none
      | ◌∷◌ a rest ↦ elim a [
        | number n ↦ some (record d { i = d.i + 2; s_length = n % 2 ^ 64 }, rest)
        | pointer p ↦ none
      ]
    ]
    else some (record d { i = d.i + 1 }, args)

-- the number that a conversion takes
unfoldable pub take_number : Bool → List Argument → Option (ℕ × List Argument)
take_number long_int (number n ∷ rest) = some (if long_int then n % 2 ^ 64 else n % 2 ^ 32, rest)
take_number long_int _ = none

-- the characters of `%s`; a precision of 0 is none
unfoldable pub put_text : ℕ → List ℕ → Option (List ℕ)
put_text s_length str =
    if s_length == 0
    then some (chars str)
    else if leb s_length (length str)
    then some (take s_length str)
    else none

-- what a directive prints, where it ends, and the arguments left
abbrev pub Printed : Type 0
Printed = Option (List ℕ × ℕ × List Argument)

unfoldable pub print_number : Bool → Bool → Directive → List Argument → Printed
print_number is_hex upper d args = elim (take_number d.long_int args) [
  | none ↦ none
  | some (value, rest) ↦ some (
    if is_hex
        then put_hex upper d.alt_form d.zero_pad value
        else put_number false d.zero_pad value 10,
    d.i,
    rest,
  )
]

unfoldable pub print_text : Directive → List Argument → Printed
print_text d (pointer str ∷ rest) = elim (put_text d.s_length str) [
  | none ↦ none
  | some out ↦ some (out, d.i, rest)
]
print_text d _ = none

-- the inner loop: a round for each flag, and for ever on an unknown conversion
unfoldable pub directive : ℕ → CString → Directive → List Argument → Printed
directive zero format d args = none
directive (suc rounds) format d args = elim (conversion (get_or format d.i 0)) [
  | alternate ↦ directive rounds format (record d { i = d.i + 1; alt_form = true }) args
  | pad ↦ directive rounds format (read_pad format d) args
  | long ↦ directive rounds format (record d { i = d.i + 1; long_int = true }) args
  | dot ↦ elim (read_precision format d args) [
    | none ↦ none
    | some (d', rest) ↦ directive rounds format d' rest
  ]
  | hex upper ↦ print_number true upper d args
  | decimal ↦ print_number false false d args
  | string ↦ print_text d args
  | unknown ↦ directive rounds format d args
]

-- the outer loop from index `i` on; a flag takes a character, so a round for each is enough
unfoldable pub vprintf_from : ℕ → CString → ℕ → List Argument → Option (List ℕ)
vprintf_from zero format i args = none
vprintf_from (suc rounds) format i args =
    let c = get_or format i 0 in
    elim (c == 0) [
      | true ↦ some []
      | false ↦ elim (c == 37) [
        | true ↦ elim (directive (length format + 1) format (directive_at (i + 1)) args) [
          | none ↦ none
          | some (out, end, rest) ↦ elim (vprintf_from rounds format (end + 1) rest) [
            | none ↦ none
            | some later ↦ some (out ++ later)
          ]
        ]
        | false ↦ elim (vprintf_from rounds format (i + 1) args) [
          | none ↦ none
          | some later ↦ some (c ∷ later)
        ]
      ]
    ]

-- the characters put, and `written`, where `i` and `written` stay below 2 ^ 31
unfoldable pub vprintf : CString → List Argument → Option (List ℕ × ℕ)
vprintf format args = elim (vprintf_from (length format + 1) format 0 args) [
  | none ↦ none
  | some out ↦
      if ltb (length format) (2 ^ 31) && ltb (length out) (2 ^ 31)
      then some (out, length out)
      else none
]
