-- ===== src/Klib/Printf/Directives.antt =====
-- src/klib/cstdio.cpp, `vprintf`: the directives, flag by flag.
use fish_os.Base.{
  ℕ, suc, ◌+◌, ◌≡◌, refl, sym, ◌∙◌, Bool, true, false, List, ◌∷◌, ◌++◌, some, if◌then◌else◌, length,
  get_or, arith, get_or-append_right,
}
use fish_os.Klib.Cstring.{CString}
use fish_os.Klib.Printf.Format.{
  Argument, number, pointer, Directive, directive_at, conversion, take_number, put_text,
  print_number, print_text, directive,
}
use fish_os.Klib.Printf.Pieces.{
  dec, hexadecimal, str, flags, piece_format, piece_arguments, argument_bits, piece_output,
}

-- the character at an index behind a prefix
pub at_index :
    (pre rest : List ℕ) (j i : ℕ) → i ≡ length pre + j → get_or (pre ++ rest) i 0 ≡ get_or rest j 0
at_index pre rest j i e = get_or-append_right pre rest i j 0 (sym e)

module _ (rounds : ℕ) (format : CString) (d : Directive) (args : List Argument) where
  directive-hash :
      get_or format d.i 0 ≡ 35
      → directive (suc rounds) format d args
        ≡ directive rounds format (record d { i = d.i + 1; alt_form = true }) args
  unfolding directive conversion
  directive-hash e = rw (directive, e) refl

  directive-long :
      get_or format d.i 0 ≡ 108
      → directive (suc rounds) format d args
        ≡ directive rounds format (record d { i = d.i + 1; long_int = true }) args
  unfolding directive conversion
  directive-long e = rw (directive, e) refl

  directive-hex :
      (upper : Bool)
      → get_or format d.i 0 ≡ (if upper then 88 else 120)
      → directive (suc rounds) format d args ≡ print_number true upper d args
  unfolding directive conversion
  directive-hex true e = rw (directive, e) refl
  directive-hex false e = rw (directive, e) refl

  directive-decimal :
      get_or format d.i 0 ≡ 100
      → directive (suc rounds) format d args ≡ print_number false false d args
  unfolding directive conversion
  directive-decimal e = rw (directive, e) refl

  directive-string :
      get_or format d.i 0 ≡ 115 → directive (suc rounds) format d args ≡ print_text d args
  unfolding directive conversion
  directive-string e = rw (directive, e) refl

-- a directive that prints `out` and goes on behind `piece` with the arguments `rest`
abbrev pub Prints : CString → ℕ → CString → List Argument → List ℕ → List Argument → Type 0
Prints format i piece args out rest =
    (end : ℕ) × ((rounds : ℕ)
      → directive (suc (suc (suc rounds))) format (directive_at (i + 1)) args
        ≡ some (out, end, rest))
    × (end + 1 ≡ i + length piece)

module _ (pre later : CString) (i : ℕ) (rest : List Argument) (here : i ≡ length pre) where
  pub hexadecimal-Prints :
      (upper alt_form long_int : Bool) (n : ℕ)
      → let p = hexadecimal upper alt_form long_int n in
        Prints
          (pre ++ (piece_format p ++ later))
          i
          (piece_format p)
          (piece_arguments p ++ rest)
          (piece_output p)
          rest
  unfolding piece_format piece_arguments piece_output flags print_number take_number argument_bits
      fish_os.Klib.Printf.put_hex
  hexadecimal-Prints upper false false n =
      let conv : ℕ = (if upper then 88 else 120) in
      let f : List ℕ = pre ++ (37 ∷ (conv ∷ later)) in
      let at1 = at_index pre (37 ∷ (conv ∷ later)) 1 (i + 1) (omega arith) in
      (
        i + 1,
        λ r. directive-hex (suc (suc r)) f (directive_at (i + 1)) (number n ∷ rest) upper at1,
        omega arith,
      )
  hexadecimal-Prints upper false true n =
      let conv : ℕ = (if upper then 88 else 120) in
      let tail : List ℕ = 37 ∷ (108 ∷ (conv ∷ later)) in
      let d = directive_at (i + 1) in
      let args = number n ∷ rest in
      (
        i + 1 + 1,
        λ r.
            directive-long (suc (suc r)) (pre ++ tail) d args
              (at_index pre tail 1 (i + 1) (omega arith))
            ∙ directive-hex (suc r) (pre ++ tail) (record d { i = i + 1 + 1; long_int = true }) args
                upper (at_index pre tail 2 (i + 1 + 1) (omega arith)),
        omega arith,
      )
  hexadecimal-Prints upper true false n =
      let conv : ℕ = (if upper then 88 else 120) in
      let tail : List ℕ = 37 ∷ (35 ∷ (conv ∷ later)) in
      let d = directive_at (i + 1) in
      let args = number n ∷ rest in
      (
        i + 1 + 1,
        λ r.
            directive-hash (suc (suc r)) (pre ++ tail) d args
              (at_index pre tail 1 (i + 1) (omega arith))
            ∙ directive-hex (suc r) (pre ++ tail) (record d { i = i + 1 + 1; alt_form = true }) args
                upper (at_index pre tail 2 (i + 1 + 1) (omega arith)),
        omega arith,
      )
  hexadecimal-Prints upper true true n =
      let conv : ℕ = (if upper then 88 else 120) in
      let tail : List ℕ = 37 ∷ (35 ∷ (108 ∷ (conv ∷ later))) in
      let d = directive_at (i + 1) in
      let d1 : Directive = record d { i = i + 1 + 1; alt_form = true } in
      let args = number n ∷ rest in
      (
        i + 1 + 1 + 1,
        λ r.
            directive-hash (suc (suc r)) (pre ++ tail) d args
              (at_index pre tail 1 (i + 1) (omega arith))
            ∙ directive-long (suc r) (pre ++ tail) d1 args
                (at_index pre tail 2 (i + 1 + 1) (omega arith))
            ∙ directive-hex r (pre ++ tail) (record d1 { i = i + 1 + 1 + 1; long_int = true }) args
                upper (at_index pre tail 3 (i + 1 + 1 + 1) (omega arith)),
        omega arith,
      )

  pub dec-Prints :
      (long_int : Bool) (n : ℕ)
      → let p = dec long_int n in
        Prints
          (pre ++ (piece_format p ++ later))
          i
          (piece_format p)
          (piece_arguments p ++ rest)
          (piece_output p)
          rest
  unfolding piece_format piece_arguments piece_output flags print_number take_number argument_bits
  dec-Prints false n =
      let tail : List ℕ = 37 ∷ (100 ∷ later) in
      (
        i + 1,
        λ r.
            directive-decimal (suc (suc r)) (pre ++ tail) (directive_at (i + 1)) (number n ∷ rest)
              (at_index pre tail 1 (i + 1) (omega arith)),
        omega arith,
      )
  dec-Prints true n =
      let tail : List ℕ = 37 ∷ (108 ∷ (100 ∷ later)) in
      let d = directive_at (i + 1) in
      let args = number n ∷ rest in
      (
        i + 1 + 1,
        λ r.
            directive-long (suc (suc r)) (pre ++ tail) d args
              (at_index pre tail 1 (i + 1) (omega arith))
            ∙ directive-decimal (suc r) (pre ++ tail) (record d { i = i + 1 + 1; long_int = true })
                args (at_index pre tail 2 (i + 1 + 1) (omega arith)),
        omega arith,
      )

  pub str-Prints :
      (s : List ℕ)
      → let p = str s in
        Prints
          (pre ++ (piece_format p ++ later))
          i
          (piece_format p)
          (piece_arguments p ++ rest)
          (piece_output p)
          rest
  unfolding piece_format piece_arguments piece_output print_text put_text
  str-Prints s =
      let tail : List ℕ = 37 ∷ (115 ∷ later) in
      (
        i + 1,
        λ r.
            directive-string (suc (suc r)) (pre ++ tail) (directive_at (i + 1)) (pointer s ∷ rest)
              (at_index pre tail 1 (i + 1) (omega arith)),
        omega arith,
      )
