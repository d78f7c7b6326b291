-- ===== src/Klib/Printf/Output.antt =====
-- src/klib/cstdio.cpp, `vprintf`: the output of a format and its arguments.
use fish_os.Base.{
  ℕ, zero, suc, ◌+◌, ◌-◌, ◌^◌, ◌≤◌, ◌<◌, ◌≡◌, ◌≢◌, refl, sym, ap, ◌∙◌, true, false, List, [], ◌∷◌,
  ◌++◌, some, ◌==◌, lt→ltb, if◌then◌else◌, length, get_or, arith, length-append, append_assoc,
  append_nil,
}
use fish_os.Klib.Cstring.{CString}
use fish_os.Klib.Cstring.Compare.{chars}
use fish_os.Klib.Printf.{put_number, put_hex}
use fish_os.Klib.Printf.Format.{
  Argument, number, pointer, directive_at, directive, vprintf_from, vprintf,
}
use fish_os.Klib.Printf.Pieces.{
  Piece, literal, dec, hexadecimal, str, IsPrintable, flags, piece_format, piece_arguments,
  argument_bits, piece_output, format_of, arguments_of, output_of,
}
use fish_os.Klib.Printf.Directives.{at_index, Prints, hexadecimal-Prints, dec-Prints, str-Prints}

module _ (rounds : ℕ) (f : CString) (i : ℕ) (args rest : List Argument) (out later : List ℕ) where
  vprintf_from-directive :
      (end : ℕ)
      → get_or f i 0 ≡ 37
      → directive (length f + 1) f (directive_at (i + 1)) args ≡ some (out, end, rest)
      → vprintf_from rounds f (end + 1) rest ≡ some later
      → vprintf_from (suc rounds) f i args ≡ some (out ++ later)
  unfolding vprintf_from
  vprintf_from-directive end percent run next =
      let a : (get_or f i 0 == 0) ≡ false = ground (arith, percent) in
      let b : (get_or f i 0 == 37) ≡ true = ground (arith, percent) in
      rw (vprintf_from, a, b, run, next) refl

  vprintf_from-literal :
      (c : ℕ)
      → get_or f i 0 ≡ c
      → c ≢ 0
      → c ≢ 37
      → vprintf_from rounds f (i + 1) args ≡ some later
      → vprintf_from (suc rounds) f i args ≡ some (c ∷ later)
  unfolding vprintf_from
  vprintf_from-literal c read n0 n37 next =
      let a : (get_or f i 0 == 0) ≡ false = ground (arith, read, n0) in
      let b : (get_or f i 0 == 37) ≡ false = ground (arith, read, n37) in
      rw (vprintf_from, a, b, next) (ap (λ x. some (x ∷ later)) read)

-- a piece that is a directive, and those behind it
directive-piece :
    (rounds i : ℕ) (f pre piece behind : CString) (args rest : List Argument) (out later : List ℕ)
    → f ≡ pre ++ ((37 ∷ piece) ++ behind)
    → i ≡ length pre
    → 0 < length piece
    → Prints (pre ++ ((37 ∷ piece) ++ behind)) i (37 ∷ piece) args out rest
    → vprintf_from rounds f (length (pre ++ (37 ∷ piece))) rest ≡ some later
    → vprintf_from (suc rounds) f i args ≡ some (out ++ later)
directive-piece rounds i f pre piece behind args rest out later e here long (end, run, stop) next =
    let all = ap (λ (l : List ℕ). length l) e in
    let size = length-append pre ((37 ∷ piece) ++ behind) in
    let size' = length-append (37 ∷ piece) behind in
    let r = length f - 2 in
    let enough : length f + 1 ≡ suc (suc (suc r)) = omega (arith, all, size, size', long) in
    let after : length (pre ++ (37 ∷ piece)) ≡ end + 1 =
      omega (arith, length-append pre (37 ∷ piece), stop, here) in
    vprintf_from-directive rounds f i args rest out later end
      (ap (λ (l : List ℕ). get_or l i 0) e
        ∙ at_index pre ((37 ∷ piece) ++ behind) 0 i (omega arith))
      (ap (λ n. directive n f (directive_at (i + 1)) args) enough
        ∙ ap (λ (l : List ℕ). directive (suc (suc (suc r))) l (directive_at (i + 1)) args) e
        ∙ run r)
      (ap (λ n. vprintf_from rounds f n rest) (sym after) ∙ next)

behind_end : (xs : List ℕ) → get_or xs (length xs) 0 ≡ 0
behind_end [] = refl
behind_end (x ∷ xs) = behind_end xs

vprintf_from-end :
    (rounds i : ℕ) (f : CString) → get_or f i 0 ≡ 0 → vprintf_from (suc rounds) f i [] ≡ some []
unfolding vprintf_from
vprintf_from-end rounds i f e =
    let nul : (get_or f i 0 == 0) ≡ true = ground (arith, e) in rw (vprintf_from, nul) refl

pieces-printed :
    (ps : List Piece) (rounds i : ℕ) (f pre : CString)
    → f ≡ pre ++ format_of ps
    → i ≡ length pre
    → length ps < rounds
    → IsPrintable ps
    → vprintf_from rounds f i (arguments_of ps) ≡ some (output_of ps)
unfolding IsPrintable format_of arguments_of output_of piece_format piece_arguments piece_output
    flags put_hex
pieces-printed ps zero i f pre e here less ok = absurd (omega arith)
pieces-printed [] (suc rounds) i f pre e here less ok = vprintf_from-end rounds i f (
    ap (λ (l : List ℕ). get_or l i 0) (e ∙ append_nil pre)
    ∙ ap (λ n. get_or pre n 0) here
    ∙ behind_end pre)
pieces-printed (literal c ∷ ps) (suc rounds) i f pre e here less ((n0, n37), ok) =
    vprintf_from-literal rounds f i (arguments_of ps) [] [] (output_of ps) c
      (ap (λ (l : List ℕ). get_or l i 0) e ∙ at_index pre (c ∷ format_of ps) 0 i (omega arith)) n0
      n37
      (pieces-printed ps rounds (i + 1) f (pre ++ (c ∷ []))
        (e ∙ sym (append_assoc pre (c ∷ []) (format_of ps)))
        (omega (arith, length-append pre (c ∷ []), here)) (omega arith) ok)
pieces-printed (str s ∷ ps) (suc rounds) i f pre e here less ok =
    directive-piece rounds i f pre (115 ∷ []) (format_of ps) (pointer s ∷ arguments_of ps)
      (arguments_of ps) (chars s) (output_of ps) e here (omega arith)
      (str-Prints pre (format_of ps) i (arguments_of ps) here s)
      (pieces-printed ps rounds (length (pre ++ (37 ∷ (115 ∷ [])))) f (pre ++ (37 ∷ (115 ∷ [])))
        (e ∙ sym (append_assoc pre (37 ∷ (115 ∷ [])) (format_of ps))) refl (omega arith) ok)
pieces-printed (dec long_int n ∷ ps) (suc rounds) i f pre e here less ok =
    directive-piece rounds i f pre (flags false long_int ++ (100 ∷ [])) (format_of ps)
      (number n ∷ arguments_of ps) (arguments_of ps)
      (put_number false 0 (argument_bits long_int n) 10) (output_of ps) e here
      (omega (arith, length-append (flags false long_int) (100 ∷ [])))
      (dec-Prints pre (format_of ps) i (arguments_of ps) here long_int n)
      (pieces-printed ps rounds (length (pre ++ (37 ∷ (flags false long_int ++ (100 ∷ []))))) f
        (pre ++ (37 ∷ (flags false long_int ++ (100 ∷ []))))
        (e ∙ sym (append_assoc pre (37 ∷ (flags false long_int ++ (100 ∷ []))) (format_of ps))) refl
        (omega arith) ok)
pieces-printed (hexadecimal upper alt_form long_int n ∷ ps) (suc rounds) i f pre e here less ok =
    directive-piece rounds i f pre (flags alt_form long_int ++ ((if upper then 88 else 120) ∷ []))
      (format_of ps) (number n ∷ arguments_of ps) (arguments_of ps)
      ((if alt_form then 48 ∷ 120 ∷ [] else []) ++ put_number upper 0 (argument_bits long_int n) 16)
      (output_of ps) e here
      (omega (arith, length-append (flags alt_form long_int) ((if upper then 88 else 120) ∷ [])))
      (hexadecimal-Prints pre (format_of ps) i (arguments_of ps) here upper alt_form long_int n)
      (pieces-printed ps rounds
        (length (pre ++ (37 ∷ (flags alt_form long_int ++ ((if upper then 88 else 120) ∷ []))))) f
        (pre ++ (37 ∷ (flags alt_form long_int ++ ((if upper then 88 else 120) ∷ []))))
        (e
          ∙ sym (
              append_assoc pre
                (37 ∷ (flags alt_form long_int ++ ((if upper then 88 else 120) ∷ [])))
                (format_of ps)))
        refl (omega arith) ok)

length-pieces : (ps : List Piece) → length ps ≤ length (format_of ps)
unfolding format_of piece_format
length-pieces [] = omega arith
length-pieces (literal c ∷ ps) = omega (arith, length-pieces ps)
length-pieces (dec long_int n ∷ ps) =
    omega (arith, length-pieces ps, length-append (piece_format (dec long_int n)) (format_of ps))
length-pieces (hexadecimal upper alt_form long_int n ∷ ps) = omega (
  arith,
  length-pieces ps,
  length-append (piece_format (hexadecimal upper alt_form long_int n)) (format_of ps),
)
length-pieces (str s ∷ ps) = omega (arith, length-pieces ps)

-- On a format made of characters that are neither NUL nor a percent sign, of `%d` and of `%x` or `%X` with
-- any of the flags `#` and `l`, and of `%s`, with an argument for each, `vprintf` returns if the format and
-- the output are shorter than 2 ^ 31: it prints the pieces one after another, a number as `put_number` does
-- in base 10 or 16, behind `0x` for `#`, and returns their length.
pub vprintf-output_of :
    (ps : List Piece)
    → IsPrintable ps
    → length (format_of ps) < 2 ^ 31
    → length (output_of ps) < 2 ^ 31
    → vprintf (format_of ps) (arguments_of ps) ≡ some (output_of ps, length (output_of ps))
unfolding vprintf
vprintf-output_of ps ok short_format short_output =
    let run =
      pieces-printed ps (length (format_of ps) + 1) 0 (format_of ps) [] refl refl
        (omega (arith, length-pieces ps)) ok in
    rw
      (
        vprintf,
        run,
        lt→ltb (length (format_of ps)) (2 ^ 31) short_format,
        lt→ltb (length (output_of ps)) (2 ^ 31) short_output,
      )
      refl
