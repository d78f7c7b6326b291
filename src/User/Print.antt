-- ===== src/User/Print.antt =====
-- userspace/test/src/print.cpp: the printing of a program, which goes through a buffer.
-- `writes` lists the calls of `write` with their characters. The text of `vprintf` is that of
-- src/klib/cstdio.cpp, so its characters are those of the model of that; here they go to the buffer.
mod Order
mod Tests
use fish_os.Base.{
  ℕ, ◌+◌, Bool, ◌||◌, List, [], ◌∷◌, ◌++◌, Option, none, some, ◌==◌, if◌then◌else◌, set, take,
}
use fish_os.Klib.Cstring.{CString}
use fish_os.Klib.Printf.Format.{Argument}
use fish_os.Klib.Printf.Format

-- `print_buffer`, `print_buffer_index`, and what was written
pub record Printer : Type 0 where
  pub buffer : List ℕ
  pub index : ℕ
  pub writes : List (List ℕ)

unfoldable pub flush_print_buffer : Printer → Printer
flush_print_buffer p =
    if p.index == 0
    then p
    else record p { index = 0; writes = p.writes ++ take p.index p.buffer ∷ [] }

unfoldable pub putchar : ℕ → Printer → Printer
unfolding flush_print_buffer
putchar c p =
    let p' : Printer = record p { buffer = set p.buffer p.index c; index = p.index + 1 } in
    if p'.index == 1024 || c == 10 then flush_print_buffer p' else p'

-- `putchar` of one character after another
unfoldable pub put_all : List ℕ → Printer → Printer
put_all [] p = p
put_all (c ∷ cs) p = put_all cs (putchar c p)

-- the end of the list is a NUL too
unfoldable pub put_string : CString → Printer → Printer
put_string [] p = p
put_string (c ∷ str) p = let rest = put_string str (putchar c p) in if c == 0 then p else rest

unfoldable pub puts : CString → Printer → Printer
puts str p = putchar 10 (put_string str p)

-- `written`, and the printer
unfoldable pub vprintf : CString → List Argument → Printer → Option (ℕ × Printer)
vprintf format args p = elim (Format.vprintf format args) [
  | none ↦ none
  | some (out, written) ↦ some (written, put_all out p)
]
