-- ===== src/User/Print/Order.antt =====
-- userspace/test/src/print.cpp: the characters are written in the order in which they are put.
use fish_os.Base.{
  ◌^◌, ℕ, zero, suc, ◌+◌, ◌≤◌, ◌<◌, ◌≡◌, ◌≢◌, refl, sym, ap, ◌∙◌, Bool-cases, inl, inr, ◌||◌, List,
  [], ◌∷◌, ◌++◌, some, ◌==◌, length, set, length-set, take, append_assoc, append_nil, arith,
}
use fish_os.Klib.Cstring.{CString}
use fish_os.Klib.Cstring.Compare.{chars}
use fish_os.Klib.Printf.Pieces.{Piece, IsPrintable, format_of, arguments_of, output_of}
use fish_os.Klib.Printf.Output.{vprintf-output_of}
use fish_os.User.Print.{Printer, flush_print_buffer, putchar, put_all, put_string, puts, vprintf}

-- all that was written
unfoldable pub written : List (List ℕ) → List ℕ
written [] = []
written (w ∷ ws) = w ++ written ws

-- what was written and what waits in the buffer
unfoldable pub text : Printer → List ℕ
text p = written p.writes ++ take p.index p.buffer

-- the buffer has room for a character
pub record IsValid (p : Printer) : Type 0 where
  pub room : p.index < 1024
  pub size : length p.buffer ≡ 1024

written-append : (ws : List (List ℕ)) (w : List ℕ) → written (ws ++ w ∷ []) ≡ written ws ++ w
unfolding written
written-append [] w = append_nil w
written-append (v ∷ ws) w =
    ap (λ l. v ++ l) (written-append ws w) ∙ sym (append_assoc v (written ws) w)

take-set : (xs : List ℕ) (i c : ℕ) → i < length xs → take (i + 1) (set xs i c) ≡ take i xs ++ c ∷ []
take-set [] i c h = absurd (omega arith)
take-set (x ∷ xs) zero c h = refl
take-set (x ∷ xs) (suc i) c h =
    let next : suc i + 1 ≡ suc (i + 1) = omega arith in
    rw next (ap (λ l. x ∷ l) (take-set xs i c (omega arith)))

flush-IsValid : (p : Printer) → p.index ≤ 1024 → length p.buffer ≡ 1024 → p.index ≢ 1024 → IsValid p
flush-IsValid p h size ne = record { room = omega (arith, ne); size = size }

flush-text : (p : Printer) → text (flush_print_buffer p) ≡ text p
unfolding text flush_print_buffer
flush-text p = elim (Bool-cases (p.index == 0)) [
  | inl empty ↦ rw (flush_print_buffer, empty) refl
  | inr some_left ↦
      rw (flush_print_buffer, some_left)
        (append_nil _ ∙ written-append p.writes (take p.index p.buffer))
]

index-flush : (p : Printer) → (flush_print_buffer p).index ≡ 0
unfolding flush_print_buffer
index-flush p = ground arith

buffer-flush : (p : Printer) → (flush_print_buffer p).buffer ≡ p.buffer
unfolding flush_print_buffer
buffer-flush p = ground arith

-- the printer with a character in the buffer, before the test whether to flush
abbrev stored : ℕ → Printer → Printer
stored c p = record p { buffer = set p.buffer p.index c; index = p.index + 1 }

stored-text : (c : ℕ) (p : Printer) → IsValid p → text (stored c p) ≡ text p ++ c ∷ []
unfolding text
stored-text c p ok =
    ap (λ l. written p.writes ++ l) (take-set p.buffer p.index c (omega (arith, ok.room, ok.size)))
    ∙ sym (append_assoc (written p.writes) (take p.index p.buffer) (c ∷ []))

putchar-text : (c : ℕ) (p : Printer) → IsValid p → text (putchar c p) ≡ text p ++ c ∷ []
unfolding putchar
putchar-text c p ok = elim (Bool-cases (p.index + 1 == 1024 || c == 10)) [
  | inl full ↦ rw (putchar, full) (flush-text (stored c p) ∙ stored-text c p ok)
  | inr not_full ↦ rw (putchar, not_full) (stored-text c p ok)
]

putchar-IsValid : (c : ℕ) (p : Printer) → IsValid p → IsValid (putchar c p)
unfolding putchar
putchar-IsValid c p ok =
    let size = length-set p.buffer p.index c ∙ ok.size in
    elim (Bool-cases (p.index + 1 == 1024 || c == 10)) [
      | inl full ↦
          rw (putchar, full)
            (record {
              room = omega (arith, index-flush (stored c p));
              size = ap length (buffer-flush (stored c p)) ∙ size;
            })
      | inr not_full ↦
          rw (putchar, not_full) (record { room = let r = ok.room in ground arith; size = size })
    ]

put_all-IsValid : (cs : List ℕ) (p : Printer) → IsValid p → IsValid (put_all cs p)
unfolding put_all
put_all-IsValid [] p ok = ok
put_all-IsValid (c ∷ cs) p ok = put_all-IsValid cs (putchar c p) (putchar-IsValid c p ok)

put_all-text : (cs : List ℕ) (p : Printer) → IsValid p → text (put_all cs p) ≡ text p ++ cs
unfolding put_all
put_all-text [] p ok = sym (append_nil (text p))
put_all-text (c ∷ cs) p ok =
    put_all-text cs (putchar c p) (putchar-IsValid c p ok)
    ∙ ap (λ l. l ++ cs) (putchar-text c p ok)
    ∙ append_assoc (text p) (c ∷ []) cs

put_string-put_all : (str : CString) (p : Printer) → put_string str p ≡ put_all (chars str) p
unfolding put_string put_all chars
put_string-put_all [] p = refl
put_string-put_all (c ∷ str) p = elim (Bool-cases (c == 0)) [
  | inl nul ↦ rw nul refl
  | inr char ↦ rw char (put_string-put_all str (putchar c p))
]

index-newline : (p : Printer) → (putchar 10 p).index ≡ 0
unfolding putchar
index-newline p = elim (Bool-cases (p.index + 1 == 1024)) [
  | inl full ↦ rw (putchar, full) (index-flush (stored 10 p))
  | inr not_full ↦ rw (putchar, not_full) (index-flush (stored 10 p))
]

written-all : (p : Printer) → p.index ≡ 0 → written p.writes ≡ text p
unfolding text
written-all p e = rw e (sym (append_nil (written p.writes)))

-- From a buffer with room, `puts` leaves nothing in the buffer: what was written before, what waited in the
-- buffer, the characters of the string and a newline are written in this order, and there is room again.
pub puts-written :
    (str : CString) (p : Printer)
    → IsValid p
    → (written (puts str p).writes ≡ (text p ++ chars str) ++ 10 ∷ [])
      × ((puts str p).index ≡ 0)
      × IsValid (puts str p)
unfolding puts
puts-written str p ok =
    let before : Printer = put_all (chars str) p in
    let ready = put_all-IsValid (chars str) p ok in
    rw (put_string-put_all str p) (
      written-all (putchar 10 before) (index-newline before)
          ∙ putchar-text 10 before ready
          ∙ ap (λ l. l ++ 10 ∷ []) (put_all-text (chars str) p ok),
      index-newline before,
      putchar-IsValid 10 before ready,
    )

-- From a buffer with room, on a format made of pieces with an argument for each, where the format and the
-- pieces are shorter than 2 ^ 31, `vprintf` returns the number of the characters of the pieces, which follow what was put before, and there is room again.
pub vprintf-text :
    (ps : List Piece) (p : Printer)
    → IsPrintable ps
    → length (format_of ps) < 2 ^ 31
    → length (output_of ps) < 2 ^ 31
    → IsValid p
    → (p' : Printer) × (vprintf (format_of ps) (arguments_of ps) p
        ≡ some (length (output_of ps), p'))
      × (text p' ≡ text p ++ output_of ps)
      × IsValid p'
unfolding vprintf
vprintf-text ps p printable short_format short_output ok = (
  put_all (output_of ps) p,
  rw (vprintf, vprintf-output_of ps printable short_format short_output) refl,
  put_all-text (output_of ps) p ok,
  put_all-IsValid (output_of ps) p ok,
)
