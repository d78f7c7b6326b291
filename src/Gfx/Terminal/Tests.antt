-- ===== src/Gfx/Terminal/Tests.antt =====
-- A terminal of three columns and two rows.
use fish_os.Base.{◌≡◌, refl, false, [], ◌∷◌, arith}
use fish_os.Gfx.Terminal.{
  Terminal, get_char_at, set_char_at, set_char_at_cursor, scroll_row, scroll_rows, clear_row,
  scroll, bar, redraw_cursor, sub_usize, new_terminal, put, wrap, scroll_down, backspace,
  write_char,
}
use fish_os.Gfx.Terminal.Grid.{IsValid, shown, Shown}
use fish_os.Gfx.Terminal.Scroll.{get_char_at-scroll}
use fish_os.Gfx.Terminal.Write.{write_char-IsValid, new_terminal-IsValid}

evaluate : Unit {0}
unfolding get_char_at set_char_at set_char_at_cursor scroll_row scroll_rows clear_row scroll bar
    redraw_cursor sub_usize new_terminal put wrap scroll_down backspace write_char shown Shown
evaluate = tt

abbrev small : Terminal
small = new_terminal 66 40 false 0 0

small-IsValid : IsValid small × Shown small
small-IsValid =
    new_terminal-IsValid 66 40 false 0 0 (omega arith) (omega arith) (omega arith) (omega arith)

-- `ab`, a newline and `cde` on a terminal of three columns and two rows scrolls it
abbrev typed : Terminal
typed =
    write_char 101
      (write_char 100 (write_char 99 (write_char 10 (write_char 98 (write_char 97 small)))))

typed-buffer : typed.buffer ≡ 99 ∷ 100 ∷ 101 ∷ 32 ∷ 32 ∷ 32 ∷ []
unfolding evaluate
typed-buffer = refl

get_char_at-scroll_example : get_char_at 1 0 (scroll small) ≡ get_char_at 1 1 small
unfolding new_terminal redraw_cursor sub_usize
get_char_at-scroll_example =
    get_char_at-scroll 1 0 small (let (v, _) = small-IsValid in v.grid) (omega arith) (omega arith)

write_char-IsValid_example :
    IsValid (write_char 98 small)
    × Shown (write_char 98 small)
    × ((write_char 98 small).width_chars ≡ small.width_chars)
    × ((write_char 98 small).height_chars ≡ small.height_chars)
write_char-IsValid_example =
    write_char-IsValid 98 small (let (v, _) = small-IsValid in v) (let (_, s) = small-IsValid in s)
