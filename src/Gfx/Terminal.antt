-- ===== src/Gfx/Terminal.antt =====
-- src/gfx/terminal.cpp: the grid of characters behind the kernel's terminal, and the cursor.
-- `drawn` is the sequence of the calls of the framebuffer's `draw_psf_char` and `fill_rect`, with the
-- arguments before their conversion to `u16`.
pub mod Grid
pub mod Scroll
pub mod Write
mod Tests
use fish_os.Base.{
  ℕ, zero, suc, ◌+◌, ◌-◌, ◌*◌, ◌/◌, ◌%◌, ◌^◌, Bool, true, false, List, [], ◌∷◌, ◌++◌, ◌==◌, leb,
  ltb, if◌then◌else◌, get_or, set, replicate,
}

pub data Draw : Type 0 where
  -- a character and its cell
  psf_char : ℕ → ℕ → ℕ → Draw
  -- x, y, width, height, colour
  rect : ℕ → ℕ → ℕ → ℕ → ℕ → Draw

pub record Terminal : Type 0 where
  pub buffer : List ℕ
  pub width_chars : ℕ
  pub height_chars : ℕ
  pub actual_x : ℕ
  pub actual_y : ℕ
  pub fg : ℕ
  pub bg : ℕ
  pub font_width : ℕ
  pub font_height : ℕ
  pub cursor_x : ℕ
  pub cursor_y : ℕ
  pub old_cursor_x : ℕ
  pub old_cursor_y : ℕ
  pub cursor_needs_undrawing : Bool
  pub drawn : List Draw

unfoldable pub get_char_at : ℕ → ℕ → Terminal → ℕ
get_char_at c_x c_y t = get_or t.buffer (c_y * t.width_chars + c_x) 0

unfoldable pub set_char_at : ℕ → ℕ → ℕ → Terminal → Terminal
set_char_at c_x c_y c t =
    let i = c_y * t.width_chars + c_x in
    if get_or t.buffer i 0 == c then t else record t {
      buffer = set t.buffer i c;
      drawn = t.drawn ++ (psf_char c c_x c_y ∷ []);
      cursor_needs_undrawing = false;
    }

unfoldable pub set_char_at_cursor : ℕ → Terminal → Terminal
set_char_at_cursor c t = set_char_at t.cursor_x t.cursor_y c t

-- `n` columns of the inner loop, from column `x` on
unfoldable pub scroll_row : ℕ → ℕ → ℕ → Terminal → Terminal
scroll_row zero x y t = t
scroll_row (suc n) x y t = scroll_row n (x + 1) y (set_char_at x y (get_char_at x (y + 1) t) t)

unfoldable pub scroll_rows : ℕ → ℕ → Terminal → Terminal
scroll_rows zero y t = t
scroll_rows (suc n) y t = scroll_rows n (y + 1) (scroll_row t.width_chars 0 y t)

unfoldable pub clear_row : ℕ → ℕ → ℕ → Terminal → Terminal
clear_row zero x y t = t
clear_row (suc n) x y t = clear_row n (x + 1) y (set_char_at x y 32 t)

unfoldable pub scroll : Terminal → Terminal
scroll t =
    let last = (t.height_chars + 2 ^ 64 - 1) % 2 ^ 64 in
    record (clear_row t.width_chars 0 last (scroll_rows last 0 t)) { cursor_needs_undrawing = true }

unfoldable pub bar : ℕ → ℕ → ℕ → Terminal → Draw
bar x y colour t =
    rect (x * t.font_width + 1 + t.actual_x) (y * t.font_height + t.actual_y) 1 t.font_height colour

unfoldable pub redraw_cursor : Terminal → Terminal
redraw_cursor t =
    let old =
      if t.cursor_needs_undrawing then bar t.old_cursor_x t.old_cursor_y t.bg t ∷ [] else [] in
    record t {
      drawn = t.drawn ++ (old ++ (bar t.cursor_x t.cursor_y t.fg t ∷ []));
      old_cursor_x = t.cursor_x;
      old_cursor_y = t.cursor_y;
    }

-- `a - b` on `usize`
unfoldable pub sub_usize : ℕ → ℕ → ℕ
sub_usize a b = (a + 2 ^ 64 - b) % 2 ^ 64

-- the constructor on a screen of that size; what the memory held in the fields it does not set
unfoldable pub new_terminal : ℕ → ℕ → Bool → ℕ → ℕ → Terminal
new_terminal fb_width fb_height undrawing old_x old_y =
    let width = fb_width / 2 in
    let height = fb_height in
    let actual_width = sub_usize (sub_usize width 4) 4 in
    let actual_height = sub_usize (sub_usize height 4) 4 in
    let width_chars = actual_width / 8 in
    let height_chars = actual_height / 16 in
    redraw_cursor (record {
      buffer = replicate (width_chars * height_chars) 32;
      width_chars = width_chars;
      height_chars = height_chars;
      actual_x = 4;
      actual_y = 4;
      fg = 0xfcfcfc;
      bg = 0x232627;
      font_width = 8;
      font_height = 16;
      cursor_x = 0;
      cursor_y = 0;
      old_cursor_x = old_x;
      old_cursor_y = old_y;
      cursor_needs_undrawing = undrawing;
      drawn =
          rect 4 4 actual_width actual_height 0x232627
          ∷ rect 0 0 width 4 0x232627
          ∷ rect 0 (sub_usize height 4) width 4 0x232627
          ∷ rect 0 4 4 actual_height 0x232627
          ∷ rect (sub_usize width 4) 4 4 actual_height 0x232627
          ∷ [];
    })

-- the switch of `write_char`, but for the backspace, which returns
unfoldable pub put : ℕ → Terminal → Terminal
put c t =
    if c == 13
    then record t { cursor_x = 0 }
    else if c == 10
    then record t { cursor_x = 0; cursor_y = t.cursor_y + 1; cursor_needs_undrawing = true }
    else let t' = set_char_at_cursor c t in record t' { cursor_x = t'.cursor_x + 1 }

unfoldable pub wrap : Terminal → Terminal
wrap t =
    if leb t.width_chars t.cursor_x then record t { cursor_x = 0; cursor_y = t.cursor_y + 1 } else t

-- the row is above 0 where it is decremented
unfoldable pub scroll_down : Terminal → Terminal
scroll_down t =
    if leb t.height_chars t.cursor_y
    then (let t' = scroll t in record t' { cursor_y = t'.cursor_y - 1 })
    else t

unfoldable pub backspace : Terminal → Terminal
backspace t =
    if ltb 0 t.cursor_x
    then (let back = set_char_at_cursor 32 (record t { cursor_x = t.cursor_x - 1 }) in
        redraw_cursor (record back { cursor_needs_undrawing = true }))
    else record t { cursor_needs_undrawing = false }

unfoldable pub write_char : ℕ → Terminal → Terminal
write_char c t =
    let t' = redraw_cursor (scroll_down (wrap (put c t))) in
    if c == 8 then backspace t else record t' { cursor_needs_undrawing = true }
