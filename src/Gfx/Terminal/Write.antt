-- ===== src/Gfx/Terminal/Write.antt =====
-- src/gfx/terminal.cpp: `write_char` keeps the cursor in the grid and the screen right.
use fish_os.Base.{
  ℕ, ◌+◌, ◌-◌, ◌*◌, ◌/◌, ◌^◌, ◌≤◌, ◌<◌, ◌≡◌, refl, ◌∙◌, Bool, true, false, Bool-cases, inl, inr,
  List, [], ◌∷◌, arith, ltb, leb, ◌==◌, replicate, length-replicate,
}
use fish_os.Gfx.Terminal.{
  Terminal, set_char_at, set_char_at_cursor, bar, redraw_cursor, scroll, put, wrap, scroll_down,
  backspace, write_char, new_terminal, sub_usize,
}
use fish_os.Gfx.Terminal.Grid.{
  IsGrid, IsValid, Edited, Edited-IsGrid, Shown, shown, shown-append, set_char_at-Edited,
}
use fish_os.Gfx.Terminal.Scroll.{scroll-Edited}

-- what every step of a write keeps: the size and a right screen
record Kept (t t' : Terminal) : Type 0 where
  grid : IsGrid t → IsGrid t'
  width : t'.width_chars ≡ t.width_chars
  height : t'.height_chars ≡ t.height_chars
  screen : Shown t → Shown t'

Kept-compose : {a b c : Terminal} → Kept a b → Kept b c → Kept a c
Kept-compose p q = record {
  grid = λ g. q.grid (p.grid g);
  width = q.width ∙ p.width;
  height = q.height ∙ p.height;
  screen = λ h. q.screen (p.screen h);
}

Edited-Kept : {t t' : Terminal} → Edited t t' → Kept t t'
Edited-Kept e = record {
  grid = Edited-IsGrid e;
  width = e.width;
  height = e.height;
  screen = e.screen;
}

-- the cursor and the flag are no part of the grid
moved-Kept :
    (t : Terminal) (x y : ℕ) (undrawing : Bool)
    → Kept t (record t { cursor_x = x; cursor_y = y; cursor_needs_undrawing = undrawing })
unfolding Shown
moved-Kept t x y undrawing = record {
  grid = λ g. record { area = g.area; small = g.small; wide = g.wide; tall = g.tall };
  width = refl;
  height = refl;
  screen = λ h. h;
}

shown-bars :
    (t : Terminal) (width : ℕ) (cells : List ℕ)
    → shown (redraw_cursor t).drawn width cells ≡ shown t.drawn width cells
unfolding redraw_cursor shown bar
shown-bars t width cells = elim (Bool-cases t.cursor_needs_undrawing) [
  | inl undraw ↦ rw undraw (
      shown-append t.drawn
        (bar t.old_cursor_x t.old_cursor_y t.bg t ∷ bar t.cursor_x t.cursor_y t.fg t ∷ []) width
        cells)
  | inr keep ↦ rw keep (shown-append t.drawn (bar t.cursor_x t.cursor_y t.fg t ∷ []) width cells)
]

redraw_cursor-Kept : (t : Terminal) → Kept t (redraw_cursor t)
unfolding redraw_cursor Shown
redraw_cursor-Kept t = record {
  grid = λ g. record { area = g.area; small = g.small; wide = g.wide; tall = g.tall };
  width = refl;
  height = refl;
  screen = λ h. shown-bars t t.width_chars (replicate (t.width_chars * t.height_chars) 32) ∙ h;
}

-- the cursor may stand one column behind the row or on the row below the last
record Put (t t' : Terminal) : Type 0 where
  kept : Kept t t'
  column : t'.cursor_x ≤ t'.width_chars
  row : t'.cursor_y ≤ t'.height_chars
  either : t'.cursor_x ≡ t'.width_chars → t'.cursor_y < t'.height_chars

put-Put : (c : ℕ) (t : Terminal) → IsValid t → Put t (put c t)
unfolding put set_char_at_cursor
put-Put c t v = elim (Bool-cases (c == 13)) [
  | inl return ↦ rw return (record {
    kept = moved-Kept t 0 t.cursor_y t.cursor_needs_undrawing;
    column = omega arith;
    row = omega (arith, v.row);
    either = λ e. v.row;
  })
  | inr other ↦ elim (Bool-cases (c == 10)) [
    | inl newline ↦
        rw (other, newline)
          (record {
            kept = moved-Kept t 0 (t.cursor_y + 1) true;
            column = omega arith;
            row = omega (arith, v.row);
            either = λ e. absurd (omega (arith, e, v.column));
          })
    | inr char ↦
        let t' = set_char_at t.cursor_x t.cursor_y c t in
        let e = set_char_at-Edited t.cursor_x t.cursor_y c t in
        rw (other, char)
          (record {
            kept =
                Kept-compose (Edited-Kept e)
                  (moved-Kept t' (t'.cursor_x + 1) t'.cursor_y t'.cursor_needs_undrawing);
            column = omega (arith, e.column, e.width, v.column);
            row = omega (arith, e.row, e.height, v.row);
            either = λ _. omega (arith, e.row, e.height, v.row);
          })
  ]
]

-- as `Put`, with the column in the grid
record Wrapped (t t' : Terminal) : Type 0 where
  kept : Kept t t'
  column : t'.cursor_x < t'.width_chars
  row : t'.cursor_y ≤ t'.height_chars

wrap-Wrapped : {t t' : Terminal} → IsGrid t → Put t t' → Wrapped t (wrap t')
unfolding wrap
wrap-Wrapped {t} {t'} g p = elim (Bool-cases (leb t'.width_chars t'.cursor_x)) [
  | inl behind ↦
      let at : t'.cursor_x ≡ t'.width_chars = ground (arith, p.column) in
      rw behind (record {
        kept = Kept-compose p.kept (moved-Kept t' 0 (t'.cursor_y + 1) t'.cursor_needs_undrawing);
        column = omega (arith, p.kept.width, g.wide);
        row = omega (arith, p.either at);
      })
  | inr inside ↦ rw inside (record { kept = p.kept; column = ground arith; row = p.row })
]

-- as `Kept`, with the cursor in the grid
record Stays (t t' : Terminal) : Type 0 where
  kept : Kept t t'
  column : t'.cursor_x < t'.width_chars
  row : t'.cursor_y < t'.height_chars

scroll_down-Stays : {t t' : Terminal} → IsGrid t → Wrapped t t' → Stays t (scroll_down t')
unfolding scroll_down
scroll_down-Stays {t} {t'} g p = elim (Bool-cases (leb t'.height_chars t'.cursor_y)) [
  | inl under ↦
      let e = scroll-Edited t' in
      let s = scroll t' in
      rw under (record {
        kept = Kept-compose p.kept (
            Kept-compose (Edited-Kept e)
              (moved-Kept s s.cursor_x (s.cursor_y - 1) s.cursor_needs_undrawing));
        column = omega (arith, e.column, e.width, p.column);
        row = omega (arith, e.row, e.height, p.row, p.kept.height, g.tall);
      })
  | inr inside ↦ rw inside (record { kept = p.kept; column = p.column; row = ground arith })
]

redraw_cursor-Stays : {t t' : Terminal} → Stays t t' → Stays t (redraw_cursor t')
unfolding redraw_cursor
redraw_cursor-Stays {t} {t'} p = record {
  kept = Kept-compose p.kept (redraw_cursor-Kept t');
  column = p.column;
  row = p.row;
}

flag-Stays :
    {t t' : Terminal} (undrawing : Bool)
    → Stays t t'
    → Stays t (record t' { cursor_needs_undrawing = undrawing })
flag-Stays {t} {t'} undrawing p = record {
  kept = Kept-compose p.kept (moved-Kept t' t'.cursor_x t'.cursor_y undrawing);
  column = p.column;
  row = p.row;
}

backspace-Stays : (t : Terminal) → IsValid t → Stays t (backspace t)
unfolding backspace set_char_at_cursor
backspace-Stays t v = elim (Bool-cases (ltb 0 t.cursor_x)) [
  | inl inner ↦
      let back : Terminal = record t { cursor_x = t.cursor_x - 1 } in
      let b = set_char_at back.cursor_x back.cursor_y 32 back in
      let e = set_char_at-Edited back.cursor_x back.cursor_y 32 back in
      let edited : Stays t b = record {
        kept =
            Kept-compose (moved-Kept t (t.cursor_x - 1) t.cursor_y t.cursor_needs_undrawing)
              (Edited-Kept e);
        column = omega (arith, e.column, e.width, v.column);
        row = omega (arith, e.row, e.height, v.row);
      } in
      rw inner (redraw_cursor-Stays (flag-Stays true edited))
  | inr first ↦
      rw first
        (record { kept = moved-Kept t t.cursor_x t.cursor_y false; column = v.column; row = v.row })
]

write_char-Stays : (c : ℕ) (t : Terminal) → IsValid t → Stays t (write_char c t)
unfolding write_char
write_char-Stays c t v = elim (Bool-cases (c == 8)) [
  | inl back ↦ rw back (backspace-Stays t v)
  | inr other ↦ rw other (
      flag-Stays true
        (redraw_cursor-Stays (scroll_down-Stays v.grid (wrap-Wrapped v.grid (put-Put c t v)))))
]

-- On a valid terminal whose screen shows its buffer, any character leaves a valid terminal of the same
-- size whose screen shows its buffer: the characters drawn, in their order, give the buffer.
pub write_char-IsValid :
    (c : ℕ) (t : Terminal)
    → IsValid t
    → Shown t
    → IsValid (write_char c t)
      × Shown (write_char c t)
      × ((write_char c t).width_chars ≡ t.width_chars)
      × ((write_char c t).height_chars ≡ t.height_chars)
write_char-IsValid c t v h =
    let s = write_char-Stays c t v in
    (
      record { grid = s.kept.grid v.grid; column = s.column; row = s.row },
      s.kept.screen h,
      s.kept.width,
      s.kept.height,
    )

new_terminal-Shown :
    (fb_width fb_height : ℕ) (undrawing : Bool) (old_x old_y : ℕ)
    → Shown (new_terminal fb_width fb_height undrawing old_x old_y)
unfolding new_terminal redraw_cursor Shown shown bar
new_terminal-Shown fb_width fb_height true old_x old_y = refl
new_terminal-Shown fb_width fb_height false old_x old_y = refl

-- The terminal that the constructor makes on a screen of at least 32 by 24 pixels is valid, and the
-- screen shows its buffer.
pub new_terminal-IsValid :
    (fb_width fb_height : ℕ) (undrawing : Bool) (old_x old_y : ℕ)
    → 32 ≤ fb_width
    → fb_width < 2 ^ 32
    → 24 ≤ fb_height
    → fb_height < 2 ^ 32
    → IsValid (new_terminal fb_width fb_height undrawing old_x old_y)
      × Shown (new_terminal fb_width fb_height undrawing old_x old_y)
unfolding new_terminal redraw_cursor sub_usize
new_terminal-IsValid fb_width fb_height undrawing old_x old_y wide w_small tall h_small =
    let width_chars : ℕ = sub_usize (sub_usize (fb_width / 2) 4) 4 / 8 in
    let height_chars : ℕ = sub_usize (sub_usize fb_height 4) 4 / 16 in
    (
      record {
        grid = record {
          area = length-replicate {A = ℕ} (width_chars * height_chars) 32 ∙ omega arith;
          small = omega arith;
          wide = omega arith;
          tall = omega arith;
        };
        column = omega arith;
        row = omega arith;
      },
      new_terminal-Shown fb_width fb_height undrawing old_x old_y,
    )
