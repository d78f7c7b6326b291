-- ===== src/Gfx/Terminal/Grid.antt =====
-- src/gfx/terminal.cpp: cells, and what the screen shows.
use fish_os.Base.{
  ℕ, ◌+◌, ◌*◌, ◌^◌, ◌<◌, ◌≡◌, refl, sym, ap, ◌∙◌, Bool-cases, inl, inr, List, [], ◌∷◌, ◌++◌, arith,
  get_or, set, length, ◌==◌, if◌then◌else◌, get_or-set, length-set, replicate,
}
use fish_os.Gfx.Terminal.{Draw, psf_char, rect, Terminal, set_char_at}

pub record IsGrid (t : Terminal) : Type 0 where
  pub area : length t.buffer ≡ t.height_chars * t.width_chars
  pub small : t.height_chars < 2 ^ 64
  pub wide : 0 < t.width_chars
  pub tall : 0 < t.height_chars

-- the cursor stands in a cell of a grid
pub record IsValid (t : Terminal) : Type 0 where
  pub grid : IsGrid t
  pub column : t.cursor_x < t.width_chars
  pub row : t.cursor_y < t.height_chars

-- the characters in the cells after some drawing, from those before
unfoldable pub shown : List Draw → ℕ → List ℕ → List ℕ
shown [] width cells = cells
shown (psf_char c c_x c_y ∷ later) width cells = shown later width (set cells (c_y * width + c_x) c)
shown (rect x y w h colour ∷ later) width cells = shown later width cells

-- each cell shows the character of the buffer, on a screen that was blank
unfoldable pub Shown : Terminal → Type 0
Shown t = shown t.drawn t.width_chars (replicate (t.width_chars * t.height_chars) 32) ≡ t.buffer

pub shown-append :
    (xs ys : List Draw) (width : ℕ) (cells : List ℕ)
    → shown (xs ++ ys) width cells ≡ shown ys width (shown xs width cells)
unfolding shown
shown-append [] ys width cells = refl
shown-append (psf_char c c_x c_y ∷ xs) ys width cells =
    shown-append xs ys width (set cells (c_y * width + c_x) c)
shown-append (rect x y w h colour ∷ xs) ys width cells = shown-append xs ys width cells

-- `t'` is `t` with other characters, and the screen is still right if it was
pub record Edited (t t' : Terminal) : Type 0 where
  pub width : t'.width_chars ≡ t.width_chars
  pub height : t'.height_chars ≡ t.height_chars
  pub column : t'.cursor_x ≡ t.cursor_x
  pub row : t'.cursor_y ≡ t.cursor_y
  pub area : length t'.buffer ≡ length t.buffer
  pub screen : Shown t → Shown t'

pub Edited-refl : {t : Terminal} → Edited t t
Edited-refl = record {
  width = refl;
  height = refl;
  column = refl;
  row = refl;
  area = refl;
  screen = λ h. h;
}

pub Edited-compose : {a b c : Terminal} → Edited a b → Edited b c → Edited a c
Edited-compose p q = record {
  width = q.width ∙ p.width;
  height = q.height ∙ p.height;
  column = q.column ∙ p.column;
  row = q.row ∙ p.row;
  area = q.area ∙ p.area;
  screen = λ h. q.screen (p.screen h);
}

pub set_char_at-Edited : (x y c : ℕ) (t : Terminal) → Edited t (set_char_at x y c t)
unfolding set_char_at shown Shown
set_char_at-Edited x y c t = elim (Bool-cases (get_or t.buffer (y * t.width_chars + x) 0 == c)) [
  | inl same ↦ rw same Edited-refl
  | inr other ↦ rw other (record {
    width = refl;
    height = refl;
    column = refl;
    row = refl;
    area = length-set t.buffer (y * t.width_chars + x) c;
    screen = λ h.
        shown-append t.drawn (psf_char c x y ∷ []) t.width_chars
          (replicate (t.width_chars * t.height_chars) 32)
        ∙ ap (λ b. set b (y * t.width_chars + x) c) h;
  })
]

-- A write changes its own cell alone.
pub get_or-set_char_at :
    (x y c j : ℕ) (t : Terminal)
    → y * t.width_chars + x < length t.buffer
    → get_or (set_char_at x y c t).buffer j 0
      ≡ (if y * t.width_chars + x == j then c else get_or t.buffer j 0)
unfolding set_char_at
get_or-set_char_at x y c j t h =
    elim (Bool-cases (get_or t.buffer (y * t.width_chars + x) 0 == c)) [
      | inl same ↦ rw same (elim (Bool-cases (y * t.width_chars + x == j)) [
        | inl here ↦
            let e : y * t.width_chars + x ≡ j = ground arith in
            rw here (ap (λ i. get_or t.buffer i 0) (sym e) ∙ ground arith)
        | inr there ↦ rw there refl
      ])
      | inr other ↦ rw other (get_or-set t.buffer (y * t.width_chars + x) j c 0 h)
    ]

pub Edited-IsGrid : {t t' : Terminal} → Edited t t' → IsGrid t → IsGrid t'
Edited-IsGrid {t} {t'} e g = record {
  area = e.area ∙ g.area ∙ rw (e.width, e.height) refl;
  small = rw e.height g.small;
  wide = rw e.width g.wide;
  tall = rw e.height g.tall;
}
