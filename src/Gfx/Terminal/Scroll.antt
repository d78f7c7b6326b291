-- ===== src/Gfx/Terminal/Scroll.antt =====
-- src/gfx/terminal.cpp: `scroll`, which moves the rows up in place.
use fish_os.Base.{
  ℕ, zero, suc, ◌+◌, ◌-◌, ◌*◌, ◌%◌, ◌^◌, ◌≤◌, ◌<◌, ◌≡◌, refl, sym, ap, ◌∙◌, ◌&&◌, Bool-cases, inl,
  inr, List, arith, get_or, length, ltb, leb, ◌==◌, if◌then◌else◌,
}
use native.Mathlib.Nat.{mul-le-mul_left}
use native.Mathlib.Decide.{dec_lt}
use fish_os.Gfx.Terminal.{
  Terminal, set_char_at, get_char_at, scroll_row, scroll_rows, clear_row, scroll,
}
use fish_os.Gfx.Terminal.Grid.{
  IsGrid, Edited, Shown, Edited-refl, Edited-compose, set_char_at-Edited, get_or-set_char_at,
}

-- the cells from `first` up to `end` have what stands a row of width `w` below
abbrev moved : ℕ → ℕ → ℕ → List ℕ → ℕ → ℕ
moved first end w cells j =
    if leb first j && ltb j end then get_or cells (j + w) 0 else get_or cells j 0

abbrev cleared : ℕ → ℕ → List ℕ → ℕ → ℕ
cleared first end cells j = if leb first j && ltb j end then 32 else get_or cells j 0

scroll_row-Edited : (n x y : ℕ) (t : Terminal) → Edited t (scroll_row n x y t)
unfolding scroll_row
scroll_row-Edited zero x y t = Edited-refl
scroll_row-Edited (suc n) x y t =
    let c = get_char_at x (y + 1) t in
    Edited-compose (set_char_at-Edited x y c t)
      (scroll_row-Edited n (x + 1) y (set_char_at x y c t))

scroll_rows-Edited : (n y : ℕ) (t : Terminal) → Edited t (scroll_rows n y t)
unfolding scroll_rows
scroll_rows-Edited zero y t = Edited-refl
scroll_rows-Edited (suc n) y t =
    Edited-compose (scroll_row-Edited t.width_chars 0 y t)
      (scroll_rows-Edited n (y + 1) (scroll_row t.width_chars 0 y t))

clear_row-Edited : (n x y : ℕ) (t : Terminal) → Edited t (clear_row n x y t)
unfolding clear_row
clear_row-Edited zero x y t = Edited-refl
clear_row-Edited (suc n) x y t =
    Edited-compose (set_char_at-Edited x y 32 t)
      (clear_row-Edited n (x + 1) y (set_char_at x y 32 t))

-- a write in a terminal of that width
get_or-write :
    (x y c w j : ℕ) (t : Terminal)
    → t.width_chars ≡ w
    → y * w + x < length t.buffer
    → get_or (set_char_at x y c t).buffer j 0 ≡ (if y * w + x == j then c else get_or t.buffer j 0)
get_or-write x y c w j t q h = rw (sym q) (get_or-set_char_at x y c j t (rw q h))

below : (y x w : ℕ) → (y + 1) * w + x ≡ y * w + x + w
below y x w = omega arith

get_or-scroll_row :
    (n x y w j : ℕ) (t : Terminal)
    → t.width_chars ≡ w
    → y * w + x + n ≤ length t.buffer
    → 0 < w
    → get_or (scroll_row n x y t).buffer j 0 ≡ moved (y * w + x) (y * w + x + n) w t.buffer j
unfolding scroll_row get_char_at
get_or-scroll_row zero x y w j t q h positive = ground arith
get_or-scroll_row (suc n) x y w j t q h positive =
    let c = get_or t.buffer ((y + 1) * t.width_chars + x) 0 in
    let source : c ≡ get_or t.buffer (y * w + x + w) 0 =
      ap (λ v. get_or t.buffer ((y + 1) * v + x) 0) q
      ∙ ap (λ i. get_or t.buffer i 0) (below y x w) in
    let t1 = set_char_at x y c t in
    let e = set_char_at-Edited x y c t in
    let rest =
      get_or-scroll_row n (x + 1) y w j t1 (e.width ∙ q) (omega (arith, e.area)) positive in
    let here = get_or-write x y c w j t q (omega arith) in
    let there = get_or-write x y c w (j + w) t q (omega arith) in
    rest ∙ elim (Bool-cases (y * w + x == j)) [
      | inl first ↦
          let at : y * w + x ≡ j = ground arith in
          ground (arith, here, source ∙ ap (λ i. get_or t.buffer (i + w) 0) at)
      | inr other ↦ ground (arith, here, there)
    ]

get_or-scroll_rows :
    (n y w j : ℕ) (t : Terminal)
    → t.width_chars ≡ w
    → (y + n) * w ≤ length t.buffer
    → 0 < w
    → get_or (scroll_rows n y t).buffer j 0 ≡ moved (y * w) ((y + n) * w) w t.buffer j
unfolding scroll_rows
get_or-scroll_rows zero y w j t q h positive =
    let e : (y + 0) * w ≡ y * w = omega arith in ground (arith, e)
get_or-scroll_rows (suc n) y w j t q h positive =
    let t1 = scroll_row t.width_chars 0 y t in
    let e = scroll_row-Edited t.width_chars 0 y t in
    let rest = get_or-scroll_rows n (y + 1) w j t1 (e.width ∙ q) (omega (arith, e.area)) positive in
    let here = get_or-scroll_row t.width_chars 0 y w j t q (omega arith) positive in
    let there = get_or-scroll_row t.width_chars 0 y w (j + w) t q (omega arith) positive in
    let bounds : y * w + w ≤ (y + suc n) * w = omega arith in
    rest ∙ ground (arith, here, there, bounds, q)

get_or-clear_row :
    (n x y w j : ℕ) (t : Terminal)
    → t.width_chars ≡ w
    → y * w + x + n ≤ length t.buffer
    → get_or (clear_row n x y t).buffer j 0 ≡ cleared (y * w + x) (y * w + x + n) t.buffer j
unfolding clear_row
get_or-clear_row zero x y w j t q h = ground arith
get_or-clear_row (suc n) x y w j t q h =
    let e = set_char_at-Edited x y 32 t in
    let here = get_or-write x y 32 w j t q (omega arith) in
    get_or-clear_row n (x + 1) y w j (set_char_at x y 32 t) (e.width ∙ q) (omega (arith, e.area))
    ∙ ground (arith, here)

raised : ℕ → Terminal → Terminal
raised last t = clear_row t.width_chars 0 last (scroll_rows last 0 t)

raised-Edited : (last : ℕ) (t : Terminal) → Edited t (raised last t)
unfolding raised
raised-Edited last t =
    Edited-compose (scroll_rows-Edited last 0 t)
      (clear_row-Edited t.width_chars 0 last (scroll_rows last 0 t))

pub scroll-Edited : (t : Terminal) → Edited t (scroll t)
unfolding scroll raised Shown
scroll-Edited t =
    let e = raised-Edited ((t.height_chars + 2 ^ 64 - 1) % 2 ^ 64) t in
    record {
      width = e.width;
      height = e.height;
      column = e.column;
      row = e.row;
      area = e.area;
      screen = e.screen;
    }

get_or-raised :
    (last w j : ℕ) (t : Terminal)
    → t.width_chars ≡ w
    → last * w + w ≤ length t.buffer
    → 0 < w
    → get_or (raised last t).buffer j 0 ≡ (
        if leb (last * w) j && ltb j (last * w + w)
        then 32
        else if ltb j (last * w)
        then get_or t.buffer (j + w) 0
        else get_or t.buffer j 0)
unfolding raised
get_or-raised last w j t q h wide =
    let t1 = scroll_rows last 0 t in
    let e = scroll_rows-Edited last 0 t in
    let up = get_or-scroll_rows last 0 w j t q (omega arith) wide in
    get_or-clear_row t.width_chars 0 last w j t1 (e.width ∙ q) (omega (arith, e.area, q))
    ∙ ground (arith, up, q)

last_row : (h : ℕ) → 0 < h → h < 2 ^ 64 → (h + 2 ^ 64 - 1) % 2 ^ 64 ≡ h - 1
last_row h positive small = omega arith

row_fits : (y h w : ℕ) → y < h → y * w + w ≤ h * w
row_fits y h w below_ =
    let le : suc y ≤ h = omega arith in omega (arith, mul-le-mul_left {m = suc y} {n = h} w le)

row_of : (h w : ℕ) → 0 < h → (h - 1) * w + w ≡ h * w
row_of zero w p = absurd (omega arith)
row_of (suc h) w p = let e : suc h - 1 ≡ h = omega arith in ap (λ v. v * w + w) e ∙ omega arith

-- After a scroll a cell has the character that stood below it, and the last row is blank.
pub get_char_at-scroll :
    (x y : ℕ) (t : Terminal)
    → IsGrid t
    → x < t.width_chars
    → y < t.height_chars
    → get_char_at x y (scroll t)
      ≡ (if ltb (y + 1) t.height_chars then get_char_at x (y + 1) t else 32)
unfolding scroll get_char_at raised
get_char_at-scroll x y t g x_small y_small =
    let w = t.width_chars in
    let m = t.height_chars - 1 in
    let whole = row_of t.height_chars w g.tall in
    let e = raised-Edited ((t.height_chars + 2 ^ 64 - 1) % 2 ^ 64) t in
    ap (λ v. get_or (scroll t).buffer (y * v + x) 0) e.width
    ∙ ap (λ l. get_or (raised l t).buffer (y * w + x) 0) (last_row t.height_chars g.tall g.small)
    ∙ get_or-raised m w (y * w + x) t refl (omega (arith, g.area, whole)) g.wide
    ∙ elim (dec_lt (y + 1) t.height_chars) [
      | yes inner ↦
          let fits = row_fits y m w (omega arith) in
          ground (arith, fits, sym (ap (λ i. get_or t.buffer i 0) (below y x w)))
      | no outer ↦
          let at : y ≡ m = omega arith in
          let start : y * w ≡ m * w = ap (λ i. i * w) at in ground (arith, start)
    ]
