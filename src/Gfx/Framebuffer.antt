-- ===== src/Gfx/Framebuffer.antt =====
-- src/gfx/framebuffer.cpp: drawing into the bytes of the screen.
-- Addresses count from `addr`. Coordinates are numbers of 16 bits, sizes of 32. The font, which the linker
-- adds, is an argument. `none` is a loop that does not end in its rounds.
pub mod Inside
mod Tests
use Prim.Native.Nat.{bit_and}
use fish_os.Base.{
  ℕ, zero, suc, ◌+◌, ◌-◌, ◌*◌, ◌/◌, ◌%◌, ◌^◌, Bool, true, false, not, ◌&&◌, ◌||◌, Option, none,
  some, ◌==◌, ltb, leb, if◌then◌else◌,
}
use fish_os.Klib.Memory.{Memory, put_byte}

pub record Framebuffer : Type 0 where
  pub width : ℕ
  pub height : ℕ
  pub pitch : ℕ
  pub pixel_width : ℕ

-- blue, green and red at an address
unfoldable pub put_color : ℕ → ℕ → Memory → Memory
put_color at rgb m =
    put_byte (at + 2) (rgb / 2 ^ 16 % 256)
      (put_byte (at + 1) (rgb / 2 ^ 8 % 256) (put_byte at (rgb % 256) m))

unfoldable pub put_pixel : Framebuffer → ℕ → ℕ → ℕ → Memory → Memory
put_pixel fb x y rgb m =
    if ltb fb.width x || ltb fb.height y
    then m
    else put_color ((x * fb.pixel_width % 2 ^ 32 + y * fb.pitch % 2 ^ 32) % 2 ^ 32) rgb m

-- the inner loop of `fill_rect` from column `j` up to `end`, on the row at `where_`
unfoldable pub fill_row : ℕ → Framebuffer → ℕ → ℕ → ℕ → ℕ → Memory → Option Memory
fill_row zero fb where_ j end rgb m = none
fill_row (suc rounds) fb where_ j end rgb m =
    let m' : Memory =
      if leb fb.width j then m else put_color (where_ + j * fb.pixel_width % 2 ^ 32) rgb m in
    let rest = fill_row rounds fb where_ ((j + 1) % 2 ^ 16) end rgb m' in
    if ltb j end then rest else some m

-- the outer loop from row `i` up to `bottom`; both counters have 16 bits
unfoldable pub fill_rows : ℕ → Framebuffer → ℕ → ℕ → ℕ → ℕ → ℕ → Memory → Option Memory
fill_rows zero fb x right i bottom rgb m = none
fill_rows (suc rounds) fb x right i bottom rgb m =
    let filled : Option Memory =
      if leb fb.height i then some m else fill_row 65536 fb (fb.pitch * i % 2 ^ 32) x right rgb m in
    let rest : Option Memory = elim filled [
      | none ↦ none
      | some m' ↦ fill_rows rounds fb x right ((i + 1) % 2 ^ 16) bottom rgb m'
    ] in
    if ltb i bottom then rest else some m

unfoldable pub fill_rect : Framebuffer → ℕ → ℕ → ℕ → ℕ → ℕ → Memory → Option Memory
fill_rect fb x y w h rgb m = fill_rows 65536 fb x (w + x) y (h + y) rgb m

-- the header of the font and its bytes
pub record Psf : Type 0 where
  pub header_size : ℕ
  pub num_glyph : ℕ
  pub bytes_per_glyph : ℕ
  pub height : ℕ
  pub width : ℕ
  pub bytes : Memory

unfoldable pub put_u32 : ℕ → ℕ → Memory → Memory
put_u32 at value m = put_byte (at + 3) (value / 2 ^ 24 % 256) (
    put_byte (at + 2) (value / 2 ^ 16 % 256)
      (put_byte (at + 1) (value / 2 ^ 8 % 256) (put_byte at (value % 256) m)))

-- a line of a glyph, whose bits are those of its first byte, from the highest of `mask` on
unfoldable pub draw_line : ℕ → Framebuffer → ℕ → ℕ → ℕ → ℕ → ℕ → Memory → Memory
draw_line zero fb byte mask line fg bg m = m
draw_line (suc columns) fb byte mask line fg bg m =
    draw_line columns fb byte (mask / 2) (line + fb.pixel_width) fg bg
      (put_u32 line (if bit_and byte mask == 0 then bg else fg) m)

-- the lines of a glyph, the bytes of the first at `glyph`
unfoldable pub draw_lines : ℕ → Framebuffer → Psf → ℕ → ℕ → ℕ → ℕ → Memory → Memory
draw_lines zero fb font glyph where_ fg bg m = m
draw_lines (suc lines) fb font glyph where_ fg bg m =
    draw_lines lines fb font (glyph + (font.width + 7) / 8) (where_ + fb.pitch) fg bg
      (draw_line font.width fb (font.bytes glyph) (2 ^ (font.width - 1)) where_ fg bg m)

-- a character without a glyph gets the first
unfoldable pub draw_psf_char : Framebuffer → Psf → ℕ → ℕ → ℕ → ℕ → ℕ → ℕ → ℕ → Memory → Memory
draw_psf_char fb font c cx cy offx offy fg bg m =
    let index = if ltb 0 c && ltb c font.num_glyph then c else 0 in
    let glyph = font.header_size + index * font.bytes_per_glyph % 2 ^ 32 in
    let where_ =
      ((cy * font.height + offy) * fb.pitch % 2 ^ 32 + (cx * font.width + offx) * 4 % 2 ^ 32)
      % 2 ^ 32 in
    draw_lines font.height fb font glyph where_ fg bg m
