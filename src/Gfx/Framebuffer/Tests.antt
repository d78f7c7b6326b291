-- ===== src/Gfx/Framebuffer/Tests.antt =====
-- A screen of two by two pixels of four bytes.
use fish_os.Base.{ℕ, ◌≡◌, refl, List, [], ◌∷◌, Option, none, some, map, arith, leb, if◌then◌else◌}
use fish_os.Klib.Memory.{Memory, put_byte}
use fish_os.Gfx.Framebuffer.{
  Framebuffer, Psf, put_color, put_pixel, fill_row, fill_rows, fill_rect, put_u32, draw_line,
  draw_lines, draw_psf_char,
}
use fish_os.Gfx.Framebuffer.Inside.{IsScreen, SameBehind, fill_rect-behind}

abbrev screen : Framebuffer
screen = record { width = 2; height = 2; pitch = 8; pixel_width = 4 }

abbrev black : Memory
black a = 0

bytes_of : Memory → List ℕ
bytes_of m = map m (0 ∷ 1 ∷ 2 ∷ 4 ∷ 5 ∷ 6 ∷ 8 ∷ 12 ∷ 13 ∷ 14 ∷ 16 ∷ 17 ∷ [])

filled_of : Option Memory → List ℕ
filled_of none = []
filled_of (some m) = bytes_of m

-- a rectangle from pixel (1, 0) on that reaches over the screen
fill_test :
    filled_of (fill_rect screen 1 0 5 9 0x010203 black)
    ≡ 0 ∷ 0 ∷ 0 ∷ 3 ∷ 2 ∷ 1 ∷ 0 ∷ 3 ∷ 2 ∷ 1 ∷ 0 ∷ 0 ∷ []
unfolding filled_of bytes_of fill_rect fill_rows fill_row put_color put_byte
fill_test = refl

-- the test of `put_pixel` lets the row behind the last through, which is written behind the screen
pixel_test :
    bytes_of (put_pixel screen 0 2 0x010203 black)
    ≡ 0 ∷ 0 ∷ 0 ∷ 0 ∷ 0 ∷ 0 ∷ 0 ∷ 0 ∷ 0 ∷ 0 ∷ 3 ∷ 2 ∷ []
unfolding bytes_of put_pixel put_color put_byte
pixel_test = refl

-- a font of one glyph with the upper right and the lower left pixel of two by two
abbrev font : Psf
font = record {
  header_size = 32;
  num_glyph = 1;
  bytes_per_glyph = 2;
  height = 2;
  width = 2;
  bytes = λ a. if leb a 32 then 1 else 2;
}

glyph_test :
    bytes_of (draw_psf_char screen font 65 0 0 0 0 7 9 black)
    ≡ 9 ∷ 0 ∷ 0 ∷ 7 ∷ 0 ∷ 0 ∷ 7 ∷ 9 ∷ 0 ∷ 0 ∷ 0 ∷ 0 ∷ []
unfolding bytes_of draw_psf_char draw_lines draw_line put_u32 put_byte
glyph_test = refl

screen-IsScreen : IsScreen screen
screen-IsScreen = record { pixel = omega arith; row = omega arith; size = omega arith }

fill_rect-behind_example :
    (m' : Memory) × (fill_rect screen 1 0 5 9 0x010203 black ≡ some m') × SameBehind screen black m'
fill_rect-behind_example =
    fill_rect-behind screen 1 0 5 9 0x010203 black screen-IsScreen (omega arith) (omega arith)
