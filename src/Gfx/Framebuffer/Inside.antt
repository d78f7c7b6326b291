-- ===== src/Gfx/Framebuffer/Inside.antt =====
-- src/gfx/framebuffer.cpp: `fill_rect` ends, and writes on the screen alone.
use fish_os.Base.{
  ℕ, zero, suc, ◌+◌, ◌*◌, ◌%◌, ◌^◌, ◌≤◌, ◌<◌, ◌≡◌, refl, ◌∙◌, true, Bool-cases, inl, inr, some, ltb,
  leb, ltb→lt, if◌then◌else◌, arith,
}
use native.Mathlib.Nat.{mul_comm, mul-le-mul_right}
use fish_os.Klib.Memory.{Memory}
use fish_os.Klib.Memory.Move.{put_byte_other}
use fish_os.Gfx.Framebuffer.{Framebuffer, put_color, fill_row, fill_rows, fill_rect}

-- the pixels of a row lie in its `pitch` bytes, and the screen below 2 ^ 32
pub record IsScreen (fb : Framebuffer) : Type 0 where
  pub pixel : 3 ≤ fb.pixel_width
  pub row : fb.width * fb.pixel_width ≤ fb.pitch
  pub size : fb.pitch * fb.height < 2 ^ 32

-- the bytes from the end of the screen on are as they were
abbrev pub SameBehind : Framebuffer → Memory → Memory → Type 0
SameBehind fb m m' = (a : ℕ) → fb.pitch * fb.height ≤ a → m' a ≡ m a

put_color-behind :
    (fb : Framebuffer) (at rgb : ℕ) (m : Memory)
    → at + 3 ≤ fb.pitch * fb.height
    → SameBehind fb m (put_color at rgb m)
unfolding put_color
put_color-behind fb at rgb m h a le =
    put_byte_other (at + 2) _ a _ (λ e. omega (arith, e))
    ∙ put_byte_other (at + 1) _ a _ (λ e. omega (arith, e))
    ∙ put_byte_other at _ a m (λ e. omega (arith, e))

step : (n k : ℕ) → (n + 1) * k ≡ n * k + k
step n k = grind arith

-- three bytes of pixel `j` of row `i`
pixel_end :
    (fb : Framebuffer) (i j : ℕ)
    → IsScreen fb
    → i < fb.height
    → j < fb.width
    → fb.pitch * i + j * fb.pixel_width + 3 ≤ fb.pitch * fb.height
pixel_end fb i j s hi hj =
    let pixel = s.pixel in
    let row = s.row in
    let column : j * fb.pixel_width + fb.pixel_width ≤ fb.width * fb.pixel_width = omega (
      arith,
      mul-le-mul_right {m = j + 1} {n = fb.width} fb.pixel_width (omega arith),
      step j fb.pixel_width,
    ) in
    let rows : i * fb.pitch + fb.pitch ≤ fb.height * fb.pitch = omega (
      arith,
      mul-le-mul_right {m = i + 1} {n = fb.height} fb.pitch (omega arith),
      step i fb.pitch,
    ) in
    omega (arith, mul_comm fb.pitch i, mul_comm fb.pitch fb.height)

-- a round of the inner loop, behind the right end of the screen and on the screen
fill_row-step :
    (rounds : ℕ) (fb : Framebuffer) (where_ j end rgb : ℕ) (m : Memory)
    → ltb j end ≡ true
    → j + 1 < 2 ^ 16
    → fill_row (suc rounds) fb where_ j end rgb m
      ≡ fill_row rounds fb where_
          (j + 1)
          end
          rgb
          (if leb fb.width j then m else put_color (where_ + j * fb.pixel_width % 2 ^ 32) rgb m)
unfolding fill_row
fill_row-step rounds fb where_ j end rgb m more small =
    let next : (j + 1) % 2 ^ 16 ≡ j + 1 = omega arith in rw (more, next) refl

-- a round of the outer loop, on a row `m'` of which is what the inner loop leaves
fill_rows-step :
    (rounds : ℕ) (fb : Framebuffer) (x right i bottom rgb : ℕ) (m m' : Memory)
    → ltb i bottom ≡ true
    → i + 1 < 2 ^ 16
    → (if leb fb.height i then some m else fill_row 65536 fb (fb.pitch * i % 2 ^ 32) x right rgb m)
      ≡ some m'
    → fill_rows (suc rounds) fb x right i bottom rgb m
      ≡ fill_rows rounds fb x right (i + 1) bottom rgb m'
unfolding fill_rows
fill_rows-step rounds fb x right i bottom rgb m m' more small row =
    let next : (i + 1) % 2 ^ 16 ≡ i + 1 = omega arith in rw (fill_rows, more, row, next) refl

-- a row of the screen is filled in a round for each column and one for the end
fill_row-behind :
    (rounds : ℕ) (fb : Framebuffer) (i j end rgb : ℕ) (m : Memory)
    → IsScreen fb
    → i < fb.height
    → end < 2 ^ 16
    → j ≤ end
    → end < j + rounds
    → (m' : Memory) × (fill_row rounds fb (fb.pitch * i % 2 ^ 32) j end rgb m ≡ some m')
      × SameBehind fb m m'
unfolding fill_row
fill_row-behind zero fb i j end rgb m s hi small le less = absurd (omega arith)
fill_row-behind (suc rounds) fb i j end rgb m s hi small le less = elim (Bool-cases (ltb j end)) [
  | inr done ↦ (m, rw (fill_row, done) refl, λ a h. refl)
  | inl more ↦
      let at : j < end = ltb→lt j end more in
      let go_on = fill_row-step rounds fb (fb.pitch * i % 2 ^ 32) j end rgb m more (omega arith) in
      elim (Bool-cases (leb fb.width j)) [
        | inl right ↦
            let (m', run, same) =
              fill_row-behind rounds fb i (j + 1) end rgb m s hi small (omega arith)
                (omega arith) in
            (m', go_on ∙ rw right run, same)
        | inr on ↦
            let inside : j < fb.width = ground (arith, on) in
            let last = pixel_end fb i j s hi inside in
            let base : fb.pitch * i % 2 ^ 32 ≡ fb.pitch * i = omega (arith, last, s.size) in
            let column : j * fb.pixel_width % 2 ^ 32 ≡ j * fb.pixel_width =
              omega (arith, last, s.size) in
            let m1 : Memory =
              put_color (fb.pitch * i % 2 ^ 32 + j * fb.pixel_width % 2 ^ 32) rgb m in
            let (m', run, same) =
              fill_row-behind rounds fb i (j + 1) end rgb m1 s hi small (omega arith)
                (omega arith) in
            (
              m',
              go_on ∙ rw on run,
              λ a h.
                  same a h
                  ∙ put_color-behind fb (fb.pitch * i % 2 ^ 32 + j * fb.pixel_width % 2 ^ 32) rgb m
                      (omega (arith, base, column, last)) a h,
            )
      ]
]

fill_rows-behind :
    (rounds : ℕ) (fb : Framebuffer) (x right i bottom rgb : ℕ) (m : Memory)
    → IsScreen fb
    → x ≤ right
    → right < 2 ^ 16
    → bottom < 2 ^ 16
    → i ≤ bottom
    → bottom < i + rounds
    → (m' : Memory) × (fill_rows rounds fb x right i bottom rgb m ≡ some m') × SameBehind fb m m'
unfolding fill_rows
fill_rows-behind zero fb x right i bottom rgb m s lx lr lb le less = absurd (omega arith)
fill_rows-behind (suc rounds) fb x right i bottom rgb m s lx lr lb le less =
    elim (Bool-cases (ltb i bottom)) [
      | inr done ↦ (m, rw (fill_rows, done) refl, λ a h. refl)
      | inl more ↦
          let at : i < bottom = ltb→lt i bottom more in
          elim (Bool-cases (leb fb.height i)) [
            | inl below ↦
                let (m', run, same) =
                  fill_rows-behind rounds fb x right (i + 1) bottom rgb m s lx lr lb (omega arith)
                    (omega arith) in
                (
                  m',
                  fill_rows-step rounds fb x right i bottom rgb m m more (omega arith)
                        (rw below refl)
                      ∙ run,
                  same,
                )
            | inr on ↦
                let (m1, row, same1) =
                  fill_row-behind 65536 fb i x right rgb m s (ground (arith, on)) lr lx
                    (omega arith) in
                let (m', run, same) =
                  fill_rows-behind rounds fb x right (i + 1) bottom rgb m1 s lx lr lb (omega arith)
                    (omega arith) in
                (
                  m',
                  fill_rows-step rounds fb x right i bottom rgb m m1 more (omega arith) (rw on row)
                      ∙ run,
                  λ a h. same a h ∙ same1 a h,
                )
          ]
    ]

-- Where the pixels of a row lie in its `pitch` bytes and the screen is below 2 ^ 32, `fill_rect` ends for a
-- rectangle whose right and lower ends fit 16 bits, however far it reaches over the screen, and writes no
-- byte behind the last row.
pub fill_rect-behind :
    (fb : Framebuffer) (x y w h rgb : ℕ) (m : Memory)
    → IsScreen fb
    → w + x < 2 ^ 16
    → h + y < 2 ^ 16
    → (m' : Memory) × (fill_rect fb x y w h rgb m ≡ some m') × SameBehind fb m m'
unfolding fill_rect
fill_rect-behind fb x y w h rgb m s right bottom =
    fill_rows-behind 65536 fb x (w + x) y (h + y) rgb m s (omega arith) right bottom (omega arith)
      (omega arith)
