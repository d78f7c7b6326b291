-- ===== src/Ps2/Keyboard/Window.antt =====
-- src/ps2/kbd/keyboard.cpp: the part of a ring that is in use, as a list.
use fish_os.Base.{
  ℕ, zero, suc, ◌+◌, ◌%◌, ◌<◌, ◌≡◌, ◌≢◌, refl, ap, ◌∙◌, List, [], ◌∷◌, ◌++◌, arith, get_or, set,
  get_or-set_ne, length,
}

-- the `n` elements of the ring from index `i` on
unfoldable pub window : List ℕ → ℕ → ℕ → List ℕ
window buffer i zero = []
window buffer i (suc n) = get_or buffer i 0 ∷ window buffer ((i + 1) % 256) n

pub length-window : (buffer : List ℕ) (i n : ℕ) → length (window buffer i n) ≡ n
unfolding window
length-window buffer i zero = refl
length-window buffer i (suc n) = omega (arith, length-window buffer ((i + 1) % 256) n)

-- a write outside the window
pub window-set :
    (buffer : List ℕ) (w c i n : ℕ)
    → ((j : ℕ) → j < n → (i + j) % 256 ≢ w)
    → i < 256
    → window (set buffer w c) i n ≡ window buffer i n
unfolding window
window-set buffer w c i zero h small = refl
window-set buffer w c i (suc n) h small =
    let here : w ≢ i = λ e. h 0 (omega arith) (omega arith) in
    rw (
      get_or-set_ne buffer w i c 0 here,
      window-set buffer w c ((i + 1) % 256) n (λ j less e. h (suc j) (omega arith) (omega arith))
          (omega arith),
    )

-- the window grown by one
pub window-snoc :
    (buffer : List ℕ) (i n : ℕ)
    → i < 256
    → window buffer i (suc n) ≡ window buffer i n ++ (get_or buffer ((i + n) % 256) 0 ∷ [])
unfolding window
window-snoc buffer i zero small = let e : (i + 0) % 256 ≡ i = omega arith in rw e
window-snoc buffer i (suc n) small =
    let e : ((i + 1) % 256 + n) % 256 ≡ (i + suc n) % 256 = omega arith in
    ap (λ l. get_or buffer i 0 ∷ l)
      (window-snoc buffer ((i + 1) % 256) n (omega arith)
        ∙ ap (λ j. window buffer ((i + 1) % 256) n ++ (get_or buffer j 0 ∷ [])) e)
