-- ===== src/Klib/Memory/Strings.antt =====
-- src/klib/cstring.cpp: what `strcat` leaves in memory.
use fish_os.Base.{
  ℕ, zero, suc, ◌+◌, ◌-◌, ◌<◌, ◌≡◌, ◌≢◌, ◌⊎◌, inl, inr, refl, sym, ap, ◌∙◌, false, List, ◌++◌, some,
  ◌==◌, length, length-append, arith, get_or, get_or-append_left, get_or-append_right,
}
use fish_os.Klib.Memory.{Memory, memcpy, strlen_from, strcpy, strcat}
use fish_os.Klib.Memory.Move.{Moved, Ahead, memcpy-Moved}
use native.Mathlib.Decide.{dec_lt}

-- the characters of `text`, none of them a NUL, stand at `p` with a NUL behind them
pub record Holds (m : Memory) (p : ℕ) (text : List ℕ) : Type 0 where
  pub chars : (i : ℕ) → i < length text → m (p + i) ≡ get_or text i 0
  pub not_nul : (i : ℕ) → i < length text → get_or text i 0 ≢ 0
  pub end : m (p + length text) ≡ 0

-- the search passes over `k` characters, and is then at the NUL
strlen_from-Holds :
    (m : Memory) (p : ℕ) (text : List ℕ) (k len rounds : ℕ)
    → Holds m p text
    → len + k ≡ length text
    → k < rounds
    → strlen_from rounds len p m ≡ some (length text)
unfolding strlen_from
strlen_from-Holds m p text k len zero h e r = absurd (omega arith)
strlen_from-Holds m p text zero len (suc rounds) h e r =
    let at : len ≡ length text = omega arith in
    let nul : m (p + len) ≡ 0 = ap (λ i. m (p + i)) at ∙ h.end in rw nul (ap some at)
strlen_from-Holds m p text (suc k) len (suc rounds) h e r =
    let char : m (p + len) ≢ 0 =
      λ z. h.not_nul len (omega arith) (sym (h.chars len (omega arith)) ∙ z) in
    let test : (m (p + len) == 0) ≡ false = ground (arith, char) in
    rw test (strlen_from-Holds m p text k (len + 1) rounds h (omega arith) (omega arith))

pub strlen-Holds :
    (m : Memory) (p : ℕ) (text : List ℕ) (rounds : ℕ)
    → Holds m p text
    → length text < rounds
    → strlen_from rounds 0 p m ≡ some (length text)
strlen-Holds m p text rounds h r =
    strlen_from-Holds m p text (length text) 0 rounds h (omega arith) r

-- the text behind another, moved there with its NUL
Holds-append :
    (m m' : Memory) (dst src : ℕ) (xs ys : List ℕ)
    → Holds m dst xs
    → Holds m src ys
    → Moved m m' (dst + length xs) src (length ys + 1)
    → Holds m' dst (xs ++ ys)
Holds-append m m' dst src xs ys hx hy moved =
    let size : length (xs ++ ys) ≡ length xs + length ys = length-append xs ys in
    let at = λ (i : ℕ) (j : ℕ) (e : length xs + j ≡ i) (h : j < length ys + 1).
      ap m' (let k : dst + i ≡ dst + length xs + j = omega (arith, e) in k) ∙ moved.inside j h in
    record {
      chars = λ i h. elim (dec_lt i (length xs)) [
        | yes first ↦
            moved.outside (dst + i) (inl (omega arith))
            ∙ hx.chars i first
            ∙ sym (get_or-append_left xs ys i 0 first)
        | no second ↦
            let j : ℕ = i - length xs in
            at i j (omega arith) (omega (arith, size))
            ∙ hy.chars j (omega (arith, size))
            ∙ sym (get_or-append_right xs ys i j 0 (omega arith))
      ];
      not_nul = λ i h. elim (dec_lt i (length xs)) [
        | yes first ↦ rw (get_or-append_left xs ys i 0 first) (hx.not_nul i first)
        | no second ↦
            let j : ℕ = i - length xs in
            rw (get_or-append_right xs ys i j 0 (omega arith)) (hy.not_nul j (omega (arith, size)))
      ];
      end = at (length (xs ++ ys)) (length ys) (sym size) (omega arith) ∙ hy.end;
    }

-- Where text `xs` stands at `dst` and `ys` at `src`, both shorter than the rounds of the searches, and the
-- room behind `xs` begins at or below the source or lies behind its end, `strcat` returns: `xs ++ ys`
-- stands at `dst`, and all bytes before its second half and behind its NUL are as they were.
pub strcat-Holds :
    (m : Memory) (rounds dst src : ℕ) (xs ys : List ℕ)
    → Holds m dst xs
    → Holds m src ys
    → length xs < rounds
    → length ys < rounds
    → Ahead (dst + length xs) src (length ys + 1)
    → (m' : Memory) × (strcat rounds dst src m ≡ some m')
      × Holds m' dst (xs ++ ys)
      × ((a : ℕ) → (a < dst + length xs) ⊎ (dst + length xs + length ys < a) → m' a ≡ m a)
unfolding strcat strcpy
strcat-Holds m rounds dst src xs ys hx hy rx ry ahead =
    let lx = length xs in
    let ly = length ys in
    let m' : Memory = memcpy (dst + lx) src (ly + 1) m in
    let moved = memcpy-Moved (dst + lx) src (ly + 1) m ahead in
    (
      m',
      rw (strcat, strlen-Holds m dst xs rounds hx rx, strcpy, strlen-Holds m src ys rounds hy ry)
          refl,
      Holds-append m m' dst src xs ys hx hy moved,
      λ a side.
          moved.outside a (elim side [ inl below ↦ inl below | inr above ↦ inr (omega arith) ]),
    )
