-- ===== src/Klib/Memory/Move.antt =====
-- userspace/test/src/string.cpp: what `memcpy`, `memmove` and `memset` leave in memory.
use fish_os.Base.{
  ℕ, zero, suc, ◌+◌, ◌≤◌, ◌<◌, ◌≡◌, ◌≢◌, ◌⊎◌, inl, inr, refl, sym, ap, ◌∙◌, Bool-cases, ltb, arith,
}
use native.Mathlib.Decide.{ℕ_discrete}
use fish_os.Klib.Memory.{Memory, put_byte, copy_up, copy_down, memcpy, memmove}

pub put_byte_self : (p v : ℕ) (m : Memory) → put_byte p v m p ≡ v
unfolding put_byte
put_byte_self p v m = ground arith

pub put_byte_other : (p v a : ℕ) (m : Memory) → a ≢ p → put_byte p v m a ≡ m a
unfolding put_byte
put_byte_other p v a m ne = ground (arith, ne)

-- the bytes at `dst` are those that were at `src`, and all others are as they were
pub record Moved (m m' : Memory) (dst src size : ℕ) : Type 0 where
  pub inside : (j : ℕ) → j < size → m' (dst + j) ≡ m (src + j)
  pub outside : (a : ℕ) → (a < dst) ⊎ (dst + size ≤ a) → m' a ≡ m a

-- upwards, no byte is overwritten before it is read: the target begins below the source, or the two are
-- apart
abbrev pub Ahead : ℕ → ℕ → ℕ → Type 0
Ahead dst src size = (dst ≤ src) ⊎ (src + size ≤ dst)

copy_up-outside :
    (n i dst src a : ℕ) (m : Memory)
    → (a < dst + i) ⊎ (dst + i + n ≤ a)
    → copy_up n i dst src m a ≡ m a
unfolding copy_up
copy_up-outside zero i dst src a m side = refl
copy_up-outside (suc n) i dst src a m side =
    copy_up-outside n (i + 1) dst src a (put_byte (dst + i) (m (src + i)) m)
      (elim side [ inl below ↦ inl (omega arith) | inr above ↦ inr (omega arith) ])
    ∙ put_byte_other (dst + i) (m (src + i)) a m
        (λ e. elim side [ inl below ↦ omega (arith, e) | inr above ↦ omega (arith, e) ])

copy_up-inside :
    (n i j dst src : ℕ) (m : Memory)
    → Ahead dst src (i + n)
    → i ≤ j
    → j < i + n
    → copy_up n i dst src m (dst + j) ≡ m (src + j)
unfolding copy_up
copy_up-inside zero i j dst src m ahead low high = absurd (omega arith)
copy_up-inside (suc n) i j dst src m ahead low high =
    let v = m (src + i) in
    elim (ℕ_discrete i j) [
      | yes e ↦
          copy_up-outside n (i + 1) dst src (dst + j) (put_byte (dst + i) v m)
            (inl (omega (arith, e)))
          ∙ ap (λ k. put_byte (dst + i) v m (dst + k)) (sym e)
          ∙ put_byte_self (dst + i) v m
          ∙ ap (λ k. m (src + k)) e
      | no ne ↦
          copy_up-inside n (i + 1) j dst src (put_byte (dst + i) v m)
            (elim ahead [ inl le ↦ inl le | inr far ↦ inr (omega arith) ]) (omega (arith, ne))
            (omega arith)
          ∙ put_byte_other (dst + i) v (src + j) m (λ e. elim ahead [
            | inl le ↦ ne (omega (arith, e, le, low))
            | inr far ↦ omega (arith, e, far, high)
          ])
    ]

copy_down-outside :
    (n dst src a : ℕ) (m : Memory) → (a < dst) ⊎ (dst + n ≤ a) → copy_down n dst src m a ≡ m a
unfolding copy_down
copy_down-outside zero dst src a m side = refl
copy_down-outside (suc n) dst src a m side =
    copy_down-outside n dst src a (put_byte (dst + n) (m (src + n)) m)
      (elim side [ inl below ↦ inl below | inr above ↦ inr (omega arith) ])
    ∙ put_byte_other (dst + n) (m (src + n)) a m
        (λ e. elim side [ inl below ↦ omega (arith, e) | inr above ↦ omega (arith, e) ])

copy_down-inside :
    (n j dst src : ℕ) (m : Memory)
    → src ≤ dst
    → j < n
    → copy_down n dst src m (dst + j) ≡ m (src + j)
unfolding copy_down
copy_down-inside zero j dst src m le h = absurd (omega arith)
copy_down-inside (suc n) j dst src m le h =
    let v = m (src + n) in
    elim (ℕ_discrete n j) [
      | yes e ↦
          copy_down-outside n dst src (dst + j) (put_byte (dst + n) v m) (inr (omega (arith, e)))
          ∙ ap (λ k. put_byte (dst + n) v m (dst + k)) (sym e)
          ∙ put_byte_self (dst + n) v m
          ∙ ap (λ k. m (src + k)) e
      | no ne ↦
          copy_down-inside n j dst src (put_byte (dst + n) v m) le (omega (arith, ne))
          ∙ put_byte_other (dst + n) v (src + j) m (λ e. omega (arith, e, le, ne, h))
    ]

pub memcpy-Moved :
    (dst src size : ℕ) (m : Memory)
    → Ahead dst src size
    → Moved m (memcpy dst src size m) dst src size
unfolding memcpy
memcpy-Moved dst src size m ahead = record {
  inside = λ j h.
      copy_up-inside size 0 j dst src m
        (elim ahead [ inl le ↦ inl le | inr far ↦ inr (omega arith) ]) (omega arith) (omega arith);
  outside = λ a side.
      copy_up-outside size 0 dst src a m
        (elim side [ inl below ↦ inl (omega arith) | inr above ↦ inr (omega arith) ]);
}

-- Wherever source and target lie, overlapping or not, `memmove` leaves at the target the bytes that were at
-- the source, and every other byte as it was.
pub memmove-Moved : (dst src size : ℕ) (m : Memory) → Moved m (memmove dst src size m) dst src size
unfolding memmove memcpy copy_up
memmove-Moved dst src size m = elim (Bool-cases (ltb dst src)) [
  | inl below ↦ rw (memmove, below) (memcpy-Moved dst src size m (inl (ground (arith, below))))
  | inr above ↦
      let le : src ≤ dst = ground (arith, above) in
      rw (memmove, above)
        (record {
          inside = λ j h. copy_down-inside size j dst src m le h;
          outside = λ a side. copy_down-outside size dst src a m side;
        })
]
