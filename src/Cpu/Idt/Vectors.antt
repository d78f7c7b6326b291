-- ===== src/Cpu/Idt/Vectors.antt =====
-- src/cpu/interrupts/idt.cpp, `allocate_vector`: a vector is granted once.
use fish_os.Base.{
  ℕ, zero, suc, ◌+◌, ◌/◌, ◌%◌, ◌≤◌, ◌<◌, ◌≡◌, refl, ap, ◌∙◌, sym, subst, true, false, Bool-cases,
  inl, inr, Result, ok, panic, ◌==◌, if◌then◌else◌, length, arith,
}
use native.Mathlib.Decide.{dec_lt, ℕ_discrete}
use fish_os.Klib.Bitmap.{get, set_bit}
use fish_os.Klib.Bitmap.Bits.{IsBytes, get-set_bit, set_bit-IsBytes, length-set_bit}
use fish_os.Cpu.Idt.{Idt, allocate_from, allocate_vector}

-- the bitmap has a bit for each vector
pub record HasVectors (t : Idt) : Type 0 where
  pub bytes : IsBytes t.bitmap.buffer
  pub room : length t.bitmap.buffer ≡ 32

-- the least free vector from 32 on, which is then in use, while nothing else has changed
pub record Granted (t : Idt) (vector : ℕ) (t' : Idt) : Type 0 where
  pub from_32 : 32 ≤ vector
  pub to_255 : vector < 256
  pub was_free : get t.bitmap vector ≡ false
  pub least : (u : ℕ) → 32 ≤ u → u < vector → get t.bitmap u ≡ true
  pub bits : (u : ℕ) → get t'.bitmap u ≡ (if vector == u then true else get t.bitmap u)
  pub same_entries : t'.entries ≡ t.entries
  pub same_handlers : t'.handlers ≡ t.handlers
  pub has_vectors : HasVectors t'

-- a panic means that all vectors are in use
unfoldable pub Allocates : Idt → Result (ℕ × Idt) → Type 0
Allocates t (ok (vector, t')) = Granted t vector t'
Allocates t panic = (u : ℕ) → 32 ≤ u → u < 256 → get t.bitmap u ≡ true

grant :
    (t : Idt) (i : ℕ)
    → HasVectors t
    → 32 ≤ i
    → i < 256
    → get t.bitmap i ≡ false
    → ((u : ℕ) → 32 ≤ u → u < i → get t.bitmap u ≡ true)
    → Granted t i (record t { bitmap = set_bit t.bitmap i true })
grant t i v low high free used =
    let inside : i / 8 < length t.bitmap.buffer = omega (arith, v.room) in
    record {
      from_32 = low;
      to_255 = high;
      was_free = free;
      least = used;
      bits = λ u. get-set_bit t.bitmap i u true v.bytes inside;
      same_entries = refl;
      same_handlers = refl;
      has_vectors = record {
        bytes = set_bit-IsBytes t.bitmap i true v.bytes inside;
        room = length-set_bit t.bitmap i true ∙ v.room;
      };
    }

used_before :
    (t : Idt) (i : ℕ)
    → get t.bitmap i ≡ true
    → ((u : ℕ) → 32 ≤ u → u < i → get t.bitmap u ≡ true)
    → (u : ℕ) → 32 ≤ u
    → u < i + 1
    → get t.bitmap u ≡ true
used_before t i here used u low high = elim (ℕ_discrete u i) [
  | yes e ↦ ap (get t.bitmap) e ∙ here
  | no ne ↦ used u low (omega (arith, ne))
]

-- a round for each vector left and one for the test that ends the loop are enough
allocate_from-Allocates :
    (rounds i : ℕ) (t : Idt)
    → HasVectors t
    → 32 ≤ i
    → i < 256
    → 256 < rounds + i
    → ((u : ℕ) → 32 ≤ u → u < i → get t.bitmap u ≡ true)
    → Allocates t (allocate_from rounds i t)
unfolding allocate_from Allocates
allocate_from-Allocates zero i t v low high enough used = absurd (omega arith)
allocate_from-Allocates (suc zero) i t v low high enough used = absurd (omega arith)
allocate_from-Allocates (suc (suc rounds)) i t v low high enough used =
    let go_on : (i == 0) ≡ false = ground arith in
    elim (Bool-cases (get t.bitmap i)) [
      | inr free ↦ rw (go_on, free) (grant t i v low high free used)
      | inl here ↦ elim (ℕ_discrete i 255) [
        | yes last ↦
            let wraps : (i + 1) % 256 ≡ 0 = omega (arith, last) in
            rw (go_on, here, wraps) (λ u a b. used_before t i here used u a (omega (arith, last)))
        | no before ↦
            let next : (i + 1) % 256 ≡ i + 1 = omega (arith, before) in
            let rest =
              allocate_from-Allocates (suc rounds) (i + 1) t v (omega arith) (omega (arith, before))
                (omega arith) (used_before t i here used) in
            rw (go_on, here)
              (subst (λ k. Allocates t (allocate_from (suc rounds) k t)) (sym next) rest)
      ]
    ]

-- On a bitmap of 32 bytes, `allocate_vector` returns the least free vector from 32 on, marks it as used and
-- changes nothing else; it panics exactly when all vectors from 32 to 255 are in use.
pub allocate_vector-Allocates : (t : Idt) → HasVectors t → Allocates t (allocate_vector t)
unfolding allocate_vector
allocate_vector-Allocates t v =
    allocate_from-Allocates 256 32 t v (omega arith) (omega arith) (omega arith)
      (λ u a b. absurd (omega arith))

-- Two vectors granted one after another differ.
pub allocate_vector-differ :
    (t t' t'' : Idt) (v w : ℕ)
    → HasVectors t
    → allocate_vector t ≡ ok (v, t')
    → allocate_vector t' ≡ ok (w, t'')
    → v < w
unfolding Allocates
allocate_vector-differ t t' t'' v w has first second =
    let a : Granted t v t' = subst (Allocates t) first (allocate_vector-Allocates t has) in
    let b : Granted t' w t'' =
      subst (Allocates t') second (allocate_vector-Allocates t' a.has_vectors) in
    let used : get t'.bitmap v ≡ true = a.bits v ∙ ground arith in
    elim (dec_lt v w) [
      | yes h ↦ h
      | no ge ↦ elim (ℕ_discrete v w) [
        | yes e ↦ cc (e, used, b.was_free)
        | no ne ↦ cc (
          a.least w b.from_32 (omega (arith, ne, ge)),
          b.was_free,
          a.bits w,
          (let t : (v == w) ≡ false = ground (arith, ne) in t),
        )
      ]
    ]
