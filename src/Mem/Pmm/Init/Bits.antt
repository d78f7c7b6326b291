-- ===== src/Mem/Pmm/Init/Bits.antt =====
-- src/mem/pmm.cpp, `init`: what each bit reads as after the set-up.
use fish_os.Base.{
  ℕ, zero, suc, ◌+◌, ◌-◌, ◌/◌, ◌^◌, ◌<◌, ◌≡◌, refl, ◌∙◌, Bool, true, false, Bool-cases, inl, inr,
  ◌&&◌, ◌||◌, List, [], ◌∷◌, ◌==◌, if◌then◌else◌, length, arith,
}
use fish_os.Klib.Bitmap.{Bitmap, get, set_bit}
use fish_os.Klib.Bitmap.Bits.{
  IsBytes, set_bit-IsBytes_any, get_in-set_bit, size-set_bit, length-set_bit,
}
use fish_os.Klib.Bitmap.Fill.{Shape}
use fish_os.Mem.Pmm.{set_range}
use fish_os.Mem.Pmm.Range.{in_range}
use fish_os.Mem.Pmm.Init.{MemmapEntry, last_usable, page_start, page_end, free_usable}

pub set_range-Shape :
    (k i : ℕ) (v : Bool) (b : Bitmap) → IsBytes b.buffer → Shape b (set_range k i v b)
unfolding set_range
set_range-Shape zero i v b h = record { bytes = h; size = refl; room = refl }
set_range-Shape (suc k) i v b h =
    let ih = set_range-Shape k (i + 1) v (set_bit b i v) (set_bit-IsBytes_any b i v h) in
    record {
      bytes = ih.bytes;
      size = ih.size ∙ size-set_bit b i v;
      room = ih.room ∙ length-set_bit b i v;
    }

-- a bit in bounds after a range was written, wherever the range lies
pub get_in-set_range :
    (k i j : ℕ) (v : Bool) (b : Bitmap)
    → IsBytes b.buffer
    → j / 8 < length b.buffer
    → get (set_range k i v b) j ≡ (if in_range i k j then v else get b j)
unfolding set_range
get_in-set_range zero i j v b h lt = ground arith
get_in-set_range (suc k) i j v b h lt =
    let ih =
      get_in-set_range k (i + 1) j v (set_bit b i v) (set_bit-IsBytes_any b i v h)
        (omega (arith, length-set_bit b i v)) in
    ground (arith, ih, get_in-set_bit b i j v h lt)

-- the page is one of those that a region frees
abbrev pub frees : ℕ → MemmapEntry → Bool
frees j entry =
    (entry.type == 0) && in_range (page_start entry) (page_end entry - page_start entry) j

unfoldable pub freed : ℕ → List MemmapEntry → Bool
freed j [] = false
freed j (entry ∷ entries) = freed j entries || frees j entry

abbrev pub freed_one : MemmapEntry → Bitmap → Bitmap
freed_one entry b =
    if entry.type == 0
    then set_range (page_end entry - page_start entry) (page_start entry) false b
    else b

freed_one-Shape :
    (entry : MemmapEntry) (b : Bitmap) → IsBytes b.buffer → Shape b (freed_one entry b)
freed_one-Shape entry b h = elim (Bool-cases (entry.type == 0)) [
  | inl usable ↦
      rw usable (set_range-Shape (page_end entry - page_start entry) (page_start entry) false b h)
  | inr other ↦ rw other (record { bytes = h; size = refl; room = refl })
]

get-freed_one :
    (entry : MemmapEntry) (j : ℕ) (b : Bitmap)
    → IsBytes b.buffer
    → j / 8 < length b.buffer
    → get (freed_one entry b) j ≡ (if frees j entry then false else get b j)
get-freed_one entry j b h lt = elim (Bool-cases (entry.type == 0)) [
  | inl usable ↦
      rw usable
        (get_in-set_range (page_end entry - page_start entry) (page_start entry) j false b h lt)
  | inr other ↦ rw other refl
]

pub free_usable-Shape :
    (entries : List MemmapEntry) (b : Bitmap) → IsBytes b.buffer → Shape b (free_usable entries b)
unfolding free_usable
free_usable-Shape [] b h = record { bytes = h; size = refl; room = refl }
free_usable-Shape (entry ∷ entries) b h =
    let one = freed_one-Shape entry b h in
    let rest = free_usable-Shape entries (freed_one entry b) one.bytes in
    record { bytes = rest.bytes; size = rest.size ∙ one.size; room = rest.room ∙ one.room }

pub get-free_usable :
    (entries : List MemmapEntry) (j : ℕ) (b : Bitmap)
    → IsBytes b.buffer
    → j / 8 < length b.buffer
    → get (free_usable entries b) j ≡ (if freed j entries then false else get b j)
unfolding free_usable freed
get-free_usable [] j b h lt = refl
get-free_usable (entry ∷ entries) j b h lt =
    let one = freed_one-Shape entry b h in
    let rest = get-free_usable entries j (freed_one entry b) one.bytes (omega (arith, one.room)) in
    rest
    ∙ join (freed j entries) (frees j entry) (get (freed_one entry b) j) (get b j)
        (get-freed_one entry j b h lt)
  where
    join :
        (rest one now before : Bool)
        → now ≡ (if one then false else before)
        → (if rest then false else now) ≡ (if rest || one then false else before)
    join true one now before e = refl
    join false one now before e = e

pub last_usable-lt :
    (entries : List MemmapEntry) (last : ℕ) → last < 2 ^ 64 → last_usable entries last < 2 ^ 64
unfolding last_usable
last_usable-lt [] last h = h
last_usable-lt (entry ∷ entries) last h = last_usable-lt entries _ (ground arith)
