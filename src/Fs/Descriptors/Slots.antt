-- ===== src/Fs/Descriptors/Slots.antt =====
-- src/sched/sched.cpp: the search for a free slot, and the number of slots in use.
use fish_os.Base.{
  ℕ, zero, suc, ◌+◌, ◌<◌, ◌≤◌, ◌≡◌, refl, ap, ◌∙◌, ◌⊎◌, inl, inr, List, [], ◌∷◌, ◌++◌, Option, none,
  some, Option-cases, length, set, arith,
}
use fish_os.Fs.Descriptors.{FileDescriptor, slot, find_free}

unfoldable pub count : List (Option FileDescriptor) → ℕ
count [] = 0
count (none ∷ table) = count table
count (some d ∷ table) = suc (count table)

pub count-append-none :
    (table : List (Option FileDescriptor)) → count (table ++ (none ∷ [])) ≡ count table
unfolding count
count-append-none [] = refl
count-append-none (none ∷ table) = count-append-none table
count-append-none (some d ∷ table) = ap suc (count-append-none table)

pub count-set-some :
    (table : List (Option FileDescriptor)) (i : ℕ) (d : FileDescriptor)
    → slot table i ≡ none
    → i < length table
    → count (set table i (some d)) ≡ suc (count table)
unfolding count
count-set-some [] i d free h = absurd (omega arith)
count-set-some (none ∷ table) zero d free h = refl
count-set-some (some e ∷ table) zero d free h = absurd (ground (arith, free))
count-set-some (none ∷ table) (suc i) d free h = count-set-some table i d free (omega arith)
count-set-some (some e ∷ table) (suc i) d free h =
    ap suc (count-set-some table i d free (omega arith))

pub count-set-none :
    (table : List (Option FileDescriptor)) (i : ℕ) (d : FileDescriptor)
    → slot table i ≡ some d
    → count table ≡ suc (count (set table i none))
unfolding count
count-set-none [] i d used = absurd (ground (arith, used))
count-set-none (none ∷ table) zero d used = absurd (ground (arith, used))
count-set-none (some e ∷ table) zero d used = refl
count-set-none (none ∷ table) (suc i) d used = count-set-none table i d used
count-set-none (some e ∷ table) (suc i) d used = ap suc (count-set-none table i d used)

find_free-here :
    (rounds i : ℕ) (table : List (Option FileDescriptor))
    → slot table i ≡ none
    → find_free (suc rounds) i table ≡ some i
unfolding find_free
find_free-here rounds i table free = rw (find_free, free) refl

find_free-next :
    (rounds i : ℕ) (table : List (Option FileDescriptor)) (d : FileDescriptor)
    → slot table i ≡ some d
    → find_free (suc rounds) i table ≡ find_free rounds (i + 1) table
unfolding find_free
find_free-next rounds i table d used = rw (find_free, used) refl

-- the search fails, or it finds a free slot within its rounds
pub find_free-cases :
    (rounds i : ℕ) (table : List (Option FileDescriptor))
    → (find_free rounds i table ≡ none)
      ⊎ ((j : ℕ) × (find_free rounds i table ≡ some j)
          × (slot table j ≡ none)
          × (i ≤ j)
          × (j < i + rounds))
unfolding find_free
find_free-cases zero i table = inl refl
find_free-cases (suc rounds) i table = elim (Option-cases (slot table i)) [
  | inl free ↦ inr (i, find_free-here rounds i table free, free, omega arith, omega arith)
  | inr (d, used) ↦
      let next = find_free-next rounds i table d used in
      elim (find_free-cases rounds (i + 1) table) [
        | inl missing ↦ inl (next ∙ missing)
        | inr (j, found, free, l, h) ↦ inr (j, next ∙ found, free, omega arith, omega arith)
      ]
]

pub find_free-first :
    (rounds i : ℕ) (table : List (Option FileDescriptor))
    → slot table i ≡ none
    → 0 < rounds
    → find_free rounds i table ≡ some i
find_free-first zero i table free h = absurd (omega arith)
find_free-first (suc rounds) i table free h = find_free-here rounds i table free

pub slot-length :
    (table : List (Option FileDescriptor)) (i : ℕ) (d : FileDescriptor)
    → slot table i ≡ some d
    → i < length table
slot-length [] i d used = absurd (ground (arith, used))
slot-length (e ∷ table) zero d used = omega arith
slot-length (e ∷ table) (suc i) d used = omega (arith, slot-length table i d used)
