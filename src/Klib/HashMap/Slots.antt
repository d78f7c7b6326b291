-- ===== src/Klib/HashMap/Slots.antt =====
-- src/klib/hashmap.hpp: how often a key stands in an array of slots, and a linear search of it.

use fish_os.Base.{
  ℕ, zero, suc, ◌+◌, ◌≤◌, ◌<◌, ◌≡◌, ◌≢◌, refl, ap, true, List, [], ◌∷◌, Option, none, some,
  if◌then◌else◌, arith, length, set, inl, inr, Option-cases,
}
use fish_os.Klib.Cstring.{CString}
use fish_os.Klib.Cstring.Compare.{equal, equal_symm, equal_trans}
use fish_os.Klib.HashMap.{Slot, null, deleted, entry, match, is_null, slot_at}

abbrev pub found {ℓ} : {V : Type ℓ} → Option V → ℕ
found none = 0
found (some v) = 1

abbrev pub or_else {ℓ} : {V : Type ℓ} → Option V → Option V → Option V
or_else none o = o
or_else (some v) o = some v

module _ {ℓ} {V : Type ℓ} where
  unfoldable pub find : CString → List (Slot V) → Option V
  find key [] = none
  find key (s ∷ slots) = or_else (match key s) (find key slots)

  unfoldable pub count : CString → List (Slot V) → ℕ
  count key [] = 0
  count key (s ∷ slots) = found (match key s) + count key slots

  -- the slots that are not null, tombstones among them
  abbrev pub used : Slot V → ℕ
  used null = 0
  used deleted = 1
  used (entry k v) = 1

  unfoldable pub occupied : List (Slot V) → ℕ
  occupied [] = 0
  occupied (s ∷ slots) = used s + occupied slots

  pub match-null : (key : CString) (s : Slot V) → is_null s ≡ true → match key s ≡ none
  unfolding match is_null
  match-null key null h = refl
  match-null key deleted h = cc
  match-null key (entry k v) h = cc

  pub match_congr : (a b : CString) (s : Slot V) → equal a b ≡ true → match a s ≡ match b s
  unfolding match
  match_congr a b null h = refl
  match_congr a b deleted h = refl
  match_congr a b (entry k v) h =
      ground (arith, equal_trans k a b, equal_trans k b a, equal_symm a b)

  pub occupied-le : (slots : List (Slot V)) → occupied slots ≤ length slots
  unfolding occupied
  occupied-le [] = omega arith
  occupied-le (null ∷ slots) = omega (arith, occupied-le slots)
  occupied-le (deleted ∷ slots) = omega (arith, occupied-le slots)
  occupied-le (entry k v ∷ slots) = omega (arith, occupied-le slots)

  pub occupied-set :
      (slots : List (Slot V)) (i : ℕ) (s : Slot V)
      → i < length slots
      → occupied (set slots i s) + used (slot_at slots i) ≡ occupied slots + used s
  unfolding occupied
  occupied-set [] i s h = absurd (omega arith)
  occupied-set (t ∷ slots) zero s h = omega arith
  occupied-set (t ∷ slots) (suc i) s h = omega (arith, occupied-set slots i s)

  pub count-set :
      (key : CString) (slots : List (Slot V)) (i : ℕ) (s : Slot V)
      → i < length slots
      → count key (set slots i s) + found (match key (slot_at slots i))
        ≡ count key slots + found (match key s)
  unfolding count
  count-set key [] i s h = absurd (omega arith)
  count-set key (t ∷ slots) zero s h = omega arith
  count-set key (t ∷ slots) (suc i) s h = omega (arith, count-set key slots i s)

  pub found-le-count :
      (key : CString) (slots : List (Slot V)) (i : ℕ)
      → i < length slots
      → found (match key (slot_at slots i)) ≤ count key slots
  unfolding count
  found-le-count key [] i h = absurd (omega arith)
  found-le-count key (t ∷ slots) zero h = omega arith
  found-le-count key (t ∷ slots) (suc i) h = omega (arith, found-le-count key slots i)

  -- Two slots under one key count twice.
  pub found-add-found-le :
      (key : CString) (slots : List (Slot V)) (i j : ℕ)
      → i < length slots
      → j < length slots
      → i ≢ j
      → found (match key (slot_at slots i)) + found (match key (slot_at slots j)) ≤ count key slots
  unfolding count
  found-add-found-le key [] i j h k ne = absurd (omega arith)
  found-add-found-le key (t ∷ slots) zero zero h k ne = absurd (ne refl)
  found-add-found-le key (t ∷ slots) zero (suc j) h k ne = omega (arith, found-le-count key slots j)
  found-add-found-le key (t ∷ slots) (suc i) zero h k ne = omega (arith, found-le-count key slots i)
  found-add-found-le key (t ∷ slots) (suc i) (suc j) h k ne =
      omega
        (arith, found-add-found-le key slots i j (omega arith) (omega arith) (λ e. ne (ap suc e)))

  pub find-eq-none :
      (key : CString) (slots : List (Slot V)) (i : ℕ)
      → find key slots ≡ none
      → match key (slot_at slots i) ≡ none
  unfolding find match
  find-eq-none key [] i h = refl
  find-eq-none key (t ∷ slots) zero h = ground arith
  find-eq-none key (t ∷ slots) (suc i) h = ground (arith, find-eq-none key slots i)

  pub find-eq-some :
      (key : CString) (slots : List (Slot V)) (v : V)
      → find key slots ≡ some v
      → (i : ℕ) × (i < length slots) × (match key (slot_at slots i) ≡ some v)
  unfolding find
  find-eq-some key [] v h = cc
  find-eq-some key (t ∷ slots) v h = elim (Option-cases (match key t)) [
    | inr (w, e) ↦ (0, omega arith, ground arith)
    | inl e ↦ let (i, lt, m) = find-eq-some key slots v (ground arith) in (suc i, omega arith, m)
  ]

  pub find-count :
      (key : CString) (slots : List (Slot V)) → count key slots ≡ 0 → find key slots ≡ none
  unfolding find count
  find-count key [] h = refl
  find-count key (t ∷ slots) h = ground (arith, find-count key slots)

  pub count-find :
      (key : CString) (slots : List (Slot V)) → find key slots ≡ none → count key slots ≡ 0
  unfolding find count
  count-find key [] h = refl
  count-find key (t ∷ slots) h = ground (arith, count-find key slots)

  -- A table that is not full has a null slot.
  pub null-of_lt :
      (array : List (Slot V))
      → occupied array < length array
      → (a : ℕ) × (a < length array) × (is_null (slot_at array a) ≡ true)
  unfolding occupied is_null
  null-of_lt [] h = absurd (omega arith)
  null-of_lt (null ∷ array) h = (0, omega arith, refl)
  null-of_lt (deleted ∷ array) h =
      let (a, lt, e) = null-of_lt array (omega arith) in (suc a, omega arith, e)
  null-of_lt (entry k v ∷ array) h =
      let (a, lt, e) = null-of_lt array (omega arith) in (suc a, omega arith, e)

  -- What a search finds after a null slot has been given an entry under a new key.
  pub find-set :
      (key q : CString) (v : V) (slots : List (Slot V)) (i : ℕ)
      → i < length slots
      → is_null (slot_at slots i) ≡ true
      → count q slots + found (match q (entry key v)) ≤ 1
      → find q (set slots i (entry key v)) ≡ (if equal key q then some v else find q slots)
  unfolding find match count
  find-set key q v [] i h n c = absurd (omega arith)
  find-set key q v (t ∷ slots) zero h n c = ground (arith, match-null q t n, find-count q slots)
  find-set key q v (t ∷ slots) (suc i) h n c = ground (arith, find-set key q v slots i)
