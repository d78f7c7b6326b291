-- ===== src/Klib/HashMap/Erase.antt =====
-- src/klib/hashmap.hpp, `erase`: the loop deletes what stands under the key and nothing else.
use native.Mathlib.Decide.{ℕ_discrete}
use fish_os.Base.{
  ℕ, zero, suc, ◌+◌, ◌%◌, ◌≤◌, ◌<◌, ◌≡◌, refl, sym, ap, ◌∙◌, false, List, [], ◌∷◌, none, some,
  if◌then◌else◌, arith, length, set, inl, inr, Option-cases, Bool-cases, length-set,
}
use mathlib.Core.Path.{subst}
use fish_os.Klib.Cstring.{CString}
use fish_os.Klib.Cstring.Compare.{equal, equal_symm, equal_trans}
use fish_os.Klib.HashMap.{
  Slot, null, deleted, entry, HashMap, hash, match, slot_at, attempt, erase_loop, erase,
}
use fish_os.Klib.HashMap.Slots.{
  found, find, count, used, occupied, occupied-set, count-set, match_congr, find-count,
}
use fish_os.Klib.HashMap.Probe.{Covers, attempt-Covers}
use fish_os.Klib.HashMap.Insert.{IsValid}

module _ {ℓ} {V : Type ℓ} where
  -- `b` is `a` with some of what stands under the key deleted
  record Erased (key : CString) (a b : List (Slot V)) : Type ℓ where
    width : length b ≡ length a
    filled : occupied b ≡ occupied a
    counts : (q : CString) → count q b ≤ count q a
    others : (q : CString) → equal key q ≡ false → find q b ≡ find q a
    stays : (j : ℕ) → match key (slot_at a j) ≡ none → match key (slot_at b j) ≡ none

  match-other :
      (key q : CString) (s : Slot V) (v : V)
      → match key s ≡ some v
      → equal key q ≡ false
      → match q s ≡ none
  unfolding match
  match-other key q null v e f = refl
  match-other key q deleted v e f = refl
  match-other key q (entry k w) v e f =
      ground (arith, equal_trans key k q, equal_symm k key, equal_symm k q)

  used-match : (key : CString) (s : Slot V) (v : V) → match key s ≡ some v → used s ≡ 1
  unfolding match
  used-match key null v e = cc
  used-match key deleted v e = cc
  used-match key (entry k w) v e = refl

  find-set_deleted :
      (q : CString) (slots : List (Slot V)) (i : ℕ)
      → match q (slot_at slots i) ≡ none
      → find q (set slots i deleted) ≡ find q slots
  unfolding find match
  find-set_deleted q [] i e = refl
  find-set_deleted q (s ∷ slots) zero e = ground arith
  find-set_deleted q (s ∷ slots) (suc i) e = ground (arith, find-set_deleted q slots i e)

  slot_at-set_deleted :
      (key : CString) (slots : List (Slot V)) (i j : ℕ)
      → match key (slot_at slots j) ≡ none
      → match key (slot_at (set slots i deleted) j) ≡ none
  unfolding match
  slot_at-set_deleted key [] i j e = refl
  slot_at-set_deleted key (s ∷ slots) zero zero e = refl
  slot_at-set_deleted key (s ∷ slots) zero (suc j) e = e
  slot_at-set_deleted key (s ∷ slots) (suc i) zero e = e
  slot_at-set_deleted key (s ∷ slots) (suc i) (suc j) e = slot_at-set_deleted key slots i j e

  slot_at-set_self :
      (key : CString) (slots : List (Slot V)) (i : ℕ)
      → match key (slot_at (set slots i deleted) i) ≡ none
  unfolding match
  slot_at-set_self key [] i = refl
  slot_at-set_self key (s ∷ slots) zero = refl
  slot_at-set_self key (s ∷ slots) (suc i) = slot_at-set_self key slots i

  Erased-refl : (key : CString) (a : List (Slot V)) → Erased key a a
  Erased-refl key a = record {
    width = refl;
    filled = refl;
    counts = λ q. omega arith;
    others = λ q e. refl;
    stays = λ j e. e;
  }

  Erased-trans :
      {key : CString} {a b c : List (Slot V)} → Erased key a b → Erased key b c → Erased key a c
  Erased-trans d e = record {
    width = e.width ∙ d.width;
    filled = e.filled ∙ d.filled;
    counts = λ q. omega (arith, d.counts q, e.counts q);
    others = λ q f. e.others q f ∙ d.others q f;
    stays = λ j f. e.stays j (d.stays j f);
  }

  set-Erased :
      (key : CString) (a : List (Slot V)) (i : ℕ) (v : V)
      → i < length a
      → match key (slot_at a i) ≡ some v
      → Erased key a (set a i deleted)
  set-Erased key a i v lt e = record {
    width = length-set a i deleted;
    filled = omega (arith, occupied-set a i deleted lt, used-match key _ v e);
    counts = λ q. unfold match in omega (arith, count-set q a i deleted lt);
    others = λ q f. find-set_deleted q a i (match-other key q _ v e f);
    stays = λ j f. slot_at-set_deleted key a i j f;
  }

  -- one round: the slot that it tries no longer holds the key
  abbrev round : CString → ℕ → List (Slot V) → List (Slot V)
  round key i a = elim (match key (slot_at a i)) [ none ↦ a | some _ ↦ set a i deleted ]

  round-Erased :
      (key : CString) (i : ℕ) (a : List (Slot V))
      → i < length a
      → Erased key a (round key i a) × (match key (slot_at (round key i a) i) ≡ none)
  round-Erased key i a lt = elim (Option-cases (match key (slot_at a i))) [
    | inl e ↦ (rw (e, round) (Erased-refl key a), rw (e, round) e)
    | inr (v, e) ↦
        (rw (e, round) (set-Erased key a i v lt e), rw (e, round) (slot_at-set_self key a i))
  ]

  erase_loop-Erased :
      (rounds i : ℕ) (index : ℕ → ℕ) (key : CString) (a : List (Slot V))
      → Covers index (length a)
      → Erased key a (erase_loop rounds i index key a)
        × ((t : ℕ)
            → i ≤ t
            → t < i + rounds
            → match key (slot_at (erase_loop rounds i index key a) (index t)) ≡ none)
  unfolding erase_loop
  erase_loop-Erased zero i index key a c = (Erased-refl key a, λ t le lt. absurd (omega arith))
  erase_loop-Erased (suc rounds) i index key a c =
      let (step, clear) = round-Erased key (index i) a (c.inside i) in
      let (rest, cleared) =
        erase_loop-Erased rounds (i + 1) index key (round key (index i) a) (rw step.width c) in
      (
        Erased-trans step rest,
        λ t le lt. elim (ℕ_discrete i t) [
          | yes here ↦ rw (← here) (rest.stays (index i) clear)
          | no there ↦ cleared t (omega arith) (omega arith)
        ],
      )

  count-slots :
      (key : CString) (a : List (Slot V))
      → ((j : ℕ) → j < length a → match key (slot_at a j) ≡ none)
      → count key a ≡ 0
  unfolding count
  count-slots key [] h = refl
  count-slots key (s ∷ a) h =
      omega
        (arith, ap found (h 0 (omega arith)), count-slots key a (λ j lt. h (suc j) (omega arith)))

  -- `r` is valid, has nothing under the key, and else what `m` has
  pub record Removed (key : CString) (m r : HashMap V) : Type ℓ where
    pub valid : IsValid r
    pub reads : (q : CString) → find q r.array ≡ (if equal key q then none else find q m.array)

  find_gone :
      (key q : CString) (a b : List (Slot V))
      → Erased key a b
      → ((j : ℕ) → j < length b → match key (slot_at b j) ≡ none)
      → find q b ≡ (if equal key q then none else find q a)
  find_gone key q a b e h = elim (Bool-cases (equal key q)) [
    | inr f ↦ rw f (e.others q f)
    | inl f ↦ rw f (
        find-count q b (count-slots q b (λ j lt. sym (match_congr key q (slot_at b j) f) ∙ h j lt)))
  ]

  pub erase-Removed : (key : CString) (m : HashMap V) → IsValid m → Removed key m (erase key m)
  unfolding erase
  erase-Removed key m w =
      let index = attempt m.capacity (hash key % m.capacity) in
      let c : Covers index (length m.array) =
        subst (Covers index) w.table.width (attempt-Covers m.capacity (hash key) w.table.pos) in
      let (e, cleared) = erase_loop-Erased m.capacity 0 index key m.array c in
      record {
        valid = record {
          table = record {
            width = omega (arith, w.table.width, e.width);
            pos = w.table.pos;
            unique = λ q. omega (arith, e.counts q, w.table.unique q);
          };
          filled = omega (arith, e.filled, w.filled);
          light = w.light;
        };
        reads = λ q. find_gone key q m.array _ e (λ j lt.
            let (t, below, at) = c.round j (omega (arith, e.width)) in
            subst (λ k. match key (slot_at (erase_loop m.capacity 0 index key m.array) k) ≡ none) at
              (cleared t (omega arith) (omega (arith, w.table.width))));
      }
