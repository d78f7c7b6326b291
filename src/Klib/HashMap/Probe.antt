-- ===== src/Klib/HashMap/Probe.antt =====
-- src/klib/hashmap.hpp: the probe sequence visits every slot, so `get` agrees with a linear search
-- and `insert` meets a null slot if there is one.
use native.Mathlib.Decide.{dec_lt, ℕ_discrete}
use native.Mathlib.Nat.{mod-eq_of_lt, mod-eq-sub-mod}
use fish_os.Base.{
  ℕ, zero, suc, ◌+◌, ◌-◌, ◌%◌, ◌≤◌, ◌<◌, ◌≡◌, refl, ap, true, List, [], ◌∷◌, none, some, arith,
  length, set, inl, inr, Option-cases, Bool-cases,
}
use fish_os.Klib.Cstring.{CString}
use fish_os.Klib.HashMap.{
  Slot, null, entry, match, is_null, slot_at, attempt, get_loop, insert_loop,
}
use fish_os.Klib.HashMap.Slots.{
  found, find, count, occupied, found-add-found-le, find-eq-none, find-eq-some, null-of_lt,
}

-- every slot is tried in some round
pub record Covers (index : ℕ → ℕ) (n : ℕ) : Type 0 where
  pub inside : (i : ℕ) → index i < n
  pub round : (a : ℕ) → a < n → (i : ℕ) × (i < n) × (index i ≡ a)

attempt-round : (n first a : ℕ) → first < n → a < n → (i : ℕ) × (i < n) × (attempt n first i ≡ a)
attempt-round n first a f h = elim (dec_lt a first) [
  | no le ↦ (
    a - first,
    omega arith,
    omega (arith, mod-eq_of_lt {n = a - first + first} {m = n} (omega arith)),
  )
  | yes lt ↦ (
    a + n - first,
    omega arith,
    omega (
      arith,
      mod-eq-sub-mod {n = a + n - first + first} {m = n} (omega arith),
      mod-eq_of_lt {n = a + n - first + first - n} {m = n} (omega arith),
    ),
  )
]

pub attempt-Covers : (n h : ℕ) → 0 < n → Covers (attempt n (h % n)) n
attempt-Covers n h pos = record {
  inside = λ i. omega arith;
  round = λ a lt. attempt-round n (h % n) a (omega arith) lt;
}

module _ {ℓ} {V : Type ℓ} where
  get_loop-eq-none :
      (rounds i : ℕ) (index : ℕ → ℕ) (array : List (Slot V)) (key : CString)
      → ((j : ℕ) → match key (slot_at array j) ≡ none)
      → get_loop rounds i index array key ≡ none
  unfolding get_loop
  get_loop-eq-none zero i index array key h = refl
  get_loop-eq-none (suc rounds) i index array key h =
      rw (h (index i), get_loop) (get_loop-eq-none rounds (i + 1) index array key h)

  get_loop-eq-some :
      (rounds i t : ℕ) (index : ℕ → ℕ) (array : List (Slot V)) (key : CString) (v : V)
      → i ≤ t
      → t < i + rounds
      → match key (slot_at array (index t)) ≡ some v
      → ((j : ℕ) (w : V) → match key (slot_at array j) ≡ some w → w ≡ v)
      → get_loop rounds i index array key ≡ some v
  unfolding get_loop
  get_loop-eq-some zero i t index array key v le lt e only = absurd (omega arith)
  get_loop-eq-some (suc rounds) i t index array key v le lt e only =
      elim (Option-cases (match key (slot_at array (index i)))) [
        | inr (w, f) ↦ rw (f, get_loop) (ap some (only (index i) w f))
        | inl f ↦ elim (ℕ_discrete i t) [
          | yes here ↦ cc
          | no there ↦
              rw (f, get_loop)
                (get_loop-eq-some rounds (i + 1) t index array key v (omega arith) (omega arith) e
                  only)
        ]
      ]

  slot_at-out : (array : List (Slot V)) (j : ℕ) → length array ≤ j → slot_at array j ≡ null
  slot_at-out [] j h = refl
  slot_at-out (s ∷ array) zero h = absurd (omega arith)
  slot_at-out (s ∷ array) (suc j) h = slot_at-out array j (omega arith)

  -- a key stands in one slot at most
  abbrev pub IsUnique : List (Slot V) → Type 0
  IsUnique array = (key : CString) → count key array ≤ 1

  only-IsUnique :
      (array : List (Slot V)) (key : CString) (a : ℕ) (v : V)
      → IsUnique array
      → a < length array
      → match key (slot_at array a) ≡ some v
      → (j : ℕ) (w : V) → match key (slot_at array j) ≡ some w
      → w ≡ v
  unfolding match
  only-IsUnique array key a v u lt e j w f = elim (dec_lt j (length array)) [
    | no out ↦ absurd (no_slot (slot_at-out array j (omega arith)))
    | yes inside ↦ elim (ℕ_discrete a j) [
      | yes here ↦ cc
      | no there ↦ absurd (
          omega (
            arith,
            u key,
            found-add-found-le key array a j lt inside there,
            ap found e,
            ap found f,
          ))
    ]
  ]
    where
      no_slot : slot_at array j ≡ null → ⊥
      no_slot g = cc (ap (match key) g)

  -- On a table without duplicates the probe loop is a search of the array.
  pub get_loop-find :
      (index : ℕ → ℕ) (array : List (Slot V)) (key : CString)
      → Covers index (length array)
      → IsUnique array
      → get_loop (length array) 0 index array key ≡ find key array
  get_loop-find index array key c u = elim (Option-cases (find key array)) [
    | inl e ↦
        rw e (get_loop-eq-none (length array) 0 index array key (λ j. find-eq-none key array j e))
    | inr (v, e) ↦
        let (a, lt, m) = find-eq-some key array v e in
        let (t, below, at) = c.round a lt in
        rw e (
          get_loop-eq-some (length array) 0 t index array key v (omega arith) (omega arith)
            (rw at m) (only-IsUnique array key a v u lt m))
  ]

  -- The loop of `insert` takes a null slot, if one is tried.
  pub insert_loop-set :
      (rounds i t : ℕ) (index : ℕ → ℕ) (key : CString) (v : V) (array : List (Slot V))
      → i ≤ t
      → t < i + rounds
      → is_null (slot_at array (index t)) ≡ true
      → (s : ℕ) × (is_null (slot_at array (index s)) ≡ true)
        × (insert_loop rounds i index key v array ≡ set array (index s) (entry key v))
  unfolding insert_loop
  insert_loop-set zero i t index key v array le lt e = absurd (omega arith)
  insert_loop-set (suc rounds) i t index key v array le lt e =
      elim (Bool-cases (is_null (slot_at array (index i)))) [
        | inl here ↦ (i, here, rw (here, insert_loop))
        | inr f ↦
            let (s, n, run) =
              insert_loop-set rounds (i + 1) t index key v array (ground arith) (omega arith) e in
            (s, n, rw (f, insert_loop) run)
      ]

  pub insert_loop-found :
      (index : ℕ → ℕ) (key : CString) (v : V) (array : List (Slot V))
      → Covers index (length array)
      → occupied array < length array
      → (a : ℕ) × (a < length array)
        × (is_null (slot_at array a) ≡ true)
        × (insert_loop (length array) 0 index key v array ≡ set array a (entry key v))
  insert_loop-found index key v array c room =
      let (a, lt, e) = null-of_lt array room in
      let (t, below, at) = c.round a lt in
      let (s, n, run) =
        insert_loop-set (length array) 0 t index key v array (omega arith) (omega arith)
          (rw at e) in
      (index s, c.inside s, n, run)
