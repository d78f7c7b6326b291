-- ===== src/Klib/HashMap/Place.antt =====
-- src/klib/hashmap.hpp, `insert`: an entry under a new key is placed in the table at hand.
use fish_os.Base.{
  ℕ, suc, ◌+◌, ◌*◌, ◌/◌, ◌%◌, ◌≤◌, ◌<◌, ◌≡◌, refl, ap, ◌∙◌, true, false, some, leb, if◌then◌else◌,
  arith, length, set, length-set,
}
use mathlib.Core.Path.{subst}
use native.Mathlib.Nat.{div-lt_iff_lt-mul}
use fish_os.Klib.Cstring.{CString}
use fish_os.Klib.Cstring.Compare.{equal}
use fish_os.Klib.HashMap.{
  Slot, null, deleted, entry, HashMap, hash, match, is_null, slot_at, attempt, insert_loop, place,
  insert_nested, load_percentage,
}
use fish_os.Klib.HashMap.Slots.{
  found, find, count, used, occupied, occupied-set, count-set, find-set, match-null,
}
use fish_os.Klib.HashMap.Probe.{Covers, attempt-Covers, IsUnique, insert_loop-found}

module _ {ℓ} {V : Type ℓ} where
  pub record IsTable (m : HashMap V) : Type 0 where
    pub width : m.capacity ≡ length m.array
    pub pos : 0 < m.capacity
    pub unique : IsUnique m.array

  -- `r` is `m` with one more entry; nothing is said of the sizes
  pub record Placed (key : CString) (v : V) (m r : HashMap V) : Type ℓ where
    pub table : IsTable r
    pub capacity : r.capacity ≡ m.capacity
    pub filled : occupied r.array ≡ occupied m.array + 1
    pub counts : (q : CString) → count q r.array ≡ count q m.array + found (match q (entry key v))
    pub reads : (q : CString) → find q r.array ≡ (if equal key q then some v else find q m.array)

  used-null : (s : Slot V) → is_null s ≡ true → used s ≡ 0
  unfolding is_null
  used-null null h = refl
  used-null deleted h = cc
  used-null (entry k v) h = cc

  set-Placed :
      (key : CString) (v : V) (m : HashMap V) (a : ℕ)
      → IsTable m
      → a < length m.array
      → is_null (slot_at m.array a) ≡ true
      → ((q : CString) → count q m.array + found (match q (entry key v)) ≤ 1)
      → Placed key v m (record m { array = set m.array a (entry key v) })
  set-Placed key v m a t lt n fresh =
      let counts = λ (q : CString). count-set q m.array a (entry key v) lt in
      let nothing = λ (q : CString). match-null q (slot_at m.array a) n in
      record {
        table = record {
          width = omega (arith, t.width, length-set m.array a (entry key v));
          pos = t.pos;
          unique = λ q. omega (arith, counts q, fresh q);
        };
        capacity = refl;
        filled = omega (arith, occupied-set m.array a (entry key v) lt, used-null _ n);
        counts = λ q. omega (arith, counts q, ap found (nothing q));
        reads = λ q. find-set key q v m.array a lt n (fresh q);
      }

  pub place-Placed :
      (key : CString) (v : V) (m : HashMap V)
      → IsTable m
      → occupied m.array < m.capacity
      → ((q : CString) → count q m.array + found (match q (entry key v)) ≤ 1)
      → Placed key v m (place key v m)
  unfolding place
  place-Placed key v m t room fresh =
      let index = attempt m.capacity (hash key % m.capacity) in
      let covers : Covers index (length m.array) =
        subst (Covers index) t.width (attempt-Covers m.capacity (hash key) t.pos) in
      let (a, lt, n, run) = insert_loop-found index key v m.array covers (omega (arith, t.width)) in
      let run' : insert_loop m.capacity 0 index key v m.array ≡ set m.array a (entry key v) =
        ap (λ n. insert_loop n 0 index key v m.array) t.width ∙ run in
      rw run' (set-Placed key v m a t lt n fresh)

  pub same_table : (m : HashMap V) (n : ℕ) → IsTable m → IsTable (record m { size = n })
  same_table m n t = record { width = t.width; pos = t.pos; unique = t.unique }

  pub size-place : (key : CString) (v : V) (m : HashMap V) → (place key v m).size ≡ m.size
  unfolding place
  size-place key v m = refl

  -- with room for one more below three quarters, nothing is moved
  pub insert_nested-place :
      (fuel : ℕ) (key : CString) (v : V) (m : HashMap V)
      → 0 < m.capacity
      → (m.size + 1) * 100 < 75 * m.capacity
      → insert_nested (suc fuel) key v m ≡ some (place key v (record m { size = m.size + 1 }))
  unfolding insert_nested load_percentage
  insert_nested-place fuel key v m pos light = rw (insert_nested, light_test)
    where
      light_test : leb 75 (((m.size + 1) * 100) / m.capacity) ≡ false
      light_test = ground (
        arith,
        (div-lt_iff_lt-mul {k = m.capacity} {x = (m.size + 1) * 100} {y = 75} pos).1 light,
      )
