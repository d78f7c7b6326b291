-- ===== src/Klib/HashMap/Insert.antt =====
-- src/klib/hashmap.hpp, `insert`: a new key is added, whether or not the table grows.
use fish_os.Base.{
  ◌+◌, ◌*◌, ◌/◌, ◌≤◌, ◌<◌, ◌≡◌, refl, sym, ◌∙◌, true, List, [], ◌∷◌, none, some, leb, if◌then◌else◌,
  arith, inl, inr, Bool-cases,
}
use native.Mathlib.Nat.{div-lt_iff_lt-mul}
use fish_os.Klib.Cstring.{CString}
use fish_os.Klib.Cstring.Compare.{equal}
use fish_os.Klib.HashMap.{
  Slot, entry, HashMap, match, place, insert_nested, insert, load_percentage,
}
use fish_os.Klib.HashMap.Slots.{found, find, count, occupied, count-find, match_congr}
use fish_os.Klib.HashMap.Probe.{IsUnique}
use fish_os.Klib.HashMap.Place.{IsTable, place-Placed, same_table, size-place, insert_nested-place}
use fish_os.Klib.HashMap.Grow.{grow-Grown}

module _ {ℓ} {V : Type ℓ} where
  -- what a table is between two calls: after a grow the size is one below the number of used slots
  pub record IsValid (m : HashMap V) : Type 0 where
    pub table : IsTable m
    pub filled : occupied m.array ≤ m.size + 1
    pub light : m.size * 100 < 75 * m.capacity

  -- `r` is a valid table that has `v` under a new key, and else what `m` has
  pub record Inserted (key : CString) (v : V) (m r : HashMap V) : Type ℓ where
    pub valid : IsValid r
    pub reads : (q : CString) → find q r.array ≡ (if equal key q then some v else find q m.array)

  find_congr :
      (a b : CString) (slots : List (Slot V)) → equal a b ≡ true → find a slots ≡ find b slots
  unfolding find
  find_congr a b [] e = refl
  find_congr a b (s ∷ slots) e = rw (match_congr a b s e, find_congr a b slots e)

  fresh_key :
      (key : CString) (v : V) (slots : List (Slot V))
      → IsUnique slots
      → find key slots ≡ none
      → (q : CString) → count q slots + found (match q (entry key v)) ≤ 1
  unfolding match
  fresh_key key v slots u f q = elim (Bool-cases (equal key q)) [
    | inl e ↦ rw e (omega (arith, count-find q slots (sym (find_congr key q slots e) ∙ f)))
    | inr e ↦ rw e (omega (arith, u q))
  ]

  insert-light :
      (key : CString) (v : V) (m : HashMap V)
      → IsValid m
      → find key m.array ≡ none
      → (m.size + 1) * 100 < 75 * m.capacity
      → (r : HashMap V) × (insert key v m ≡ some r) × Inserted key v m r
  unfolding insert
  insert-light key v m w f light =
      let m' : HashMap V = record m { size = m.size + 1 } in
      let p =
        place-Placed key v m' (same_table m (m.size + 1) w.table) (omega (arith, w.filled))
          (fresh_key key v m.array w.table.unique f) in
      (
        place key v m',
        insert_nested-place 1 key v m w.table.pos light,
        record {
          valid = record {
            table = p.table;
            filled = omega (arith, p.filled, w.filled, size-place key v m');
            light = omega (arith, p.capacity, size-place key v m');
          };
          reads = p.reads;
        },
      )

  insert-grow :
      (key : CString) (v : V) (m : HashMap V)
      → IsValid m
      → find key m.array ≡ none
      → leb 75 (load_percentage (m.size + 1) m.capacity) ≡ true
      → (r : HashMap V) × (insert key v m ≡ some r) × Inserted key v m r
  unfolding insert insert_nested
  insert-grow key v m w f full =
      let m' : HashMap V = record m { size = m.size + 1 } in
      let (g, run, d) = grow-Grown 0 m' (same_table m (m.size + 1) w.table) in
      let p =
        place-Placed key v g d.table (omega (arith, d.exact, d.size, d.capacity, w.table.pos))
          (fresh_key key v g.array d.table.unique (d.reads key ∙ f)) in
      (
        place key v g,
        rw (full, insert_nested, run),
        record {
          valid = record {
            table = p.table;
            filled = omega (arith, p.filled, d.exact, size-place key v g);
            light = omega (arith, p.capacity, d.size, d.capacity, size-place key v g, w.table.pos);
          };
          reads = λ q. ground (arith, p.reads q, d.reads q);
        },
      )

  -- On a valid table `insert` of a key that is not there succeeds, growing the table or not, and keeps
  -- the table valid.
  pub insert-Inserted :
      (key : CString) (v : V) (m : HashMap V)
      → IsValid m
      → find key m.array ≡ none
      → (r : HashMap V) × (insert key v m ≡ some r) × Inserted key v m r
  unfolding load_percentage
  insert-Inserted key v m w f = elim (Bool-cases (leb 75 (((m.size + 1) * 100) / m.capacity))) [
    | inl full ↦ insert-grow key v m w f (unfold load_percentage in full)
    | inr light ↦ insert-light key v m w f (
        (div-lt_iff_lt-mul {k = m.capacity} {x = (m.size + 1) * 100} {y = 75} w.table.pos).0
          (ground (arith, light)))
  ]
