-- ===== src/Klib/HashMap/Grow.antt =====
-- src/klib/hashmap.hpp, `grow`: the entries are moved into a table of twice the capacity.
use fish_os.Base.{
  ℕ, zero, suc, ◌+◌, ◌*◌, ◌≤◌, ◌<◌, ◌≡◌, refl, ap, sym, ◌∙◌, List, [], ◌∷◌, Option, none, some,
  arith, replicate, length-replicate,
}
use fish_os.Klib.Cstring.{CString}
use fish_os.Klib.HashMap.{
  Slot, null, deleted, entry, HashMap, match, place, reinsert, grow, insert_nested, new,
}
use fish_os.Klib.HashMap.Slots.{or_else, find, count, occupied, find-count, occupied-le}
use fish_os.Klib.HashMap.Place.{IsTable, place-Placed, same_table, size-place, insert_nested-place}

-- a table of null slots
module _ {ℓ} (V : Type ℓ) where
  pub count-null : (q : CString) (n : ℕ) → count {V = V} q (replicate n null) ≡ 0
  unfolding count match
  count-null q zero = refl
  count-null q (suc n) = omega (arith, count-null q n)

  pub occupied-null : (n : ℕ) → occupied {V = V} (replicate n null) ≡ 0
  unfolding occupied
  occupied-null zero = refl
  occupied-null (suc n) = omega (arith, occupied-null n)

  pub find-null : (q : CString) (n : ℕ) → find {V = V} q (replicate n null) ≡ none
  find-null q n = find-count q _ (count-null q n)

  pub new-IsTable : (n : ℕ) → 0 < n → IsTable {V = V} (new n)
  unfolding new
  new-IsTable n pos = record {
    width = sym (length-replicate n null);
    pos = pos;
    unique = λ q. omega (arith, count-null q n);
  }

module _ {ℓ} {V : Type ℓ} where
  -- `slots` are still to be moved into the table `m`, in which no key of theirs stands
  pub record Moving (slots : List (Slot V)) (m : HashMap V) : Type 0 where
    pub table : IsTable m
    pub exact : occupied m.array ≤ m.size
    pub light : (m.size + occupied slots) * 100 < 75 * m.capacity
    pub apart : (q : CString) → count q slots + count q m.array ≤ 1

  pub record Moved (slots : List (Slot V)) (m r : HashMap V) : Type ℓ where
    pub table : IsTable r
    pub capacity : r.capacity ≡ m.capacity
    pub exact : occupied r.array ≤ r.size
    pub size : r.size ≤ m.size + occupied slots
    pub reads : (q : CString) → find q r.array ≡ or_else (find q m.array) (find q slots)

  or_else-none : (o : Option V) → or_else o none ≡ o
  or_else-none none = refl
  or_else-none (some v) = refl

  pub reinsert-Moved :
      (fuel : ℕ) (slots : List (Slot V)) (m : HashMap V)
      → Moving slots m
      → (r : HashMap V) × (reinsert (insert_nested (suc fuel)) slots m ≡ some r) × Moved slots m r
  unfolding reinsert find count occupied match
  reinsert-Moved fuel [] m w = (
    m,
    refl,
    record {
      table = w.table;
      capacity = refl;
      exact = w.exact;
      size = omega arith;
      reads = λ q. sym (or_else-none (find q m.array));
    },
  )
  reinsert-Moved fuel (null ∷ slots) m w =
      let (r, run, d) = reinsert-Moved fuel slots m (record {
        table = w.table;
        exact = w.exact;
        light = omega (arith, w.light);
        apart = λ q. omega (arith, w.apart q);
      }) in
      (
        r,
        run,
        record {
          table = d.table;
          capacity = d.capacity;
          exact = d.exact;
          size = omega (arith, d.size);
          reads = d.reads;
        },
      )
  reinsert-Moved fuel (deleted ∷ slots) m w =
      let (r, run, d) = reinsert-Moved fuel slots m (record {
        table = w.table;
        exact = w.exact;
        light = omega (arith, w.light);
        apart = λ q. omega (arith, w.apart q);
      }) in
      (
        r,
        run,
        record {
          table = d.table;
          capacity = d.capacity;
          exact = d.exact;
          size = omega (arith, d.size);
          reads = d.reads;
        },
      )
  reinsert-Moved fuel (entry k v ∷ slots) m w =
      let p =
        place-Placed k v (record m { size = m.size + 1 }) (same_table m (m.size + 1) w.table)
          (omega (arith, w.light, w.exact)) (λ q. omega (arith, w.apart q)) in
      let (r, run, d) =
        reinsert-Moved fuel slots (place k v (record m { size = m.size + 1 })) (record {
          table = p.table;
          exact = omega (arith, p.filled, w.exact, size-place k v (record m { size = m.size + 1 }));
          light =
              omega (arith, w.light, p.capacity, size-place k v (record m { size = m.size + 1 }));
          apart = λ q. omega (arith, w.apart q, p.counts q);
        }) in
      (
        r,
        rw (insert_nested-place fuel k v m w.table.pos (omega (arith, w.light)), reinsert) run,
        record {
          table = d.table;
          capacity = d.capacity ∙ p.capacity;
          exact = d.exact;
          size = omega (arith, d.size, size-place k v (record m { size = m.size + 1 }));
          reads = λ q. ground (arith, d.reads q, p.reads q, w.apart q, find-count q m.array);
        },
      )

  pub new-Moving : (m : HashMap V) → IsTable m → Moving m.array (new (m.capacity * 2))
  unfolding new
  new-Moving m t = record {
    table = unfold new in new-IsTable V (m.capacity * 2) (omega (arith, t.pos));
    exact = omega (arith, occupied-null V (m.capacity * 2));
    light = omega (arith, occupied-le m.array, t.width, t.pos);
    apart = λ q. omega (arith, t.unique q, count-null V q (m.capacity * 2));
  }

  -- the table that `grow` leaves
  pub record Grown (m g : HashMap V) : Type ℓ where
    pub table : IsTable g
    pub capacity : g.capacity ≡ m.capacity * 2
    pub exact : occupied g.array ≤ g.size
    pub size : g.size ≤ m.capacity
    pub reads : (q : CString) → find q g.array ≡ find q m.array

  -- `grow` moves every entry, and the nested calls of `insert` do not grow the table.
  pub grow-Grown :
      (fuel : ℕ) (m : HashMap V)
      → IsTable m
      → (g : HashMap V) × (grow (insert_nested (suc fuel)) m ≡ some g) × Grown m g
  unfolding grow new
  grow-Grown fuel m t =
      let (g, run, d) = reinsert-Moved fuel m.array (new (m.capacity * 2)) (new-Moving m t) in
      (
        g,
        run,
        record {
          table = d.table;
          capacity = d.capacity;
          exact = d.exact;
          size = omega (arith, d.size, occupied-le m.array, t.width);
          reads = λ q.
              d.reads q ∙ ap (λ o. or_else o (find q m.array)) (find-null V q (m.capacity * 2));
        },
      )
