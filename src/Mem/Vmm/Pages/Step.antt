-- ===== src/Mem/Vmm/Pages/Step.antt =====
-- src/mem/vmm.cpp, `page_table_next_level`: one step down the tables, which are a tree.
use Prim.Native.Nat.{bit_and, bit_or}
use fish_os.Base.{
  ℕ, suc, ◌*◌, ◌≡◌, ◌≢◌, refl, sym, ap, ◌∙◌, true, false, Bool-cases, inl, inr, ◌&&◌, ok, ◌==◌,
  if◌then◌else◌, arith,
}
use fish_os.Mem.Pmm.{Pmm}
use fish_os.Mem.Vmm.Pages.{
  Paging, address_mask, table_flags, is_absent, put_entry, clear, page_table_next_level,
}
use fish_os.Mem.Vmm.Pages.Enough.{Enough, Enough-less, OnePage, alloc_one}
use fish_os.Mem.Vmm.Pages.Tree.{Levels, Linked, IsTree, Stepped, new_entry, absent-present}

module _ (level : Levels) (n table index : ℕ) (s : Paging) (tree : IsTree level s)
    (above : level table ≡ suc (suc n)) where
  step-present :
      is_absent (s.tables table index) ≡ false
      → let next = bit_and (s.tables table index) address_mask in
        Stepped level level n table index s s next
  step-present present =
      let link : Linked s table index (bit_and (s.tables table index) address_mask) = record {
        present = present;
        leads = refl;
      } in
      record {
        tree = tree;
        grown = record { levels = λ t ne. refl; links = λ t i next ne l. l };
        link = link;
        below = tree.lower table index n _ above link;
      }

  -- the state after a table has been allocated
  abbrev filled : Pmm → ℕ → Paging
  filled p new = record {
    tables = put_entry table index (bit_or new table_flags) (clear new s.tables);
    pmm = p;
  }

  abbrev level_new : ℕ → Levels
  level_new new t = if t == new then suc n else level t

  module _ (p : Pmm) (new : ℕ) (absent : is_absent (s.tables table index) ≡ true)
      (o : OnePage s.pmm p new) where
    fresh_level : level new ≡ 0
    fresh_level = ap level o.aligned ∙ tree.fresh o.page o.inside o.was_free

    entry_new : bit_and (bit_or new table_flags) address_mask ≡ new
    entry_new =
        let (_, e) = new_entry o.page (omega (arith, o.inside, tree.small)) in
        ap (λ a. bit_and (bit_or a table_flags) address_mask) o.aligned ∙ e ∙ sym o.aligned

    entry_present : is_absent (bit_or new table_flags) ≡ false
    entry_present =
        let (e, _) = new_entry o.page (omega (arith, o.inside, tree.small)) in
        ap (λ a. is_absent (bit_or a table_flags)) o.aligned ∙ e

    not_new : (t : ℕ) → level t ≢ 0 → t ≢ new
    not_new t ne = λ i. ne (ap level i ∙ fresh_level)

    read_table : (filled p new).tables table index ≡ bit_or new table_flags
    unfolding put_entry
    read_table = ground arith

    read_other :
        (t i : ℕ)
        → t ≢ new
        → ((t == table) && (i == index)) ≡ false
        → (filled p new).tables t i ≡ s.tables t i
    unfolding put_entry clear
    read_other t i ne other = ground (arith, ne, other)

    read_new : (i : ℕ) → (filled p new).tables new i ≡ 0
    unfolding put_entry clear
    read_new i = let ne = not_new table (λ e. ground (arith, e, above)) in ground (arith, ne)

    Linked-read :
        (t i next : ℕ)
        → (filled p new).tables t i ≡ s.tables t i
        → Linked (filled p new) t i next
        → Linked s t i next
    Linked-read t i next e l = record {
      present = ap is_absent (sym e) ∙ l.present;
      leads = ap (λ a. bit_and a address_mask) (sym e) ∙ l.leads;
    }

    Linked-old :
        (t i m next : ℕ)
        → t ≢ new
        → ((t == table) && (i == index)) ≡ false
        → level t ≡ suc (suc m)
        → Linked (filled p new) t i next
        → level_new new next ≡ suc m
    Linked-old t i m next ne other lt l =
        let old = tree.lower t i m next lt (Linked-read t i next (read_other t i ne other) l) in
        let ne' = not_new next (λ e. ground (arith, e, old)) in ground (arith, ne', old)

    Linked-new :
        (t i m next : ℕ)
        → ((t == table) && (i == index)) ≡ true
        → level t ≡ suc (suc m)
        → Linked (filled p new) t i next
        → level_new new next ≡ suc m
    Linked-new t i m next same lt l =
        let et : t ≡ table = ground (arith, same) in
        let ei : i ≡ index = ground (arith, same) in
        let read : (filled p new).tables t i ≡ bit_or new table_flags =
          ap (λ a. (filled p new).tables a i) et
          ∙ ap (λ a. (filled p new).tables table a) ei
          ∙ read_table in
        let en : next ≡ new = sym l.leads ∙ ap (λ a. bit_and a address_mask) read ∙ entry_new in
        let depth : suc (suc m) ≡ suc (suc n) = sym lt ∙ ap level et ∙ above in
        ground (arith, en, depth)

    filled-lower :
        (t i m next : ℕ)
        → level_new new t ≡ suc (suc m)
        → Linked (filled p new) t i next
        → level_new new next ≡ suc m
    filled-lower t i m next lt l = elim (Bool-cases (t == new)) [
      | inl is_new ↦
          let e : t ≡ new = ground (arith, is_new) in
          let zeros : (filled p new).tables t i ≡ 0 =
            ap (λ a. (filled p new).tables a i) e ∙ read_new i in
          absurd (absent-present zeros l.present)
      | inr old ↦
          let ne : t ≢ new = λ e. ground (arith, old, e) in
          let lt' : level t ≡ suc (suc m) = ground (arith, old, lt) in
          elim (Bool-cases ((t == table) && (i == index))) [
            | inl same ↦ Linked-new t i m next same lt' l
            | inr other ↦ Linked-old t i m next ne other lt' l
          ]
    ]

    filled-links : (t i next : ℕ) → level t ≢ 0 → Linked s t i next → Linked (filled p new) t i next
    filled-links t i next ne l = elim (Bool-cases ((t == table) && (i == index))) [
      | inl same ↦
          let et : t ≡ table = ground (arith, same) in
          let ei : i ≡ index = ground (arith, same) in
          let there : is_absent (s.tables t i) ≡ true =
            ap (λ a. is_absent (s.tables a i)) et
            ∙ ap (λ a. is_absent (s.tables table a)) ei
            ∙ absent in
          absurd (ground (arith, there, l.present))
      | inr other ↦
          let e = read_other t i (not_new t ne) other in
          record {
            present = ap is_absent e ∙ l.present;
            leads = ap (λ a. bit_and a address_mask) e ∙ l.leads;
          }
    ]

    filled-IsTree : IsTree (level_new new) (filled p new)
    filled-IsTree = record {
      lower = filled-lower;
      fresh = λ q inside free.
          let other : q ≢ o.page = λ e. ground (arith, free, o.taken, e) in
          let before =
            tree.fresh q (omega (arith, inside, o.size)) (sym (o.others q other) ∙ free) in
          let apart : (q * 0x1000 == new) ≡ false = ground (arith, o.aligned, other) in
          ground (arith, before, apart);
      valid = o.valid;
      small = omega (arith, o.size, tree.small);
    }

    step-absent : Stepped level (level_new new) n table index s (filled p new) new
    step-absent = record {
      tree = filled-IsTree;
      grown = record { levels = λ t ne. ground (arith, not_new t ne); links = filled-links };
      link = record {
        present = ap is_absent read_table ∙ entry_present;
        leads = ap (λ a. bit_and a address_mask) read_table ∙ entry_new;
      };
      below = ground arith;
    }

-- A step from a table above the last level, with a free page left for a new table, gives a table one
-- level below, and the tables stay a tree that has what it had.
pub next_level-Stepped :
    (level : Levels) (n k table index : ℕ) (s : Paging)
    → IsTree level s
    → level table ≡ suc (suc n)
    → Enough (suc k) s.pmm
    → (next : ℕ) × (s' : Paging) × (level' : Levels) × (page_table_next_level table index s
        ≡ ok (next, s'))
      × (Stepped level level' n table index s s' next × Enough k s'.pmm)
unfolding page_table_next_level
next_level-Stepped level n k table index s tree above enough =
    elim (Bool-cases (is_absent (s.tables table index))) [
      | inl absent ↦
          let ((p, new), run, (o, rest)) = alloc_one k s.pmm tree.valid enough in
          (
            new,
            filled level n table index s tree above p new,
            level_new level n table index s tree above new,
            rw (page_table_next_level, absent, run) refl,
            (step-absent level n table index s tree above p new absent o, rest),
          )
      | inr present ↦ (
        bit_and (s.tables table index) address_mask,
        s,
        level,
        rw (page_table_next_level, present) refl,
        (step-present level n table index s tree above present, Enough-less k s.pmm enough),
      )
    ]
