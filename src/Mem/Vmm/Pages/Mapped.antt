-- ===== src/Mem/Vmm/Pages/Mapped.antt =====
-- src/mem/vmm.cpp, `map_page`: the page is found where it was mapped.
use Prim.Native.Nat.{bit_and, bit_or}
use fish_os.Base.{ℕ, suc, ◌≡◌, ◌≢◌, refl, sym, ap, ◌∙◌, Bool, not, ok, ◌==◌, arith}
use fish_os.Base.Bits.{bit_and-bit_or, bit_or-zero, bit_and_twice}
use fish_os.Mem.Vmm.Pages.{
  Paging, address_mask, index_at, is_absent, put_entry, map_page, physical_addr,
}
use fish_os.Mem.Vmm.Pages.Enough.{Enough}
use fish_os.Mem.Vmm.Pages.Tree.{Levels, Linked, IsTree}
use fish_os.Mem.Vmm.Pages.Walk.{Route, page_table-Route, page_table-Walked}

-- an entry of a table of the last level is no part of the tree
module _ (level : Levels) (s : Paging) (table index entry : ℕ) (last : level table ≡ 1) where
  abbrev pub stored : Paging
  stored = record s { tables = put_entry table index entry s.tables }

  stored-read : (t i n : ℕ) → level t ≡ suc (suc n) → stored.tables t i ≡ s.tables t i
  unfolding put_entry
  stored-read t i n lt = let ne : t ≢ table = λ e. ground (arith, e, last, lt) in ground (arith, ne)

  pub stored-Linked :
      (t i n next : ℕ) → level t ≡ suc (suc n) → Linked s t i next → Linked stored t i next
  stored-Linked t i n next lt l =
      let e = stored-read t i n lt in
      record {
        present = ap is_absent e ∙ l.present;
        leads = ap (λ a. bit_and a address_mask) e ∙ l.leads;
      }

  pub stored-IsTree : IsTree level s → IsTree level stored
  stored-IsTree tree = record {
    lower = λ t i n next lt l.
        let e = stored-read t i n lt in
        tree.lower t i n next lt (record {
          present = ap is_absent (sym e) ∙ l.present;
          leads = ap (λ a. bit_and a address_mask) (sym e) ∙ l.leads;
        });
    fresh = tree.fresh;
    valid = tree.valid;
    small = tree.small;
  }

  pub stored-Route :
      (virt pml4 : ℕ) → Route level s virt pml4 table → Route level stored virt pml4 table
  stored-Route virt pml4 r = record {
    t3 = r.t3;
    t2 = r.t2;
    level_4 = r.level_4;
    level_3 = r.level_3;
    level_2 = r.level_2;
    level_1 = r.level_1;
    link_3 = stored-Linked pml4 (index_at virt 39) 2 r.t3 r.level_4 r.link_3;
    link_2 = stored-Linked r.t3 (index_at virt 30) 1 r.t2 r.level_3 r.link_2;
    link_1 = stored-Linked r.t2 (index_at virt 21) 0 table r.level_2 r.link_1;
  }

  pub stored_entry : stored.tables table index ≡ entry
  unfolding put_entry
  stored_entry = ground arith

-- the address that the entry at the end of a route holds
pub physical_addr-Route :
    (level : Levels) (s : Paging) (virt pml4 table : ℕ)
    → Route level s virt pml4 table
    → physical_addr virt pml4 s ≡ ok (bit_and (s.tables table (index_at virt 12)) address_mask, s)
unfolding physical_addr
physical_addr-Route level s virt pml4 table r =
    rw (physical_addr, page_table-Route level s virt pml4 table r) refl

-- flags outside of the address do not change it
pub entry_address :
    (a flags : ℕ)
    → bit_and flags address_mask ≡ 0
    → bit_and (bit_or a flags) address_mask ≡ bit_and a address_mask
entry_address a flags none =
    bit_and-bit_or a flags address_mask
    ∙ ap (λ x. bit_or (bit_and a address_mask) x) none
    ∙ bit_or-zero (bit_and a address_mask)

-- With three free pages for new tables, mapping a page in tables that are a tree succeeds and keeps them
-- one; the address is then translated to that of the page, without a change of the tables, whatever flags
-- outside of the address it has.
pub map_page-physical_addr :
    (level : Levels) (phy virt flags pml4 : ℕ) (s : Paging)
    → IsTree level s
    → level pml4 ≡ 4
    → Enough 3 s.pmm
    → bit_and flags address_mask ≡ 0
    → (replaced : Bool) × (s' : Paging) × (level' : Levels) × (map_page phy virt flags pml4 s
        ≡ ok (replaced, s'))
      × (IsTree level' s'
          × ((level' pml4 ≡ 4) × (physical_addr virt pml4 s' ≡ ok (bit_and phy address_mask, s'))))
unfolding map_page
map_page-physical_addr level phy virt flags pml4 s tree root enough apart =
    let (table, s1, level', run, w) = page_table-Walked level 0 virt pml4 s tree root enough in
    let index = index_at virt 12 in
    let entry = bit_or (bit_and phy address_mask) flags in
    let last = w.route.level_1 in
    let s' = stored level' s1 table index entry last in
    let route = stored-Route level' s1 table index entry last virt pml4 w.route in
    (
      not (s1.tables table index == 0),
      s',
      level',
      rw (map_page, run) refl,
      (
        stored-IsTree level' s1 table index entry last w.tree,
        (
          w.route.level_4,
          physical_addr-Route level' s' virt pml4 table route
              ∙ ap (λ a. ok (bit_and a address_mask, s'))
                  (stored_entry level' s1 table index entry last)
              ∙ ap (λ a. ok (a, s'))
                  (entry_address (bit_and phy address_mask) flags apart
                    ∙ bit_and_twice phy address_mask),
        ),
      ),
    )
