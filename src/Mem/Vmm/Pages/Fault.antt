-- ===== src/Mem/Vmm/Pages/Fault.antt =====
-- src/mem/vmm.cpp, `handle_page_fault`: a fault in an anonymous range gets a page of its own.
use Prim.Native.Nat.{bit_and, bit_or}
use fish_os.Base.{
  ℕ, suc, ◌*◌, ◌≡◌, ◌≢◌, ◌⊎◌, refl, sym, ap, ◌∙◌, Bool, true, false, Bool-cases, inl, inr, List,
  some, ok, arith,
}
use fish_os.Base.Bits.{bit_and-bit_or, bit_and-one, page_mask}
use fish_os.Klib.Bitmap.{get}
use fish_os.Mem.Pmm.{Pmm}
use fish_os.Mem.Vmm.{MappedRange, anonymous, addr_to_range}
use fish_os.Mem.Vmm.Pages.{
  Paging, address_mask, index_at, is_absent, put_entry, clear, physical_addr, fill_entry,
  handle_page_fault,
}
use fish_os.Mem.Vmm.Pages.Enough.{Enough, OnePage, alloc_one}
use fish_os.Mem.Vmm.Pages.Tree.{Levels, Linked, IsTree}
use fish_os.Mem.Vmm.Pages.Walk.{Route, page_table-Route, page_table-Walked}
use fish_os.Mem.Vmm.Pages.Mapped.{
  stored, stored-IsTree, stored-Route, stored_entry, physical_addr-Route, entry_address,
}

-- a page that was free is cleared
module _ (level : Levels) (s : Paging) (p : Pmm) (new : ℕ) (tree : IsTree level s)
    (o : OnePage s.pmm p new) where
  abbrev pub cleared : Paging
  cleared = record { tables = clear new s.tables; pmm = p }

  pub cleared_level : level new ≡ 0
  cleared_level = ap level o.aligned ∙ tree.fresh o.page o.inside o.was_free

  cleared-read : (t i n : ℕ) → level t ≡ suc n → cleared.tables t i ≡ s.tables t i
  unfolding clear
  cleared-read t i n lt =
      let ne : t ≢ new = λ e. ground (arith, e, lt, cleared_level) in ground (arith, ne)

  cleared-Linked : (t i n next : ℕ) → level t ≡ suc n → Linked s t i next → Linked cleared t i next
  cleared-Linked t i n next lt l =
      let e = cleared-read t i n lt in
      record {
        present = ap is_absent e ∙ l.present;
        leads = ap (λ a. bit_and a address_mask) e ∙ l.leads;
      }

  pub cleared-IsTree : IsTree level cleared
  cleared-IsTree = record {
    lower = λ t i n next lt l.
        let e = cleared-read t i (suc n) lt in
        tree.lower t i n next lt (record {
          present = ap is_absent (sym e) ∙ l.present;
          leads = ap (λ a. bit_and a address_mask) (sym e) ∙ l.leads;
        });
    fresh = λ q inside free.
        let other : q ≢ o.page = λ e. ground (arith, free, o.taken, e) in
        tree.fresh q (omega (arith, inside, o.size)) (sym (o.others q other) ∙ free);
    valid = o.valid;
    small = omega (arith, o.size, tree.small);
  }

  pub cleared-Route :
      (virt pml4 table : ℕ) → Route level s virt pml4 table → Route level cleared virt pml4 table
  cleared-Route virt pml4 table r = record {
    t3 = r.t3;
    t2 = r.t2;
    level_4 = r.level_4;
    level_3 = r.level_3;
    level_2 = r.level_2;
    level_1 = r.level_1;
    link_3 = cleared-Linked pml4 (index_at virt 39) 3 r.t3 r.level_4 r.link_3;
    link_2 = cleared-Linked r.t3 (index_at virt 30) 2 r.t2 r.level_3 r.link_2;
    link_1 = cleared-Linked r.t2 (index_at virt 21) 1 table r.level_2 r.link_1;
  }

-- a fault at an address whose entry is present is not handled
present-fault :
    (level : Levels) (hhdm virt : ℕ) (ranges : List MappedRange) (pml4 table : ℕ) (s : Paging)
    → Route level s virt pml4 table
    → is_absent (s.tables table (index_at virt 12)) ≡ false
    → handle_page_fault hhdm virt ranges pml4 s ≡ ok (true, s)
unfolding handle_page_fault
present-fault level hhdm virt ranges pml4 table s r present =
    rw (handle_page_fault, page_table-Route level s virt pml4 table r, present) refl

-- a page in use that is no table, all zeros, is where the address leads
pub record Backed (level : Levels) (virt pml4 : ℕ) (s : Paging) : Type 0 where
  pub page : ℕ
  pub translated : physical_addr virt pml4 s ≡ ok (page * 0x1000, s)
  pub in_use : get s.pmm.page_bitmap page ≡ true
  pub no_table : level (page * 0x1000) ≡ 0
  pub zeros : (i : ℕ) → s.tables (page * 0x1000) i ≡ 0

-- the entry of the address is present
pub record Present (level : Levels) (virt pml4 : ℕ) (s : Paging) : Type 0 where
  pub table : ℕ
  pub route : Route level s virt pml4 table
  pub entry : is_absent (s.tables table (index_at virt 12)) ≡ false

-- after the handler, whose result `failed` says that the fault was not handled: the page is there, and a second fault at the address is not handled
pub record Handled (level : Levels) (hhdm virt : ℕ) (ranges : List MappedRange) (pml4 : ℕ)
    (failed : Bool) (s : Paging) : Type 0 where
  pub tree : IsTree level s
  pub root : level pml4 ≡ 4
  pub outcome :
      ((failed ≡ true) × Present level virt pml4 s) ⊎ ((failed ≡ false) × Backed level virt pml4 s)
  pub again : handle_page_fault hhdm virt ranges pml4 s ≡ ok (true, s)

abbrev pub Flags : MappedRange → Type 0
Flags range = (bit_and range.page_flags address_mask ≡ 0) × (bit_and range.page_flags 1 ≡ 1)

module _ (level : Levels) (hhdm virt : ℕ) (ranges : List MappedRange) (pml4 table : ℕ)
    (range : MappedRange) (s : Paging) (tree : IsTree level s)
    (route : Route level s virt pml4 table) (p : Pmm) (new : ℕ) (o : OnePage s.pmm p new)
    (flags : Flags range) where
  abbrev entry : ℕ
  entry = bit_or new range.page_flags

  abbrev pub filled : Paging
  filled = stored level (cleared level s p new tree o) table (index_at virt 12) entry route.level_1

  filled-Route : Route level filled virt pml4 table
  filled-Route =
      stored-Route level (cleared level s p new tree o) table (index_at virt 12) entry route.level_1
        virt pml4 (cleared-Route level s p new tree o virt pml4 table route)

  filled_entry : filled.tables table (index_at virt 12) ≡ entry
  filled_entry =
      stored_entry level (cleared level s p new tree o) table (index_at virt 12) entry route.level_1

  entry_present : is_absent entry ≡ false
  unfolding is_absent
  entry_present =
      let (_, one) = flags in
      let even : bit_and new 1 ≡ 0 = omega (arith, bit_and-one new, o.aligned) in
      let e : bit_and entry 1 ≡ 1 =
        bit_and-bit_or new range.page_flags 1
        ∙ ap (λ x. bit_or x (bit_and range.page_flags 1)) even
        ∙ ap (λ x. bit_or 0 x) one in
      ground (arith, e)

  filled-zeros : (i : ℕ) → filled.tables new i ≡ 0
  unfolding put_entry clear
  filled-zeros i =
      let ne : new ≢ table =
        λ e. ground (arith, e, route.level_1, cleared_level level s p new tree o) in
      ground (arith, ne)

  filled-Handled : Handled level hhdm virt ranges pml4 false filled
  filled-Handled =
      let (apart, _) = flags in
      let aligned = o.aligned in
      record {
        tree =
            stored-IsTree level (cleared level s p new tree o) table (index_at virt 12) entry
              route.level_1 (cleared-IsTree level s p new tree o);
        root = route.level_4;
        outcome = inr (
          refl,
          record {
            page = o.page;
            translated =
                physical_addr-Route level filled virt pml4 table filled-Route
                ∙ ap (λ a. ok (bit_and a address_mask, filled)) filled_entry
                ∙ ap (λ a. ok (a, filled)) (entry_address new range.page_flags apart)
                ∙ ap (λ a. ok (bit_and a address_mask, filled)) aligned
                ∙ ap (λ a. ok (a, filled)) (page_mask o.page (omega (arith, o.inside, tree.small)));
            in_use = o.taken;
            no_table = ap level (sym aligned) ∙ cleared_level level s p new tree o;
            zeros = λ i. ap (λ a. filled.tables a i) (sym aligned) ∙ filled-zeros i;
          },
        );
        again =
            present-fault level hhdm virt ranges pml4 table filled filled-Route
              (ap is_absent filled_entry ∙ entry_present);
      }

-- With four free pages, and tables that are a tree, the handler returns on a fault at an address of an
-- anonymous range whose flags say present and leave the address alone. Either the fault is not handled, and
-- the tables lead from the address to an entry that is present; or it is handled, and the address now leads
-- to a page of zeros that is in use and no table. After both, the tables are a tree and another fault at the
-- address is not handled.
pub handle_page_fault-Handled :
    (level : Levels) (hhdm virt : ℕ) (ranges : List MappedRange) (pml4 : ℕ) (range : MappedRange)
    (s : Paging)
    → IsTree level s
    → level pml4 ≡ 4
    → Enough 4 s.pmm
    → addr_to_range virt ranges ≡ some range
    → range.type ≡ anonymous
    → Flags range
    → (failed : Bool) × (s' : Paging) × (level' : Levels) × (handle_page_fault hhdm virt ranges pml4
          s
        ≡ ok (failed, s'))
      × Handled level' hhdm virt ranges pml4 failed s'
unfolding handle_page_fault fill_entry
handle_page_fault-Handled level hhdm virt ranges pml4 range s tree root enough found anon flags =
    let (table, s1, level', run, w) = page_table-Walked level 1 virt pml4 s tree root enough in
    elim (Bool-cases (is_absent (s1.tables table (index_at virt 12)))) [
      | inl absent ↦
          let ((p, new), allocated, (o, _)) = alloc_one 0 s1.pmm w.tree.valid w.enough in
          (
            false,
            filled level' hhdm virt ranges pml4 table range s1 w.tree w.route p new o flags,
            level',
            rw (handle_page_fault, run, absent, found, fill_entry, anon, allocated) refl,
            filled-Handled level' hhdm virt ranges pml4 table range s1 w.tree w.route p new o flags,
          )
      | inr present ↦ (
        true,
        s1,
        level',
        rw (handle_page_fault, run, present) refl,
        record {
          tree = w.tree;
          root = w.route.level_4;
          outcome = inl (refl, record { table = table; route = w.route; entry = present });
          again = present-fault level' hhdm virt ranges pml4 table s1 w.route present;
        },
      )
    ]
