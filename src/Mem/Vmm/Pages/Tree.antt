-- ===== src/Mem/Vmm/Pages/Tree.antt =====
-- src/mem/vmm.cpp: the page tables as a tree.
use Prim.Native.Nat.{bit_and, bit_or}
use fish_os.Base.{ℕ, suc, ◌*◌, ◌^◌, ◌≤◌, ◌<◌, ◌≡◌, ◌≢◌, ap, ◌∙◌, false, ok, arith}
use fish_os.Base.Bits.{bit_and-bit_or, bit_or-zero, bit_and-one, page_mask}
use fish_os.Klib.Bitmap.{get}
use fish_os.Mem.Pmm.Alloc.{IsValid}
use fish_os.Mem.Vmm.Pages.{Paging, address_mask, table_flags, is_absent, page_table_next_level}

-- The page at an address is a table of this level, from 4 for a root down to 1; 0 is any other page.
abbrev pub Levels : Type 0
Levels = ℕ → ℕ

-- the entry leads to the next table
pub record Linked (s : Paging) (table index next : ℕ) : Type 0 where
  pub present : is_absent (s.tables table index) ≡ false
  pub leads : bit_and (s.tables table index) address_mask ≡ next

-- The tables above the last level lead to tables one level below, and no free page is a table.
pub record IsTree (level : Levels) (s : Paging) : Type 0 where
  pub lower : (t i n next : ℕ) → level t ≡ suc (suc n) → Linked s t i next → level next ≡ suc n
  pub fresh :
      (p : ℕ)
      → p < s.pmm.page_bitmap.size
      → get s.pmm.page_bitmap p ≡ false
      → level (p * 0x1000) ≡ 0
  pub valid : IsValid s.pmm
  pub small : s.pmm.page_bitmap.size ≤ 2 ^ 40

-- What was in the tree is in it as before: its tables at their levels, with their links.
pub record Grown (level level' : Levels) (s s' : Paging) : Type 0 where
  pub levels : (t : ℕ) → level t ≢ 0 → level' t ≡ level t
  pub links : (t i next : ℕ) → level t ≢ 0 → Linked s t i next → Linked s' t i next

-- the entry of a table leads to it and is present
pub new_entry :
    (p : ℕ)
    → p < 2 ^ 40
    → (is_absent (bit_or (p * 0x1000) table_flags) ≡ false)
      × (bit_and (bit_or (p * 0x1000) table_flags) address_mask ≡ p * 0x1000)
unfolding is_absent
new_entry p h =
    let even : bit_and (p * 0x1000) 1 ≡ 0 = omega (arith, bit_and-one (p * 0x1000)) in
    let one : bit_and (bit_or (p * 0x1000) 7) 1 ≡ 1 =
      bit_and-bit_or (p * 0x1000) 7 1 ∙ ap (λ x. bit_or x 1) even in
    (
      ground (arith, one),
      bit_and-bit_or (p * 0x1000) 7 address_mask
          ∙ bit_or-zero (bit_and (p * 0x1000) address_mask)
          ∙ page_mask p h,
    )

pub absent-present : {entry : ℕ} → entry ≡ 0 → is_absent entry ≡ false → ⊥
unfolding is_absent
absent-present e h = ground (arith, bit_and-bit_or 0 0 1, ap (λ a. bit_and a 1) e, h)

-- The table that a step leads to, which the same step finds again without any change.
pub record Stepped (level level' : Levels) (n table index : ℕ) (s s' : Paging) (next : ℕ)
    : Type 0 where
  pub tree : IsTree level' s'
  pub grown : Grown level level' s s'
  pub link : Linked s' table index next
  pub below : level' next ≡ suc n

pub next_level-Linked :
    (table index next : ℕ) (s : Paging)
    → Linked s table index next
    → page_table_next_level table index s ≡ ok (next, s)
unfolding page_table_next_level
next_level-Linked table index next s l =
    rw (page_table_next_level, l.present) (ap (λ a. ok (a, s)) l.leads)
