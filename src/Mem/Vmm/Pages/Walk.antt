-- ===== src/Mem/Vmm/Pages/Walk.antt =====
-- src/mem/vmm.cpp: the walk from a root to the last table, which finds the same table again.
use fish_os.Base.{ℕ, suc, ◌≡◌, ◌≢◌, sym, ◌∙◌, ok, arith}
use fish_os.Mem.Vmm.Pages.{Paging, index_at, page_table}
use fish_os.Mem.Vmm.Pages.Enough.{Enough}
use fish_os.Mem.Vmm.Pages.Tree.{Levels, Linked, IsTree, Grown, next_level-Linked}
use fish_os.Mem.Vmm.Pages.Step.{next_level-Stepped}

-- the tables from the root to the last level, for an address
pub record Route (level : Levels) (s : Paging) (virt pml4 table : ℕ) : Type 0 where
  pub t3 : ℕ
  pub t2 : ℕ
  pub level_4 : level pml4 ≡ 4
  pub level_3 : level t3 ≡ 3
  pub level_2 : level t2 ≡ 2
  pub level_1 : level table ≡ 1
  pub link_3 : Linked s pml4 (index_at virt 39) t3
  pub link_2 : Linked s t3 (index_at virt 30) t2
  pub link_1 : Linked s t2 (index_at virt 21) table

-- A route is followed without a change.
pub page_table-Route :
    (level : Levels) (s : Paging) (virt pml4 table : ℕ)
    → Route level s virt pml4 table
    → page_table virt pml4 s ≡ ok (table, s)
unfolding page_table
page_table-Route level s virt pml4 table r =
    rw
      (
        page_table,
        next_level-Linked pml4 (index_at virt 39) r.t3 s r.link_3,
        next_level-Linked r.t3 (index_at virt 30) r.t2 s r.link_2,
      )
      (next_level-Linked r.t2 (index_at virt 21) table s r.link_1)

Grown-trans :
    (l0 l1 l2 : Levels) (s0 s1 s2 : Paging)
    → Grown l0 l1 s0 s1
    → Grown l1 l2 s1 s2
    → Grown l0 l2 s0 s2
Grown-trans l0 l1 l2 s0 s1 s2 g h = record {
  levels = λ t ne. h.levels t (λ e. ne (sym (g.levels t ne) ∙ e)) ∙ g.levels t ne;
  links =
      λ t i next ne l. h.links t i next (λ e. ne (sym (g.levels t ne) ∙ e)) (g.links t i next ne l);
}

-- the walk's result: the tables are a tree with a route to the last one
pub record Walked (level level' : Levels) (virt pml4 k : ℕ) (s s' : Paging) (table : ℕ)
    : Type 0 where
  pub tree : IsTree level' s'
  pub grown : Grown level level' s s'
  pub route : Route level' s' virt pml4 table
  pub enough : Enough k s'.pmm

not_zero : {n m : ℕ} → n ≡ suc m → n ≢ 0
not_zero e = λ z. omega (arith, e, z)

pub page_table-Walked :
    (level : Levels) (k virt pml4 : ℕ) (s : Paging)
    → IsTree level s
    → level pml4 ≡ 4
    → Enough (suc (suc (suc k))) s.pmm
    → (table : ℕ) × (s' : Paging) × (level' : Levels) × (page_table virt pml4 s ≡ ok (table, s'))
      × Walked level level' virt pml4 k s s' table
unfolding page_table
page_table-Walked level k virt pml4 s tree root enough =
    let (t3, s3, l3, run3, (a, e3)) =
      next_level-Stepped level 2 (suc (suc k)) pml4 (index_at virt 39) s tree root enough in
    let (t2, s2, l2, run2, (b, e2)) =
      next_level-Stepped l3 1 (suc k) t3 (index_at virt 30) s3 a.tree a.below e3 in
    let (t1, s1, l1, run1, (c, e1)) =
      next_level-Stepped l2 0 k t2 (index_at virt 21) s2 b.tree b.below e2 in
    let root3 : l3 pml4 ≡ 4 = a.grown.levels pml4 (not_zero root) ∙ root in
    let root2 : l2 pml4 ≡ 4 = b.grown.levels pml4 (not_zero root3) ∙ root3 in
    let root1 : l1 pml4 ≡ 4 = c.grown.levels pml4 (not_zero root2) ∙ root2 in
    let third2 : l2 t3 ≡ 3 = b.grown.levels t3 (not_zero a.below) ∙ a.below in
    let third1 : l1 t3 ≡ 3 = c.grown.levels t3 (not_zero third2) ∙ third2 in
    let both = Grown-trans l3 l2 l1 s3 s2 s1 b.grown c.grown in
    (
      t1,
      s1,
      l1,
      rw (page_table, run3, run2) run1,
      record {
        tree = c.tree;
        grown = Grown-trans level l3 l1 s s3 s1 a.grown both;
        route = record {
          t3 = t3;
          t2 = t2;
          level_4 = root1;
          level_3 = third1;
          level_2 = c.grown.levels t2 (not_zero b.below) ∙ b.below;
          level_1 = c.below;
          link_3 = both.links pml4 (index_at virt 39) t3 (not_zero root3) a.link;
          link_2 = c.grown.links t3 (index_at virt 30) t2 (not_zero third2) b.link;
          link_1 = c.link;
        };
        enough = e1;
      },
    )
