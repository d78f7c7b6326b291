-- ===== src/Fs/Create/Added.antt =====
-- src/fs/tmpfs.cpp: a store with valid tables, and what a new child changes.
use fish_os.Base.{
  ℕ, zero, suc, ◌<◌, ◌≤◌, ◌≡◌, ◌≢◌, refl, sym, ap, ◌∙◌, [], ◌∷◌, ◌++◌, Option, none, some,
  if◌then◌else◌, length, set, arith, get_or-set_self, get_or-set_ne, length-set, get_or-append_left,
  length-append,
}
use native.Mathlib.Decide.{ℕ_discrete, dec_lt}
use fish_os.Klib.Cstring.{CString}
use fish_os.Klib.Cstring.Compare.{equal}
use fish_os.Klib.HashMap.{HashMap, get}
use fish_os.Klib.HashMap.Map.{new-IsValid, get-insert}
use fish_os.Klib.HashMap.Insert.{IsValid}
use fish_os.Fs.Node.{Node, NodeType, Store, node_at, new_node}
use fish_os.Fs.Path.Ends.{IsFlat}
use fish_os.Fs.Create.{add_child}

-- the children of every node are a valid table, and no redirection leads to another
pub record IsStore (store : Store) : Type 0 where
  pub tables : (i : ℕ) → i < length store → IsValid (node_at store i).children
  pub flat : IsFlat store
  pub inside : (i next : ℕ) → (node_at store i).redirect ≡ some next → next < length store

-- `s` is `store` with one more child of `dir`
pub record Added (dir : ℕ) (name : CString) (child : ℕ) (store s : Store) : Type 0 where
  pub same_length : length s ≡ length store
  pub others : (i : ℕ) → i ≢ dir → node_at s i ≡ node_at store i
  pub table : HashMap ℕ
  pub dir_node : node_at s dir ≡ record (node_at store dir) { children = table }
  pub valid : IsValid table
  pub children :
      (q : CString)
      → get q table ≡ (if equal name q then some child else get q (node_at store dir).children)

pub add_child-Added :
    (dir : ℕ) (name : CString) (child : ℕ) (store : Store)
    → dir < length store
    → IsValid (node_at store dir).children
    → get name (node_at store dir).children ≡ none
    → (s : Store) × (add_child dir name child store ≡ some s) × Added dir name child store s
unfolding add_child
add_child-Added dir name child store inside valid free =
    let (t, run, ok, reads) = get-insert name child (node_at store dir).children valid free in
    let n = record (node_at store dir) { children = t } in
    (
      set store dir n,
      rw (add_child, run) refl,
      record {
        same_length = length-set store dir n;
        others = λ i ne. get_or-set_ne store dir i n _ (λ e. ne (sym e));
        table = t;
        dir_node = get_or-set_self store dir n _ inside;
        valid = ok;
        children = reads;
      },
    )

pub Added-redirect :
    {dir : ℕ} {name : CString} {child : ℕ} {store s : Store}
    → Added dir name child store s
    → (i : ℕ) → (node_at s i).redirect ≡ (node_at store i).redirect
Added-redirect {dir} a i = elim (ℕ_discrete i dir) [
  | yes e ↦ rw e (ap (λ (n : Node). n.redirect) a.dir_node)
  | no ne ↦ ap (λ (n : Node). n.redirect) (a.others i ne)
]

-- A new child keeps a store valid.
pub Added-IsStore :
    {dir : ℕ} {name : CString} {child : ℕ} {store s : Store}
    → Added dir name child store s
    → IsStore store
    → IsStore s
unfolding IsFlat
Added-IsStore {dir} {store} {s} a v = record {
  tables = λ i h. elim (ℕ_discrete i dir) [
    | yes e ↦ rw (e, a.dir_node) a.valid
    | no ne ↦ rw (a.others i ne) (v.tables i (omega (arith, a.same_length)))
  ];
  flat = λ i next e. Added-redirect a next ∙ v.flat i next (sym (Added-redirect a i) ∙ e);
  inside = λ i next e. omega (arith, a.same_length, v.inside i next (sym (Added-redirect a i) ∙ e));
}

pub node_at-left : (s t : Store) (i : ℕ) → i < length s → node_at (s ++ t) i ≡ node_at s i
node_at-left s t i h = get_or-append_left s t i _ h

pub node_at-last : (s : Store) (n : Node) → node_at (s ++ (n ∷ [])) (length s) ≡ n
node_at-last [] n = refl
node_at-last (m ∷ s) n = node_at-last s n

node_at-beyond : (s : Store) (i : ℕ) → length s ≤ i → (node_at s i).redirect ≡ none
node_at-beyond [] i h = refl
node_at-beyond (n ∷ s) zero h = absurd (omega arith)
node_at-beyond (n ∷ s) (suc i) h = node_at-beyond s i (omega arith)

-- A node with a valid table, whose redirection leads to a node that is none, keeps a store valid.
pub append-IsStore :
    (s : Store) (n : Node)
    → IsStore s
    → IsValid n.children
    → ((t : ℕ) → n.redirect ≡ some t → (t < length s) × ((node_at s t).redirect ≡ none))
    → IsStore (s ++ (n ∷ []))
unfolding IsFlat
append-IsStore s n v ok target =
    let size = length-append s (n ∷ []) in
    record {
      tables = λ i h. elim (dec_lt i (length s)) [
        | yes old ↦ rw (node_at-left s (n ∷ []) i old) (v.tables i old)
        | no new ↦ let e : i ≡ length s = omega (arith, new, h, size) in rw (e, node_at-last s n) ok
      ];
      flat = λ i next e.
          let (h, direct) = leads i next e in
          ap (λ (m : Node). m.redirect) (node_at-left s (n ∷ []) next h) ∙ direct;
      inside = λ i next e. let (h, direct) = leads i next e in omega (arith, size, h);
    }
  where
    leads :
        (i next : ℕ)
        → (node_at (s ++ (n ∷ [])) i).redirect ≡ some next
        → (next < length s) × ((node_at s next).redirect ≡ none)
    leads i next e = elim (dec_lt i (length s)) [
      | yes old ↦
          let e' : (node_at s i).redirect ≡ some next =
            sym (ap (λ (m : Node). m.redirect) (node_at-left s (n ∷ []) i old)) ∙ e in
          (v.inside i next e', v.flat i next e')
      | no new ↦ elim (ℕ_discrete i (length s)) [
        | yes here ↦ target next (
            sym
              (ap (λ (m : Node). m.redirect) (ap (node_at (s ++ (n ∷ []))) here ∙ node_at-last s n))
            ∙ e)
        | no behind ↦ absurd (
            ground (
              arith,
              e,
              node_at-beyond (s ++ (n ∷ [])) i
                  (omega (arith, new, behind, length-append s (n ∷ []))),
            ))
      ]
    ]

pub new_node-IsValid :
    (heap : Option ℕ) (type : NodeType) (parent : Option ℕ) (name : CString)
    → IsValid (new_node heap type parent name).children
      × ((q : CString) → get q (new_node heap type parent name).children ≡ none)
unfolding new_node
new_node-IsValid heap type parent name = new-IsValid {V = ℕ} 16 (omega arith)

pub Added-get :
    {dir : ℕ} {name : CString} {child : ℕ} {store s : Store}
    → Added dir name child store s
    → (q : CString)
    → get q (node_at s dir).children
      ≡ (if equal name q then some child else get q (node_at store dir).children)
Added-get a q = ap (λ (n : Node). get q n.children) a.dir_node ∙ a.children q

pub Added-type :
    {dir : ℕ} {name : CString} {child : ℕ} {store s : Store}
    → Added dir name child store s
    → (node_at s dir).type ≡ (node_at store dir).type
Added-type a = ap (λ (n : Node). n.type) a.dir_node
