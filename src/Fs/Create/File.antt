-- ===== src/Fs/Create/File.antt =====
-- src/fs/tmpfs.cpp: a new file is found under its name.
use fish_os.Base.{
  ℕ, ◌<◌, ◌≡◌, ◌≢◌, refl, ap, ◌∙◌, true, [], ◌∷◌, ◌++◌, Option, none, some, if◌then◌else◌, length,
  arith, length-append,
}
use fish_os.Klib.Cstring.{CString}
use fish_os.Klib.Cstring.Compare.{equal, equal_refl}
use fish_os.Klib.HashMap.{get}
use fish_os.Fs.Node.{Node, NodeType, file, Store, is_directory, new_node, node_at}
use fish_os.Fs.Path.{path_to_node}
use fish_os.Fs.Path.Ends.{reduce_node_self}
use fish_os.Fs.Path.Entry.{IsName, path_to_node-one}
use fish_os.Fs.Create.{create}
use fish_os.Fs.Create.Added.{
  IsStore, add_child-Added, Added-IsStore, node_at-left, node_at-last, append-IsStore,
  new_node-IsValid,
}

-- `s` is `store` with a new file of that name in `dir`, whose other children are as before
pub record FileCreated (dir : ℕ) (name : CString) (store s : Store) : Type 0 where
  pub valid : IsStore s
  pub new_file : node_at s (length store) ≡ new_node none file (some dir) name
  pub others : (i : ℕ) → i < length store → i ≢ dir → node_at s i ≡ node_at store i
  pub children :
      (q : CString)
      → get q (node_at s dir).children
        ≡ (if equal name q then some (length store) else get q (node_at store dir).children)

pub new_node-redirect :
    (heap : Option ℕ) (type : NodeType) (parent : Option ℕ) (name : CString)
    → (new_node heap type parent name).redirect ≡ heap
unfolding new_node
new_node-redirect heap type parent name = refl

create-FileCreated :
    (heap : ℕ → Option ℕ) (dir : ℕ) (name : CString) (store : Store)
    → heap (length store) ≡ none
    → IsStore store
    → dir < length store
    → get name (node_at store dir).children ≡ none
    → (s : Store) × (create heap file (some dir) name store ≡ some (some (length store), s))
      × FileCreated dir name store s
      × ((node_at s dir).type ≡ (node_at store dir).type)
unfolding create
create-FileCreated heap dir name store null v inside free =
    let node = new_node (heap (length store)) file (some dir) name in
    let store' = store ++ (node ∷ []) in
    let old = node_at-left store (node ∷ []) dir inside in
    let (table, _) = new_node-IsValid (heap (length store)) file (some dir) name in
    let size = length-append store (node ∷ []) in
    let v' =
      append-IsStore store node v table
        (direct node (new_node-redirect (heap (length store)) file (some dir) name ∙ null)) in
    let (s, run, a) =
      add_child-Added dir name (length store) store' (omega (arith, size))
        (v'.tables dir (omega (arith, size))) (ap (λ (n : Node). get name n.children) old ∙ free) in
    (
      s,
      rw (create, run) refl,
      record {
        valid = Added-IsStore a v';
        new_file =
            a.others (length store) (λ e. omega (arith, e))
            ∙ node_at-last store node
            ∙ ap (λ h. new_node h file (some dir) name) null;
        others = λ i h ne. a.others i ne ∙ node_at-left store (node ∷ []) i h;
        children = λ q.
            ap (λ (n : Node). get q n.children) a.dir_node
            ∙ a.children q
            ∙ ap (λ (n : Node). if equal name q then some (length store) else get q n.children) old;
      },
      ap (λ (n : Node). n.type) a.dir_node ∙ ap (λ (n : Node). n.type) old,
    )
  where
    direct :
        (n : Node)
        → n.redirect ≡ none
        → (t : ℕ) → n.redirect ≡ some t
        → (t < length store) × ((node_at store t).redirect ≡ none)
    direct n e t e' = absurd (ground (arith, e, e'))

-- In a valid tree, where the memory for the node holds a null pointer in the place of `redirect`, creating a
-- file succeeds under a name that is not empty and has no slash, if a directory does not have it yet. In the
-- tree after it, which is valid, the path of the name leads from the directory to the new file, and every
-- other node and name is as before.
pub create-path_to_node :
    (heap : ℕ → Option ℕ) (root dir : ℕ) (name : CString) (store : Store)
    → heap (length store) ≡ none
    → IsStore store
    → IsName name
    → dir < length store
    → is_directory (node_at store dir).type ≡ true
    → get name (node_at store dir).children ≡ none
    → (s : Store) × (create heap file (some dir) name store ≡ some (some (length store), s))
      × FileCreated dir name store s
      × (path_to_node s root name (some dir)
          ≡ some (record {
            target_parent = some dir;
            target = some (length store);
            basename = some name;
          }))
create-path_to_node heap root dir name store null v n inside d free =
    let (s, run, c, same) = create-FileCreated heap dir name store null v inside free in
    (
      s,
      run,
      c,
      path_to_node-one s root dir (length store) (length store) name n (ap is_directory same ∙ d)
          (c.children name ∙ rw (equal_refl name) refl)
          (reduce_node_self s (length store) (
            ap (λ (n : Node). n.redirect) c.new_file
            ∙ new_node-redirect none file (some dir) name)),
    )
