-- ===== src/Fs/Create/Tree.antt =====
-- src/fs/tmpfs.cpp and src/fs/vfs.cpp: a new directory in the tree, and the root.
use fish_os.Base.{
  ℕ, suc, ◌+◌, ◌<◌, ◌≡◌, ◌≢◌, refl, sym, ap, ◌∙◌, true, [], ◌∷◌, ◌++◌, Option, none, some, length,
  arith, length-append,
}
use fish_os.Klib.Cstring.{CString, strlen, strchr}
use fish_os.Klib.Cstring.Compare.{equal_refl}
use fish_os.Klib.HashMap.{get}
use fish_os.Fs.Node.{Node, NodeType, directory, Store, is_directory, new_node, node_at}
use fish_os.Fs.Path.{PathToNodeResult, path_to_node}
use fish_os.Fs.Path.Ends.{IsFlat, reduce_node_self, reduce_node_next}
use fish_os.Fs.Path.Components.{IsPlain}
use fish_os.Fs.Path.Entry.{IsName, path_to_node-one}
use fish_os.Fs.Create.{dot, dotdot, parent_or, create_dotentries, create}
use fish_os.Fs.Create.Added.{
  IsStore, add_child-Added, Added-redirect, Added-IsStore, node_at-left, node_at-last,
  append-IsStore, new_node-IsValid, Added-get, Added-type,
}
use fish_os.Fs.Create.File.{new_node-redirect}
use fish_os.Fs.Create.Directory.{Dotted, create_dotentries-Dotted}

new_node-parent :
    (heap : Option ℕ) (type : NodeType) (parent : Option ℕ) (name : CString)
    → ((new_node heap type parent name).parent ≡ parent)
      × ((new_node heap type parent name).type ≡ type)
unfolding new_node
new_node-parent heap type parent name = (refl, refl)

dot-IsName : IsName dot
unfolding IsPlain strlen strchr
dot-IsName = record { plain = refl; one = refl; some_char = omega arith }

dotdot-IsName : IsName dotdot
unfolding IsPlain strlen strchr
dotdot-IsName = record { plain = refl; one = refl; some_char = omega arith }

-- the directory node, appended and filled with its dot entries
module _ (heap : Option ℕ) (null : heap ≡ none) (store : Store) (parent : Option ℕ) (name : CString)
    (up : ℕ) where
  abbrev node : Node
  node = new_node heap directory parent name

  abbrev self : ℕ
  self = length store

  filled-Dotted :
      IsStore store
      → up < suc self
      → (node_at (store ++ (node ∷ [])) up).redirect ≡ none
      → parent_or self parent ≡ up
      → (s : Store) × (create_dotentries self (store ++ (node ∷ [])) ≡ some s)
        × Dotted self up (store ++ (node ∷ [])) s
  filled-Dotted v up_inside up_direct e =
      let size = length-append store (node ∷ []) in
      let here = node_at-last store node in
      let (ok, empty) = new_node-IsValid heap directory parent name in
      let (is_parent, _) = new_node-parent heap directory parent name in
      let none_direct = new_node-redirect heap directory parent name ∙ null in
      create_dotentries-Dotted (store ++ (node ∷ [])) self up
        (append-IsStore store node v ok (λ t e'. absurd (ground (arith, e', none_direct))))
        (omega (arith, size)) (ap (λ (n : Node). n.redirect) here ∙ none_direct)
        (omega (arith, size, up_inside)) up_direct
        (ap (λ (n : Node). parent_or self n.parent) here ∙ ap (parent_or self) is_parent ∙ e)
        (λ q. ap (λ (n : Node). get q n.children) here ∙ empty q)

-- The root that is created in an empty tree, where its memory holds a null pointer in the place of
-- `redirect`, is a directory, and leaves a valid tree of three nodes.
pub create-root :
    (heap : ℕ → Option ℕ)
    → heap 0 ≡ none
    → (s : Store) × (create heap directory none [] [] ≡ some (some 0, s))
      × IsStore s
      × (length s ≡ 3)
      × (is_directory (node_at s 0).type ≡ true)
unfolding create parent_or is_directory IsFlat
create-root heap null =
    let v : IsStore [] = record {
      tables = λ i h. absurd (omega arith);
      flat = λ i next e. refl;
      inside = λ i next e. absurd (ground (arith, e));
    } in
    let (s, run, d) =
      filled-Dotted (heap 0) null [] none [] 0 v (omega arith)
        (new_node-redirect (heap 0) directory none [] ∙ null) refl in
    let (_, is_dir) = new_node-parent (heap 0) directory none [] in
    (s, rw (create, run) refl, d.valid, d.size, ap is_directory (d.type ∙ is_dir))

-- the result of `path_to_node` for a name in a directory
abbrev pub entry_of : ℕ → ℕ → CString → Option PathToNodeResult
entry_of dir target name =
    some (record { target_parent = some dir; target = some target; basename = some name })

-- `s` is `store` with a new directory of that name in `dir`
pub record DirectoryCreated (root dir : ℕ) (name : CString) (store s : Store) : Type 0 where
  pub valid : IsStore s
  pub down : path_to_node s root name (some dir) ≡ entry_of dir (length store) name
  pub here :
      path_to_node s root dot (some (length store)) ≡ entry_of (length store) (length store) dot
  pub up : path_to_node s root dotdot (some (length store)) ≡ entry_of (length store) dir dotdot

-- In a valid tree, where the memory for the node holds a null pointer in the place of `redirect`, creating a
-- directory succeeds under a name that is not empty and has no slash, if its parent, a directory that is no
-- redirection, does not have it yet, and keeps the tree valid. The path of the name leads from the parent to
-- it, `.` from it to itself, and `..` from it to the parent.
pub create-DirectoryCreated :
    (heap : ℕ → Option ℕ) (root dir : ℕ) (name : CString) (store : Store)
    → heap (length store) ≡ none
    → IsStore store
    → IsName name
    → dir < length store
    → is_directory (node_at store dir).type ≡ true
    → (node_at store dir).redirect ≡ none
    → get name (node_at store dir).children ≡ none
    → (s : Store) × (create heap directory (some dir) name store ≡ some (some (length store), s))
      × DirectoryCreated root dir name store s
unfolding create parent_or is_directory
create-DirectoryCreated heap root dir name store null v n inside d direct free =
    let child : Node = new_node (heap (length store)) directory (some dir) name in
    let new = length store in
    let s1 = store ++ (child ∷ []) in
    let size = length-append store (child ∷ []) in
    let old = node_at-left store (child ∷ []) dir inside in
    let fresh = node_at-last store child in
    let apart : dir ≢ new = λ e. omega (arith, e) in
    let dir_in1 : dir < length s1 = omega (arith, size, inside) in
    let new_in1 : new < length s1 = omega (arith, size) in
    let (s2, run2, t) =
      filled-Dotted (heap (length store)) null store (some dir) name dir v (omega (arith, inside))
        (ap (λ (m : Node). m.redirect) old ∙ direct) refl in
    let same : node_at s2 dir ≡ node_at store dir = t.others dir dir_in1 apart ∙ old in
    let dir_in2 : dir < length s2 = omega (arith, t.size, dir_in1) in
    let (s3, run3, a) =
      add_child-Added dir name new s2 dir_in2 (t.valid.tables dir dir_in2)
        (ap (λ (m : Node). get name m.children) same ∙ free) in
    let there = a.others new (λ e. apart (sym e)) in
    let (_, is_dir) = new_node-parent (heap (length store)) directory (some dir) name in
    let new_dir : is_directory (node_at s3 new).type ≡ true =
      ap (λ (m : Node). is_directory m.type) there
      ∙ ap is_directory (t.type ∙ ap (λ (m : Node). m.type) fresh ∙ is_dir) in
    let redirect = λ (i : ℕ) (h : i < length s1). Added-redirect a i ∙ t.redirect i h in
    let new_direct : (node_at s3 new).redirect ≡ none =
      redirect new new_in1
      ∙ ap (λ (m : Node). m.redirect) fresh
      ∙ new_node-redirect (heap (length store)) directory (some dir) name
      ∙ null in
    let dir_direct : (node_at s3 dir).redirect ≡ none =
      redirect dir dir_in1 ∙ ap (λ (m : Node). m.redirect) old ∙ direct in
    (
      s3,
      rw (create, run2, run3) refl,
      record {
        valid = Added-IsStore a t.valid;
        down =
            path_to_node-one s3 root dir new new name n
              (ap is_directory (Added-type a ∙ ap (λ (m : Node). m.type) same) ∙ d)
              (Added-get a name ∙ rw (equal_refl name) refl) (reduce_node_self s3 new new_direct);
        here =
            path_to_node-one s3 root new (length s1) new dot dot-IsName new_dir
              (ap (λ (m : Node). get dot m.children) there ∙ t.dot_entry)
              (reduce_node_next s3 (length s1) new (Added-redirect a (length s1) ∙ t.dot_target)
                new_direct);
        up =
            path_to_node-one s3 root new (length s1 + 1) dir dotdot dotdot-IsName new_dir
              (ap (λ (m : Node). get dotdot m.children) there ∙ t.dotdot_entry)
              (reduce_node_next s3 (length s1 + 1) dir
                (Added-redirect a (length s1 + 1) ∙ t.dotdot_target) dir_direct);
      },
    )
