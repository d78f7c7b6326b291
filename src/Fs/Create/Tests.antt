-- ===== src/Fs/Create/Tests.antt =====
-- A file and a directory in a tree that has only its root.
use fish_os.Base.{ℕ, Option, ◌≡◌, refl, true, [], ◌∷◌, none, some, arith}
use fish_os.Klib.Cstring.{strlen, strchr}
use fish_os.Klib.HashMap.{get}
use fish_os.Fs.Node.{Node, Store, file, directory, is_directory, new_node, node_at}
use fish_os.Fs.Path.{path_to_node}
use fish_os.Fs.Path.Ends.{IsFlat}
use fish_os.Fs.Path.Components.{IsPlain}
use fish_os.Fs.Path.Entry.{IsName}
use fish_os.Fs.Create.{create}
use fish_os.Fs.Create.Added.{IsStore, append-IsStore, new_node-IsValid}
use fish_os.Fs.Create.File.{FileCreated, create-path_to_node}
use fish_os.Fs.Create.Tree.{DirectoryCreated, create-DirectoryCreated}

abbrev root : Node
root = new_node none directory none []

abbrev tree : Store
tree = root ∷ []

-- memory of zeros
abbrev zeros : ℕ → Option ℕ
zeros _ = none

empty-IsStore : IsStore []
unfolding IsFlat
empty-IsStore = record {
  tables = λ i h. absurd (omega arith);
  flat = λ i next e. refl;
  inside = λ i next e. absurd (ground (arith, e));
}

root_direct : root.redirect ≡ none
unfolding new_node
root_direct = refl

root_directory : is_directory root.type ≡ true
unfolding new_node is_directory
root_directory = refl

tree-IsStore : IsStore tree
tree-IsStore =
    let (ok, _) = new_node-IsValid none directory none [] in
    append-IsStore [] root empty-IsStore ok (λ t e. absurd (ground (arith, e, root_direct)))

a-IsName : IsName (97 ∷ [])
unfolding IsPlain strlen strchr
a-IsName = record { plain = refl; one = refl; some_char = omega arith }

no_child : get (97 ∷ []) (node_at tree 0).children ≡ none
no_child = let (_, empty) = new_node-IsValid none directory none [] in empty (97 ∷ [])

create-path_to_node_example :
    (s : Store) × (create zeros file (some 0) (97 ∷ []) tree ≡ some (some 1, s))
    × FileCreated 0 (97 ∷ []) tree s
    × (path_to_node s 0 (97 ∷ []) (some 0)
        ≡ some (record { target_parent = some 0; target = some 1; basename = some (97 ∷ []) }))
create-path_to_node_example =
    create-path_to_node zeros 0 0 (97 ∷ []) tree refl tree-IsStore a-IsName (omega arith)
      root_directory no_child

create-DirectoryCreated_example :
    (s : Store) × (create zeros directory (some 0) (97 ∷ []) tree ≡ some (some 1, s))
    × DirectoryCreated 0 0 (97 ∷ []) tree s
create-DirectoryCreated_example =
    create-DirectoryCreated zeros 0 0 (97 ∷ []) tree refl tree-IsStore a-IsName (omega arith)
      root_directory root_direct no_child
