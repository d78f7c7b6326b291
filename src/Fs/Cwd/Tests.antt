-- ===== src/Fs/Cwd/Tests.antt =====
-- src/fs/vfs.cpp: the working directory /a/b.
use fish_os.Base.{ℕ, zero, suc, ◌<◌, ◌≡◌, refl, List, [], ◌∷◌, none, some, arith}
use fish_os.Base.Int.{pos}
use fish_os.Klib.Cstring.{strlen}
use fish_os.Fs.Node.{Store, directory, new_node}
use fish_os.Fs.Path.Components.{IsPlain}
use fish_os.Fs.Path.Ends.{IsFlat}
use fish_os.Fs.Descriptors.{Task, error}
use fish_os.Fs.Cwd.{names_up, put_chars, put_names, syscall_getcwd, syscall_chdir}
use fish_os.Fs.Cwd.Change.{ReturnsChanged, syscall_chdir-Returns}
use fish_os.Fs.Cwd.Text.{IsOlder, Cwd, Gets, syscall_getcwd-Gets}

abbrev store : Store
store =
    new_node none directory none []
    ∷ new_node none directory (some 0) (97 ∷ [])
    ∷ new_node none directory (some 1) (98 ∷ [])
    ∷ []

abbrev task : Task
task = record { file_descriptors = []; num_file_descriptors = 0; first_free_fdnum = 0; cwd = 2 }

evaluate : Unit {0}
unfolding new_node names_up put_chars put_names syscall_getcwd
evaluate = tt

-- the four bytes of /a/b fill a buffer of four, which is refused
exact_fit : syscall_getcwd store task 4 ≡ some (error 3, 47 ∷ 97 ∷ 47 ∷ 98 ∷ [])
unfolding evaluate
exact_fit = refl

-- no NUL is written behind the path
no_nul : syscall_getcwd store task 5 ≡ some (pos 0, 47 ∷ 97 ∷ 47 ∷ 98 ∷ [])
unfolding evaluate
no_nul = refl

store-IsOlder : IsOlder store
unfolding new_node
store-IsOlder = record { older = go }
  where
    go : (n p : ℕ) → (fish_os.Fs.Node.node_at store n).parent ≡ some p → p < n
    go zero p e = absurd (ground (arith, e))
    go (suc zero) p e = ground (arith, e)
    go (suc (suc zero)) p e = ground (arith, e)
    go (suc (suc (suc n))) p e = absurd (ground (arith, e))

syscall_getcwd-Gets_example :
    (path : List ℕ) × Cwd store 2 path × Gets 5 path (syscall_getcwd store task 5)
syscall_getcwd-Gets_example =
    syscall_getcwd-Gets store task 5 store-IsOlder (omega arith) (omega arith)

store-IsFlat : IsFlat store
unfolding IsFlat new_node
store-IsFlat zero next e = absurd (ground (arith, e))
store-IsFlat (suc zero) next e = absurd (ground (arith, e))
store-IsFlat (suc (suc zero)) next e = absurd (ground (arith, e))
store-IsFlat (suc (suc (suc n))) next e = absurd (ground (arith, e))

a-IsPlain : IsPlain (97 ∷ [])
unfolding IsPlain strlen
a-IsPlain = refl

syscall_chdir-Returns_example : ReturnsChanged store task (syscall_chdir store 0 (97 ∷ []) task)
syscall_chdir-Returns_example = syscall_chdir-Returns store 0 (97 ∷ []) task store-IsFlat a-IsPlain
