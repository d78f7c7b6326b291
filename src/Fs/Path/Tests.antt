-- ===== src/Fs/Path/Tests.antt =====
-- Paths in a root directory with its dot entry and one file `a`.
use fish_os.Base.{ℕ, zero, suc, ◌≡◌, refl, sym, ap, [], ◌∷◌, Option, none, some, true, arith}
use fish_os.Klib.Cstring.{strlen, strcmp, strchr}
use fish_os.Klib.Cstring.Compare.{equal}
use fish_os.Klib.HashMap.{
  HashMap, new, sign_extend, hash_from, hash, match, get_loop, get, is_null, insert_loop, place,
}
use fish_os.Fs.Node.{Store, file, directory, none_type, is_directory, new_node, node_at}
use fish_os.Fs.Path.{follow, reduce_node, entry_name_len, is_last, walk, path_to_node}
use fish_os.Fs.Path.Components.{IsPlain}
use fish_os.Fs.Path.Resolve.{lookup, path_to_node-lookup}
use fish_os.Fs.Path.Ends.{IsFlat, Ends, path_to_node-Ends}

children : HashMap ℕ
children = place (97 ∷ []) 2 (place (46 ∷ []) 1 (new 16))

abbrev store : Store
store =
    record (new_node none directory none []) { children = children }
    ∷ record (new_node none none_type (some 0) (46 ∷ [])) { redirect = some 0 }
    ∷ new_node none file (some 0) (97 ∷ [])
    ∷ []

evaluate : Unit {0}
unfolding new sign_extend hash_from hash match get_loop get is_null insert_loop place children
    new_node is_directory strlen strcmp strchr equal follow reduce_node entry_name_len is_last walk
    path_to_node IsPlain
evaluate = tt

-- `/./a`
dot_a :
    path_to_node store 0 (47 ∷ 46 ∷ 47 ∷ 97 ∷ []) none
    ≡ some (record { target_parent = some 0; target = some 2; basename = some (97 ∷ []) })
unfolding evaluate
dot_a = refl

no_empty_name : get [] children ≡ none
unfolding evaluate
no_empty_name = refl

value_or_zero : Option ℕ → ℕ
value_or_zero none = 0
value_or_zero (some n) = n

store-IsFlat : IsFlat store
unfolding IsFlat new_node value_or_zero
store-IsFlat zero next e = absurd (ground (arith, e))
store-IsFlat (suc zero) next e = ap (λ o. (node_at store (value_or_zero o)).redirect) (sym e)
store-IsFlat (suc (suc zero)) next e = absurd (ground (arith, e))
store-IsFlat (suc (suc (suc n))) next e = absurd (ground (arith, e))

a-IsPlain : IsPlain (97 ∷ 47 ∷ [])
unfolding evaluate
a-IsPlain = refl

path_to_node-lookup_example :
    path_to_node store 0 (97 ∷ 47 ∷ []) (some 1) ≡ lookup store 0 (97 ∷ 47 ∷ []) (some 1)
path_to_node-lookup_example = path_to_node-lookup store 0 (97 ∷ 47 ∷ []) (some 1) a-IsPlain

path_to_node-Ends_example : Ends store (path_to_node store 0 (97 ∷ 47 ∷ []) (some 0))
path_to_node-Ends_example = path_to_node-Ends store 0 (97 ∷ 47 ∷ []) (some 0) store-IsFlat a-IsPlain

root_directory : is_directory (node_at store 0).type ≡ true
unfolding evaluate
root_directory = refl

root_children : get [] (node_at store 0).children ≡ none
unfolding evaluate
root_children = refl
