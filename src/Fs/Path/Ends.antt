-- ===== src/Fs/Path/Ends.antt =====
-- src/fs/vfs.cpp: `path_to_node` returns, and where to.
use fish_os.Base.{
  ℕ, zero, suc, ◌+◌, ◌<◌, ◌≡◌, refl, sym, ap, ◌∙◌, true, Bool-cases, inl, inr, List, [], ◌∷◌,
  Option, none, some, ◌==◌, length, arith, Option-cases,
}
use fish_os.Klib.Cstring.{CString, strlen}
use fish_os.Klib.HashMap.{get}
use fish_os.Fs.Node.{Store, is_directory, node_at}
use fish_os.Fs.Path.{PathToNodeResult, nothing, follow, reduce_node, path_to_node}
use fish_os.Fs.Path.Resolve.{resolve, lookup, path_to_node-lookup}
use fish_os.Fs.Path.Components.{is_nil, components, IsPlain}

-- a redirection leads to a node that is not one
unfoldable pub IsFlat : Store → Type 0
IsFlat store =
    (node next : ℕ)
    → (node_at store node).redirect ≡ some next
    → (node_at store next).redirect ≡ none

stored :
    (store : Store) (node next : ℕ) → (node_at store node).redirect ≡ some next → 0 < length store
stored [] zero next h = ground (arith, h)
stored [] (suc node) next h = ground (arith, h)
stored (n ∷ store) node next h = omega arith

follow-direct :
    (fuel : ℕ) (store : Store) (node : ℕ)
    → 0 < fuel
    → (node_at store node).redirect ≡ none
    → follow fuel store node ≡ some node
unfolding follow
follow-direct zero store node positive h = absurd (omega arith)
follow-direct (suc fuel) store node positive h = rw (follow, h) refl

follow-next :
    (fuel : ℕ) (store : Store) (node next : ℕ)
    → (node_at store node).redirect ≡ some next
    → follow (suc fuel) store node ≡ follow fuel store next
unfolding follow
follow-next fuel store node next h = rw (follow, h) refl

pub reduce_node_self :
    (store : Store) (node : ℕ)
    → (node_at store node).redirect ≡ none
    → reduce_node store node ≡ some node
unfolding reduce_node
reduce_node_self store node direct =
    follow-direct (length store + 1) store node (omega arith) direct

pub reduce_node_next :
    (store : Store) (node next : ℕ)
    → (node_at store node).redirect ≡ some next
    → (node_at store next).redirect ≡ none
    → reduce_node store node ≡ some next
unfolding reduce_node
reduce_node_next store node next found direct =
    let fuel : length store + 1 ≡ suc (length store) = omega arith in
    ap (λ n. follow n store node) fuel
    ∙ follow-next (length store) store node next found
    ∙ follow-direct (length store) store next (stored store node next found) direct

reduce_node-direct :
    (store : Store) (node : ℕ)
    → IsFlat store
    → (n : ℕ) × (reduce_node store node ≡ some n) × ((node_at store n).redirect ≡ none)
unfolding IsFlat
reduce_node-direct store node flat = elim (Option-cases (node_at store node).redirect) [
  | inl direct ↦ (node, reduce_node_self store node direct, direct)
  | inr (next, found) ↦
      let direct = flat node next found in
      (next, reduce_node_next store node next found direct, direct)
]

-- the target, if there is one, is no redirection
abbrev pub TargetIsDirect : Store → PathToNodeResult → Type 0
TargetIsDirect store r = (node : ℕ) → r.target ≡ some node → (node_at store node).redirect ≡ none

-- the walk ends, and its target is direct
abbrev pub Ends : Store → Option PathToNodeResult → Type 0
Ends store o = (r : PathToNodeResult) × (o ≡ some r) × TargetIsDirect store r

no_target : (store : Store) (r : PathToNodeResult) → r.target ≡ none → TargetIsDirect store r
no_target store r h node e = ground (arith, h, e)

direct_target :
    (store : Store) (r : PathToNodeResult) (n : ℕ)
    → r.target ≡ some n
    → (node_at store n).redirect ≡ none
    → TargetIsDirect store r
direct_target store r n h direct node e =
    let same : n ≡ node = ap (λ (o : Option ℕ). value_or n o) (sym h ∙ e) in
    ap (λ k. (node_at store k).redirect) (sym same) ∙ direct
  where
    value_or : ℕ → Option ℕ → ℕ
    value_or d none = d
    value_or d (some x) = x

resolve-Ends :
    (store : Store) (current : ℕ) (names : List CString)
    → IsFlat store
    → Ends store (resolve store current names)
unfolding resolve
resolve-Ends store current [] flat = (nothing, refl, no_target store nothing refl)
resolve-Ends store current (name ∷ names) flat =
    elim (Bool-cases (is_directory (node_at store current).type)) [
      | inr other ↦ rw (resolve, other) (nothing, refl, no_target store nothing refl)
      | inl dir ↦ elim (Option-cases (get name (node_at store current).children)) [
        | inl missing ↦
            let r : PathToNodeResult = record {
              target_parent = some current;
              target = none;
              basename = some name;
            } in
            rw (resolve, dir, missing) (r, refl, no_target store r refl)
        | inr (next, found) ↦
            let (n, reduced, direct) = reduce_node-direct store next flat in
            elim (Bool-cases (is_nil names)) [
              | inl last ↦
                  let r : PathToNodeResult = record {
                    target_parent = some current;
                    target = some n;
                    basename = some name;
                  } in
                  rw (resolve, dir, found, reduced, last)
                    (r, refl, direct_target store r n refl direct)
              | inr more ↦ rw (resolve, dir, found, reduced, more) (resolve-Ends store n names flat)
            ]
      ]
    ]

lookup-Ends :
    (store : Store) (root : ℕ) (path : CString) (start : Option ℕ)
    → IsFlat store
    → Ends store (lookup store root path start)
unfolding lookup
lookup-Ends store root [] start flat = (nothing, refl, no_target store nothing refl)
lookup-Ends store root (c ∷ cs) (some node) flat =
    resolve-Ends store node (components (c ∷ cs)) flat
lookup-Ends store root (c ∷ cs) none flat = elim (Bool-cases (c == 47)) [
  | inl slash ↦ rw slash (resolve-Ends store root (components cs) flat)
  | inr other ↦ rw other (nothing, refl, no_target store nothing refl)
]

-- In a store where no redirection leads to another, `path_to_node` returns on every path without a NUL
-- among its bytes, and never returns a dot entry as the target.
pub path_to_node-Ends :
    (store : Store) (root : ℕ) (path : CString) (starting_point : Option ℕ)
    → IsFlat store
    → IsPlain path
    → Ends store (path_to_node store root path starting_point)
path_to_node-Ends store root path start flat h =
    let (r, e, direct) = lookup-Ends store root path start flat in
    (r, path_to_node-lookup store root path start h ∙ e, direct)

-- The path `/` does not lead to the root: it is looked up there as the empty name.
pub path_to_node-root :
    (store : Store) (root : ℕ)
    → is_directory (node_at store root).type ≡ true
    → get [] (node_at store root).children ≡ none
    → path_to_node store root (47 ∷ []) none
      ≡ some (record { target_parent = some root; target = none; basename = some [] })
unfolding IsPlain strlen lookup resolve components
path_to_node-root store root dir missing =
    path_to_node-lookup store root (47 ∷ []) none refl ∙ rw (lookup, resolve, dir, missing) refl
