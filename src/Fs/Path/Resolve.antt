-- ===== src/Fs/Path/Resolve.antt =====
-- src/fs/vfs.cpp: `path_to_node` against a walk over the components of the path.
use fish_os.Base.{
  ℕ, zero, suc, ◌+◌, ◌-◌, ◌<◌, ◌≡◌, refl, sym, ap, ◌∙◌, true, false, Bool-cases, inl, inr, List, [],
  ◌∷◌, Option, none, some, ◌==◌, if◌then◌else◌, length, take, drop, arith, length-drop,
}
use fish_os.Klib.Cstring.{CString, strlen, strchr}
use fish_os.Klib.HashMap.{get}
use fish_os.Fs.Node.{Store, is_directory, node_at}
use fish_os.Fs.Path.{
  PathToNodeResult, nothing, reduce_node, entry_name_len, is_last, walk, path_to_node,
}
use fish_os.Fs.Path.Components.{
  is_nil, components, later, cut, components_cons, IsPlain, drop-IsPlain, tail-IsPlain,
  later-is_nil,
}

-- the node that the components lead to from the node `current`: all but the last are looked up, each in
-- the directory that the ones before lead to; a component that is not there ends the walk
unfoldable pub resolve : Store → ℕ → List CString → Option PathToNodeResult
resolve store current [] = some nothing
resolve store current (name ∷ names) = elim (is_directory (node_at store current).type) [
  | false ↦ some nothing
  | true ↦ elim (get name (node_at store current).children) [
    | none ↦ some (record { target_parent = some current; target = none; basename = some name })
    | some next ↦ elim (reduce_node store next) [
      | none ↦ none
      | some node ↦ elim (is_nil names) [
        | true ↦
            some (record { target_parent = some current; target = some node; basename = some name })
        | false ↦ resolve store node names
      ]
    ]
  ]
]

-- what a path means: nothing if it is empty, or relative without a starting point
unfoldable pub lookup : Store → ℕ → CString → Option ℕ → Option PathToNodeResult
lookup store root [] start = some nothing
lookup store root (c ∷ cs) (some node) = resolve store node (components (c ∷ cs))
lookup store root (c ∷ cs) none =
    if c == 47 then resolve store root (components cs) else some nothing

-- what happens behind a component that is there
abbrev rest_walk : ℕ → Store → ℕ → CString → ℕ → Option PathToNodeResult
rest_walk fuel store current path node = elim (is_last path (length path)) [
  | true ↦ some (record {
    target_parent = some current;
    target = some node;
    basename = some (take (entry_name_len path (length path)) path);
  })
  | false ↦
      walk fuel store node (drop (entry_name_len path (length path) + 1) path)
        (length path - (entry_name_len path (length path) + 1))
]

abbrev rest_resolve : Store → ℕ → CString → ℕ → Option PathToNodeResult
rest_resolve store current path node = elim (is_nil (later path)) [
  | true ↦ some (record {
    target_parent = some current;
    target = some node;
    basename = some (take (entry_name_len path (length path)) path);
  })
  | false ↦ resolve store node (later path)
]

step :
    {f g : ℕ → Option PathToNodeResult} (store : Store) (current : ℕ) (name : CString)
    → ((node : ℕ) → f node ≡ g node)
    → (elim (is_directory (node_at store current).type) [
      | false ↦ some nothing
      | true ↦ elim (get name (node_at store current).children) [
        | none ↦ some (record { target_parent = some current; target = none; basename = some name })
        | some next ↦ elim (reduce_node store next) [ none ↦ none | some node ↦ f node ]
      ]
    ])
      ≡ (elim (is_directory (node_at store current).type) [
        | false ↦ some nothing
        | true ↦ elim (get name (node_at store current).children) [
          | none ↦
              some (record { target_parent = some current; target = none; basename = some name })
          | some next ↦ elim (reduce_node store next) [ none ↦ none | some node ↦ g node ]
        ]
      ])
step {f} {g} store current name same = λ i. elim (is_directory (node_at store current).type) [
  | false ↦ some nothing
  | true ↦ elim (get name (node_at store current).children) [
    | none ↦ some (record { target_parent = some current; target = none; basename = some name })
    | some next ↦ elim (reduce_node store next) [ none ↦ none | some node ↦ same node i ]
  ]
]

later-more :
    (path : CString)
    → is_last path (length path) ≡ false
    → later path ≡ components (drop (entry_name_len path (length path) + 1) path)
unfolding later
later-more path more = rw more refl

nonempty : (path : CString) → is_last path (length path) ≡ false → 0 < length path
unfolding is_last strchr
nonempty [] more = ground (arith, more)
nonempty (c ∷ cs) more = omega arith

walk-resolve :
    (fuel : ℕ) (store : Store) (current : ℕ) (path : CString)
    → IsPlain path
    → length path < fuel
    → walk fuel store current path (length path) ≡ resolve store current (components path)
unfolding walk resolve cut later
walk-resolve zero store current path h enough = absurd (omega arith)
walk-resolve (suc fuel) store current path h enough =
    let n = entry_name_len path (length path) in
    let d = drop (n + 1) path in
    let left : length path - (n + 1) ≡ length d = sym (length-drop (n + 1) path) in
    step {f = rest_walk fuel store current path} {g = rest_resolve store current path} store current
      (take n path)
      (λ node. elim (Bool-cases (is_last path (length path))) [
        | inl last ↦ rw (rest_walk, rest_resolve, later-is_nil path h, last) refl
        | inr more ↦
            rw (rest_walk, rest_resolve, later-is_nil path h, more, left)
              (walk-resolve fuel store node d (drop-IsPlain (n + 1) path h)
                  (omega (arith, length-drop (n + 1) path, nonempty path more))
                ∙ ap (resolve store node) (sym (later-more path more)))
      ])
    ∙ sym (ap (resolve store current) (components_cons path h))

-- On a path without a NUL among its bytes the loop over the slashes computes what the components of
-- the path mean, from a starting point or from the root; it runs out of fuel nowhere.
pub path_to_node-lookup :
    (store : Store) (root : ℕ) (path : CString) (starting_point : Option ℕ)
    → IsPlain path
    → path_to_node store root path starting_point ≡ lookup store root path starting_point
unfolding path_to_node lookup IsPlain strlen
path_to_node-lookup store root [] start h = refl
path_to_node-lookup store root (c ∷ cs) (some node) h =
    let some_len : (strlen (c ∷ cs) == 0) ≡ false = ground (arith, h) in
    rw (path_to_node, some_len)
      (ap (λ n. walk (n + 1) store node (c ∷ cs) n) h
        ∙ walk-resolve (suc (length cs) + 1) store node (c ∷ cs) h (omega arith))
path_to_node-lookup store root (c ∷ cs) none h =
    let some_len : (strlen (c ∷ cs) == 0) ≡ false = ground (arith, h) in
    let less : suc (length cs) - 1 ≡ length cs = omega arith in
    elim (Bool-cases (c == 47)) [
      | inl slash ↦
          rw (path_to_node, some_len, slash)
            (ap (λ n. walk (n + 1) store root cs (n - 1)) h
              ∙ ap (walk (suc (length cs) + 1) store root cs) less
              ∙ walk-resolve (suc (length cs) + 1) store root cs (tail-IsPlain c cs h)
                  (omega arith))
      | inr other ↦ rw (path_to_node, some_len, other) refl
    ]
