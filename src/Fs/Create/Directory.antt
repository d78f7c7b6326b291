-- ===== src/Fs/Create/Directory.antt =====
-- src/fs/vfs.cpp and src/fs/tmpfs.cpp: a new directory, and its dot entries.
use fish_os.Base.{
  ℕ, ◌+◌, ◌<◌, ◌≡◌, ◌≢◌, refl, sym, ap, ◌∙◌, false, [], ◌∷◌, ◌++◌, Option, none, some, length,
  arith, length-append,
}
use fish_os.Klib.Cstring.{CString, strcmp}
use fish_os.Klib.Cstring.Compare.{equal, equal_refl}
use fish_os.Klib.HashMap.{get}
use fish_os.Fs.Node.{Node, none_type, Store, new_node, node_at}
use fish_os.Fs.Create.{add_child, dot, dotdot, parent_or, dot_nodes, create_dotentries}
use fish_os.Fs.Create.Added.{
  IsStore, add_child-Added, Added-redirect, Added-IsStore, node_at-left, node_at-last,
  append-IsStore, new_node-IsValid, Added-get, Added-type,
}

-- `s` is `store` with dot entries in `self` that lead to it and to `up`
pub record Dotted (self up : ℕ) (store s : Store) : Type 0 where
  pub valid : IsStore s
  pub size : length s ≡ length store + 2
  pub others : (i : ℕ) → i < length store → i ≢ self → node_at s i ≡ node_at store i
  pub type : (node_at s self).type ≡ (node_at store self).type
  pub redirect : (i : ℕ) → i < length store → (node_at s i).redirect ≡ (node_at store i).redirect
  pub dot_entry : get dot (node_at s self).children ≡ some (length store)
  pub dotdot_entry : get dotdot (node_at s self).children ≡ some (length store + 1)
  pub dot_target : (node_at s (length store)).redirect ≡ some self
  pub dotdot_target : (node_at s (length store + 1)).redirect ≡ some up

append_two : (s : Store) (a b : Node) → s ++ (a ∷ b ∷ []) ≡ (s ++ (a ∷ [])) ++ (b ∷ [])
append_two [] a b = refl
append_two (n ∷ s) a b = ap (λ l. n ∷ l) (append_two s a b)

direct_in :
    (s : Store) (n : Node) (up : ℕ)
    → n.redirect ≡ some up
    → up < length s
    → (node_at s up).redirect ≡ none
    → (t : ℕ) → n.redirect ≡ some t
    → (t < length s) × ((node_at s t).redirect ≡ none)
direct_in s n up e inside direct t e' =
    let same : up ≡ t = ap (λ (o : Option ℕ). value_or up o) (sym e ∙ e') in
    (rw (sym same) inside, rw (sym same) direct)
  where
    value_or : ℕ → Option ℕ → ℕ
    value_or d none = d
    value_or d (some x) = x

-- the store before the entries are put into the table
module _ (store : Store) (self up : ℕ) where
  abbrev dot_node : Node
  dot_node = record (new_node none none_type (some self) dot) { redirect = some self }

  abbrev dotdot_node : Node
  dotdot_node = record (new_node none none_type (some self) dotdot) { redirect = some up }

  abbrev with_dots : Store
  with_dots = store ++ (dot_node ∷ dotdot_node ∷ [])

  record WithDots : Type 0 where
    valid : IsStore with_dots
    size : length with_dots ≡ length store + 2
    old : (i : ℕ) → i < length store → node_at with_dots i ≡ node_at store i
    first : node_at with_dots (length store) ≡ dot_node
    second : node_at with_dots (length store + 1) ≡ dotdot_node

  with_dots-WithDots :
      IsStore store
      → self < length store
      → (node_at store self).redirect ≡ none
      → up < length store
      → (node_at store up).redirect ≡ none
      → WithDots
  with_dots-WithDots v inside direct up_inside up_direct =
      let (dot_ok, _) = new_node-IsValid none none_type (some self) dot in
      let (dotdot_ok, _) = new_node-IsValid none none_type (some self) dotdot in
      let s1 = store ++ (dot_node ∷ []) in
      let size1 = length-append store (dot_node ∷ []) in
      let v1 =
        append-IsStore store dot_node v dot_ok (direct_in store dot_node self refl inside direct) in
      let up1 =
        ap (λ (n : Node). n.redirect) (node_at-left store (dot_node ∷ []) up up_inside)
        ∙ up_direct in
      let v2 =
        append-IsStore s1 dotdot_node v1 dotdot_ok
          (direct_in s1 dotdot_node up refl (omega (arith, size1, up_inside)) up1) in
      let two = append_two store dot_node dotdot_node in
      let last : length store + 1 ≡ length s1 = sym size1 in
      record {
        valid = rw two v2;
        size = length-append store (dot_node ∷ dotdot_node ∷ []);
        old = λ i h. node_at-left store (dot_node ∷ dotdot_node ∷ []) i h;
        first =
            ap (λ (s : Store). node_at s (length store)) two
            ∙ node_at-left s1 (dotdot_node ∷ []) (length store) (omega (arith, size1))
            ∙ node_at-last store dot_node;
        second =
            ap (λ (s : Store). node_at s (length store + 1)) two
            ∙ ap (node_at (s1 ++ (dotdot_node ∷ []))) last
            ∙ node_at-last s1 dotdot_node;
      }

dot_ne : equal dot dotdot ≡ false
unfolding equal strcmp
dot_ne = refl

dotdot_ne : equal dotdot dot ≡ false
unfolding equal strcmp
dotdot_ne = refl

create_dotentries-run :
    (store s3 s4 : Store) (self up : ℕ)
    → parent_or self (node_at store self).parent ≡ up
    → add_child self dot (length store) (with_dots store self up) ≡ some s3
    → add_child self dotdot (length store + 1) s3 ≡ some s4
    → create_dotentries self store ≡ some s4
unfolding create_dotentries dot_nodes
create_dotentries-run store s3 s4 self up e run3 run4 =
    rw (create_dotentries, dot_nodes, e, run3) run4

pub create_dotentries-Dotted :
    (store : Store) (self up : ℕ)
    → IsStore store
    → self < length store
    → (node_at store self).redirect ≡ none
    → up < length store
    → (node_at store up).redirect ≡ none
    → parent_or self (node_at store self).parent ≡ up
    → ((q : CString) → get q (node_at store self).children ≡ none)
    → (s : Store) × (create_dotentries self store ≡ some s) × Dotted self up store s
create_dotentries-Dotted store self up v inside direct up_inside up_direct e empty =
    let w = with_dots-WithDots store self up v inside direct up_inside up_direct in
    let none_there =
      λ (q : CString). ap (λ (n : Node). get q n.children) (w.old self inside) ∙ empty q in
    let inside2 : self < length (with_dots store self up) = omega (arith, w.size, inside) in
    let (s3, run3, a3) =
      add_child-Added self dot (length store) (with_dots store self up) inside2
        (w.valid.tables self inside2) (none_there dot) in
    let v3 = Added-IsStore a3 w.valid in
    let inside3 : self < length s3 = omega (arith, a3.same_length, inside2) in
    let (s4, run4, a4) =
      add_child-Added self dotdot (length store + 1) s3 inside3 (v3.tables self inside3)
        (Added-get a3 dotdot ∙ rw dot_ne (none_there dotdot)) in
    let redirect = λ (i : ℕ). Added-redirect a4 i ∙ Added-redirect a3 i in
    (
      s4,
      create_dotentries-run store s3 s4 self up e run3 run4,
      record {
        valid = Added-IsStore a4 v3;
        size = a4.same_length ∙ a3.same_length ∙ w.size;
        others = λ i h ne. a4.others i ne ∙ a3.others i ne ∙ w.old i h;
        type = Added-type a4 ∙ Added-type a3 ∙ ap (λ (n : Node). n.type) (w.old self inside);
        redirect = λ i h. redirect i ∙ ap (λ (n : Node). n.redirect) (w.old i h);
        dot_entry = Added-get a4 dot ∙ rw dotdot_ne (Added-get a3 dot ∙ rw (equal_refl dot) refl);
        dotdot_entry = Added-get a4 dotdot ∙ rw (equal_refl dotdot) refl;
        dot_target = redirect (length store) ∙ ap (λ (n : Node). n.redirect) w.first;
        dotdot_target = redirect (length store + 1) ∙ ap (λ (n : Node). n.redirect) w.second;
      },
    )
