-- ===== src/Klib/List/Change.antt =====
-- src/klib/list.hpp: what `add_before` and `remove` do to the links, one store after another.
use fish_os.Base.{ℕ, ◌≡◌, ◌≢◌, refl, ap, ◌∙◌, false, some, ◌==◌, arith}
use fish_os.Klib.List.{ListHead, Links, store, set_next, set_prev, add_before, remove, ◌>>=◌}

abbrev put_next : ℕ → ℕ → Links → Links
put_next p v h = store p (record (h p) { next = v }) h

abbrev put_prev : ℕ → ℕ → Links → Links
put_prev p v h = store p (record (h p) { prev = v }) h

set_next-some : (p v : ℕ) (h : Links) → p ≢ 0 → set_next p v h ≡ some (put_next p v h)
unfolding set_next
set_next-some p v h ne = let no : (p == 0) ≡ false = ground arith in rw (set_next, no) refl

set_prev-some : (p v : ℕ) (h : Links) → p ≢ 0 → set_prev p v h ≡ some (put_prev p v h)
unfolding set_prev
set_prev-some p v h ne = let no : (p == 0) ≡ false = ground arith in rw (set_prev, no) refl

-- `h'` is `h` without `x`, whose neighbours are linked to one another
pub record Removed (h h' : Links) (x : ℕ) : Type 0 where
  pub forth : (h' (h x).prev).next ≡ (h x).next
  pub back : (h' (h x).next).prev ≡ (h x).prev
  pub nexts : (a : ℕ) → a ≢ (h x).prev → a ≢ x → (h' a).next ≡ (h a).next
  pub prevs : (a : ℕ) → a ≢ (h x).next → a ≢ x → (h' a).prev ≡ (h a).prev
  pub unlinked : h' x ≡ record { next = 0; prev = 0 }

pub remove-Removed :
    (h : Links) (x : ℕ)
    → x ≢ 0
    → (h x).prev ≢ 0
    → (h x).next ≢ 0
    → (h x).prev ≢ x
    → (h x).next ≢ x
    → (h' : Links) × (remove x h ≡ some h') × Removed h h' x
unfolding remove store
remove-Removed h x ne ln rn lx rx =
    let l = (h x).prev in
    let r = (h x).next in
    let h1 = put_prev r l h in
    let same : h1 x ≡ h x = ground arith in
    let h2 = put_next l r h1 in
    let h3 = put_next x 0 h2 in
    let h4 = put_prev x 0 h3 in
    let second : set_next (h1 x).prev (h1 x).next h1 ≡ some h2 =
      ap (λ (n : ListHead). set_next n.prev n.next h1) same ∙ set_next-some l r h1 ln in
    (
      h4,
      rw (remove, set_prev-some r l h rn, ◌>>=◌, second, set_next-some x 0 h2 ne)
          (set_prev-some x 0 h3 ne),
      record {
        forth = ground arith;
        back = ground arith;
        nexts = λ a al ax. ground arith;
        prevs = λ a ar ax. ground arith;
        unlinked = ground arith;
      },
    )

-- `h'` is `h` with `e` in front of `x`
pub record Added (h h' : Links) (x e : ℕ) : Type 0 where
  pub forth : (h' (h x).prev).next ≡ e
  pub entry : h' e ≡ record { next = x; prev = (h x).prev }
  pub back : (h' x).prev ≡ e
  pub nexts : (a : ℕ) → a ≢ (h x).prev → a ≢ e → (h' a).next ≡ (h a).next
  pub prevs : (a : ℕ) → a ≢ x → a ≢ e → (h' a).prev ≡ (h a).prev

pub add_before-Added :
    (h : Links) (x e : ℕ)
    → x ≢ 0
    → e ≢ 0
    → (h x).prev ≢ 0
    → (h x).prev ≢ e
    → x ≢ e
    → (h' : Links) × (add_before x e h ≡ some h') × Added h h' x e
unfolding add_before store
add_before-Added h x e xn en ln le xe =
    let l = (h x).prev in
    let h1 = put_next l e h in
    let same : (h1 x).prev ≡ l = ground arith in
    let h2 = put_prev e l h1 in
    let h3 = put_next e x h2 in
    let h4 = put_prev x e h3 in
    let second : set_prev e (h1 x).prev h1 ≡ some h2 =
      ap (λ n. set_prev e n h1) same ∙ set_prev-some e l h1 en in
    (
      h4,
      rw (add_before, set_next-some l e h ln, ◌>>=◌, second, set_next-some e x h2 en)
          (set_prev-some x e h3 xn),
      record {
        forth = ground arith;
        entry = ground arith;
        back = ground arith;
        nexts = λ a al ae. ground arith;
        prevs = λ a ax ae. ground arith;
      },
    )
