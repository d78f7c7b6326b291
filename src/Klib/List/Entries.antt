-- ===== src/Klib/List/Entries.antt =====
-- src/klib/list.hpp: an entry added at the end of a circular list.
use fish_os.Base.{
  ℕ, ◌≡◌, ◌≢◌, refl, sym, ap, ◌∙◌, true, false, List, [], ◌∷◌, ◌++◌, some, ◌==◌, arith,
}
use fish_os.Klib.List.{ListHead, Links, store, set_next, set_prev, init, add_before, empty, ◌>>=◌}
use fish_os.Klib.List.Ring.{
  Chain, Apart, Unique, IsRing, Apart-append, Unique-snoc, Apart-last, Apart-first,
}
use fish_os.Klib.List.Change.{Added, add_before-Added}

-- an entry at the end of a chain, in front of `q`
Chain-Added :
    (h h' : Links) (e p : ℕ) (xs : List ℕ) (q : ℕ)
    → Added h h' q e
    → Chain h p xs q
    → Unique (p ∷ xs)
    → Apart e (p ∷ xs)
    → Apart q xs
    → Chain h' p (xs ++ (e ∷ [])) q
unfolding Chain Apart Unique
Chain-Added h h' e p [] q d (forth, back) u a aq = (
  ap (λ l. (h' l).next) (sym back) ∙ d.forth,
  (ap (λ (n : ListHead). n.prev) d.entry ∙ back, (ap (λ (n : ListHead). n.next) d.entry, d.back)),
)
Chain-Added h h' e p (x ∷ xs) q d (forth, (back, c)) (ap_x, u) (ne, a) (nq, aq) =
    let (nx, _) = a in
    (
      d.nexts p (Apart-last h p p x xs q (forth, (back, c)) ap_x) (λ i. ne (sym i)) ∙ forth,
      (d.prevs x (λ i. nq (sym i)) (λ i. nx (sym i)) ∙ back, Chain-Added h h' e x xs q d c u a aq),
    )

-- the node in front of the end of a chain is not null, nor an entry that stands apart
module _ (h : Links) (a : ℕ) where
  pub before_end :
      (p : ℕ) (xs : List ℕ) (q : ℕ) → Chain h p xs q → Apart a (p ∷ xs) → (h q).prev ≢ a
  unfolding Chain Apart
  before_end p [] q (_, back) (ne, _) = λ e. ne (sym e ∙ back)
  before_end p (x ∷ xs) q (_, (_, c)) (_, apart) = before_end x xs q c apart

  pub after_start :
      (p : ℕ) (xs : List ℕ) (q : ℕ) → Chain h p xs q → Apart a xs → a ≢ q → (h p).next ≢ a
  after_start p xs q c apart ne = λ e. Apart-first h a p xs q c apart ne (sym e)

-- Adding an entry before the head of a list, which does not have it, puts it behind all the others.
pub add_before-IsRing :
    (h : Links) (head e : ℕ) (xs : List ℕ)
    → IsRing h head xs
    → e ≢ 0
    → Apart e (head ∷ xs)
    → (h' : Links) × (add_before head e h ≡ some h')
      × (IsRing h' head (xs ++ (e ∷ [])) × Added h h' head e)
unfolding Unique Apart
add_before-IsRing h head e xs r en (eh, apart) =
    let (apart_head, unique) = r.unique in
    let (h0, null) = r.no_null in
    let (h', run, d) =
      add_before-Added h head e (λ i. h0 (sym i)) en (before_end h 0 head xs head r.chain r.no_null)
        (before_end h e head xs head r.chain (eh, apart)) (λ i. eh (sym i)) in
    (
      h',
      run,
      (
        record {
          chain = Chain-Added h h' e head xs head d r.chain r.unique (eh, apart) apart_head;
          unique = (
            Apart-append head xs (e ∷ []) apart_head ((λ i. eh (sym i)), tt),
            Unique-snoc e xs apart unique,
          );
          no_null = (h0, Apart-append 0 xs (e ∷ []) null ((λ i. en (sym i)), tt));
        },
        d,
      ),
    )

-- A list that `init` has made is empty.
pub init-IsRing :
    (h : Links) (head : ℕ) → head ≢ 0 → (h' : Links) × (init head h ≡ some h') × IsRing h' head []
unfolding init set_next set_prev store Chain Unique Apart
init-IsRing h head ne =
    let no : (head == 0) ≡ false = ground arith in
    let h1 = store head (record (h head) { next = head }) h in
    (
      store head (record (h1 head) { prev = head }) h1,
      rw (init, set_next, set_prev, no, ◌>>=◌) refl,
      record {
        chain = (ground arith, ground arith);
        unique = (tt, tt);
        no_null = ((λ i. ne (sym i)), tt);
      },
    )

pub empty-cons :
    (h : Links) (head x : ℕ) (xs : List ℕ) → IsRing h head (x ∷ xs) → empty head h ≡ false
unfolding empty Chain Unique Apart
empty-cons h head x xs r =
    let (forth, _) = r.chain in let ((ne, _), _) = r.unique in ground (arith, forth, ne)

pub empty-nil : (h : Links) (head : ℕ) → IsRing h head [] → empty head h ≡ true
unfolding empty Chain
empty-nil h head r = let (forth, _) = r.chain in ground (arith, forth)
