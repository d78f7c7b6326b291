-- ===== src/Klib/List/Removal.antt =====
-- src/klib/list.hpp: an entry taken out of a circular list.
use fish_os.Base.{ℕ, ◌≡◌, sym, ap, ◌∙◌, List, [], ◌∷◌, ◌++◌, some}
use fish_os.Klib.List.{Links, remove}
use fish_os.Klib.List.Ring.{
  Chain, Apart, Unique, IsRing, Apart-append_left, Apart-append_right, Apart-without,
  Unique-without, Apart-last, Apart-first, Chain-frame,
}
use fish_os.Klib.List.Change.{Removed, remove-Removed}
use fish_os.Klib.List.Entries.{before_end, after_start}

-- where an entry stands in a chain: the chain behind it, and the node in front of it
pub Chain-suffix :
    (h : Links) (p : ℕ) (xs : List ℕ) (x : ℕ) (ys : List ℕ) (q : ℕ)
    → Chain h p (xs ++ (x ∷ ys)) q
    → Chain h p xs x × Chain h x ys q
unfolding Chain
Chain-suffix h p [] x ys q (forth, (back, c)) = ((forth, back), c)
Chain-suffix h p (w ∷ xs) x ys q (forth, (back, c)) =
    let (c1, c2) = Chain-suffix h w xs x ys q c in ((forth, (back, c1)), c2)

Chain-Removed :
    (h h' : Links) (p : ℕ) (xs : List ℕ) (x : ℕ) (ys : List ℕ) (q : ℕ)
    → Removed h h' x
    → Chain h p (xs ++ (x ∷ ys)) q
    → Unique (p ∷ (xs ++ (x ∷ ys)))
    → Apart q (xs ++ (x ∷ ys))
    → Chain h' p (xs ++ ys) q
unfolding Chain Apart Unique
Chain-Removed h h' p [] x [] q d (forth, (back, (forth', back'))) u aq = (
  ap (λ l. (h' l).next) (sym back) ∙ d.forth ∙ forth',
  ap (λ r. (h' r).prev) (sym forth') ∙ d.back ∙ back,
)
Chain-Removed h h' p [] x (y ∷ ys) q d (forth, (back, (forth', (back', c))))
      (ap_p, (ap_x, (ap_y, u))) (qx, (qy, aq)) =
    let (px, pys) = ap_p in
    (
      ap (λ l. (h' l).next) (sym back) ∙ d.forth ∙ forth',
      (
        ap (λ r. (h' r).prev) (sym forth') ∙ d.back ∙ back,
        Chain-frame h h' p y x y ys q (λ a al ax. d.nexts a (λ i. al (i ∙ back)) ax)
            (λ a ar ax. d.prevs a (λ i. ar (i ∙ forth')) ax) c pys ap_y ap_x qy qx,
      ),
    )
Chain-Removed h h' p (w ∷ xs) x ys q d (forth, (back, c)) (ap_p, (ap_w, u)) (qw, aq) =
    let (c1, c2) = Chain-suffix h w xs x ys q c in
    let (wx, w_ys) = Apart-append_right w xs (x ∷ ys) ap_w in
    let (pw, p_rest) = ap_p in
    let (px, _) = Apart-append_right p xs (x ∷ ys) p_rest in
    (
      d.nexts p
            (Apart-last h p p w xs x (forth, (back, c1))
              (pw, Apart-append_left p xs (x ∷ ys) p_rest))
            px
          ∙ forth,
      (
        d.prevs w (Apart-first h w x ys q c2 w_ys (λ i. qw (sym i))) wx ∙ back,
        Chain-Removed h h' w xs x ys q d c (ap_w, u) aq,
      ),
    )

pub Unique-middle :
    (xs : List ℕ) (x : ℕ) (ys : List ℕ) → Unique (xs ++ (x ∷ ys)) → Apart x xs × Apart x ys
unfolding Unique Apart
Unique-middle [] x ys (a, _) = (tt, a)
Unique-middle (w ∷ xs) x ys (a, u) =
    let (ax, ay) = Unique-middle xs x ys u in
    let (ne, _) = Apart-append_right w xs (x ∷ ys) a in (((λ i. ne (sym i)), ax), ay)

-- Removing an entry of a list leaves the others in their order, and the entry unlinked.
pub remove-IsRing :
    (h : Links) (head x : ℕ) (xs ys : List ℕ)
    → IsRing h head (xs ++ (x ∷ ys))
    → (h' : Links) × (remove x h ≡ some h')
      × (IsRing h' head (xs ++ ys) × (h' x ≡ record { next = 0; prev = 0 }))
unfolding Unique Apart
remove-IsRing h head x xs ys r =
    let (c1, c2) = Chain-suffix h head xs x ys head r.chain in
    let (apart_head, unique) = r.unique in
    let (h0, null) = r.no_null in
    let (hx, _) = Apart-append_right head xs (x ∷ ys) apart_head in
    let (x0, null_ys) = Apart-append_right 0 xs (x ∷ ys) null in
    let (x_xs, x_ys) = Unique-middle xs x ys unique in
    let null_xs = Apart-append_left 0 xs (x ∷ ys) null in
    let (h', run, d) =
      remove-Removed h x (λ i. x0 (sym i)) (before_end h 0 head xs x c1 (h0, null_xs))
        (after_start h 0 x ys head c2 null_ys h0)
        (before_end h x head xs x c1 ((λ i. hx (sym i)), x_xs))
        (after_start h x x ys head c2 x_ys (λ i. hx (sym i))) in
    (
      h',
      run,
      (
        record {
          chain = Chain-Removed h h' head xs x ys head d r.chain r.unique apart_head;
          unique = (Apart-without head x xs ys apart_head, Unique-without x xs ys unique);
          no_null = (h0, Apart-without 0 x xs ys null);
        },
        d.unlinked,
      ),
    )
