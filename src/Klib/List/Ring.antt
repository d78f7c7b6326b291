-- ===== src/Klib/List/Ring.antt =====
-- src/klib/list.hpp: the entries of a circular list.
use fish_os.Base.{ℕ, ◌≡◌, ◌≢◌, sym, ◌∙◌, List, [], ◌∷◌, ◌++◌}
use fish_os.Klib.List.{Links}

-- the links lead from `p` over the entries to `q`, and back
unfoldable pub Chain : Links → ℕ → List ℕ → ℕ → Type 0
Chain h p [] q = ((h p).next ≡ q) × ((h q).prev ≡ p)
Chain h p (x ∷ xs) q = ((h p).next ≡ x) × (((h x).prev ≡ p) × Chain h x xs q)

-- `a` is none of the entries
unfoldable pub Apart : ℕ → List ℕ → Type 0
Apart a [] = Unit {0}
Apart a (x ∷ xs) = (a ≢ x) × Apart a xs

unfoldable pub Unique : List ℕ → Type 0
Unique [] = Unit {0}
Unique (x ∷ xs) = Apart x xs × Unique xs

-- the list of `head` has the entries `xs`
pub record IsRing (h : Links) (head : ℕ) (xs : List ℕ) : Type 0 where
  pub chain : Chain h head xs head
  pub unique : Unique (head ∷ xs)
  pub no_null : Apart 0 (head ∷ xs)

pub Apart-append_left : (a : ℕ) (xs ys : List ℕ) → Apart a (xs ++ ys) → Apart a xs
unfolding Apart
Apart-append_left a [] ys h = tt
Apart-append_left a (x ∷ xs) ys (ne, h) = (ne, Apart-append_left a xs ys h)

pub Apart-append_right : (a : ℕ) (xs ys : List ℕ) → Apart a (xs ++ ys) → Apart a ys
unfolding Apart
Apart-append_right a [] ys h = h
Apart-append_right a (x ∷ xs) ys (ne, h) = Apart-append_right a xs ys h

pub Apart-append : (a : ℕ) (xs ys : List ℕ) → Apart a xs → Apart a ys → Apart a (xs ++ ys)
unfolding Apart
Apart-append a [] ys hx hy = hy
Apart-append a (x ∷ xs) ys (ne, hx) hy = (ne, Apart-append a xs ys hx hy)

-- without an entry in the middle the others are as before
pub Apart-without : (a x : ℕ) (xs ys : List ℕ) → Apart a (xs ++ (x ∷ ys)) → Apart a (xs ++ ys)
unfolding Apart
Apart-without a x xs ys h =
    let (ne, hy) = Apart-append_right a xs (x ∷ ys) h in
    Apart-append a xs ys (Apart-append_left a xs (x ∷ ys) h) hy

pub Unique-without : (x : ℕ) (xs ys : List ℕ) → Unique (xs ++ (x ∷ ys)) → Unique (xs ++ ys)
unfolding Unique
Unique-without x [] ys (_, u) = u
Unique-without x (w ∷ xs) ys (a, u) = (Apart-without w x xs ys a, Unique-without x xs ys u)

pub Unique-snoc : (e : ℕ) (xs : List ℕ) → Apart e xs → Unique xs → Unique (xs ++ (e ∷ []))
unfolding Unique Apart
Unique-snoc e [] a u = (tt, tt)
Unique-snoc e (x ∷ xs) (ne, a) (ax, u) =
    (Apart-append x xs (e ∷ []) ax ((λ q. ne (sym q)), tt), Unique-snoc e xs a u)

-- what is none of the entries of a chain that has some is not the last of them
pub Apart-last :
    (h : Links) (a p x : ℕ) (xs : List ℕ) (q : ℕ)
    → Chain h p (x ∷ xs) q
    → Apart a (x ∷ xs)
    → a ≢ (h q).prev
unfolding Chain Apart
Apart-last h a p x [] q (_, (_, (_, back))) (ne, _) = λ e. ne (e ∙ back)
Apart-last h a p x (y ∷ ys) q (_, (_, c)) (_, rest) = Apart-last h a x y ys q c rest

-- nor is it the first, nor where a chain without entries ends
pub Apart-first :
    (h : Links) (a p : ℕ) (xs : List ℕ) (q : ℕ)
    → Chain h p xs q
    → Apart a xs
    → a ≢ q
    → a ≢ (h p).next
unfolding Chain Apart
Apart-first h a p [] q (forth, _) _ ne = λ e. ne (e ∙ forth)
Apart-first h a p (x ∷ xs) q (forth, _) (ne, _) _ = λ e. ne (e ∙ forth)

-- a chain is kept where the links on it are
pub Chain-frame :
    (h h' : Links) (l r x p : ℕ) (xs : List ℕ) (q : ℕ)
    → ((a : ℕ) → a ≢ l → a ≢ x → (h' a).next ≡ (h a).next)
    → ((a : ℕ) → a ≢ r → a ≢ x → (h' a).prev ≡ (h a).prev)
    → Chain h p xs q
    → Apart l (p ∷ xs)
    → Apart r xs
    → Apart x (p ∷ xs)
    → q ≢ r
    → q ≢ x
    → Chain h' p xs q
unfolding Chain Apart
Chain-frame h h' l r x p [] q nexts prevs (forth, back) (pl, _) _ (px, _) qr qx =
    (nexts p (λ e. pl (sym e)) (λ e. px (sym e)) ∙ forth, prevs q qr qx ∙ back)
Chain-frame h h' l r x p (y ∷ ys) q nexts prevs (forth, (back, c)) (pl, al) (yr, ar) (px, (yx, ax))
      qr qx =
    (
      nexts p (λ e. pl (sym e)) (λ e. px (sym e)) ∙ forth,
      (
        prevs y (λ e. yr (sym e)) (λ e. yx (sym e)) ∙ back,
        Chain-frame h h' l r x y ys q nexts prevs c al ar (yx, ax) qr qx,
      ),
    )
