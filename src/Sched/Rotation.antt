-- ===== src/Sched/Rotation.antt =====
-- src/sched/sched.cpp: which task the scheduler picks.
use fish_os.Base.{
  ℕ, ◌≡◌, ◌≢◌, ◌⊎◌, inl, inr, refl, sym, ap, ◌∙◌, true, false, List, [], ◌∷◌, ◌++◌, some, ◌==◌,
  arith,
}
use fish_os.Klib.List.Ring.{Chain, Apart, Unique, IsRing, Apart-append_left, Apart-append_right}
use fish_os.Klib.List.Entries.{empty-cons}
use fish_os.Klib.List.Removal.{Chain-suffix}
use fish_os.Sched.{Sched, first, pick}

-- the tasks of the scheduler's list
abbrev pub Runs : Sched → List ℕ → Type 0
Runs s tasks = IsRing s.links s.head tasks

-- the tasks that are picked one after another, from `current` on
unfoldable pub Picks : Sched → ℕ → List ℕ → Type 0
Picks s current [] = Unit {0}
Picks s current (x ∷ xs) = (pick s current ≡ some x) × Picks s x xs

-- the last of the tasks that ran
unfoldable pub last : ℕ → List ℕ → ℕ
last x [] = x
last x (y ∷ ys) = last y ys

pub Picks-append :
    (s : Sched) (x : ℕ) (xs ys : List ℕ)
    → Picks s x xs
    → Picks s (last x xs) ys
    → Picks s x (xs ++ ys)
unfolding Picks last
Picks-append s x [] ys _ q = q
Picks-append s x (z ∷ zs) ys (p, ps) q = (p, Picks-append s z zs ys ps q)

pub first-cons : (s : Sched) (x : ℕ) (xs : List ℕ) → Runs s (x ∷ xs) → first s ≡ some x
unfolding first Chain
first-cons s x xs r =
    let (forth, _) = r.chain in rw (first, empty-cons s.links s.head x xs r, forth) refl

-- a task that is followed by another hands over to it
pick-next :
    (s : Sched) (x : ℕ)
    → x ≢ 0
    → (s.links x).next ≢ 0
    → (s.links x).next ≢ s.head
    → pick s x ≡ some (s.links x).next
unfolding pick
pick-next s x ne n0 nh =
    let a : (x == 0) ≡ false = ground arith in
    let b : ((s.links x).next == 0) ≡ false = ground arith in
    let c : ((s.links x).next == s.head) ≡ false = ground arith in rw (pick, a, b, c) refl

-- without a task, after the last one, and after one that was removed, the first is next
pub pick-first :
    (s : Sched) (x : ℕ) (e : (x ≡ 0) ⊎ (((s.links x).next ≡ 0) ⊎ ((s.links x).next ≡ s.head)))
    → pick s x ≡ first s
unfolding pick
pick-first s x (inl none_yet) = let a : (x == 0) ≡ true = ground arith in rw (pick, a) refl
pick-first s x (inr (inl removed)) = ground (arith, removed)
pick-first s x (inr (inr at_end)) = ground (arith, at_end)

-- along the list from one of its tasks to its end
pub Chain-Picks :
    (s : Sched) (x : ℕ) (xs : List ℕ)
    → Chain s.links x xs s.head
    → x ≢ 0
    → Apart 0 xs
    → Apart s.head xs
    → Picks s x xs
unfolding Chain Apart Picks
Chain-Picks s x [] _ _ _ _ = tt
Chain-Picks s x (y ∷ ys) (forth, (_, c)) x0 (y0, null) (yh, apart) = (
  pick-next s x x0 (λ e. y0 (sym e ∙ forth)) (λ e. yh (sym e ∙ forth)) ∙ ap (λ n. some n) forth,
  Chain-Picks s y ys c (λ e. y0 (sym e)) null apart,
)

-- the last task of the list leads back to the head
pub Chain-last :
    (s : Sched) (x : ℕ) (xs : List ℕ)
    → Chain s.links x xs s.head
    → (s.links (last x xs)).next ≡ s.head
unfolding Chain last
Chain-last s x [] (forth, _) = forth
Chain-last s x (y ∷ ys) (_, (_, c)) = Chain-last s y ys c

Chain-prefix :
    (s : Sched) (p : ℕ) (xs : List ℕ) (x : ℕ)
    → Chain s.links p xs x
    → p ≢ 0
    → x ≢ 0
    → x ≢ s.head
    → Apart 0 xs
    → Apart s.head xs
    → Picks s p (xs ++ (x ∷ []))
unfolding Chain Apart Picks
Chain-prefix s p [] x (forth, _) p0 x0 xh _ _ = (
  pick-next s p p0 (λ e. x0 (sym forth ∙ e)) (λ e. xh (sym forth ∙ e)) ∙ ap (λ n. some n) forth,
  tt,
)
Chain-prefix s p (y ∷ ys) x (forth, (_, c)) p0 x0 xh (y0, null) (yh, apart) = (
  pick-next s p p0 (λ e. y0 (sym e ∙ forth)) (λ e. yh (sym e ∙ forth)) ∙ ap (λ n. some n) forth,
  Chain-prefix s y ys x c (λ e. y0 (sym e)) x0 xh null apart,
)

-- the first task runs after the last, then those up to `x`
first-Picks :
    (s : Sched) (from : ℕ) (xs : List ℕ) (x : ℕ) (ys : List ℕ)
    → Runs s (xs ++ (x ∷ ys))
    → pick s from ≡ first s
    → Picks s from (xs ++ (x ∷ []))
unfolding Picks Apart Chain Unique
first-Picks s from [] x ys r e = (e ∙ first-cons s x ys r, tt)
first-Picks s from (w ∷ xs) x ys r e =
    let (_, (_, c)) = r.chain in
    let (c1, _) = Chain-suffix s.links w xs x ys s.head c in
    let (apart_head, _) = r.unique in
    let (_, null) = r.no_null in
    let (hx, _) = Apart-append_right s.head (w ∷ xs) (x ∷ ys) apart_head in
    let (x0, _) = Apart-append_right 0 (w ∷ xs) (x ∷ ys) null in
    let (w0, xs0) = Apart-append_left 0 (w ∷ xs) (x ∷ ys) null in
    let (wh, xsh) = Apart-append_left s.head (w ∷ xs) (x ∷ ys) apart_head in
    (
      e ∙ first-cons s w (xs ++ (x ∷ ys)) r,
      Chain-prefix s w xs x c1 (λ i. w0 (sym i)) (λ i. x0 (sym i)) (λ i. hx (sym i)) xs0 xsh,
    )

-- From a task of the list the scheduler picks those behind it, then those in front of it, and then the
-- task itself.
pub Runs-Picks :
    (s : Sched) (xs : List ℕ) (x : ℕ) (ys : List ℕ)
    → Runs s (xs ++ (x ∷ ys))
    → Picks s x (ys ++ (xs ++ (x ∷ [])))
unfolding Apart Unique
Runs-Picks s xs x ys r =
    let (_, c) = Chain-suffix s.links s.head xs x ys s.head r.chain in
    let (apart_head, _) = r.unique in
    let (_, null) = r.no_null in
    let (x0, ys0) = Apart-append_right 0 xs (x ∷ ys) null in
    let (_, ysh) = Apart-append_right s.head xs (x ∷ ys) apart_head in
    Picks-append s x ys (xs ++ (x ∷ [])) (Chain-Picks s x ys c (λ i. x0 (sym i)) ys0 ysh) (
      first-Picks s (last x ys) xs x ys r
        (pick-first s (last x ys) (inr (inr (Chain-last s x ys c)))))
