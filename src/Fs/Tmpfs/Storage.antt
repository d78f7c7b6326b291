-- ===== src/Fs/Tmpfs/Storage.antt =====
-- src/fs/tmpfs.cpp: what a file holds after a write, and what a read returns.
use native.Mathlib.Decide.{dec_lt}
use fish_os.Base.{
  ℕ, zero, suc, ◌+◌, ◌-◌, ◌^◌, ◌≤◌, ◌<◌, ◌≡◌, refl, ◌&&◌, List, ◌++◌, leb, ltb, if◌then◌else◌,
  length, take, drop, arith, get_or, length-append, length-take, get_or-append_left,
  get_or-append_right, get_or-take, get_or-drop, ◌∙◌, ap,
}
use fish_os.Fs.Node.{NodeData}
use fish_os.Fs.Tmpfs.{tail_of, realloc}

-- the storage has the file's size, which a `usize` holds
pub record IsContent (c : NodeData) : Type 0 where
  pub width : length c.storage ≡ c.size
  pub small : c.size < 2 ^ 64

length-tail_of : (fresh : ℕ → ℕ) (i n : ℕ) → length (tail_of fresh i n) ≡ n
unfolding tail_of
length-tail_of fresh i zero = refl
length-tail_of fresh i (suc n) = omega (arith, length-tail_of fresh (i + 1) n)

pub length-realloc :
    (fresh : ℕ → ℕ) (storage : List ℕ) (size : ℕ) → length (realloc fresh storage size) ≡ size
unfolding realloc
length-realloc fresh storage size = omega (
  arith,
  length-append (take size storage) (tail_of fresh (length storage) (size - length storage)),
  length-take size storage,
  length-tail_of fresh (length storage) (size - length storage),
)

-- the bytes of `buf` from `offset` on, around them what `s` has
abbrev pub spliced : List ℕ → ℕ → List ℕ → ℕ → ℕ
spliced s offset buf j =
    if leb offset j && ltb j (offset + length buf) then get_or buf (j - offset) 0 else get_or s j 0

pub get_or-splice :
    (s : List ℕ) (offset : ℕ) (buf : List ℕ) (j : ℕ)
    → offset + length buf ≤ length s
    → get_or (take offset s ++ (buf ++ drop (offset + length buf) s)) j 0 ≡ spliced s offset buf j
get_or-splice s offset buf j fits =
    let tail = drop (offset + length buf) s in
    let front : length (take offset s) ≡ offset = omega (arith, length-take offset s) in
    elim (dec_lt j offset) [
      | yes before ↦ ground (
        arith,
        get_or-append_left (take offset s) (buf ++ tail) j 0 (omega arith),
        get_or-take offset j s 0 before,
      )
      | no after ↦
          get_or-append_right (take offset s) (buf ++ tail) j (j - offset) 0 (omega arith)
          ∙ elim (dec_lt j (offset + length buf)) [
            | yes inside ↦ ground (arith, get_or-append_left buf tail (j - offset) 0 (omega arith))
            | no beyond ↦ ground (
              arith,
              get_or-append_right buf tail (j - offset) (j - offset - length buf) 0 (omega arith),
              get_or-drop (offset + length buf) (j - offset - length buf) j s 0 (omega arith),
            )
          ]
    ]

get_or-tail_of :
    (fresh : ℕ → ℕ) (i n j : ℕ)
    → get_or (tail_of fresh i n) j 0 ≡ (if ltb j n then fresh (i + j) else 0)
unfolding tail_of
get_or-tail_of fresh i zero j = ground arith
get_or-tail_of fresh i (suc n) zero = ground (arith, ap fresh (zero_right i))
  where
    zero_right : (i : ℕ) → i + 0 ≡ i
    zero_right i = omega arith
get_or-tail_of fresh i (suc n) (suc j) =
    ground (arith, get_or-tail_of fresh (i + 1) n j, ap fresh (shift i j))
  where
    shift : (i j : ℕ) → i + 1 + j ≡ i + suc j
    shift i j = omega arith

pub get_or-realloc :
    (fresh : ℕ → ℕ) (s : List ℕ) (size j : ℕ)
    → length s ≤ size
    → get_or (realloc fresh s size) j 0
      ≡ (if ltb j (length s) then get_or s j 0 else if ltb j size then fresh j else 0)
unfolding realloc
get_or-realloc fresh s size j h = elim (dec_lt j (length s)) [
  | yes before ↦ ground (
    arith,
    get_or-append_left (take size s) (tail_of fresh (length s) (size - length s)) j 0
        (omega (arith, length-take size s)),
    get_or-take size j s 0 (omega arith),
  )
  | no after ↦ ground (
    arith,
    get_or-append_right (take size s) (tail_of fresh (length s) (size - length s)) j (j - length s)
        0 (omega (arith, length-take size s)),
    get_or-tail_of fresh (length s) (size - length s) (j - length s),
    ap fresh (back after),
  )
]
  where
    back : ¬ (j < length s) → length s + (j - length s) ≡ j
    back after = omega arith
