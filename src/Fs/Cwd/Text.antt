-- ===== src/Fs/Cwd/Text.antt =====
-- src/fs/vfs.cpp: what `syscall_getcwd` writes, and that it stays in the buffer.
use fish_os.Base.{
  ℕ, zero, suc, ◌+◌, ◌<◌, ◌≤◌, ◌≡◌, refl, sym, Bool-cases, inl, inr, ◌⊎◌, List, [], ◌∷◌, ◌++◌,
  Option, none, some, Option-cases, ◌==◌, leb, length, length-append, append_assoc, append_nil,
  arith,
}
use fish_os.Base.Int.{ℤ, pos}
use fish_os.Klib.Cstring.{CString}
use fish_os.Klib.Cstring.Compare.{chars}
use fish_os.Fs.Node.{Store, node_at}
use fish_os.Fs.Descriptors.{Task, error}
use fish_os.Fs.Cwd.{Progress, more, erange, names_up, put_chars, put_names, syscall_getcwd}

-- the path of the names, the last one first
pub text : List CString → List ℕ
text [] = []
text (name ∷ names) = text names ++ (47 ∷ chars name)

-- all of `bytes` is in the buffer, with room for one more, or the buffer is full
abbrev pub Puts : ℕ → List ℕ → Progress → Type 0
Puts size bytes p =
    ((length bytes < size) × (p ≡ more bytes))
    ⊎ ((size ≤ length bytes) × ((out : List ℕ) × (p ≡ erange out) × (length out ≡ size)))

put_chars-Puts :
    (size : ℕ) (cs out : List ℕ)
    → length out < size
    → Puts size (out ++ chars cs) (put_chars size cs out)
unfolding put_chars chars
put_chars-Puts size [] out h = rw (append_nil out) (inl (h, refl))
put_chars-Puts size (c ∷ cs) out h = elim (Bool-cases (c == 0)) [
  | inl nul ↦ rw (nul, append_nil out) (inl (h, refl))
  | inr byte ↦
      let out' = out ++ (c ∷ []) in
      let grown : length out' ≡ length out + 1 = length-append out (c ∷ []) in
      elim (Bool-cases (leb size (length out'))) [
        | inl full ↦
            rw (byte, put_chars, full)
              (inr (
                ground (arith, length-append out (c ∷ chars cs), grown),
                (out', refl, ground (arith, grown)),
              ))
        | inr room ↦
            rw (byte, put_chars, room, sym (append_assoc out (c ∷ []) (chars cs)))
              (put_chars-Puts size cs out' (ground arith))
      ]
]

put_names-Puts :
    (size : ℕ) (names : List CString) → 0 < size → Puts size (text names) (put_names size names [])
unfolding put_names text chars
put_names-Puts size [] some_room = inl (some_room, refl)
put_names-Puts size (name ∷ names) some_room = elim (put_names-Puts size names some_room) [
  | inl (room, run) ↦ rw (put_names, run) (put_chars-Puts size (47 ∷ name) (text names) room)
  | inr (full, (out, run, exact)) ↦
      rw (put_names, run)
        (inr
          (omega (arith, length-append (text names) (47 ∷ chars name), full), (out, refl, exact)))
]

-- each parent was made before its children
pub record IsOlder (store : Store) : Type 0 where
  pub older : (n p : ℕ) → (node_at store n).parent ≡ some p → p < n

-- the path of a node: nothing for the root, else that of its parent, a slash and its name
pub data PathOf (store : Store) : ℕ → List ℕ → Type 0 where
  root : (n : ℕ) → (node_at store n).parent ≡ none → PathOf store n []
  child :
      (n p : ℕ) (path : List ℕ)
      → (node_at store n).parent ≡ some p
      → PathOf store p path
      → PathOf store n (path ++ (47 ∷ chars (node_at store n).name))

-- what is to be written for a node: its path, or for the root a slash and its name, which is empty
pub data Cwd (store : Store) (n : ℕ) : List ℕ → Type 0 where
  at_root : (node_at store n).parent ≡ none → Cwd store n (47 ∷ chars (node_at store n).name)
  below :
      (p : ℕ) (path : List ℕ)
      → (node_at store n).parent ≡ some p
      → PathOf store n path
      → Cwd store n path

below-PathOf :
    (store : Store) (n p : ℕ) (path : List ℕ)
    → (node_at store n).parent ≡ some p
    → Cwd store n path
    → PathOf store n path
below-PathOf store n p _ up (at_root e) = absurd (ground (arith, up, e))
below-PathOf store n p _ up (below q path e walk) = walk

names_up-returns :
    (fuel : ℕ) (store : Store) (n : ℕ)
    → IsOlder store
    → n < fuel
    → (names : List CString) × (names_up fuel store n ≡ some names) × Cwd store n (text names)
unfolding names_up text
names_up-returns zero store n old h = absurd (omega arith)
names_up-returns (suc fuel) store n old h =
    let name = (node_at store n).name in
    elim (Option-cases (node_at store n).parent) [
      | inl top ↦ (name ∷ [], rw (names_up, top) refl, at_root top)
      | inr (p, up) ↦ elim (Option-cases (node_at store p).parent) [
        | inl below_root ↦ (
          name ∷ [],
          rw (names_up, up, below_root) refl,
          below p (47 ∷ chars name) up (child n p [] up (root p below_root)),
        )
        | inr (q, further) ↦
            let p_lt = old.older n p up in
            let (names, run, walk) = names_up-returns fuel store p old (omega arith) in
            let path : PathOf store n (text names ++ (47 ∷ chars name)) =
              child n p (text names) up (below-PathOf store p q (text names) further walk) in
            (
              name ∷ names,
              rw (names_up, up, further, run) refl,
              below p (text names ++ (47 ∷ chars name)) up path,
            )
      ]
    ]

-- `-ERANGE` and a full buffer, if the path does not leave a byte free; else 0 and the path
abbrev pub Gets : ℕ → List ℕ → Option (ℤ × List ℕ) → Type 0
Gets size bytes o =
    ((length bytes < size) × (o ≡ some (pos 0, bytes)))
    ⊎ ((size ≤ length bytes) × ((out : List ℕ) × (o ≡ some (error 3, out)) × (length out ≡ size)))

-- In a store where each parent was made before its children, `syscall_getcwd` returns for a buffer of
-- at least one byte. The path of the working directory is a slash and the name for each node from the one
-- below the root down to it, and for the root itself a slash and its name. If the path is shorter than the
-- buffer, the call returns 0 and writes it; else it returns `-ERANGE`, having written as many bytes as the
-- buffer has.
pub syscall_getcwd-Gets :
    (store : Store) (t : Task) (size : ℕ)
    → IsOlder store
    → t.cwd < length store
    → 0 < size
    → (path : List ℕ) × Cwd store t.cwd path × Gets size path (syscall_getcwd store t size)
unfolding syscall_getcwd
syscall_getcwd-Gets store t size old inside some_room =
    let (names, run, walk) = names_up-returns (length store + 1) store t.cwd old (omega arith) in
    (
      text names,
      walk,
      elim (put_names-Puts size names some_room) [
        | inl (room, put) ↦ inl (room, rw (syscall_getcwd, run, put) refl)
        | inr (full, (out, put, exact)) ↦
            inr (full, (out, rw (syscall_getcwd, run, put) refl, exact))
      ],
    )
