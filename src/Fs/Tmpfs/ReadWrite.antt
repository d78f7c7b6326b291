-- ===== src/Fs/Tmpfs/ReadWrite.antt =====
-- src/fs/tmpfs.cpp: `read` and `write` against the contents of the file.
use Prim.Native.Nat.{min}
use fish_os.Base.{
  ℕ, zero, suc, Bool-cases, inl, inr, ◌+◌, ◌-◌, ◌%◌, ◌^◌, ◌≤◌, ◌<◌, ◌≡◌, refl, ◌&&◌, List, [], ◌∷◌,
  ◌++◌, none, some, leb, ltb, if◌then◌else◌, length, take, drop, arith, get_or, length-append,
  length-take, length-drop, ◌∙◌, ap, sym, take-append, drop-append, le→leb,
}
use fish_os.Base.Int.{pos}
use fish_os.Fs.Node.{file, NodeData, is_file}
use fish_os.Fs.Tmpfs.{copy_out, copy_in, read, realloc, extend, write}
use fish_os.Fs.Tmpfs.Storage.{IsContent, length-realloc, get_or-splice, get_or-realloc}

-- a file is as large as its last byte written asks for
abbrev pub grown : ℕ → ℕ → ℕ
grown size end = if ltb size end then end else size

-- `c` and the bytes that the heap gave behind it, up to the end of the write
abbrev pub extended : (ℕ → ℕ) → NodeData → ℕ → ℕ → ℕ
extended fresh c end j =
    if ltb j c.size then get_or c.storage j 0 else if ltb j end then fresh j else 0

-- `r` is `c` with `buf` written at `offset`
pub record Written (fresh : ℕ → ℕ) (c : NodeData) (buf : List ℕ) (offset : ℕ) (r : NodeData)
    : Type 0 where
  pub content : IsContent r
  pub size : r.size ≡ grown c.size (offset + length buf)
  pub bytes :
      (j : ℕ)
      → get_or r.storage j 0 ≡ (
          if leb offset j && ltb j (offset + length buf)
          then get_or buf (j - offset) 0
          else extended fresh c (offset + length buf) j)

get_or-beyond : (xs : List ℕ) (j : ℕ) → length xs ≤ j → get_or xs j 0 ≡ 0
get_or-beyond [] j h = refl
get_or-beyond (x ∷ xs) zero h = absurd (omega arith)
get_or-beyond (x ∷ xs) (suc j) h = get_or-beyond xs j (omega arith)

-- `e` is `c` with room up to `end`
record Extended (fresh : ℕ → ℕ) (c : NodeData) (end : ℕ) (e : NodeData) : Type 0 where
  content : IsContent e
  size : e.size ≡ grown c.size end
  bytes : (j : ℕ) → get_or e.storage j 0 ≡ extended fresh c end j

extend-Extended :
    (fresh : ℕ → ℕ) (c : NodeData) (end : ℕ)
    → IsContent c
    → end < 2 ^ 64
    → Extended fresh c end (extend fresh c end)
unfolding extend
extend-Extended fresh c end w small = elim (Bool-cases (ltb c.size end)) [
  | inl more ↦
      let r : NodeData = record { size = end; storage = realloc fresh c.storage end } in
      rw (more, extend)
        (record {
          content = record { width = length-realloc fresh c.storage end; small = small };
          size = ground arith;
          bytes = λ j.
              ground
                (arith, get_or-realloc fresh c.storage end j (ground (arith, w.width)), w.width);
        })
  | inr enough ↦
      rw (enough, extend)
        (record {
          content = w;
          size = ground arith;
          bytes = λ j. ground (arith, get_or-beyond c.storage j, w.width);
        })
]

-- the storage after the bytes have been copied over it
abbrev copied : List ℕ → ℕ → List ℕ → List ℕ
copied storage offset buf = take offset storage ++ (buf ++ drop (offset + length buf) storage)

length-copied :
    (storage : List ℕ) (offset : ℕ) (buf : List ℕ)
    → offset + length buf ≤ length storage
    → length (copied storage offset buf) ≡ length storage
length-copied storage offset buf h = omega (
  arith,
  length-append (take offset storage) (buf ++ drop (offset + length buf) storage),
  length-append buf (drop (offset + length buf) storage),
  length-take offset storage,
  length-drop (offset + length buf) storage,
)

module _ (fresh : ℕ → ℕ) (c : NodeData) (buf : List ℕ) (offset : ℕ) where
  write-copied :
      IsContent c
      → offset + length buf < 2 ^ 64
      → let e = extend fresh c (offset + length buf) in
        (offset + length buf ≤ length e.storage)
        × (write fresh file c buf offset
            ≡ some (record e { storage = copied e.storage offset buf }))
  unfolding write is_file copy_in
  write-copied w small =
      let x = extend-Extended fresh c (offset + length buf) w small in
      let fits : offset + length buf ≤ length (extend fresh c (offset + length buf)).storage =
        ground (arith, x.content.width, x.size) in
      let no_wrap : (offset + length buf) % 2 ^ 64 ≡ offset + length buf = omega arith in
      (
        fits,
        rw
            (le→leb (offset + length buf)
              (length (extend fresh c ((offset + length buf) % 2 ^ 64)).storage) (rw no_wrap fits))
            (rw no_wrap),
      )

  -- Writing to a file of the size that it says succeeds if the end of the write does not wrap: the file
  -- grows to the end of the write if that lies behind it, has the bytes written from the offset on, and
  -- elsewhere what it had, or what the heap gave for a gap.
  pub write-Written :
      IsContent c
      → offset + length buf < 2 ^ 64
      → (r : NodeData) × (write fresh file c buf offset ≡ some r) × Written fresh c buf offset r
  write-Written w small =
      let e = extend fresh c (offset + length buf) in
      let x = extend-Extended fresh c (offset + length buf) w small in
      let (fits, run) = write-copied w small in
      (
        record e { storage = copied e.storage offset buf },
        run,
        record {
          content = record {
            width = length-copied e.storage offset buf fits ∙ x.content.width;
            small = x.content.small;
          };
          size = x.size;
          bytes = λ j. ground (arith, get_or-splice e.storage offset buf j fits, x.bytes j);
        },
      )

-- A read whose end does not wrap returns the number of bytes that the file has from the offset on, or
-- the count if that is smaller, and exactly those bytes.
pub read_lem :
    (c : NodeData) (count offset : ℕ)
    → IsContent c
    → offset + count < 2 ^ 64
    → let n = min count (c.size - offset) in
      read file c count offset ≡ some (pos n, take n (drop offset c.storage))
unfolding read is_file copy_out
read_lem c count offset w small = ground (arith, w.width)

-- A count so large that the end of the read wraps passes the test for a partial read, and the copy
-- leaves the storage.
pub read-overflow :
    (c : NodeData) (count offset : ℕ)
    → IsContent c
    → offset < c.size
    → count < 2 ^ 64
    → 2 ^ 64 ≤ offset + count
    → read file c count offset ≡ none
unfolding read is_file copy_out
read-overflow c count offset w inside word wraps = ground (arith, w.width)

take-drop-copied :
    (storage : List ℕ) (offset : ℕ) (buf : List ℕ)
    → offset ≤ length storage
    → take (length buf) (drop offset (copied storage offset buf)) ≡ buf
take-drop-copied storage offset buf h =
    let front : length (take offset storage) ≡ offset = omega (arith, length-take offset storage) in
    ap (λ k. take (length buf) (drop k (copied storage offset buf))) (sym front)
    ∙ ap (take (length buf))
        (drop-append (take offset storage) (buf ++ drop (offset + length buf) storage))
    ∙ take-append buf (drop (offset + length buf) storage)

-- Writing to a file and reading as many bytes back from the same offset returns their number and the
-- bytes, if the end of the write does not wrap.
pub read-write :
    (fresh : ℕ → ℕ) (c : NodeData) (buf : List ℕ) (offset : ℕ)
    → IsContent c
    → offset + length buf < 2 ^ 64
    → (r : NodeData) × (write fresh file c buf offset ≡ some r)
      × (read file r (length buf) offset ≡ some (pos (length buf), buf))
read-write fresh c buf offset w small =
    let e = extend fresh c (offset + length buf) in
    let x = extend-Extended fresh c (offset + length buf) w small in
    let (fits, run) = write-copied fresh c buf offset w small in
    let r : NodeData = record e { storage = copied e.storage offset buf } in
    let valid : IsContent r = record {
      width = length-copied e.storage offset buf fits ∙ x.content.width;
      small = x.content.small;
    } in
    let whole : min (length buf) (e.size - offset) ≡ length buf = omega (arith, x.content.width) in
    (
      r,
      run,
      read_lem r (length buf) offset valid small
          ∙ ap (λ n. some (pos n, take n (drop offset r.storage))) whole
          ∙ ap (λ b. some (pos (length buf), b))
              (take-drop-copied e.storage offset buf (omega arith)),
    )
