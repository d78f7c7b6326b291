-- ===== src/Fs/Tmpfs.antt =====
-- src/fs/tmpfs.cpp: files in memory.
-- `read` and `write` work on the contents of one node. A `memcpy` that leaves the storage is a fault,
-- `none`. The bytes of `realloc` behind the old ones are what the heap holds there, `fresh`;
-- allocations are taken to succeed.
pub mod Storage
pub mod ReadWrite
mod Tests
use fish_os.Base.{
  ℕ, zero, suc, ◌+◌, ◌-◌, ◌%◌, ◌^◌, Bool, true, false, List, [], ◌∷◌, ◌++◌, Option, none, some, leb,
  ltb, if◌then◌else◌, length, take, drop,
}
use fish_os.Base.Int.{ℤ, pos, negsuc}
use fish_os.Fs.Node.{NodeType, NodeData, is_file}

-- `memcpy(buf, storage + offset, count)`
unfoldable pub copy_out : List ℕ → ℕ → ℕ → Option (List ℕ)
copy_out storage offset count =
    if leb (offset + count) (length storage) then some (take count (drop offset storage)) else none

-- `memcpy(storage + offset, buf, count)`
pub copy_in : List ℕ → ℕ → List ℕ → Option (List ℕ)
copy_in storage offset buf =
    if leb (offset + length buf) (length storage)
    then some (take offset storage ++ (buf ++ drop (offset + length buf) storage))
    else none

-- the value returned, a count as the unsigned number that becomes the `isize`, and the bytes put into `buf`
unfoldable pub read : NodeType → NodeData → ℕ → ℕ → Option (ℤ × List ℕ)
read type content count offset =
    let partial = content.size - offset in
    if is_file type
    then (if leb content.size offset
        then some (pos 0, [])
        else if ltb content.size ((offset + count) % 2 ^ 64)
        then elim (copy_out content.storage offset partial) [
          | none ↦ none
          | some bytes ↦ some (pos partial, bytes)
        ]
        else elim (copy_out content.storage offset count) [
          | none ↦ none
          | some bytes ↦ some (pos count, bytes)
        ])
    else some (negsuc 0, [])

-- the `n` bytes of the heap from index `i` on
pub tail_of : (ℕ → ℕ) → ℕ → ℕ → List ℕ
tail_of fresh i zero = []
tail_of fresh i (suc n) = fresh i ∷ tail_of fresh (i + 1) n

pub realloc : (ℕ → ℕ) → List ℕ → ℕ → List ℕ
realloc fresh storage size =
    take size storage ++ tail_of fresh (length storage) (size - length storage)

-- the branch of `write` that makes room for the bytes up to `end`
pub extend : (ℕ → ℕ) → NodeData → ℕ → NodeData
extend fresh content end =
    if ltb content.size end
    then record { size = end; storage = realloc fresh content.storage end }
    else content

pub write : (ℕ → ℕ) → NodeType → NodeData → List ℕ → ℕ → Option NodeData
write fresh type content buf offset =
    let room = extend fresh content ((offset + length buf) % 2 ^ 64) in
    if is_file type
    then elim (copy_in room.storage offset buf) [
      | none ↦ none
      | some bytes ↦ some (record room { storage = bytes })
    ]
    else some content
