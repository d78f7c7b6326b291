-- ===== src/Fs/Tmpfs/Tests.antt =====
-- Files in memory, on a file of four bytes.
use fish_os.Base.{ℕ, ◌-◌, ◌^◌, ◌≡◌, refl, [], ◌∷◌, none, some, arith}
use fish_os.Base.Int.{pos, negsuc}
use fish_os.Fs.Node.{file, directory, NodeData, is_file}
use fish_os.Fs.Tmpfs.{copy_out, copy_in, read, tail_of, realloc, extend, write}
use fish_os.Fs.Tmpfs.Storage.{IsContent}
use fish_os.Fs.Tmpfs.ReadWrite.{Written, write-Written, read-overflow, read-write}

abbrev letters : NodeData
letters = record { storage = 97 ∷ 98 ∷ 99 ∷ 100 ∷ []; size = 4 }

-- what the heap has in fresh bytes
abbrev junk : ℕ → ℕ
junk _ = 165

letters-IsContent : IsContent letters
letters-IsContent = record { width = refl; small = omega arith }

evaluate : Unit {0}
unfolding copy_out copy_in read tail_of realloc extend write is_file
evaluate = tt

-- a write behind the end leaves a gap of what the heap had
write_gap :
    write junk file letters (1 ∷ 2 ∷ []) 5
    ≡ some (record { storage = 97 ∷ 98 ∷ 99 ∷ 100 ∷ 165 ∷ 1 ∷ 2 ∷ []; size = 7 })
unfolding evaluate
write_gap = refl

read_directory : read directory letters 2 0 ≡ some (negsuc 0, [])
unfolding evaluate
read_directory = refl

write-Written_example :
    (r : NodeData) × (write junk file letters (1 ∷ 2 ∷ []) 5 ≡ some r)
    × Written junk letters (1 ∷ 2 ∷ []) 5 r
write-Written_example = write-Written junk letters (1 ∷ 2 ∷ []) 5 letters-IsContent (omega arith)

read-overflow_example : read file letters (2 ^ 64 - 1) 3 ≡ none
read-overflow_example =
    read-overflow letters (2 ^ 64 - 1) 3 letters-IsContent (omega arith) (omega arith) (omega arith)

read-write_example :
    (r : NodeData) × (write junk file letters (1 ∷ 2 ∷ []) 5 ≡ some r)
    × (read file r 2 5 ≡ some (pos 2, 1 ∷ 2 ∷ []))
read-write_example = read-write junk letters (1 ∷ 2 ∷ []) 5 letters-IsContent (omega arith)
