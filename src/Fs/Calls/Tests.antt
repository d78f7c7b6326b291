-- ===== src/Fs/Calls/Tests.antt =====
-- src/fs/vfs.cpp: reads and writes of a file of two bytes, through descriptor 3.
use fish_os.Base.{ℕ, ◌≡◌, refl, [], ◌∷◌, none, some, take, arith}
use fish_os.Base.Int.{pos}
use fish_os.Ps2.Keyboard.{init}
use fish_os.Fs.Node.{Node, file, new_node}
use fish_os.Fs.Descriptors.{FileDescriptor}
use fish_os.Fs.Calls.{World, syscall_read, syscall_write}
use fish_os.Fs.Calls.Transfer.{Opens, seek_to, read-seek-write}

abbrev letters : Node
letters = record (new_node none file none (97 ∷ [])) {
  content = record { storage = 97 ∷ 98 ∷ []; size = 2 };
}

abbrev opened : FileDescriptor
opened = record { node = some 0; cursor = 1 }

abbrev w : World
w = record {
  store = letters ∷ [];
  task = record {
    file_descriptors = some opened ∷ some opened ∷ some opened ∷ some opened ∷ [];
    num_file_descriptors = 4;
    first_free_fdnum = 4;
    cwd = 0;
  };
  keyboard = init;
  console = [];
}

-- what the heap has in fresh bytes
abbrev junk : ℕ → ℕ
junk _ = 165

w-Opens : Opens w 3 opened
unfolding new_node
w-Opens = record {
  inside = omega arith;
  used = refl;
  node = 0;
  points = refl;
  stored = omega arith;
  type = refl;
  content = record { width = refl; small = omega arith };
}

-- with a count of 0 the console gets what is in front of the first NUL
write_zero :
    syscall_write junk (pos 1) (104 ∷ 105 ∷ 0 ∷ 7 ∷ []) 0 w
    ≡ some (record w { console = 104 ∷ 105 ∷ [] })
unfolding syscall_write fish_os.Klib.Cstring.Compare.chars
write_zero = refl

read-seek-write_example :
    (w' : World) × (w'' : World) × (syscall_write junk (pos 3) (1 ∷ 2 ∷ 3 ∷ []) 2 w ≡ some w')
    × (syscall_read [] (pos 3) 2 (seek_to 3 1 w') ≡ some (take 2 (1 ∷ 2 ∷ 3 ∷ []), w''))
read-seek-write_example =
    read-seek-write junk w 3 opened (1 ∷ 2 ∷ 3 ∷ []) 2 [] w-Opens (omega arith) (omega arith)
      (omega arith)
