-- ===== src/Fs/Calls/Transfer.antt =====
-- src/fs/vfs.cpp: what a task reads of what it wrote.
use Prim.Native.Nat.{min}
use fish_os.Base.{
  ℕ, zero, suc, ◌+◌, ◌-◌, ◌%◌, ◌^◌, ◌<◌, ◌≤◌, ◌≡◌, refl, sym, ap, ◌∙◌, true, false, List, none,
  some, ◌==◌, ltb, length, set, take, drop, arith, get_or-set_self, length-set, length-take, lt→ltb,
}
use fish_os.Base.Int.{ℤ, pos}
use fish_os.Fs.Node.{Node, Store, NodeData, file, node_at}
use fish_os.Fs.Tmpfs
use fish_os.Fs.Tmpfs.Storage.{IsContent}
use fish_os.Fs.Tmpfs.ReadWrite.{read-write, read_lem}
use fish_os.Fs.Descriptors.{FileDescriptor, Task, slot, descriptor, syscall_seek}
use fish_os.Fs.Calls.{
  World, set_descriptor, advanced, read_node, write_node, syscall_read, syscall_pread,
  syscall_write, syscall_pwrite,
}

-- descriptor `fd` is open on a file of the store
pub record Opens (w : World) (fd : ℕ) (d : FileDescriptor) : Type 0 where
  pub inside : fd < length w.task.file_descriptors
  pub used : slot w.task.file_descriptors fd ≡ some d
  pub node : ℕ
  pub points : d.node ≡ some node
  pub stored : node < length w.store
  pub type : (node_at w.store node).type ≡ file
  pub content : IsContent (node_at w.store node).content

descriptor-open :
    (t : Task) (fd : ℕ) (d : FileDescriptor)
    → fd < length t.file_descriptors
    → slot t.file_descriptors fd ≡ some d
    → descriptor t (pos fd) ≡ some d
unfolding descriptor
descriptor-open t fd d inside used =
    rw (descriptor, lt→ltb fd (length t.file_descriptors) inside) used

module _ (fresh : ℕ → ℕ) (w : World) (d : FileDescriptor) (node : ℕ)
    (points : d.node ≡ some node) where
  abbrev content : NodeData
  content = (node_at w.store node).content

  abbrev written : NodeData → World
  written c = record w { store = set w.store node (record (node_at w.store node) { content = c }) }

  write_node-file :
      (bytes : List ℕ) (offset : ℕ) (c : NodeData)
      → (node_at w.store node).type ≡ file
      → Tmpfs.write fresh file content bytes offset ≡ some c
      → write_node fresh w d bytes offset ≡ some (written c)
  unfolding write_node
  write_node-file bytes offset c type run =
      let run' : Tmpfs.write fresh (node_at w.store node).type content bytes offset ≡ some c =
        ap (λ t. Tmpfs.write fresh t content bytes offset) type ∙ run in
      rw (write_node, points, run') refl

  read_node-written :
      (c : NodeData) (count offset : ℕ) (r : ℤ × List ℕ)
      → node < length w.store
      → (node_at w.store node).type ≡ file
      → Tmpfs.read file c count offset ≡ some r
      → read_node (written c) d count offset ≡ some r
  unfolding read_node
  read_node-written c count offset r stored type run =
      let n : Node = record (node_at w.store node) { content = c } in
      let here : node_at (written c).store node ≡ n = get_or-set_self w.store node n _ stored in
      rw (read_node, points)
        (ap (λ (m : Node). Tmpfs.read m.type m.content count offset) here ∙ rw type run)

-- the first `count` bytes of `buf`, written and read back
prefix-round_trip :
    (fresh : ℕ → ℕ) (c : NodeData) (buf : List ℕ) (count offset : ℕ)
    → IsContent c
    → count ≤ length buf
    → offset + count < 2 ^ 64
    → (r : NodeData) × (Tmpfs.write fresh file c (take count buf) offset ≡ some r)
      × (Tmpfs.read file r count offset ≡ some (pos count, take count buf))
prefix-round_trip fresh c buf count offset ok enough small =
    let size : length (take count buf) ≡ count = omega (arith, length-take count buf) in
    let (r, run, back) =
      read-write fresh c (take count buf) offset ok (omega (arith, size, small)) in
    (
      r,
      run,
      ap (λ k. Tmpfs.read file r k offset) (sym size)
          ∙ back
          ∙ ap (λ k. some (pos k, take count buf)) size,
    )

-- Bytes written at an offset through a descriptor of a file are read back at that offset through the
-- same descriptor, whatever its cursor, if the end of the write does not wrap.
pub pread-pwrite :
    (fresh : ℕ → ℕ) (w : World) (fd : ℕ) (d : FileDescriptor) (buf : List ℕ) (count offset : ℕ)
    → Opens w fd d
    → count ≤ length buf
    → offset + count < 2 ^ 64
    → (w' : World) × (syscall_pwrite fresh (pos fd) buf count offset w ≡ some w')
      × (syscall_pread (pos fd) count offset w' ≡ some (take count buf, w'))
unfolding syscall_pwrite syscall_pread
pread-pwrite fresh w fd d buf count offset o enough small =
    let (c, run, back) =
      prefix-round_trip fresh (content fresh w d o.node o.points) buf count offset o.content enough
        small in
    let opened = descriptor-open w.task fd d o.inside o.used in
    (
      written fresh w d o.node o.points c,
      rw (opened, syscall_pwrite)
          (write_node-file fresh w d o.node o.points (take count buf) offset c o.type run),
      rw
          (
            syscall_pread,
            opened,
            read_node-written fresh w d o.node o.points c count offset (pos count, take count buf)
                o.stored o.type back,
          )
          refl,
    )

-- the world with the cursor of `fd` at `cursor`
abbrev pub seek_to : ℕ → ℕ → World → World
seek_to fd cursor w = record w { task = syscall_seek (pos fd) cursor w.task }

abbrev at_cursor : FileDescriptor → ℕ → FileDescriptor
at_cursor d cursor = record d { cursor = cursor }

module _ (w : World) (fd : ℕ) (d : FileDescriptor) where
  descriptor-set :
      fd < length w.task.file_descriptors
      → descriptor (set_descriptor fd d w).task (pos fd) ≡ some d
  descriptor-set inside =
      descriptor-open (set_descriptor fd d w).task fd d
        (rw (length-set w.task.file_descriptors fd (some d)) inside)
        (get_or-set_self w.task.file_descriptors fd (some d) none inside)

  seek-open :
      (cursor : ℕ)
      → descriptor w.task (pos fd) ≡ some d
      → seek_to fd cursor w ≡ set_descriptor fd (at_cursor d cursor) w
  unfolding syscall_seek
  seek-open cursor opened = rw (syscall_seek, opened) refl

syscall_read-run :
    (w : World) (fd : ℕ) (d : FileDescriptor) (count : ℕ) (schedule : List (List ℕ)) (n : ℤ)
    (bytes : List ℕ)
    → descriptor w.task (pos (suc fd)) ≡ some d
    → read_node w d count d.cursor ≡ some (n, bytes)
    → syscall_read schedule (pos (suc fd)) count w
      ≡ some (bytes, set_descriptor (suc fd) (advanced d count) w)
unfolding syscall_read
syscall_read-run w fd d count schedule n bytes opened run = rw (syscall_read, opened, run) refl

-- the file is read alike in a world with the same store
read_node-store :
    (w w' : World) (d : FileDescriptor) (count offset : ℕ)
    → w'.store ≡ w.store
    → read_node w' d count offset ≡ read_node w d count offset
unfolding read_node
read_node-store w w' d count offset e =
    ap
      (λ (s : Store). elim d.node [
        | none ↦ none
        | some at ↦ Tmpfs.read (node_at s at).type (node_at s at).content count offset
      ])
      e

-- After a write through a descriptor that is open on a file and is not 0 or 1, the keyboard and the terminal,
-- seeking back to where it began and reading as many bytes gives the bytes written, if the buffer has as
-- many bytes as the count and the end of the write is below 2 ^ 64.
pub read-seek-write :
    (fresh : ℕ → ℕ) (w : World) (fd : ℕ) (d : FileDescriptor) (buf : List ℕ) (count : ℕ)
    (schedule : List (List ℕ))
    → Opens w fd d
    → 2 ≤ fd
    → count ≤ length buf
    → d.cursor + count < 2 ^ 64
    → (w' : World) × (w'' : World) × (syscall_write fresh (pos fd) buf count w ≡ some w')
      × (syscall_read schedule (pos fd) count (seek_to fd d.cursor w') ≡ some (take count buf, w''))
unfolding syscall_write
read-seek-write fresh w zero d buf count schedule o two enough small = absurd (omega arith)
read-seek-write fresh w (suc fd) d buf count schedule o two enough small =
    let (c, run, back) =
      prefix-round_trip fresh (content fresh w d o.node o.points) buf count d.cursor o.content
        enough small in
    let opened = descriptor-open w.task (suc fd) d o.inside o.used in
    let inside : ltb (suc fd) (length w.task.file_descriptors) ≡ true =
      lt→ltb (suc fd) (length w.task.file_descriptors) o.inside in
    let not_stdout : (suc fd == 1) ≡ false = ground (arith, two) in
    let w1 = written fresh w d o.node o.points c in
    let w2 = set_descriptor (suc fd) (advanced d count) w1 in
    let w3 = set_descriptor (suc fd) d w2 in
    let moved : suc fd < length w2.task.file_descriptors =
      omega
        (arith, o.inside, length-set w.task.file_descriptors (suc fd) (some (advanced d count))) in
    let back' =
      read_node-store w1 w3 d count d.cursor refl
      ∙ read_node-written fresh w d o.node o.points c count d.cursor (pos count, take count buf)
          o.stored o.type back in
    (
      w2,
      set_descriptor (suc fd) (advanced d count) w3,
      rw
          (
            inside,
            not_stdout,
            syscall_write,
            opened,
            write_node-file fresh w d o.node o.points (take count buf) d.cursor c o.type run,
          )
          refl,
      ap (λ x. syscall_read schedule (pos (suc fd)) count x)
            (seek-open w2 (suc fd) (advanced d count) d.cursor
              (descriptor-set w1 (suc fd) (advanced d count) o.inside))
          ∙ syscall_read-run w3 fd d count schedule (pos count) (take count buf)
              (descriptor-set w2 (suc fd) d moved) back',
    )

-- A read through a descriptor of a file gives the bytes from the cursor on, as many as there are up to
-- the count, but moves the cursor by the count.
pub syscall_read-cursor :
    (w : World) (fd : ℕ) (d : FileDescriptor) (count : ℕ) (schedule : List (List ℕ))
    → (o : Opens w (suc fd) d) → d.cursor + count < 2 ^ 64
    → let c = (node_at w.store o.node).content in
      syscall_read schedule (pos (suc fd)) count w
      ≡ some (
        take (min count (c.size - d.cursor)) (drop d.cursor c.storage),
        set_descriptor (suc fd) (record d { cursor = d.cursor + count }) w,
      )
unfolding read_node
syscall_read-cursor w fd d count schedule o small =
    let c = (node_at w.store o.node).content in
    let n = min count (c.size - d.cursor) in
    let opened = descriptor-open w.task (suc fd) d o.inside o.used in
    let run = read_lem c count d.cursor o.content small in
    let no_wrap : (d.cursor + count) % 2 ^ 64 ≡ d.cursor + count = omega arith in
    syscall_read-run w fd d count schedule (pos n) (take n (drop d.cursor c.storage)) opened
      (rw (read_node, o.points) (ap (λ t. Tmpfs.read t c count d.cursor) o.type ∙ run))
    ∙ ap
        (λ k.
          some
            (take n (drop d.cursor c.storage), set_descriptor (suc fd) (record d { cursor = k }) w))
        no_wrap
