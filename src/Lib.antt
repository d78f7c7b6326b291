-- ===== src/Lib.antt =====
-- The FishOS kernel (https://github.com/Tunacan427/FishOS): a model of parts of its C++ sources
-- with the theorems that make them correct. Paths below are those of the repository; a C++
-- function keeps its name.
--
-- The kernel boots under Limine, takes its memory map into the physical page allocator
-- (src/mem/pmm.cpp, over the bit array of src/klib/bitmap.hpp), maps memory through page tables
-- (src/mem/vmm.cpp), gives a heap to `new` and `delete` (src/mem/allocator.cpp), keeps files in a
-- tree of directories whose children are hash tables (src/klib/hashmap.hpp, src/fs), runs tasks
-- from a circular list (src/sched) and serves their system calls; interrupts reach their handlers
-- through a table of vectors and the routes that the firmware's tables describe (src/cpu,
-- src/acpi); the keyboard interrupt fills a ring buffer, and the console draws characters
-- (src/ps2, src/gfx).
--
-- Files:
--
-- - Base.antt: names of the libraries passed on; Base/Tests, Base/Lists, Base/Int and
--   Base/Outcome hold Boolean tests, arrays as lists, signed integers and `Result`.
-- - Klib/Bitmap.antt: src/klib/bitmap.hpp (`get`, `set` as `set_bit`, `fill`); laws in
--   Klib/Bitmap/Bits and Klib/Bitmap/Fill.
-- - Klib/Cstring.antt: src/klib/cstring.cpp (`strlen`, `strcmp`, `strncmp`, `strchr`); laws in
--   Klib/Cstring/Compare.
-- - Klib/HashMap.antt: src/klib/hashmap.hpp (`hash`, `get`, `insert`, `grow`, `erase`, `for_each`
--   as `entries`); Slots counts keys, Probe is about the probe sequence, Place, Grow, Insert and
--   Erase about the operations, Map states what a user of the table may rely on.
-- - Mem/Pmm.antt: src/mem/pmm.cpp (`inner_alloc`, `alloc_pages`, `free_pages`,
--   `get_total_allocated`); Range, Search, Alloc and Free hold the proofs.
-- - Fs/Node.antt: src/fs/vfs.hpp (the nodes, in a store of nodes).
-- - Fs/Tmpfs.antt: src/fs/tmpfs.cpp (`read`, `write`); laws in Fs/Tmpfs/Storage and
--   Fs/Tmpfs/ReadWrite.
-- - Ps2/Keyboard.antt: src/ps2/kbd/keyboard.cpp (`map`, `irq`, `init`, `read`); Window and Queue
--   view the ring as a queue, Read is about the reader.
-- - Gfx/Terminal.antt: src/gfx/terminal.cpp (the constructor as `new_terminal`, `set_char_at`,
--   `scroll`, `redraw_cursor`, `write_char`); Grid, Scroll and Write hold the proofs.
-- - Fs/Path.antt: src/fs/vfs.cpp (`reduce_node`, `path_to_node`); Components says how a path is
--   cut, Resolve what it means, Ends that the walk returns.
-- - Fs/Descriptors.antt: src/sched/sched.cpp (`allocate_fdnum`) and src/fs/vfs.cpp
--   (`openat_inner`, `syscall_close`, `syscall_seek`); Slots, Table and Open hold the proofs.
-- - Fs/Create.antt: src/fs/tmpfs.cpp (`create`) and src/fs/vfs.cpp (`create_dotentries`); Added
--   is about appended nodes, File, Directory and Tree about what is found in the tree afterwards.
-- - Fs/Calls.antt: src/fs/vfs.cpp (`syscall_open`, `syscall_openat`, `syscall_read`,
--   `syscall_pread`, `syscall_write`, `syscall_pwrite`); Transfer is about what is read of what
--   was written.
-- - Fs/Cwd.antt: src/fs/vfs.cpp (`syscall_getcwd`, `syscall_chdir`); Text and Change hold the
--   proofs.
-- - Klib/Printf.antt: src/klib/cstdio.cpp (`num_digits` and the printing of numbers in `vprintf`;
--   its formats in Klib/Printf/Format); Digits and Number hold the proofs on numbers, Pieces says
--   what a format means, Directives and Output that it is printed.
-- - Mem/Vmm.antt: src/mem/vmm.cpp (`addr_to_range`, `syscall_mmap`) and `align_up` of
--   src/klib/algorithm.hpp; Ranges holds the proofs.
-- - Klib/List.antt: src/klib/list.hpp (`init`, `add`, `add_before`, `remove`, `empty`); Ring says
--   what a list is, Change what the stores do, Entries and Removal what they do to the list.
-- - Cpu.antt: src/cpu/cpu.hpp (`InterruptState`) and src/cpu/gdt/gdt.hpp (`GDTSegment`).
-- - Sched.antt: src/sched/sched.cpp (`new_kernel_task`, `dequeue_and_die`, `scheduler_isr`);
--   Rotation is about the task that is picked, Turns about a round, Create about tasks that join
--   and leave.
-- - Mem/Vmm/Pages.antt: src/mem/vmm.cpp (`page_table_next_level`, `map_page`, `map_pages`,
--   `map_kernel`, `physical_addr`, `handle_page_fault`); Enough is about allocating single pages,
--   Tree about what the tables are, Step about one step down them, Walk about the way to the last
--   table, Mapped and Fault about mapped pages. The bits are in Base/Bits.antt.
-- - Mem/Allocator.antt: src/mem/allocator.hpp and src/mem/allocator.cpp (`size_required`,
--   `split_until`, `init`; `find_best` in Mem/Allocator/Search, `coalescence` in
--   Mem/Allocator/Coalesce, `malloc`, `realloc` and `free` in Mem/Allocator/Malloc); Sizes, Split
--   and First hold the proofs.
-- - Klib/Memory.antt: userspace/test/src/string.cpp (`memcmp`, `memcpy`, `memmove`, `memset`) and
--   src/klib/cstring.cpp (`strcpy`, `strcat`, `strdup`), on a memory of bytes; Move and Strings
--   hold the proofs.
-- - User/Print.antt: userspace/test/src/print.cpp (`flush_print_buffer`, `putchar`, `puts`,
--   `vprintf`); Order holds the proofs.
-- - Cpu/Idt.antt: src/cpu/interrupts/idt.cpp (`allocate_vector`, `load_idt_entry`,
--   `load_idt_handler`, `load_idt`; `exception_handler`, `page_fault_handler` and
--   `__idt_handler_common` in Cpu/Idt/Faults, as `handle_exception`, `handle_fault` and
--   `idt_handler_common`); Vectors, Load and Contained hold the proofs.
-- - Cpu/Apic.antt: src/cpu/interrupts/apic.cpp and src/cpu/interrupts/interrupts.cpp
--   (`set_redir_entry`, `set_vector`, `override_irq_source`, `register_gsi`, `register_irq`);
--   Route holds the proofs.
-- - Cpu/Gdt.antt: src/cpu/gdt/gdt.cpp (`load_gdt`, `load_tss`); Segments says what the processor
--   reads.
-- - Cpu/Pic.antt: src/cpu/interrupts/pic.cpp; Masks is about the bits of the lines.
-- - Mem/Pmm/Init.antt: src/mem/pmm.cpp (`init`); Bits says what each bit reads as, Ready what the
--   allocator may rely on.
-- - Acpi.antt: src/acpi/tables.cpp (`do_checksum`, `parse_rsdp`, `parse_sdt`; `parse_madt` in
--   Acpi/Madt); Checksum, Lapic and Entries hold the proofs.
-- - User/Elf.antt: src/userland/elf.cpp (`load`); Segments is about the pages of a segment.
-- - Klib/Lock.antt: src/klib/lock.hpp (`Spinlock`, `LockGuard`) as a step relation; Exclusion
--   holds the proofs.
-- - Gfx/Framebuffer.antt: src/gfx/framebuffer.cpp (`put_pixel`, `fill_rect`, `draw_psf_char`);
--   Inside is about the bytes behind the screen.
--
-- State is passed explicitly: an operation takes the component's record and returns the new one.
-- `panic` ends the kernel and is an outcome of its own (Base/Outcome.antt). Locks, interrupt
-- masking and printing do not change the modelled state and are left out where a comment says so.
-- Words of 32 and 64 bits are natural numbers with `% 2 ^ w` written where the code can wrap.
--
-- Loops over a counter that moves in every round recur on the rounds that are left. The loop of
-- `free_pages` has 2 ^ 64 rounds of fuel, which its counter of 64 bits cannot exceed. `insert`
-- and `grow` of the hash table call one another with a fuel of two levels, since the calls that
-- `grow` makes do not grow the table again. The loop of `path_to_node` has a round for each byte
-- of the path and one more, each round consuming a byte or ending it; `reduce_node`, and the walk
-- of `getcwd` to the root, have one for each node and one more. `num_digits` has as many rounds
-- as the number says, a quotient being smaller than its dividend. The loop of `size_required`
-- doubles at most 60 times for a size up to 2 ^ 63; `split_until` halves at most 64 times; the
-- search of `find_best` has a round for each address of the heap, each round moving its block up.
-- The loops of `vprintf` have a round for each character of the format; its inner loop does not
-- end on an unknown conversion. `allocate_vector` has 256 rounds, as its counter of 8 bits; the
-- loops over a table of interrupt controllers have a round for each byte of it, and do not end on
-- an entry of size 0. The counters of `fill_rect` have 16 bits, and 65536 rounds are enough for
-- ends that fit them. The waiting loop of the keyboard's `read` is bounded by the schedule of
-- interrupts that it is given.
--
-- Not modelled: assembly and inline assembly, the boot protocol's structures (src/limine.hpp) and
-- the hardware registers, which are no logic of the kernel's own; nor the set-up of the kernel's
-- page map, the initramfs loader, the timers and the creation of user tasks.
pub mod Base
pub mod Klib
pub mod Mem
pub mod Fs
pub mod Sched
pub mod Ps2
pub mod Gfx
pub mod Cpu
pub mod Acpi
pub mod User
