-- ===== src/User/Elf.antt =====
-- src/userland/elf.cpp: the loading of a program.
-- A struct that is read is a memory from address 0 on, with zeros where the file ends. Of each page there
-- is where it is mapped and the writes to it, the oldest first; its allocation and its mapping, which may
-- panic, are left to src/mem. `none` is a read that leaves the storage of the file.
pub mod Segments
mod Tests
use Prim.Native.Nat.{bit_or}
use fish_os.Base.{
  ℕ, zero, suc, ◌+◌, ◌-◌, ◌*◌, ◌/◌, ◌%◌, ◌^◌, Bool, true, false, not, ◌&&◌, ◌||◌, List, [], ◌∷◌,
  ◌++◌, Option, none, some, Result, ok, panic, ◌==◌, ltb, leb, if◌then◌else◌, get_or,
}
use fish_os.Klib.Memory.{Memory}
use fish_os.Acpi.{has_text, u64}
use fish_os.Acpi.Madt.{u16, u32}
use fish_os.Mem.Vmm.{align_up}
use fish_os.Fs.Node.{NodeType, NodeData}
use fish_os.Fs.Tmpfs.{read}

-- what is read of `Header`
pub record Header : Type 0 where
  pub identifier : Memory
  pub arch : ℕ
  pub entry_addr : ℕ
  pub ph_table_offset : ℕ
  pub ph_entry_size : ℕ
  pub ph_count : ℕ

-- what is read of `ProgramHeader`
pub record ProgramHeader : Type 0 where
  pub type : ℕ
  pub flags : ℕ
  pub offset : ℕ
  pub virt_addr : ℕ
  pub file_size : ℕ
  pub mem_size : ℕ

unfoldable pub read_struct : NodeType → NodeData → ℕ → ℕ → Option Memory
read_struct type content size offset = elim (read type content size offset) [
  | none ↦ none
  | some (count, bytes) ↦ some (λ i. get_or bytes i 0)
]

unfoldable pub to_header : Memory → Header
to_header m = record {
  identifier = m;
  arch = u16 m 0 18;
  entry_addr = u64 m 0 24;
  ph_table_offset = u64 m 0 32;
  ph_entry_size = u16 m 0 54;
  ph_count = u16 m 0 56;
}

unfoldable pub to_program_header : Memory → ProgramHeader
to_program_header m = record {
  type = u32 m 0 0;
  flags = u32 m 0 4;
  offset = u64 m 0 8;
  virt_addr = u64 m 0 16;
  file_size = u64 m 0 32;
  mem_size = u64 m 0 40;
}

-- `size` bytes from `offset` of the file, to the place `dst` of a page
pub record PageCopy : Type 0 where
  pub dst : ℕ
  pub offset : ℕ
  pub size : ℕ

-- a write to a page: `memset` with 0 of some bytes from a place on, or a read of the file
pub data PageWrite : Type 0 where
  zeros : ℕ → ℕ → PageWrite
  copied : PageCopy → PageWrite

pub record Page : Type 0 where
  pub virt : ℕ
  pub page_flags : ℕ
  pub writes : List PageWrite

-- `PAGE_PRESENT | PAGE_USER`, `PAGE_WRITABLE` and `PAGE_NO_EXECUTE`
unfoldable pub page_flags : ℕ → ℕ
page_flags flags =
    let writable = if flags / 2 % 2 == 1 then bit_or 5 2 else 5 in
    if flags % 2 == 1 then writable else bit_or writable (2 ^ 63)

unfoldable pub misalign : ProgramHeader → ℕ
misalign ph = ph.virt_addr % 0x1000

unfoldable pub page_count : ProgramHeader → ℕ → ℕ
page_count ph size = (size + misalign ph + 0x1000 - 1) % 2 ^ 64 / 0x1000

-- the read into page `i`, of those that the file reaches
unfoldable pub page_copy : ProgramHeader → ℕ → PageCopy
page_copy ph i =
    let offset = ph.offset + i * 0x1000 in
    if i == 0
    then record {
      dst = misalign ph;
      offset = (offset + misalign ph) % 2 ^ 64;
      size = 0x1000 - misalign ph;
    }
    else if i + 1 == page_count ph ph.file_size
    then record {
      dst = 0;
      offset = offset % 2 ^ 64;
      size = (ph.file_size + misalign ph) % 2 ^ 64 % 0x1000;
    }
    else record { dst = 0; offset = offset % 2 ^ 64; size = 0x1000 }

unfoldable pub segment_page : ProgramHeader → ℕ → Page
segment_page ph i = record {
  virt = (ph.virt_addr + i * 0x1000) % 2 ^ 64;
  page_flags = page_flags ph.flags;
  writes =
      zeros 0 0x1000
      ∷ (if ltb i (page_count ph ph.file_size) then copied (page_copy ph i) ∷ [] else []);
}

-- the pages so far, and `*first_free_virt`
pub record Image : Type 0 where
  pub pages : List Page
  pub first_free : ℕ

-- the loop over the pages, from page `i` on
unfoldable pub load_pages : ℕ → ℕ → ProgramHeader → Image → Image
load_pages zero i ph image = image
load_pages (suc rounds) i ph image =
    let page = segment_page ph i in
    load_pages rounds (i + 1) ph (record {
      pages = image.pages ++ page ∷ [];
      first_free =
          if leb image.first_free page.virt
          then (page.virt + 0x1000) % 2 ^ 64
          else image.first_free;
    })

-- type 1 is a segment to load; others get a message
unfoldable pub load_segment : ProgramHeader → Image → Image
load_segment ph image =
    if ph.type == 1 then load_pages (page_count ph ph.mem_size) 0 ph image else image

-- the loop over the program headers, from header `i` on
unfoldable pub load_headers : ℕ → ℕ → NodeType → NodeData → Header → Image → Option Image
load_headers zero i type content header image = some image
load_headers (suc rounds) i type content header image =
    elim (read_struct type content 56
      ((header.ph_table_offset + i * header.ph_entry_size) % 2 ^ 64)) [
        | none ↦ none
        | some m ↦
            load_headers rounds (i + 1) type content header
              (load_segment (to_program_header m) image)
      ]

-- the checks of the magic number, and of the class, the order of bytes, the ABI and the architecture
unfoldable pub is_supported_header : Header → Bool
is_supported_header h =
    has_text (0x7f ∷ b'E' ∷ b'L' ∷ b'F' ∷ []) 0 h.identifier
    && not (
        not (h.identifier 4 == 2)
        || not (h.identifier 5 == 1)
        || not (h.identifier 7 == 0)
        || not (h.arch == 62))

-- the entry and the image with its first free address
unfoldable pub load : NodeType → NodeData → Option (Result (ℕ × Image))
load type content = elim (read_struct type content 64 0) [
  | none ↦ none
  | some m ↦
      let header = to_header m in
      let image : Image = record { pages = []; first_free = 0 } in
      if not (is_supported_header header)
      then some panic
      else elim (load_headers header.ph_count 0 type content header image) [
        | none ↦ none
        | some image' ↦
            some (ok (header.entry_addr, record image' { first_free = align_up image'.first_free }))
      ]
]
