-- ===== src/User/Elf/Tests.antt =====
-- A file with a header and one segment of two pages; the theorem at its program header.
use fish_os.Base.{
  ℕ, ◌≡◌, inr, refl, List, [], ◌∷◌, ◌++◌, Option, none, some, Result, ok, panic, replicate, map,
  arith,
}
use fish_os.Fs.Node.{NodeData, file, is_file}
use fish_os.Fs.Tmpfs.{read, copy_out}
use fish_os.Mem.Vmm.{align_up}
use fish_os.Acpi.{has_text, u64}
use fish_os.Acpi.Madt.{u16, u32}
use fish_os.User.Elf.{
  ProgramHeader, Page, Image, read_struct, to_header, to_program_header, page_flags, misalign,
  page_count, page_copy, segment_page, load_pages, load_segment, load_headers, is_supported_header,
  load,
}
use fish_os.User.Elf.Segments.{IsPlain, Loaded, load_segment-Loaded}

abbrev elf_header : List ℕ
elf_header =
    0x7f
    ∷ b'E'
    ∷ b'L'
    ∷ b'F'
    ∷ 2
    ∷ 1
    ∷ 1
    ∷ 0
    ∷ (replicate 8 0
        ++ 2
          ∷ 0
          ∷ 62
          ∷ 0
          ∷ 1
          ∷ 0
          ∷ 0
          ∷ 0
          ∷ 4
          ∷ 0x10
          ∷ 0x40
          ∷ 0
          ∷ (replicate 4 0
              ++ 64 ∷ (replicate 7 0 ++ (replicate 14 0 ++ 56 ∷ 0 ∷ 1 ∷ 0 ∷ replicate 6 0))))

-- loaded at 0x401000, readable and executable, with 0x1001 bytes at 0x1000 in the file
abbrev segment_header : List ℕ
segment_header =
    1
    ∷ 0
    ∷ 0
    ∷ 0
    ∷ 5
    ∷ 0
    ∷ 0
    ∷ 0
    ∷ 0
    ∷ 0x10
    ∷ (replicate 6 0
        ++ 0
          ∷ 0x10
          ∷ 0x40
          ∷ (replicate 5 0
              ++ (replicate 8 0 ++ 1 ∷ 0x10 ∷ (replicate 6 0 ++ 0 ∷ 0x18 ∷ replicate 14 0))))

abbrev content : NodeData
content = record { storage = elf_header ++ segment_header; size = 120 }

summary : Option (Result (ℕ × Image)) → List ℕ
summary none = []
summary (some panic) = []
summary (some (ok (entry, image))) =
    entry ∷ image.first_free ∷ map (λ (p : Page). p.virt) image.pages

load_test : summary (load file content) ≡ 0x401004 ∷ 0x403000 ∷ 0x401000 ∷ 0x402000 ∷ []
unfolding summary load read_struct read copy_out is_file to_header to_program_header
    is_supported_header has_text u16 u32 u64 load_headers load_segment load_pages segment_page
    page_flags page_count page_copy misalign align_up
load_test = refl

bad_magic_test : load file (record { storage = replicate 64 0; size = 64 }) ≡ some panic
unfolding load read_struct read copy_out is_file to_header is_supported_header has_text u16 u32 u64
bad_magic_test = refl

abbrev text : ProgramHeader
text = record {
  type = 1;
  flags = 5;
  offset = 0x1000;
  virt_addr = 0x401000;
  file_size = 0x1001;
  mem_size = 0x1800;
}

text-IsPlain : IsPlain text
text-IsPlain = record {
  aligned = refl;
  in_file = inr (inr (omega arith, omega arith));
  fits = omega arith;
  small = omega arith;
  small_file = omega arith;
}

abbrev start : Image
start = record { pages = []; first_free = 0 }

load_segment-Loaded_example : Loaded text start (load_segment text start)
load_segment-Loaded_example = load_segment-Loaded text start refl text-IsPlain refl
