-- ===== src/User/Elf/Segments.antt =====
-- src/userland/elf.cpp: what the pages of a segment hold.
use Prim.Native.Nat.{max}
use fish_os.Base.{
  ℕ, zero, suc, ◌+◌, ◌-◌, ◌*◌, ◌/◌, ◌%◌, ◌^◌, ◌≤◌, ◌<◌, ◌≡◌, ◌⊎◌, inl, inr, refl, sym, ap, subst,
  ◌∙◌, true, ◌&&◌, List, [], ◌∷◌, ◌++◌, ◌==◌, ltb, leb, if◌then◌else◌, append_assoc, append_nil,
  length, get_or, arith,
}
use fish_os.User.Elf.{
  ProgramHeader, PageWrite, zeros, copied, Page, Image, misalign, page_count, page_copy,
  segment_page, load_pages, load_segment,
}

-- what a byte of a page holds: what was there before, a zero, or the byte at an offset of the file, which is
-- a zero behind the end of the file
pub data PageByte : Type 0 where
  unknown : PageByte
  zeroed : PageByte
  from_file : ℕ → PageByte

unfoldable pub write_byte : PageWrite → ℕ → PageByte → PageByte
write_byte (zeros dst size) k b = if leb dst k && ltb k (dst + size) then zeroed else b
write_byte (copied c) k b =
    if leb c.dst k && ltb k (c.dst + c.size) then from_file (c.offset + (k - c.dst)) else b

unfoldable pub write_bytes : List PageWrite → ℕ → PageByte → PageByte
write_bytes [] k b = b
write_bytes (w ∷ ws) k b = write_bytes ws k (write_byte w k b)

-- byte `k` of a page after the writes
unfoldable pub page_byte : Page → ℕ → PageByte
page_byte page k = write_bytes page.writes k unknown

-- a segment that begins at a page, with a part in the file that is empty or one page, or ends inside a page
-- behind the first, and addresses and offsets that fit 64 bits
pub record IsPlain (ph : ProgramHeader) : Type 0 where
  pub aligned : ph.virt_addr % 0x1000 ≡ 0
  pub in_file :
      (ph.file_size ≡ 0)
      ⊎ ((ph.file_size ≡ 0x1000) ⊎ ((0x1000 < ph.file_size) × (0 < ph.file_size % 0x1000)))
  pub fits : ph.file_size ≤ ph.mem_size
  pub small : ph.virt_addr + ph.mem_size + 0x1000 < 2 ^ 64
  pub small_file : ph.offset + ph.file_size + 0x1000 < 2 ^ 64

-- byte `n` of the segment is byte `n` of its part in the file, or behind that a zero
segment_page-byte :
    (ph : ProgramHeader) (i k : ℕ)
    → IsPlain ph
    → k < 0x1000
    → page_byte (segment_page ph i) k ≡ (
        if ltb (i * 0x1000 + k) ph.file_size
        then from_file (ph.offset + (i * 0x1000 + k))
        else zeroed)
unfolding page_byte write_bytes write_byte segment_page page_copy page_count misalign
segment_page-byte ph i k plain h =
    let aligned = plain.aligned in
    let fits = plain.fits in
    let small = plain.small in
    let small_file = plain.small_file in
    elim plain.in_file [
      | inl none_there ↦ ground arith
      | inr there ↦ elim there [ inl one ↦ ground arith | inr more ↦ ground arith ]
    ]

abbrev pub no_page : Page
no_page = record { virt = 0; page_flags = 0; writes = [] }

-- `n` pages from page `i` on
unfoldable pub pages_from : ℕ → ℕ → ProgramHeader → List Page
pages_from zero i ph = []
pages_from (suc n) i ph = segment_page ph i ∷ pages_from n (i + 1) ph

length-pages_from : (n i : ℕ) (ph : ProgramHeader) → length (pages_from n i ph) ≡ n
unfolding pages_from
length-pages_from zero i ph = refl
length-pages_from (suc n) i ph = ap suc (length-pages_from n (i + 1) ph)

get_or-pages_from :
    (n i j : ℕ) (ph : ProgramHeader)
    → j < n
    → get_or (pages_from n i ph) j no_page ≡ segment_page ph (i + j)
unfolding pages_from
get_or-pages_from zero i j ph h = absurd (omega arith)
get_or-pages_from (suc n) i zero ph h = ap (segment_page ph) (omega arith)
get_or-pages_from (suc n) i (suc j) ph h =
    get_or-pages_from n (i + 1) j ph (omega arith) ∙ ap (segment_page ph) (omega arith)

pages-load_pages :
    (n i : ℕ) (ph : ProgramHeader) (image : Image)
    → (load_pages n i ph image).pages ≡ image.pages ++ pages_from n i ph
unfolding load_pages pages_from
pages-load_pages zero i ph image = sym (append_nil image.pages)
pages-load_pages (suc n) i ph image =
    pages-load_pages n (i + 1) ph _
    ∙ append_assoc image.pages (segment_page ph i ∷ []) (pages_from n (i + 1) ph)

-- the first free address behind `n` pages from page `i` on
abbrev pub free_after : ℕ → ℕ → ProgramHeader → ℕ → ℕ
free_after n i ph first = if n == 0 then first else max first (ph.virt_addr + (i + n) * 0x1000)

first_free-load_pages :
    (n i : ℕ) (ph : ProgramHeader) (image : Image)
    → ph.virt_addr % 0x1000 ≡ 0
    → image.first_free % 0x1000 ≡ 0
    → ph.virt_addr + (i + n) * 0x1000 < 2 ^ 64
    → (load_pages n i ph image).first_free ≡ free_after n i ph image.first_free
unfolding load_pages segment_page
first_free-load_pages zero i ph image aligned first small = refl
first_free-load_pages (suc n) i ph image aligned first small =
    let virt = (ph.virt_addr + i * 0x1000) % 2 ^ 64 in
    let here : virt ≡ ph.virt_addr + i * 0x1000 = omega (arith, small) in
    let moved : ℕ =
      if leb image.first_free virt then (virt + 0x1000) % 2 ^ 64 else image.first_free in
    let moved_at : moved ≡ max image.first_free (ph.virt_addr + (i + 1) * 0x1000) =
      ground (arith, here, small, aligned, first) in
    let round : moved % 0x1000 ≡ 0 = ground (arith, moved_at, aligned, first) in
    first_free-load_pages n (i + 1) ph
      (record { pages = image.pages ++ segment_page ph i ∷ []; first_free = moved }) aligned round
      (omega arith)
    ∙ ground (arith, moved_at)

-- the pages of a segment: they follow one another from its address on and reach over its memory, each byte
-- is the one of the file or a zero, and the first free address is not below their end
pub record Loaded (ph : ProgramHeader) (image image' : Image) : Type 0 where
  pub added : List Page
  pub appended : image'.pages ≡ image.pages ++ added
  pub number : length added ≡ (ph.mem_size + 0xfff) / 0x1000
  pub virt : (i : ℕ) → i < length added → (get_or added i no_page).virt ≡ ph.virt_addr + i * 0x1000
  pub bytes :
      (i k : ℕ)
      → i < length added
      → k < 0x1000
      → page_byte (get_or added i no_page) k ≡ (
          if ltb (i * 0x1000 + k) ph.file_size
          then from_file (ph.offset + (i * 0x1000 + k))
          else zeroed)
  pub first_free : image'.first_free ≡ free_after (length added) 0 ph image.first_free

count-plain :
    (ph : ProgramHeader) → IsPlain ph → page_count ph ph.mem_size ≡ (ph.mem_size + 0xfff) / 0x1000
unfolding page_count misalign
count-plain ph plain = omega (arith, plain.aligned, plain.small)

virt-segment_page :
    (ph : ProgramHeader) (i : ℕ)
    → IsPlain ph
    → i < (ph.mem_size + 0xfff) / 0x1000
    → (segment_page ph i).virt ≡ ph.virt_addr + i * 0x1000
unfolding segment_page
virt-segment_page ph i plain h = omega (arith, plain.small)

-- A segment to load that begins at a page, with a part in the file that is empty or one page or ends inside
-- a page behind the first and is not longer than that in memory, and with addresses and offsets that fit 64
-- bits, gets as many pages as its memory needs, one behind another from its address on.
-- Each byte of them is the byte of the file for its place, and behind the part in the file a zero. A first
-- free address that is the beginning of a page becomes the end of the pages, if it was not above that.
pub load_segment-Loaded :
    (ph : ProgramHeader) (image : Image)
    → ph.type ≡ 1
    → IsPlain ph
    → image.first_free % 0x1000 ≡ 0
    → Loaded ph image (load_segment ph image)
unfolding load_segment
load_segment-Loaded ph image loads plain first =
    let n : ℕ = (ph.mem_size + 0xfff) / 0x1000 in
    let size = length-pages_from n 0 ph in
    let test : (ph.type == 1) ≡ true = ground (arith, loads) in
    let run : load_segment ph image ≡ load_pages n 0 ph image =
      rw (load_segment, test) (ap (λ c. load_pages c 0 ph image) (count-plain ph plain)) in
    subst (Loaded ph image) (sym run) (record {
      added = pages_from n 0 ph;
      appended = pages-load_pages n 0 ph image;
      number = size;
      virt = λ i h.
          ap (λ (p : Page). p.virt) (get_or-pages_from n 0 i ph (omega (arith, size)))
          ∙ ap (λ j. (segment_page ph j).virt) (omega arith)
          ∙ virt-segment_page ph i plain (omega (arith, size));
      bytes = λ i k h lt.
          ap (λ p. page_byte p k) (get_or-pages_from n 0 i ph (omega (arith, size)))
          ∙ ap (λ j. page_byte (segment_page ph j) k) (omega arith)
          ∙ segment_page-byte ph i k plain lt;
      first_free =
          first_free-load_pages n 0 ph image plain.aligned first (omega (arith, plain.small))
          ∙ ap (λ j. free_after j 0 ph image.first_free) (sym size);
    })
