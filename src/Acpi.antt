-- ===== src/Acpi.antt =====
-- src/acpi/tables.cpp: the tables of the firmware, in a memory of bytes.
-- An address of a table is one that the kernel reads, its physical address plus `hhdm`. What devices read
-- is an argument; pages to map and the HPET that is found are listed, and messages are left out.
pub mod Madt
mod Lapic
pub mod Entries
pub mod Checksum
mod Tests
use fish_os.Base.{
  ℕ, zero, suc, ◌+◌, ◌-◌, ◌*◌, ◌/◌, ◌%◌, ◌^◌, Bool, true, false, not, ◌&&◌, ◌||◌, List, [], ◌∷◌,
  ◌++◌, Option, none, some, Result, ok, panic, ◌==◌, ltb, if◌then◌else◌,
}
use fish_os.Klib.Memory.{Memory}
use fish_os.Acpi.Madt.{Platform, Devices, parse_madt, u32}

-- the loop of `do_checksum` from byte `i` on
unfoldable pub sum_bytes : ℕ → ℕ → ℕ → ℕ → Memory → ℕ
sum_bytes zero i sum table m = sum
sum_bytes (suc rounds) i sum table m =
    sum_bytes rounds (i + 1) ((sum + m (table + i)) % 2 ^ 8) table m

unfoldable pub do_checksum : ℕ → ℕ → Memory → Bool
do_checksum table size m = sum_bytes size 0 0 table m == 0

-- the characters stand at the address: `memcmp` with a literal finds no difference
unfoldable pub has_text : List ℕ → ℕ → Memory → Bool
has_text [] a m = true
has_text (c ∷ cs) a m = (m a == c) && has_text cs (a + 1) m

-- `none` is a table of interrupt controllers that is not read to its end
abbrev pub Parsed : Type 0
Parsed = Option (Result Platform)

unfoldable pub parse_sdt : Devices → Memory → ℕ → Platform → Parsed
parse_sdt d m sdt p =
    if not (do_checksum sdt (u32 m sdt 4) m)
    then some panic
    else if has_text (b'A' ∷ b'P' ∷ b'I' ∷ b'C' ∷ []) sdt m
    then parse_madt d m sdt p
    else if has_text (b'H' ∷ b'P' ∷ b'E' ∷ b'T' ∷ []) sdt m
    then some (ok (record p { hpets = p.hpets ++ sdt ∷ [] }))
    else some (ok p)

-- the tables at the addresses `at i`, from `i` on
unfoldable pub parse_tables : ℕ → ℕ → (ℕ → ℕ) → Devices → Memory → Platform → Parsed
parse_tables zero i at d m p = some (ok p)
parse_tables (suc rounds) i at d m p = elim (parse_sdt d m (at i) p) [
  | none ↦ none
  | some r ↦ elim r [ panic ↦ some panic | ok p' ↦ parse_tables rounds (i + 1) at d m p' ]
]

unfoldable pub u64 : Memory → ℕ → ℕ → ℕ
u64 m a off = u32 m a off + u32 m a (off + 4) * 2 ^ 32

-- `(table->size - sizeof(SDT)) / width`
unfoldable pub table_count : ℕ → ℕ → ℕ
table_count size width = (size + 2 ^ 64 - 36) % 2 ^ 64 / width

-- the table of addresses of 32 bits
unfoldable pub parse_rsdt : Devices → Memory → ℕ → ℕ → Platform → Parsed
parse_rsdt d m hhdm rsdt p =
    let size = u32 m rsdt 4 in
    if not (has_text (b'R' ∷ b'S' ∷ b'D' ∷ b'T' ∷ []) rsdt m)
    then some panic
    else if not (do_checksum rsdt size m)
    then some panic
    else parse_tables (table_count size 4) 0 (λ i. (u32 m rsdt (36 + i * 4) + hhdm) % 2 ^ 64) d m p

-- the table of addresses of 64 bits
unfoldable pub parse_xsdt : Devices → Memory → ℕ → ℕ → Platform → Parsed
parse_xsdt d m hhdm xsdt p =
    let size = u32 m xsdt 4 in
    if not (has_text (b'X' ∷ b'S' ∷ b'D' ∷ b'T' ∷ []) xsdt m)
    then some panic
    else if not (do_checksum xsdt size m)
    then some panic
    else parse_tables (table_count size 8) 0 (λ i. (u64 m xsdt (36 + i * 8) + hhdm) % 2 ^ 64) d m p

unfoldable pub parse_rsdp : Devices → Memory → ℕ → ℕ → Platform → Parsed
parse_rsdp d m hhdm rsdp p =
    let revision = m (rsdp + 15) in
    let size = u32 m rsdp 20 in
    if not (has_text (b'R' ∷ b'S' ∷ b'D' ∷ b' ' ∷ b'P' ∷ b'T' ∷ b'R' ∷ b' ' ∷ []) rsdp m)
    then some panic
    else if not (do_checksum rsdp 20 m)
    then some panic
    else if revision == 0
    then parse_rsdt d m hhdm ((u32 m rsdp 16 + hhdm) % 2 ^ 64) p
    else if revision == 2
    then (if not (do_checksum (rsdp + 20) ((size + 2 ^ 64 - 20) % 2 ^ 64) m)
        then some panic
        else parse_xsdt d m hhdm ((u64 m rsdp 24 + hhdm) % 2 ^ 64) p)
    else some (ok p)
