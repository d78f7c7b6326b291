-- ===== src/Acpi/Entries.antt =====
-- src/acpi/tables.cpp, `parse_madt`: what the loops read from a table that is well formed.
use fish_os.Base.{
  ℕ, zero, suc, ◌+◌, ◌/◌, ◌%◌, ◌^◌, ◌<◌, ◌≡◌, ◌≢◌, refl, true, ◌||◌, List, [], ◌∷◌, ◌++◌, none,
  ◌==◌, ltb, lt→ltb, if◌then◌else◌, length, get_or, set, arith,
}
use fish_os.Klib.Memory.{Memory}
use fish_os.Acpi.Lapic.{pin_writes}
use fish_os.Acpi.Madt.{Platform, Devices, madt_entry, madt_loop, find_bsp}

-- the entries of a table, and one of any other type with its bytes
pub data Entry : Type 0 where
  local : ℕ → ℕ → ℕ → Entry
  io : ℕ → ℕ → ℕ → Entry
  override : ℕ → ℕ → ℕ → Entry
  nmi : ℕ → ℕ → ℕ → Entry
  other : ℕ → List ℕ → Entry

abbrev pub word16 : ℕ → List ℕ
word16 n = (n % 256) ∷ (n / 256 % 256) ∷ []

abbrev pub word32 : ℕ → List ℕ
word32 n = (n % 256) ∷ (n / 256 % 256) ∷ (n / 2 ^ 16 % 256) ∷ (n / 2 ^ 24 % 256) ∷ []

-- the bytes of an entry: its type, its size and its fields
abbrev pub encode : Entry → List ℕ
encode (local processor id flags) = 0 ∷ 8 ∷ processor ∷ id ∷ word32 flags
encode (io id address gsi) = 1 ∷ 12 ∷ id ∷ 0 ∷ (word32 address ++ word32 gsi)
encode (override irq gsi flags) = 2 ∷ 10 ∷ 0 ∷ irq ∷ (word32 gsi ++ word16 flags)
encode (nmi processor flags lint) = 4 ∷ 6 ∷ processor ∷ (word16 flags ++ lint ∷ [])
encode (other type body) = type ∷ (length body + 2) ∷ body

-- the fields fit their widths, and the other types are none of those that are read
abbrev pub IsEntry : Entry → Type 0
IsEntry (local processor id flags) = flags < 2 ^ 32
IsEntry (io id address gsi) = (address < 2 ^ 32) × (gsi < 2 ^ 32)
IsEntry (override irq gsi flags) = (gsi < 2 ^ 32) × (flags < 2 ^ 16)
IsEntry (nmi processor flags lint) = flags < 2 ^ 16
IsEntry (other type body) = (type ≢ 0) × (type ≢ 1) × (type ≢ 2) × (type ≢ 4)

-- the bytes stand at the address
abbrev pub At : Memory → ℕ → List ℕ → Type 0
At m a bytes = (i : ℕ) → i < length bytes → m (a + i) ≡ get_or bytes i 0

-- the entries stand one behind another, up to the end
unfoldable pub Stored : Memory → ℕ → List Entry → ℕ → Type 0
Stored m a [] end = a ≡ end
Stored m a (e ∷ es) end = At m a (encode e) × IsEntry e × Stored m (a + length (encode e)) es end

-- what an entry of the first loop does
unfoldable pub add_entry : Devices → Entry → Platform → Platform
add_entry d (local processor id flags) p =
    if flags % 2 == 1
    then record p { lapics = p.lapics ++ record { id = id; acpi_id = processor } ∷ [] }
    else p
add_entry d (io id address gsi) p = record p {
  mapped_pages = p.mapped_pages ++ address ∷ [];
  interrupts = record p.interrupts {
    ioapics =
        p.interrupts.ioapics
        ++ (record {
          id = id % 2 ^ 8;
          gsi_base = gsi;
          max_entries = d.version address / 2 ^ 16 + 1;
          writes = [];
        })
          ∷ [];
  };
}
add_entry d (override irq gsi flags) p = record p {
  interrupts = record p.interrupts {
    irq_to_gsi = set p.interrupts.irq_to_gsi irq gsi;
    irq_flags = set p.interrupts.irq_flags irq flags;
  };
}
add_entry d (nmi processor flags lint) p = p
add_entry d (other type body) p = p

unfoldable pub add_entries : Devices → List Entry → Platform → Platform
add_entries d [] p = p
add_entries d (e ∷ es) p = add_entries d es (add_entry d e p)

-- what an entry of the second loop does
unfoldable pub add_nmi : Devices → Entry → Platform → Platform
add_nmi d (nmi processor flags lint) p =
    if (processor == 0xff) || (processor == (find_bsp d.lapic_id p.lapics).acpi_id)
    then record p {
      lapic_writes = p.lapic_writes ++ pin_writes (lint == 0) (flags % 4 == 3) (flags / 4 % 4 == 3);
    }
    else p
add_nmi d e p = p

unfoldable pub add_nmis : Devices → List Entry → Platform → Platform
add_nmis d [] p = p
add_nmis d (e ∷ es) p = add_nmis d es (add_nmi d e p)

-- An entry of size 0 before the end of the table keeps the loop for ever.
madt_loop-endless :
    (rounds : ℕ) (d : Devices) (m : Memory) (a end : ℕ) (p : Platform)
    → m (a + 1) ≡ 0
    → a < end
    → madt_loop rounds d m a end p ≡ none
unfolding madt_loop
madt_loop-endless zero d m a end p stuck h = refl
madt_loop-endless (suc rounds) d m a end p stuck h =
    let go_on : ltb a end ≡ true = lt→ltb a end h in
    let same : a + 0 ≡ a = omega arith in
    rw (go_on, stuck, same) (madt_loop-endless rounds d m a end (madt_entry d m a p) stuck h)
