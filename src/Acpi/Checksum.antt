-- ===== src/Acpi/Checksum.antt =====
-- src/acpi/tables.cpp: a table is used only if its bytes sum to 0.
use fish_os.Base.{
  ℕ, zero, suc, ◌+◌, ◌%◌, ◌^◌, ◌≡◌, refl, true, Bool-cases, inl, inr, ◌↔◌, ◌≢◌, some, panic, arith,
  ==_iff,
}
use fish_os.Klib.Memory.{Memory}
use fish_os.Acpi.{sum_bytes, do_checksum, parse_sdt}
use fish_os.Acpi.Madt.{Platform, Devices, u32}

-- the sum of `n` bytes from index `i` on
unfoldable pub total : ℕ → ℕ → ℕ → Memory → ℕ
total zero i table m = 0
total (suc n) i table m = m (table + i) + total n (i + 1) table m

sum_bytes-total :
    (n i sum table : ℕ) (m : Memory)
    → sum_bytes n i sum table m % 2 ^ 8 ≡ (sum + total n i table m) % 2 ^ 8
unfolding sum_bytes total
sum_bytes-total zero i sum table m = omega arith
sum_bytes-total (suc n) i sum table m =
    omega (arith, sum_bytes-total n (i + 1) ((sum + m (table + i)) % 2 ^ 8) table m)

sum_bytes-mod :
    (n i sum table : ℕ) (m : Memory)
    → sum % 2 ^ 8 ≡ sum
    → sum_bytes n i sum table m % 2 ^ 8 ≡ sum_bytes n i sum table m
unfolding sum_bytes
sum_bytes-mod zero i sum table m h = h
sum_bytes-mod (suc n) i sum table m h =
    sum_bytes-mod n (i + 1) ((sum + m (table + i)) % 2 ^ 8) table m (omega arith)

-- The loop, which wraps at each byte, tells whether the sum of all bytes is a multiple of 256.
pub do_checksum_iff :
    (table size : ℕ) (m : Memory)
    → (do_checksum table size m ≡ true) ↔ (total size 0 table m % 2 ^ 8 ≡ 0)
unfolding do_checksum
do_checksum_iff table size m =
    let a = sum_bytes-total size 0 0 table m in
    let b = sum_bytes-mod size 0 0 table m refl in
    let t = ==_iff (sum_bytes size 0 0 table m) 0 in
    ((λ h. omega (arith, a, b, t.0 h)), (λ h. t.1 (omega (arith, a, b, h))))

-- A table whose bytes do not sum to a multiple of 256 ends in a panic, before its entries are read.
pub parse_sdt-bad_sum :
    (d : Devices) (m : Memory) (sdt : ℕ) (p : Platform)
    → total (u32 m sdt 4) 0 sdt m % 2 ^ 8 ≢ 0
    → parse_sdt d m sdt p ≡ some panic
unfolding parse_sdt
parse_sdt-bad_sum d m sdt p bad = elim (Bool-cases (do_checksum sdt (u32 m sdt 4) m)) [
  | inl good ↦ absurd (bad ((do_checksum_iff sdt (u32 m sdt 4) m).0 good))
  | inr wrong ↦ rw (parse_sdt, wrong) refl
]
