-- ===== src/Mem/Vmm/Tests.antt =====
-- Two mappings of a task.
use fish_os.Base.{◌≡◌, refl, true, [], ◌∷◌, some, arith}
use fish_os.Base.Int.{pos}
use fish_os.Mem.Vmm.{MappedRange, Space, anonymous, addr_to_range, is_supported, syscall_mmap}
use fish_os.Mem.Vmm.Ranges.{Stacked, Mapped, syscall_mmap-Mapped}

abbrev low : MappedRange
low = record { base = 0x1000; length = 0x2000; page_flags = 5; type = anonymous }

abbrev high : MappedRange
high = record { base = 0x3000; length = 0x1000; page_flags = 5; type = anonymous }

abbrev space : Space
space = record { ranges = high ∷ low ∷ []; mmap_anon_base = 0x4000 }

space-Stacked : Stacked 0x4000 space.ranges
unfolding Stacked
space-Stacked = (omega arith, (omega arith, tt))

private : is_supported 9 ≡ true
unfolding is_supported
private = refl

-- the address behind the last range is taken for mapped
one_past : addr_to_range 0x4000 space.ranges ≡ some high
unfolding addr_to_range
one_past = refl

syscall_mmap-Mapped_example :
    let (r, t) = syscall_mmap 100 3 9 space in (r ≡ pos 0x4000) × Mapped 100 3 space t
syscall_mmap-Mapped_example = syscall_mmap-Mapped 100 3 9 space private space-Stacked (omega arith)
