-- ===== src/Mem/Pmm/Init/Tests.antt =====
-- The set-up on a memory map with 33 pages, of which 31 are usable, where the memory holds garbage.
use fish_os.Base.{
  ℕ, zero, suc, ◌*◌, ◌/◌, ◌≡◌, refl, List, [], ◌∷◌, Option, none, some, Bool, true, false,
  replicate, map, arith,
}
use fish_os.Klib.Bitmap.{bit_of, put_bit, get, set_bit, fill, memset}
use fish_os.Klib.Bitmap.Bits.{IsBytes}
use fish_os.Mem.Pmm.{set_range}
use fish_os.Mem.Vmm.{align_up}
use fish_os.Mem.Pmm.Init.{
  MemmapEntry, PmmState, last_usable, bitmap_base, page_start, page_end, free_usable, usable_size,
  own_pages, init,
}
use fish_os.Mem.Pmm.Init.Ready.{Ready, AreUsable, init-Ready}

abbrev memmap : List MemmapEntry
memmap =
    record { base = 0; length = 0x1000; type = 1 }
    ∷ record { base = 0x1000; length = 0x18000; type = 0 }
    ∷ record { base = 0x19000; length = 0x1000; type = 1 }
    ∷ record { base = 0x1a000; length = 0x7000; type = 0 }
    ∷ []

abbrev memory : ℕ → List ℕ
memory a = replicate 5 0xaa

free_of : Option PmmState → List Bool
free_of none = []
free_of (some m) = map (get m.pmm.page_bitmap) (0 ∷ 1 ∷ 2 ∷ 24 ∷ 25 ∷ 26 ∷ 31 ∷ [])

size_of : Option PmmState → ℕ
size_of none = 0
size_of (some m) = m.total_usable_size

init_test : free_of (init memmap memory) ≡ true ∷ true ∷ false ∷ false ∷ true ∷ false ∷ false ∷ []
unfolding free_of init fill memset free_usable bitmap_base last_usable page_start page_end own_pages
    align_up set_range get set_bit bit_of put_bit
init_test = refl

size_test : size_of (init memmap memory) ≡ 30 * 0x1000
unfolding size_of init fill memset free_usable bitmap_base last_usable page_start page_end own_pages
    align_up set_range usable_size get set_bit bit_of put_bit
size_test = refl

regions : AreUsable memmap
unfolding AreUsable
regions = (
  (λ e. absurd (omega (arith, e))),
  (
    (λ e. (omega arith, omega arith)),
    ((λ e. absurd (omega (arith, e))), ((λ e. (omega arith, omega arith)), tt)),
  ),
)

bytes : (a : ℕ) → IsBytes (memory a)
bytes a zero = omega arith
bytes a (suc zero) = omega arith
bytes a (suc (suc zero)) = omega arith
bytes a (suc (suc (suc zero))) = omega arith
bytes a (suc (suc (suc (suc zero)))) = omega arith
bytes a (suc (suc (suc (suc (suc d))))) = omega arith

found : bitmap_base (last_usable memmap 0 / 0x1000) memmap ≡ some 0x1000
unfolding bitmap_base last_usable
found = refl

last : last_usable memmap 0 ≡ 0x21000
unfolding last_usable
last = refl

init-Ready_example :
    (m : PmmState) × (init memmap memory ≡ some m)
    × Ready memmap (last_usable memmap 0 / 0x1000) 0x1000 5 m.pmm
init-Ready_example =
    init-Ready memmap memory 0x1000 regions bytes found (omega (arith, last)) (omega (arith, last))
