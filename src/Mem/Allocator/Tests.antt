-- ===== src/Mem/Allocator/Tests.antt =====
-- src/mem/allocator.cpp: a heap of 256 bytes at 0x1000.
use fish_os.Base.{ℕ, ◌≡◌, arith, refl, false, some}
use fish_os.Mem.Allocator.{
  BuddyAlloc, align, double_until, size_required, put_block, put_size, next, split_loop,
  split_until, init,
}
use fish_os.Mem.Allocator.Sizes.{power}
use fish_os.Mem.Allocator.First.{FirstBlock, malloc-FirstBlock}
use fish_os.Mem.Allocator.Search.{
  can_merge, delayed, better_merged, better_block, better_buddy, after_pair, merge_step, look_step,
  find_step, find_loop, find_best,
}
use fish_os.Mem.Allocator.Coalesce.{pass_merge, pass_step, pass_loop, coalesce, coalescence}
use fish_os.Mem.Allocator.Malloc.{find, claim, malloc, free, move, realloc}

evaluate : Unit {0}
unfolding align double_until size_required put_block put_size next split_loop split_until init
    can_merge delayed better_merged better_block better_buddy after_pair merge_step look_step
    find_step find_loop find_best pass_merge pass_step pass_loop coalesce coalescence find claim
    malloc free move realloc
evaluate = tt

abbrev raw : BuddyAlloc
raw = record { head = 0; tail = 0; blocks = λ a. record { size = 0; is_free = false } }

-- 100 bytes and a header take the half of 128 bytes behind the free one
first : (let (p, s) = malloc 100 (init 0x1000 256 raw) in p) ≡ 0x1090
unfolding evaluate
first = refl

-- the data of 100 bytes is copied whole, to a block of 32 bytes with its header
shrunk :
    (let (p, s) = malloc 100 (init 0x1000 256 raw) in let (q, c, s') = realloc p 8 s in c)
    ≡ some (record { to = 0x1070; from = 0x1090; bytes = 100 })
unfolding evaluate
shrunk = refl

malloc-FirstBlock_example :
    (ptr : ℕ) × (s' : BuddyAlloc) × (malloc 100 (init 0x1000 (power 4) raw) ≡ (ptr, s'))
    × FirstBlock 0x1000 4 100 ptr s'
unfolding power
malloc-FirstBlock_example =
    malloc-FirstBlock 0x1000 4 100 raw (omega arith) (omega arith) (omega arith) (omega arith)
      (omega arith)
