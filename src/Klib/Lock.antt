-- ===== src/Klib/Lock.antt =====
-- src/klib/lock.hpp: the spinlock, between processors whose steps interleave.
-- Each atomic operation is a step of one processor. A processor may panic anywhere, also at the limit of
-- the rounds of `lock`: then `panic_vprintf` (src/klib/cstdio.cpp) clears the print lock, whoever holds it,
-- and goes on as one that does not hold it. Interrupts, which `lock` closes and `unlock` opens, are
-- those of the processor itself and are left out.
mod Exclusion
mod Tests
use fish_os.Base.{ℕ, ◌+◌, ◌%◌, ◌^◌, ◌≡◌, Bool, true, false, ◌==◌, if◌then◌else◌}

pub record Spinlock : Type 0 where
  pub locked : Bool
  pub i : ℕ

-- where a processor is: outside, in the loop of `lock`, behind it, in `unlock` before the lock is cleared,
-- in a panic, or in `unlock` from there
pub data Place : Type 0 where
  outside : Place
  spinning : Place
  holding : Place
  unlocking : Place
  panicking : Place
  forcing : Place

pub record System : Type 0 where
  pub lock : Spinlock
  pub places : ℕ → Place

unfoldable pub move_to : ℕ → Place → (ℕ → Place) → ℕ → Place
move_to c place places a = if a == c then place else places a

-- one round of the loop of `lock`: the atomic test and set, and on a lock that is held the count of rounds
unfoldable pub lock_round : Spinlock → Spinlock × Place
lock_round l =
    if l.locked
    then (let i = (l.i + 1) % 2 ^ 32 in
        (record l { i = i }, if i == 10000000 then panicking else spinning))
    else (record l { locked = true }, holding)

-- the two stores of `unlock`
unfoldable pub reset_count : Spinlock → Spinlock
reset_count l = record l { i = 0 }

unfoldable pub clear_lock : Spinlock → Spinlock
clear_lock l = record l { locked = false }

-- the steps of processor `c`: a guard is made, goes round the loop, and is destroyed
pub data Step (s : System) : System → Type 0 where
  call : (c : ℕ) → s.places c ≡ outside → Step s (record s { places = move_to c spinning s.places })
  round :
      (c : ℕ)
      → s.places c ≡ spinning
      → Step s (record {
        lock = (lock_round s.lock).0;
        places = move_to c (lock_round s.lock).1 s.places;
      })
  reset :
      (c : ℕ)
      → s.places c ≡ holding
      → Step s (record { lock = reset_count s.lock; places = move_to c unlocking s.places })
  store :
      (c : ℕ)
      → s.places c ≡ unlocking
      → Step s (record { lock = clear_lock s.lock; places = move_to c outside s.places })
  fail : (c : ℕ) → Step s (record s { places = move_to c panicking s.places })
  force_reset :
      (c : ℕ)
      → s.places c ≡ panicking
      → Step s (record { lock = reset_count s.lock; places = move_to c forcing s.places })
  force_store :
      (c : ℕ)
      → s.places c ≡ forcing
      → Step s (record { lock = clear_lock s.lock; places = move_to c outside s.places })

-- the step is not the one that clears the lock in a panic
unfoldable pub IsCalm : {s t : System} → Step s t → Type 0
IsCalm (call c at) = Unit {0}
IsCalm (round c at) = Unit {0}
IsCalm (reset c at) = Unit {0}
IsCalm (store c at) = Unit {0}
IsCalm (fail c) = Unit {0}
IsCalm (force_reset c at) = Unit {0}
IsCalm (force_store c at) = ⊥

pub data Reach (s : System) : System → Type 0 where
  here : Reach s s
  next : {t u : System} → Reach s t → Step t u → Reach s u

-- no panic has cleared the lock
unfoldable pub AreCalm : {s t : System} → Reach s t → Type 0
AreCalm here = Unit {0}
AreCalm (next r st) = AreCalm r × IsCalm st

-- no processor has called, and the lock is as it is made
abbrev pub at_start : System
at_start = record { lock = record { locked = false; i = 0 }; places = λ c. outside }
