-- ===== src/Klib/Lock/Tests.antt =====
-- Two processors call `lock`; the first gets it, and the second waits, or panics.
use fish_os.Base.{ℕ, ◌≡◌, refl, true}
use fish_os.Klib.Lock.{
  outside, spinning, holding, panicking, forcing, System, move_to, lock_round, reset_count,
  clear_lock, call, round, fail, force_reset, force_store, IsCalm, AreCalm, Reach, here, next,
  at_start,
}
use fish_os.Klib.Lock.Exclusion.{holds, lock-exclusion}

abbrev both : System
both = record {
  lock = record { locked = true; i = 1 };
  places =
      move_to 1 spinning
        (move_to 0 holding (move_to 1 spinning (move_to 0 spinning (λ c. outside))));
}

unfoldable both_reached : Reach at_start both
unfolding lock_round move_to
both_reached =
    next (next (next (next here (call 0 refl)) (call 1 refl)) (round 0 refl)) (round 1 refl)

both_calm : AreCalm both_reached
unfolding AreCalm IsCalm both_reached
both_calm = ((((tt, tt), tt), tt), tt)

lock-exclusion_example : ◌≡◌ {A = ℕ} 0 0
unfolding holds move_to
lock-exclusion_example = lock-exclusion both 0 0 both_reached both_calm refl refl

-- processor 1 panics while processor 0 holds the lock, clears it and gets it: both are behind `lock`
abbrev forced : System
forced = record {
  lock = record { locked = true; i = 0 };
  places = move_to 1 holding (
      move_to 1 spinning (
        move_to 1 outside (
          move_to 1 forcing
            (move_to 1 panicking (move_to 0 holding (move_to 0 spinning (λ c. outside)))))));
}

forced_reached : Reach at_start forced
unfolding lock_round move_to reset_count clear_lock
forced_reached =
    next
      (next
        (next
          (next (next (next (next here (call 0 refl)) (round 0 refl)) (fail 1))
            (force_reset 1 refl))
          (force_store 1 refl))
        (call 1 refl))
      (round 1 refl)

forced_twice : (holds (forced.places 0) ≡ true) × (holds (forced.places 1) ≡ true)
unfolding holds move_to
forced_twice = (refl, refl)
