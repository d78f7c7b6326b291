-- ===== src/Klib/Lock/Exclusion.antt =====
-- src/klib/lock.hpp: at most one processor holds the lock.
use fish_os.Base.{
  ℕ, ◌+◌, ◌%◌, ◌^◌, ◌≡◌, refl, ap, sym, subst, ◌∙◌, Bool, true, false, Bool-cases, inl, inr, ◌==◌,
  if◌then◌else◌, arith,
}
use native.Mathlib.Decide.{ℕ_discrete}
use fish_os.Klib.Lock.{
  Spinlock, Place, outside, spinning, holding, unlocking, panicking, forcing, System, move_to,
  lock_round, reset_count, clear_lock, Step, call, round, reset, store, fail, force_reset,
  force_store, IsCalm, AreCalm, Reach, here, next, at_start,
}

-- behind `lock` and before the store that ends `unlock`
unfoldable pub holds : Place → Bool
holds holding = true
holds unlocking = true
holds _ = false

-- who holds the lock is the only one, and the lock says so
pub record IsExclusive (s : System) : Type 0 where
  pub one : (a b : ℕ) → holds (s.places a) ≡ true → holds (s.places b) ≡ true → a ≡ b
  pub says : (a : ℕ) → holds (s.places a) ≡ true → s.lock.locked ≡ true

still : (i : ℕ) → holds (if i == 10000000 then panicking else spinning) ≡ false
unfolding holds
still i = ground arith

-- a processor that held nothing, and holds nothing at its new place
idle-IsExclusive :
    (s : System) (c : ℕ) (place : Place) (l : Spinlock)
    → IsExclusive s
    → holds place ≡ false
    → l.locked ≡ s.lock.locked
    → IsExclusive (record { lock = l; places = move_to c place s.places })
unfolding move_to holds
idle-IsExclusive s c place l x out same = record {
  one = λ a b ha hb. elim (ℕ_discrete a c) [
    | yes ea ↦ ground (arith, ea, out, ha)
    | no na ↦ elim (ℕ_discrete b c) [
      | yes eb ↦ ground (arith, eb, out, hb)
      | no nb ↦ x.one a b (ground (arith, na, ha)) (ground (arith, nb, hb))
    ]
  ];
  says = λ a ha. elim (ℕ_discrete a c) [
    | yes ea ↦ ground (arith, ea, out, ha)
    | no na ↦ same ∙ x.says a (ground (arith, na, ha))
  ];
}

-- the lock is free, so nobody held it, and processor `c` takes it
taken-IsExclusive :
    (s : System) (c : ℕ)
    → IsExclusive s
    → s.lock.locked ≡ false
    → IsExclusive
        (record { lock = record s.lock { locked = true }; places = move_to c holding s.places })
unfolding move_to holds
taken-IsExclusive s c x free =
    let only = λ (a : ℕ) (ha : holds (move_to c holding s.places a) ≡ true).
      let here : a ≡ c = elim (ℕ_discrete a c) [
        | yes ea ↦ ea
        | no na ↦
            let held : holds (s.places a) ≡ true = ground (arith, na, ha) in
            absurd (let lie = x.says a held in cc (lie, free))
      ] in
      here in
    record { one = λ a b ha hb. only a ha ∙ sym (only b hb); says = λ a ha. refl }

-- the processor that holds the lock goes on to the end of `unlock`
reset-IsExclusive :
    (s : System) (c : ℕ)
    → IsExclusive s
    → s.places c ≡ holding
    → IsExclusive (record { lock = reset_count s.lock; places = move_to c unlocking s.places })
unfolding move_to reset_count holds
reset-IsExclusive s c x at =
    let held : holds (s.places c) ≡ true = rw at refl in
    let before = λ (a : ℕ) (ha : holds (move_to c unlocking s.places a) ≡ true).
      let h : holds (s.places a) ≡ true = elim (ℕ_discrete a c) [
        | yes ea ↦ ap (λ k. holds (s.places k)) ea ∙ held
        | no na ↦ ground (arith, na, ha)
      ] in
      h in
    record {
      one = λ a b ha hb. x.one a b (before a ha) (before b hb);
      says = λ a ha. x.says a (before a ha);
    }

-- the only holder leaves, so nobody holds the lock
clear-IsExclusive :
    (s : System) (c : ℕ)
    → IsExclusive s
    → s.places c ≡ unlocking
    → IsExclusive (record { lock = clear_lock s.lock; places = move_to c outside s.places })
unfolding move_to clear_lock holds
clear-IsExclusive s c x at =
    let held : holds (s.places c) ≡ true = rw at refl in
    let nobody = λ (a : ℕ) (ha : holds (move_to c outside s.places a) ≡ true).
      let no_one : ⊥ = elim (ℕ_discrete a c) [
        | yes ea ↦ ground (arith, ea, ha)
        | no na ↦ na (x.one a c (ground (arith, na, ha)) held)
      ] in
      no_one in
    record { one = λ a b ha hb. absurd (nobody a ha); says = λ a ha. absurd (nobody a ha) }

round-IsExclusive :
    (s : System) (c : ℕ)
    → IsExclusive s
    → IsExclusive
        (record { lock = (lock_round s.lock).0; places = move_to c (lock_round s.lock).1 s.places })
unfolding lock_round
round-IsExclusive s c x = elim (Bool-cases s.lock.locked) [
  | inl held ↦
      let i : ℕ = (s.lock.i + 1) % 2 ^ 32 in
      let out : holds (if i == 10000000 then panicking else spinning) ≡ false = still i in
      let run : lock_round s.lock
          ≡ (record s.lock { i = i }, if i == 10000000 then panicking else spinning) =
        rw (lock_round, held) refl in
      subst
        (λ (r : Spinlock × Place).
          IsExclusive (record { lock = r.0; places = move_to c r.1 s.places }))
        (sym run)
        (idle-IsExclusive s c (if i == 10000000 then panicking else spinning)
          (record s.lock { i = i }) x out refl)
  | inr free ↦
      let run : lock_round s.lock ≡ (record s.lock { locked = true }, holding) =
        rw (lock_round, free) refl in
      subst
        (λ (r : Spinlock × Place).
          IsExclusive (record { lock = r.0; places = move_to c r.1 s.places }))
        (sym run) (taken-IsExclusive s c x free)
]

Step-IsExclusive : {s t : System} (st : Step s t) → IsCalm st → IsExclusive s → IsExclusive t
unfolding holds IsCalm reset_count
Step-IsExclusive {s} (call c at) _ x = idle-IsExclusive s c spinning s.lock x refl refl
Step-IsExclusive {s} (round c at) _ x = round-IsExclusive s c x
Step-IsExclusive {s} (reset c at) _ x = reset-IsExclusive s c x at
Step-IsExclusive {s} (store c at) _ x = clear-IsExclusive s c x at
Step-IsExclusive {s} (fail c) _ x = idle-IsExclusive s c panicking s.lock x refl refl
Step-IsExclusive {s} (force_reset c at) _ x =
    idle-IsExclusive s c forcing (reset_count s.lock) x refl refl
Step-IsExclusive {s} (force_store c at) forced x = absurd forced

pub Reach-IsExclusive : {s t : System} → IsExclusive s → (r : Reach s t) → AreCalm r → IsExclusive t
unfolding AreCalm
Reach-IsExclusive x here _ = x
Reach-IsExclusive x (next r st) (calm, step_calm) =
    Step-IsExclusive st step_calm (Reach-IsExclusive x r calm)

start-IsExclusive : IsExclusive at_start
unfolding holds
start-IsExclusive = record { one = λ a b ha hb. cc; says = λ a ha. cc }

-- However the steps of the processors interleave, from a lock as it is made, until a panic clears the lock:
-- at most one processor is behind `lock` and before the end of `unlock`.
pub lock-exclusion :
    (s : System) (a b : ℕ)
    → (r : Reach at_start s) → AreCalm r
    → holds (s.places a) ≡ true
    → holds (s.places b) ≡ true
    → a ≡ b
lock-exclusion s a b r calm ha hb = (Reach-IsExclusive start-IsExclusive r calm).one a b ha hb
