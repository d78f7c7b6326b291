-- ===== src/Ps2/Keyboard/Tests.antt =====
-- The keyboard on a few scan codes.
use fish_os.Base.{ℕ, ◌≡◌, refl, [], ◌∷◌, List, some, none, arith, length-replicate}
use fish_os.Ps2.Keyboard.{
  Keyboard, map, init, is_caps, release, cased, push, press, irq, irqs, wait, read,
}
use fish_os.Ps2.Keyboard.Window.{window}
use fish_os.Ps2.Keyboard.Queue.{IsValid, waiting, content, typed, accepted}
use fish_os.Ps2.Keyboard.Read.{line, Received, irqs-Queued, read-line}

evaluate : Unit {0}
unfolding map init is_caps release cased push press irq irqs wait read window waiting content typed
    accepted line
evaluate = tt

init-IsValid : IsValid init
unfolding init
init-IsValid = record {
  width = length-replicate {A = ℕ} 256 0;
  write_small = omega arith;
  read_small = omega arith;
}

-- shift down, h, shift up, i, return: `Hi` and a newline
abbrev typing : List ℕ
typing = 42 ∷ 35 ∷ 170 ∷ 23 ∷ 28 ∷ []

typing-queue : content (irqs typing init) ≡ 72 ∷ 105 ∷ 10 ∷ []
unfolding evaluate
typing-queue = refl

typing-IsValid : IsValid (irqs typing init)
typing-IsValid = let (chars, q) = irqs-Queued typing init init-IsValid in q.valid

typing-waiting : waiting (irqs typing init) ≡ 3
unfolding evaluate
typing-waiting = refl

-- nothing was typed, and the schedule ends
read_blocks : read 1 (([]) ∷ (163 ∷ []) ∷ []) init ≡ none
unfolding evaluate
read_blocks = refl

read-line_example :
    (k' : Keyboard) × (rest : List (List ℕ)) × (read 2 ((35 ∷ []) ∷ [] ∷ []) (irqs typing init)
      ≡ some (line 2 (content (irqs typing init)), k', rest))
    × Received (irqs typing init) (line 2 (content (irqs typing init))) k'
read-line_example =
    read-line 2 ((35 ∷ []) ∷ [] ∷ []) (irqs typing init) typing-IsValid
      (omega (arith, typing-waiting)) (omega arith)
