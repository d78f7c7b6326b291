-- ===== src/Ps2/Keyboard/Read.antt =====
-- src/ps2/kbd/keyboard.cpp: what a read returns.
use fish_os.Base.{
  ℕ, zero, suc, ◌+◌, ◌-◌, ◌%◌, ◌≤◌, ◌<◌, ◌≡◌, refl, sym, ap, ◌∙◌, false, Bool-cases, inl, inr, List,
  [], ◌∷◌, ◌++◌, some, arith, get_or, length, length-append, ◌==◌, if◌then◌else◌,
}
use fish_os.Ps2.Keyboard.{Keyboard, buffer_size, irq, irqs, wait, read}
use fish_os.Ps2.Keyboard.Window.{window}
use fish_os.Ps2.Keyboard.Queue.{
  IsValid, waiting, content, length-content, accepted, typed, Queued, Queued-none, Queued-compose,
  irq-Queued, append_assoc,
}

-- what a read of `count` characters takes of a queue: the characters up to a newline
unfoldable pub line : ℕ → List ℕ → List ℕ
line zero queue = []
line (suc count) [] = []
line (suc count) (c ∷ queue) = let rest = line count queue in if c == 10 then c ∷ [] else c ∷ rest

-- Interrupts put characters at the end of the queue and change nothing else of it.
pub irqs-Queued :
    (arrived : List ℕ) (k : Keyboard)
    → IsValid k
    → (chars : List ℕ) × Queued k chars (irqs arrived k)
unfolding irqs
irqs-Queued [] k v = ([], Queued-none v)
irqs-Queued (scancode ∷ later) k v =
    let first = irq-Queued scancode k v in
    let (chars, rest) = irqs-Queued later (irq scancode k) first.valid in
    (accepted (typed scancode k) k ++ chars, Queued-compose first rest)

abbrev popped : Keyboard → Keyboard
popped k = record k { buffer_read_index = (k.buffer_read_index + 1) % buffer_size }

popped-IsValid : {k : Keyboard} → IsValid k → IsValid (popped k)
popped-IsValid v = record { width = v.width; write_small = v.write_small; read_small = omega arith }

content-popped :
    (k : Keyboard)
    → IsValid k
    → 0 < waiting k
    → content k ≡ get_or k.buffer k.buffer_read_index 0 ∷ content (popped k)
unfolding content waiting window
content-popped k v some_wait =
    let ws = v.write_small in
    let rs = v.read_small in
    let e : (k.buffer_write_index + 256 - k.buffer_read_index) % 256
        ≡ suc ((k.buffer_write_index + 256 - (k.buffer_read_index + 1) % 256) % 256) =
      omega (arith, some_wait) in
    ap (window k.buffer k.buffer_read_index) e

-- the read took `bytes` from the front of a queue that grew at its end
pub record Received (k : Keyboard) (bytes : List ℕ) (k' : Keyboard) : Type 0 where
  pub valid : IsValid k'
  pub chars : List ℕ
  pub queue : bytes ++ content k' ≡ content k ++ chars
  pub echo : k'.echoed ≡ k.echoed ++ chars

Received-none : {k : Keyboard} → IsValid k → Received k [] k
Received-none {k} v =
    let q = Queued-none v in record { valid = v; chars = []; queue = q.queue; echo = q.echo }

Received-step :
    {k now : Keyboard} {chars : List ℕ} {c : ℕ} {bytes : List ℕ} {k' : Keyboard}
    → Queued k chars now
    → content now ≡ c ∷ content (popped now)
    → Received (popped now) bytes k'
    → Received k (c ∷ bytes) k'
Received-step {k} {now} {chars} {c} {bytes} {k'} q taken r = record {
  valid = r.valid;
  chars = chars ++ r.chars;
  queue =
      ap (λ l. c ∷ l) r.queue
      ∙ ap (λ l. l ++ r.chars) (sym taken ∙ q.queue)
      ∙ append_assoc (content k) chars r.chars;
  echo = r.echo ∙ ap (λ l. l ++ r.chars) q.echo ∙ append_assoc k.echoed chars r.chars;
}

line-append :
    (count : ℕ) (xs ys : List ℕ) → count ≤ length xs → line count (xs ++ ys) ≡ line count xs
unfolding line
line-append zero xs ys h = refl
line-append (suc count) [] ys h = absurd (omega arith)
line-append (suc count) (x ∷ xs) ys h = rw (line-append count xs ys (omega arith))

waiting-Queued :
    {k k' : Keyboard} {chars : List ℕ} → Queued k chars k' → waiting k' ≡ waiting k + length chars
waiting-Queued {k} {k'} {chars} q =
    sym (length-content k')
    ∙ ap length q.queue
    ∙ length-append (content k) chars
    ∙ ap (λ n. n + length chars) (length-content k)

indices_ne : (k : Keyboard) → 0 < waiting k → (k.buffer_read_index == k.buffer_write_index) ≡ false
unfolding waiting
indices_ne k some_wait = ground (arith, some_wait)

-- the first check of a read from a queue that is not empty
wait-ready :
    (arrived : List ℕ) (schedule : List (List ℕ)) (k : Keyboard)
    → 0 < waiting (irqs arrived k)
    → wait (arrived ∷ schedule) k ≡ some (irqs arrived k, schedule)
unfolding wait
wait-ready arrived schedule k some_wait = rw (indices_ne (irqs arrived k) some_wait)

line-queue :
    {k now : Keyboard} {chars : List ℕ} {c : ℕ} {queue : List ℕ} (count : ℕ)
    → Queued k chars now
    → content now ≡ c ∷ queue
    → count ≤ waiting k
    → line count (content k) ≡ line count (c ∷ queue)
line-queue {k} {now} {chars} count q taken enough =
    sym (line-append count (content k) chars (omega (arith, length-content k)))
    ∙ ap (line count) (sym q.queue ∙ taken)

-- On a valid state where at least `count` characters wait, a read returns before its `count`-th check,
-- whatever keys are pressed meanwhile: it takes the characters up to a newline or the count, in the
-- order of the queue; those that stay and those that were typed meanwhile, all of them echoed, follow.
pub read-line :
    (count : ℕ) (schedule : List (List ℕ)) (k : Keyboard)
    → IsValid k
    → count ≤ waiting k
    → count ≤ length schedule
    → (k' : Keyboard) × (rest : List (List ℕ)) × (read count schedule k
        ≡ some (line count (content k), k', rest))
      × Received k (line count (content k)) k'
unfolding read line
read-line zero schedule k v enough checks = (k, schedule, refl, Received-none v)
read-line (suc count) [] k v enough checks = absurd (omega arith)
read-line (suc count) (arrived ∷ schedule) k v enough checks =
    let now = irqs arrived k in
    let (chars, queued) = irqs-Queued arrived k v in
    let more = waiting-Queued queued in
    let taken = content-popped now queued.valid (omega (arith, more)) in
    let left : waiting now ≡ suc (waiting (popped now)) =
      sym (length-content now) ∙ ap length taken ∙ ap suc (length-content (popped now)) in
    let ready = wait-ready arrived schedule k (omega (arith, more)) in
    let valid = popped-IsValid queued.valid in
    let same = line-queue (suc count) queued taken enough in
    let (k', rest, run, received) =
      read-line count schedule (popped now) valid (omega (arith, more, left)) (omega arith) in
    elim (Bool-cases (get_or now.buffer now.buffer_read_index 0 == 10)) [
      | inl newline ↦
          rw (same, read, ready, line, newline)
            (popped now, schedule, refl, Received-step queued taken (Received-none valid))
      | inr other ↦
          rw (same, read, ready, line, other)
            (k', rest, rw run, Received-step queued taken received)
    ]
