-- ===== src/Ps2/Keyboard/Queue.antt =====
-- src/ps2/kbd/keyboard.cpp: the ring as a queue, and what an interrupt does to it.
use fish_os.Base.{
  ℕ, suc, ◌+◌, ◌-◌, ◌%◌, ◌<◌, ◌≡◌, ◌≢◌, refl, sym, ap, ◌∙◌, Bool, true, false, Bool-cases, inl, inr,
  List, [], ◌∷◌, ◌++◌, arith, get_or, set, length, leb, ◌==◌, not, ◌||◌, if◌then◌else◌,
  get_or-set_self, length-set,
}
use fish_os.Ps2.Keyboard.{Keyboard, map, release, cased, push, press, irq}
use fish_os.Ps2.Keyboard.Window.{window, length-window, window-set, window-snoc}

pub record IsValid (k : Keyboard) : Type 0 where
  pub width : length k.buffer ≡ 256
  pub write_small : k.buffer_write_index < 256
  pub read_small : k.buffer_read_index < 256

-- how many characters wait
unfoldable pub waiting : Keyboard → ℕ
waiting k = (k.buffer_write_index + 256 - k.buffer_read_index) % 256

-- the characters that wait, the next one to be read first
unfoldable pub content : Keyboard → List ℕ
content k = window k.buffer k.buffer_read_index (waiting k)

pub length-content : (k : Keyboard) → length (content k) ≡ waiting k
unfolding content
length-content k = length-window k.buffer k.buffer_read_index (waiting k)

-- the character that a scan code types, 0 for none
unfoldable pub typed : ℕ → Keyboard → ℕ
typed scancode k =
    if leb 128 scancode || (scancode == 42 || scancode == 54)
    then 0
    else let c = get_or map scancode 0 in if c == 0 then 0 else cased c k

-- the character, or nothing if there is none or the queue is full
unfoldable pub accepted : ℕ → Keyboard → List ℕ
accepted c k = if c == 0 || leb 255 (waiting k) then [] else c ∷ []

-- `k'` is `k` with `chars` put at the end of the queue and echoed
pub record Queued (k : Keyboard) (chars : List ℕ) (k' : Keyboard) : Type 0 where
  pub valid : IsValid k'
  pub queue : content k' ≡ content k ++ chars
  pub echo : k'.echoed ≡ k.echoed ++ chars

append_nil : (xs : List ℕ) → xs ++ [] ≡ xs
append_nil [] = refl
append_nil (x ∷ xs) = ap (λ l. x ∷ l) (append_nil xs)

pub append_assoc : (xs ys zs : List ℕ) → (xs ++ ys) ++ zs ≡ xs ++ (ys ++ zs)
append_assoc [] ys zs = refl
append_assoc (x ∷ xs) ys zs = ap (λ l. x ∷ l) (append_assoc xs ys zs)

pub Queued-none : {k : Keyboard} → IsValid k → Queued k [] k
Queued-none {k} v = record {
  valid = v;
  queue = sym (append_nil (content k));
  echo = sym (append_nil k.echoed);
}

pub Queued-compose :
    {k k' k'' : Keyboard} {a b : List ℕ} → Queued k a k' → Queued k' b k'' → Queued k (a ++ b) k''
Queued-compose {k} {k'} {k''} {a} {b} p q = record {
  valid = q.valid;
  queue = q.queue ∙ ap (λ l. l ++ b) p.queue ∙ append_assoc (content k) a b;
  echo = q.echo ∙ ap (λ l. l ++ b) p.echo ∙ append_assoc k.echoed a b;
}

room_lem :
    (k : Keyboard)
    → IsValid k
    → ((k.buffer_write_index + 1) % 256 == k.buffer_read_index) ≡ leb 255 (waiting k)
unfolding waiting
room_lem k v = ground (arith, v.write_small, v.read_small)

pushed :
    (c : ℕ) (k : Keyboard)
    → IsValid k
    → waiting k < 255
    → Queued k (c ∷ []) (record k {
      buffer = set k.buffer k.buffer_write_index c;
      buffer_write_index = (k.buffer_write_index + 1) % 256;
      echoed = k.echoed ++ (c ∷ []);
    })
unfolding content waiting
pushed c k v room =
    let w = k.buffer_write_index in
    let r = k.buffer_read_index in
    let n = (w + 256 - r) % 256 in
    let ws = v.write_small in
    let rs = v.read_small in
    let grown : ((w + 1) % 256 + 256 - r) % 256 ≡ suc n = omega (arith, room) in
    let last : (r + n) % 256 ≡ w = omega arith in
    let outside : (j : ℕ) → j < n → (r + j) % 256 ≢ w = λ j less e. omega arith in
    record {
      valid = record {
        width = length-set k.buffer w c ∙ v.width;
        write_small = omega arith;
        read_small = rs;
      };
      queue =
          ap (window (set k.buffer w c) r) grown
          ∙ window-snoc (set k.buffer w c) r n rs
          ∙ ap (λ l. l ++ (get_or (set k.buffer w c) ((r + n) % 256) 0 ∷ []))
              (window-set k.buffer w c r n outside rs)
          ∙ ap (λ x. window k.buffer r n ++ (x ∷ []))
              (ap (λ i. get_or (set k.buffer w c) i 0) last
                ∙ get_or-set_self k.buffer w c 0 (omega (arith, v.width)));
      echo = refl;
    }

-- A character is put at the end of the queue and echoed unless 255 characters wait.
push-Queued :
    (c : ℕ) (k : Keyboard)
    → IsValid k
    → Queued k (if leb 255 (waiting k) then [] else c ∷ []) (push c k)
unfolding push
push-Queued c k v = elim (Bool-cases (leb 255 (waiting k))) [
  | inl full ↦ rw (room_lem k v, full) (Queued-none v)
  | inr room ↦ rw (room_lem k v, room) (pushed c k v (ground arith))
]

-- the keys that shift and lock leave the queue alone
Queued-flags :
    (k : Keyboard) (left right caps : Bool)
    → IsValid k
    → Queued k [] (record k { left_shift = left; right_shift = right; caps_lock = caps })
unfolding content waiting
Queued-flags k left right caps v = record {
  valid = record { width = v.width; write_small = v.write_small; read_small = v.read_small };
  queue = sym (append_nil (content k));
  echo = sym (append_nil k.echoed);
}

release-Queued : (code : ℕ) (k : Keyboard) → IsValid k → Queued k [] (release code k)
unfolding release
release-Queued code k v =
    let flags = λ (left : Bool) (right : Bool) (caps : Bool). Queued-flags k left right caps v in
    elim (Bool-cases (code == 42)) [
      | inl here ↦ rw here (flags false k.right_shift k.caps_lock)
      | inr there ↦ elim (Bool-cases (code == 54)) [
        | inl here ↦ rw (there, here) (flags k.left_shift false k.caps_lock)
        | inr after ↦ elim (Bool-cases (code == 58)) [
          | inl here ↦ rw (there, after, here) (flags k.left_shift k.right_shift (not k.caps_lock))
          | inr other ↦ rw (there, after, other) (Queued-none v)
        ]
      ]
    ]

press-Queued :
    (code : ℕ) (k : Keyboard)
    → IsValid k
    → leb 128 code ≡ false
    → Queued k (accepted (typed code k) k) (press code k)
unfolding press typed accepted cased
press-Queued code k v key = elim (Bool-cases (code == 42)) [
  | inl here ↦ rw (key, here) (Queued-flags k true k.right_shift k.caps_lock v)
  | inr there ↦ elim (Bool-cases (code == 54)) [
    | inl here ↦ rw (key, there, here) (Queued-flags k k.left_shift true k.caps_lock v)
    | inr after ↦ elim (Bool-cases (get_or map code 0 == 0)) [
      | inl none_typed ↦ rw (key, there, after, none_typed) (Queued-none v)
      | inr some_typed ↦
          let shown : (cased (get_or map code 0) k == 0) ≡ false = ground arith in
          rw (key, there, after, some_typed, shown) (push-Queued (cased (get_or map code 0) k) k v)
    ]
  ]
]

accepted-release :
    (scancode : ℕ) (k : Keyboard) → leb 128 scancode ≡ true → accepted (typed scancode k) k ≡ []
unfolding typed accepted
accepted-release scancode k up = rw up

pub irq-Queued :
    (scancode : ℕ) (k : Keyboard)
    → IsValid k
    → Queued k (accepted (typed scancode k) k) (irq scancode k)
unfolding irq
irq-Queued scancode k v = elim (Bool-cases (leb 128 scancode)) [
  | inl up ↦ rw (up, accepted-release scancode k up) (release-Queued (scancode % 128) k v)
  | inr down ↦ rw down (press-Queued scancode k v down)
]
