-- ===== src/Cpu/Apic/Route.antt =====
-- src/cpu/interrupts/interrupts.cpp: the way of a line to its handler.
use Prim.Native.Nat.{bit_or}
use fish_os.Base.{
  ℕ, ◌+◌, ◌*◌, ◌%◌, ◌^◌, ◌<◌, ◌≤◌, ◌≡◌, ◌≢◌, ◌⊎◌, inl, inr, refl, ap, ◌∙◌, Bool, true, false,
  Bool-cases, List, [], ◌∷◌, ◌++◌, Result, ok, panic, arith,
}
use fish_os.Base.Bits.{bit_or-zero, bit_or-disjoint}
use fish_os.Klib.Bitmap.{to_nat, get}
use fish_os.Cpu.Idt.{Idt, IdtHandler, load_idt_handler}
use fish_os.Cpu.Idt.Vectors.{Granted}
use fish_os.Cpu.Apic.{IoApic, Interrupts, write_reg, redir_low, set_redir_entry, serves, route}

to_nat-lt : (b : Bool) → to_nat b < 2
to_nat-lt true = omega arith
to_nat-lt false = omega arith

-- the bits of the entry for a vector lie apart
redir_low-sum :
    (vector : ℕ) (active_low level_trigger : Bool)
    → vector < 256
    → redir_low vector 0 false active_low level_trigger false
      ≡ vector + to_nat active_low * 2 ^ 13 + to_nat level_trigger * 2 ^ 15
unfolding redir_low
redir_low-sum vector active_low level_trigger h =
    let a = to_nat active_low in
    let small : a < 2 = to_nat-lt active_low in
    ap (λ x. bit_or (bit_or (bit_or (bit_or x 0) (a * 2 ^ 13)) (to_nat level_trigger * 2 ^ 15)) 0)
      (bit_or-zero vector)
    ∙ ap (λ x. bit_or (bit_or (bit_or x (a * 2 ^ 13)) (to_nat level_trigger * 2 ^ 15)) 0)
        (bit_or-zero vector)
    ∙ ap (λ x. bit_or (bit_or x (to_nat level_trigger * 2 ^ 15)) 0)
        (bit_or-disjoint 13 vector a (omega arith))
    ∙ bit_or-zero (bit_or (vector + a * 2 ^ 13) (to_nat level_trigger * 2 ^ 15))
    ∙ bit_or-disjoint 15 (vector + a * 2 ^ 13) (to_nat level_trigger) (omega (arith, small))

-- the controller with the two halves of the entry of line `gsi` written
unfoldable pub routed : ℕ → ℕ → Bool → Bool → ℕ → IoApic → IoApic
routed gsi vector active_low level_trigger lapic_id io = record io {
  writes =
      (io.writes
        ++ (
          (gsi * 2 + 0x10) % 2 ^ 32,
          vector + to_nat active_low * 2 ^ 13 + to_nat level_trigger * 2 ^ 15,
        )
          ∷ [])
      ++ ((gsi * 2 + 0x11) % 2 ^ 32, lapic_id % 2 ^ 8 * 2 ^ 24) ∷ [];
}

-- no controller of the list has the line
abbrev pub NoneServes : ℕ → List IoApic → Type 0
NoneServes gsi [] = Unit {0}
NoneServes gsi (io ∷ ios) = (serves gsi io ≡ false) × NoneServes gsi ios

-- the first controller that has the line gets its entry, and the others are as they were
pub record Reached (gsi vector : ℕ) (active_low level_trigger : Bool) (lapic_id : ℕ)
    (ios ios' : List IoApic) : Type 0 where
  pub before : List IoApic
  pub io : IoApic
  pub behind : List IoApic
  pub split : ios ≡ before ++ io ∷ behind
  pub first : NoneServes gsi before
  pub has_line : serves gsi io ≡ true
  pub result : ios' ≡ before ++ routed gsi vector active_low level_trigger lapic_id io ∷ behind

module _ (gsi vector : ℕ) (active_low level_trigger : Bool) (lapic_id : ℕ)
    (small : vector < 256) where
  set_redir_entry-routed :
      (io : IoApic)
      → set_redir_entry gsi vector 0 false active_low level_trigger false lapic_id io
        ≡ routed gsi vector active_low level_trigger lapic_id io
  unfolding set_redir_entry write_reg routed
  set_redir_entry-routed io =
      let low : redir_low vector 0 false active_low level_trigger false % 2 ^ 32
          ≡ vector + to_nat active_low * 2 ^ 13 + to_nat level_trigger * 2 ^ 15 =
        omega (
          arith,
          redir_low-sum vector active_low level_trigger small,
          to_nat-lt active_low,
          to_nat-lt level_trigger,
        ) in
      let high : lapic_id % 2 ^ 8 * 2 ^ 24 % 2 ^ 32 ≡ lapic_id % 2 ^ 8 * 2 ^ 24 = omega arith in
      rw (low, high) refl

  pub route-Reached :
      (ios : List IoApic)
      → Reached gsi vector active_low level_trigger lapic_id ios
          (route gsi vector active_low level_trigger lapic_id ios)
        ⊎ (NoneServes gsi ios × (route gsi vector active_low level_trigger lapic_id ios ≡ ios))
  unfolding route
  route-Reached [] = inr (tt, refl)
  route-Reached (io ∷ ios) = elim (Bool-cases (serves gsi io)) [
    | inl here ↦ inl (record {
      before = [];
      io = io;
      behind = ios;
      split = refl;
      first = tt;
      has_line = here;
      result = rw here (ap (λ x. x ∷ ios) (set_redir_entry-routed io));
    })
    | inr not_here ↦ elim (route-Reached ios) [
      | inl r ↦ inl (record {
        before = io ∷ r.before;
        io = r.io;
        behind = r.behind;
        split = ap (λ l. io ∷ l) r.split;
        first = (not_here, r.first);
        has_line = r.has_line;
        result = rw not_here (ap (λ l. io ∷ l) r.result);
      })
      | inr (none, same) ↦ inr ((not_here, none), rw not_here (ap (λ l. io ∷ l) same))
    ]
  ]

-- a free vector has the handler, and the line leads to it
pub record Registered (lapic_id gsi : ℕ) (active_low level_trigger : Bool) (handler : IdtHandler)
    (s s' : Interrupts) : Type 0 where
  pub vector : ℕ
  pub granted : (t : Idt) × (Granted s.idt vector t × (s'.idt ≡ load_idt_handler vector handler t))
  pub handled : s'.idt.handlers vector ≡ handler
  pub kept : (u : ℕ) → u ≢ vector → s'.idt.handlers u ≡ s.idt.handlers u
  pub reached :
      Reached gsi vector active_low level_trigger lapic_id s.ioapics s'.ioapics
      ⊎ (NoneServes gsi s.ioapics × (s'.ioapics ≡ s.ioapics))

-- a panic means that no vector is free
unfoldable pub Registers :
    ℕ → ℕ → Bool → Bool → IdtHandler → Interrupts → Result Interrupts → Type 0
Registers lapic_id gsi active_low level_trigger handler s (ok s') =
    Registered lapic_id gsi active_low level_trigger handler s s'
Registers lapic_id gsi active_low level_trigger handler s panic =
    (u : ℕ) → 32 ≤ u → u < 256 → get s.idt.bitmap u ≡ true
