-- ===== src/Boot/Idt.antt =====
-- boot/gdt_idt.c: the interrupt descriptor table, and the remapping of the interrupt controllers.
-- The addresses of the entry points in boot/boot.S are arguments; the table is a function of the
-- vector.
use ore_unix.Common.{
  ℕ, zero, suc, ◌+◌, ◌-◌, ◌*◌, ◌/◌, ◌%◌, ◌^◌, ◌<◌, ◌≡◌, refl, List, ◌∷◌, [], Bool, true, false,
  ◌&&◌, ◌||◌, ◌∙◌, ◌==◌, ltb, leb, if◌then◌else◌, arith, Bool-cases, inl, inr, if_both,
}

pub record Gate : Type 0 where
  pub offset_low : ℕ
  pub selector : ℕ
  pub zeroes : ℕ
  pub type_attr : ℕ
  pub offset_high : ℕ

abbrev pub no_gate : Gate
no_gate = record { offset_low = 0; selector = 0; zeroes = 0; type_attr = 0; offset_high = 0 }

abbrev pub Idt : Type 0
Idt = ℕ → Gate

abbrev pub seg_kcode : ℕ
seg_kcode = 8

abbrev pub gate : ℕ → ℕ → ℕ → Gate
gate base sel flags = record {
  offset_low = base % 2 ^ 16;
  selector = sel;
  zeroes = 0;
  type_attr = flags;
  offset_high = base / 2 ^ 16 % 2 ^ 16;
}

unfoldable pub idt_set_gate : Idt → ℕ → ℕ → ℕ → ℕ → Idt
idt_set_gate idt num base sel flags v = if v == num then gate base sel flags else idt v

-- The calls for `n` vectors from `first` on, in ascending order.
unfoldable pub set_gates : ℕ → ℕ → (ℕ → ℕ) → Idt → Idt
set_gates zero first entry idt = idt
set_gates (suc n) first entry idt =
    idt_set_gate (set_gates n first entry idt) (first + n) (entry n) seg_kcode 0x8E

-- The table that `idt_init` loads, from one that `memset` has cleared.
unfoldable pub idt_init : (ℕ → ℕ) → (ℕ → ℕ) → ℕ → Idt
idt_init isr irq syscall_entry =
    idt_set_gate (set_gates 16 32 irq (set_gates 32 0 isr (λ v. no_gate))) 128 syscall_entry
      seg_kcode 0xEE

-- The bytes that `pic_remap` writes, each to its port, after reading both masks.
unfoldable pub pic_remap : ℕ → ℕ → ℕ → ℕ → List (ℕ × ℕ)
pic_remap mask1 mask2 offset1 offset2 =
    (32, 17)
    ∷ (160, 17)
    ∷ (33, offset1)
    ∷ (161, offset2)
    ∷ (33, 4)
    ∷ (161, 2)
    ∷ (33, 1)
    ∷ (161, 1)
    ∷ (33, mask1)
    ∷ (161, mask2)
    ∷ []

set_gates-at :
    (n first : ℕ) (entry : ℕ → ℕ) (idt : Idt) (v : ℕ)
    → set_gates n first entry idt v ≡ (
        if leb first v && ltb v (first + n) then gate (entry (v - first)) seg_kcode 0x8E else idt v)
unfolding set_gates idt_set_gate
set_gates-at zero first entry idt v = ground arith
set_gates-at (suc n) first entry idt v = elim (Bool-cases (v == first + n)) [
  | inl e ↦
      (let at : v - first ≡ n = ground (arith, e) in
        let there : (leb first v && ltb v (first + suc n)) ≡ true = ground (arith, e) in
        rw (set_gates, idt_set_gate, e, there, at) refl)
  | inr ne ↦
      (let same : (leb first v && ltb v (first + suc n)) ≡ (leb first v && ltb v (first + n)) =
          ground (arith, ne) in
        rw (set_gates, idt_set_gate, ne, same) (set_gates-at n first entry idt v))
]

-- How the processor reads a gate.
abbrev pub offset_of : Gate → ℕ
offset_of g = g.offset_low + g.offset_high * 2 ^ 16

-- Present, and open to code of privilege 3.
abbrev pub is_open : Gate → Bool
is_open g = g.type_attr / 128 == 1 && g.type_attr / 32 % 4 == 3

-- The entry point of a vector, if it has one.
abbrev pub entry_of : (ℕ → ℕ) → (ℕ → ℕ) → ℕ → ℕ → ℕ
entry_of isr irq syscall_entry v =
    if ltb v 32 then isr v else if ltb v 48 then irq (v - 32) else syscall_entry

idt_init-at :
    (isr irq : ℕ → ℕ) (syscall_entry v : ℕ)
    → idt_init isr irq syscall_entry v ≡ (
        if v == 128
        then gate syscall_entry seg_kcode 0xEE
        else if ltb v 48
        then gate (entry_of isr irq syscall_entry v) seg_kcode 0x8E
        else no_gate)
unfolding idt_init idt_set_gate
idt_init-at isr irq syscall_entry v =
    let a = set_gates-at 16 32 irq (set_gates 32 0 isr (λ u. no_gate)) v in
    let b = set_gates-at 32 0 isr (λ u. no_gate) v in
    elim (Bool-cases (v == 128)) [
      | inl e ↦ rw (idt_init, idt_set_gate, e) refl
      | inr ne ↦ elim (Bool-cases (ltb v 48)) [
        | inl lt ↦ elim (Bool-cases (ltb v 32)) [
          | inl low ↦
              (let c : (leb 32 v && ltb v (32 + 16)) ≡ false = ground (arith, low) in
                let d : (leb 0 v && ltb v (0 + 32)) ≡ true = ground (arith, low) in
                let z : v - 0 ≡ v = omega arith in
                rw (idt_init, idt_set_gate, ne, lt) (a ∙ rw c (b ∙ rw (d, z, low) refl)))
          | inr high ↦
              (let c : (leb 32 v && ltb v (32 + 16)) ≡ true = ground (arith, lt, high) in
                rw (idt_init, idt_set_gate, ne, lt) (a ∙ rw (c, high) refl))
        ]
        | inr ge ↦
            (let c : (leb 32 v && ltb v (32 + 16)) ≡ false = ground (arith, ge) in
              let d : (leb 0 v && ltb v (0 + 32)) ≡ false = ground (arith, ge) in
              rw (idt_init, idt_set_gate, ne, ge) (a ∙ rw c (b ∙ rw d refl)))
      ]
    ]

offset_of-gate : (base sel flags : ℕ) → base < 2 ^ 32 → offset_of (gate base sel flags) ≡ base
offset_of-gate base sel flags h = omega arith

-- For entry points in 32 bits: after `idt_init` a vector below 48, and the vector 0x80, leads to
-- its own entry point and no other vector leads anywhere; 0x80 alone is open to user mode.
pub idt_init-gates :
    (isr irq : ℕ → ℕ) (syscall_entry v : ℕ)
    → ((n : ℕ) → isr n < 2 ^ 32)
    → ((n : ℕ) → irq n < 2 ^ 32)
    → syscall_entry < 2 ^ 32
    → (let g = idt_init isr irq syscall_entry v in
        (offset_of g ≡ (if ltb v 48 || v == 128 then entry_of isr irq syscall_entry v else 0))
        × (is_open g ≡ (v == 128))
        × ((g.type_attr / 128 == 1) ≡ (ltb v 48 || v == 128)))
idt_init-gates isr irq syscall_entry v low low' low'' =
    rw (idt_init-at isr irq syscall_entry v) (elim (Bool-cases (v == 128)) [
      | inl e ↦
          (let n : v ≡ 128 = ground (arith, e) in
            rw n (offset_of-gate syscall_entry seg_kcode 0xEE low'', refl, refl))
      | inr ne ↦ elim (Bool-cases (ltb v 48)) [
        | inl lt ↦
            rw (ne, lt)
              (
                offset_of-gate _ seg_kcode 0x8E
                    (if_both (λ n. n < 2 ^ 32) (ltb v 32) (low v) (low' (v - 32))),
                refl,
                refl,
              )
        | inr ge ↦ rw (ne, ge) (refl, refl, refl)
      ]
    ])
