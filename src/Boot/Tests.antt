-- ===== src/Boot/Tests.antt =====
-- Tests of the tables on small addresses.
use ore_unix.Common.Int.{pos}
use ore_unix.Common.{◌/◌, ◌==◌, ◌≡◌, refl, arith, [], ◌∷◌, true, false, none, some, replicate}
use ore_unix.Boot.Gdt.{blank_entry, gdt_init, gdt_init-IsFlat, IsFlat}
use ore_unix.Boot.Idt.{idt_init, idt_init-gates, is_open, offset_of, pic_remap}
use ore_unix.Boot.Irq.{
  irq_handler_dispatch, irq_register, irq_register-dispatch, irq_unregister, Lines, masked, vector,
}

gdt_init-IsFlat_example : IsFlat (gdt_init (replicate 6 blank_entry) 0xC0123456) 0xC0123456
gdt_init-IsFlat_example = gdt_init-IsFlat 0xC0123456 (omega arith)

-- The timer's vector.
idt_init-gates_example :
    (let g = idt_init (λ n. 4096) (λ n. 8192) 12288 32 in
      (offset_of g ≡ 8192) × (is_open g ≡ false) × ((g.type_attr / 128 == 1) ≡ true))
idt_init-gates_example =
    idt_init-gates (λ n. 4096) (λ n. 8192) 12288 32 (λ n. omega arith) (λ n. omega arith)
      (omega arith)

abbrev lines : Lines
lines = record {
  irq_handlers = replicate 16 none;
  pic = record { mask1 = replicate 8 true; mask2 = replicate 8 true };
}

irq_register-dispatch_example :
    (let l' = irq_register lines (pos 4) 4096 in
      (irq_handler_dispatch l' (vector 4) ≡ (some 4096, 32 ∷ []))
      × (masked l'.pic 4 ≡ some false)
      × (irq_handler_dispatch l' (vector 12) ≡ irq_handler_dispatch lines (vector 12))
      × (masked l'.pic 12 ≡ masked lines.pic 12))
irq_register-dispatch_example =
    irq_register-dispatch lines 4 4096 12 (record { sixteen = refl; eight1 = refl; eight2 = refl })
      (omega arith) (omega arith)

-- A removed handler leaves its line masked.
unregistered : irq_unregister (irq_register lines (pos 4) 4096) (pos 4) ≡ lines
unfolding irq_register irq_unregister
unregistered = refl

remapped :
    pic_remap 251 255 32 40
    ≡ (32, 17)
      ∷ (160, 17)
      ∷ (33, 32)
      ∷ (161, 40)
      ∷ (33, 4)
      ∷ (161, 2)
      ∷ (33, 1)
      ∷ (161, 1)
      ∷ (33, 251)
      ∷ (161, 255)
      ∷ []
unfolding pic_remap
remapped = refl
