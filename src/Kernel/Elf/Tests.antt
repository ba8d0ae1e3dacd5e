-- ===== src/Kernel/Elf/Tests.antt =====
-- kernel/elf.c: a program with one segment over two pages.
use ore_unix.Mm.Vmm.{Machine, virt_to_phys_pd, find_pte}
use ore_unix.Common.{
  ◌+◌, ◌^◌, ◌≢◌, ◌<◌, ◌%◌, ◌/◌, ltb, ◌==◌, if◌then◌else◌, some, List, Bool-cases, inl, inr, arith,
  ℕ, ◌∷◌, [], true, false, ◌≡◌, refl, All,
}
use ore_unix.Kernel.Elf.{
  Copy, Ehdr, Phdr, is_program, is_loaded, page_count, load_range, segment_copies, copies,
}
use ore_unix.Kernel.Elf.Copies.{segment_copies-bytes, source_of, block_source, InPlace}

abbrev header : Ehdr
header = record { e_magic = 0x464C457F; e_class = 1; e_type = 2; e_machine = 3 }

abbrev text : Phdr
text = record {
  p_type = 1;
  p_offset = 148;
  p_vaddr = 0x8048FFA;
  p_filesz = 10;
  p_memsz = 12;
  p_flags = 5;
}

abbrev bss : Phdr
bss = record text { p_vaddr = 0x804A000; p_filesz = 4; p_memsz = 0 }

header_fits : is_program header ≡ true
unfolding is_program
header_fits = refl

arm_header : is_program (record header { e_machine = 40 }) ≡ false
unfolding is_program
arm_header = refl

text_pages : page_count text ≡ 2
unfolding page_count
text_pages = refl

empty_skipped : load_range 0 0 (text ∷ bss ∷ []) ≡ (0x8048000, 0x804A000)
unfolding load_range is_loaded
empty_skipped = refl

-- A directory at 0x1000 with one table, which leads to the pages 0x3000 and 0x4000 in turn.
abbrev mem : ℕ → ℕ
mem w = if ltb w 2048 then 0x2007 else if w % 2 == 0 then 0x3007 else 0x4007

abbrev machine : Machine
machine = record {
  pmm = record { bitmap = []; total_pages_count = 0; free_pages_count = 0 };
  mem = mem;
  faulted = false;
}

two_copies :
    segment_copies machine 0x1000 text
    ≡ some (
        record { to = 0x8048FFA; pa = 0x3FFA; from = 148; count = 6 }
        ∷ record { to = 0x8049000; pa = 0x4000; from = 154; count = 4 }
        ∷ [])
unfolding segment_copies copies virt_to_phys_pd find_pte
two_copies = refl

table_word : (a : ℕ) → ltb (2048 + a / 4096 % 1024) 2048 ≡ false
table_word a = ground arith

mapped_at :
    (a : ℕ)
    → a < 2 ^ 32
    → (virt_to_phys_pd machine 0x1000 a ≢ 0) × (virt_to_phys_pd machine 0x1000 a < 4194304)
unfolding virt_to_phys_pd find_pte
mapped_at a low =
    let pde : ltb (1024 + a / 4194304) 2048 ≡ true = ground (arith, low) in
    elim (Bool-cases ((2048 + a / 4096 % 1024) % 2 == 0)) [
      | inl e ↦
          rw (virt_to_phys_pd, find_pte, pde, table_word a, e) (λ z. omega (arith, z), omega arith)
      | inr e ↦
          rw (virt_to_phys_pd, find_pte, pde, table_word a, e) (λ z. omega (arith, z), omega arith)
    ]

segment_copies-bytes_example :
    (cs : List Copy) × (segment_copies machine 0x1000 text ≡ some cs)
    × ((a : ℕ) → source_of cs a ≡ block_source 10 0x8048FFA 148 a)
    × All (InPlace machine 0x1000) cs
segment_copies-bytes_example =
    segment_copies-bytes machine 0x1000 text (omega arith) (λ a lo hi. mapped_at a (omega arith))
