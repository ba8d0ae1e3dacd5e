-- ===== src/Boot/Gdt.antt =====
-- boot/gdt_idt.c: the global descriptor table. The addresses are arguments.
use ore_unix.Common.{
  ℕ, ◌+◌, ◌*◌, ◌/◌, ◌%◌, ◌^◌, ◌<◌, ◌≡◌, refl, List, set, replicate, get_elem?, some, arith, ◌==◌,
  if◌then◌else◌,
}

-- `struct gdt_entry`, whose fields are 16 or 8 bits wide.
pub record GdtEntry : Type 0 where
  pub limit_low : ℕ
  pub base_low : ℕ
  pub base_mid : ℕ
  pub access : ℕ
  pub gran : ℕ
  pub base_high : ℕ

abbrev pub blank_entry : GdtEntry
blank_entry = record {
  limit_low = 0;
  base_low = 0;
  base_mid = 0;
  access = 0;
  gran = 0;
  base_high = 0;
}

-- The two halves of `gran` have no bit in common, so `|` is their sum.
unfoldable pub gdt_entry : ℕ → ℕ → ℕ → ℕ → GdtEntry
gdt_entry base limit access gran = record {
  limit_low = limit % 2 ^ 16;
  base_low = base % 2 ^ 16;
  base_mid = base / 2 ^ 16 % 256;
  access = access;
  gran = limit / 2 ^ 16 % 16 + gran / 16 % 16 * 16;
  base_high = base / 2 ^ 24 % 256;
}

unfoldable pub gdt_set_entry : List GdtEntry → ℕ → ℕ → ℕ → ℕ → ℕ → List GdtEntry
unfolding gdt_entry
gdt_set_entry gdt idx base limit access gran = set gdt idx (gdt_entry base limit access gran)

-- `gdt_init` up to `gdt_load`; the size of `struct tss` is 104.
unfoldable pub gdt_init : List GdtEntry → ℕ → List GdtEntry
unfolding gdt_set_entry
gdt_init gdt tss_base =
    let g0 = gdt_set_entry gdt 0 0 0 0 0 in
    let g1 = gdt_set_entry g0 1 0 0xFFFFFFFF 0x9A 0xCF in
    let g2 = gdt_set_entry g1 2 0 0xFFFFFFFF 0x92 0xCF in
    let g3 = gdt_set_entry g2 3 0 0xFFFFFFFF 0xFA 0xCF in
    let g4 = gdt_set_entry g3 4 0 0xFFFFFFFF 0xF2 0xCF in gdt_set_entry g4 5 tss_base 103 0x89 0

-- How the processor reads an entry: where the segment begins, its last byte, and the least
-- privilege that may use it.
abbrev pub base_of : GdtEntry → ℕ
base_of e = e.base_low + e.base_mid * 2 ^ 16 + e.base_high * 2 ^ 24

abbrev pub limit_of : GdtEntry → ℕ
limit_of e =
    let limit = e.limit_low + e.gran % 16 * 2 ^ 16 in
    if e.gran / 128 == 1 then limit * 4096 + 4095 else limit

abbrev pub privilege_of : GdtEntry → ℕ
privilege_of e = e.access / 32 % 4

-- An entry gives back its base, and its limit in bytes or, with the granularity bit, in pages.
pub base_of-gdt_entry :
    (base limit access gran : ℕ) → base < 2 ^ 32 → base_of (gdt_entry base limit access gran) ≡ base
unfolding gdt_entry
base_of-gdt_entry base limit access gran h = omega arith

pub limit_of-gdt_entry_bytes :
    (base limit access gran : ℕ)
    → limit < 2 ^ 20
    → gran < 128
    → limit_of (gdt_entry base limit access gran) ≡ limit
unfolding gdt_entry
limit_of-gdt_entry_bytes base limit access gran h low = ground arith

-- The table that `gdt_init` leaves: the four flat segments of 4 GB, two of them for user mode, and
-- the task state segment at its address with its size.
pub record IsFlat (gdt : List GdtEntry) (tss_base : ℕ) : Type 0 where
  pub kernel_code :
      (e : GdtEntry) × (get_elem? gdt 1 ≡ some e)
      × (base_of e ≡ 0)
      × (limit_of e ≡ 0xFFFFFFFF)
      × (privilege_of e ≡ 0)
  pub kernel_data :
      (e : GdtEntry) × (get_elem? gdt 2 ≡ some e)
      × (base_of e ≡ 0)
      × (limit_of e ≡ 0xFFFFFFFF)
      × (privilege_of e ≡ 0)
  pub user_code :
      (e : GdtEntry) × (get_elem? gdt 3 ≡ some e)
      × (base_of e ≡ 0)
      × (limit_of e ≡ 0xFFFFFFFF)
      × (privilege_of e ≡ 3)
  pub user_data :
      (e : GdtEntry) × (get_elem? gdt 4 ≡ some e)
      × (base_of e ≡ 0)
      × (limit_of e ≡ 0xFFFFFFFF)
      × (privilege_of e ≡ 3)
  pub task_state :
      (e : GdtEntry) × (get_elem? gdt 5 ≡ some e)
      × (base_of e ≡ tss_base)
      × (limit_of e ≡ 103)
      × (privilege_of e ≡ 0)

pub gdt_init-IsFlat :
    (tss_base : ℕ)
    → tss_base < 2 ^ 32
    → IsFlat (gdt_init (replicate 6 blank_entry) tss_base) tss_base
unfolding gdt_init
gdt_init-IsFlat tss_base h = record {
  kernel_code = (gdt_entry 0 0xFFFFFFFF 0x9A 0xCF, refl, refl, refl, refl);
  kernel_data = (gdt_entry 0 0xFFFFFFFF 0x92 0xCF, refl, refl, refl, refl);
  user_code = (gdt_entry 0 0xFFFFFFFF 0xFA 0xCF, refl, refl, refl, refl);
  user_data = (gdt_entry 0 0xFFFFFFFF 0xF2 0xCF, refl, refl, refl, refl);
  task_state =
      (gdt_entry tss_base 103 0x89 0, refl, base_of-gdt_entry tss_base 103 0x89 0 h, refl, refl);
}
