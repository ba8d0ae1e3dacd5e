-- ===== src/Mm/Pmm/Init.antt =====
-- mm/pmm.c: `pmm_init`, which fills the bitmap from the boot loader's memory map. The map is the
-- list of its entries, in place of the Multiboot2 tag's bytes, which are walked by `entry_size`.
pub mod Entries
pub mod Boot
use ore_unix.Common.{
  ℕ, zero, suc, ◌+◌, ◌-◌, ◌*◌, ◌/◌, ◌%◌, ◌^◌, ◌≤◌, ◌<◌, ◌≡◌, refl, sym, ap, ◌∙◌, ◌≢◌, ◌⊎◌, inl, inr,
  Bool, true, false, not, Option, none, some, List, [], ◌∷◌, arith, ltb, leb, ◌==◌, ◌&&◌, ◌||◌,
  if◌then◌else◌, Bool-cases, add32, sub32, page_size, align_up, align_down, replicate,
}
use ore_unix.Mm.Pmm.{Pmm, Word, bitmap_bits, bitmap_words, bit_tst, bit_set, bit_clr, pmm_mark_used}

pub record MmapEntry : Type 0 where
  pub base_addr : ℕ
  pub len : ℕ
  pub type : ℕ

-- `(uptr)ALIGN_UP(base, PAGE_SIZE)` and `(uptr)ALIGN_DOWN(base + len, PAGE_SIZE)`: the sums are
-- `u64`, and `uptr` keeps the low 32 bits.
pub page_base : MmapEntry → ℕ
page_base e = align_down ((e.base_addr + (page_size - 1)) % 2 ^ 64) page_size % 2 ^ 32

pub page_end : MmapEntry → ℕ
page_end e = align_down ((e.base_addr + e.len) % 2 ^ 64) page_size % 2 ^ 32

-- `BIT_SET(idx); total_pages_count++; free_pages_count++;`
pub add_page : Pmm → ℕ → Pmm
add_page s idx = record s {
  bitmap = bit_set s.bitmap idx;
  total_pages_count = add32 s.total_pages_count 1;
  free_pages_count = add32 s.free_pages_count 1;
}

-- `for (p = page_base; p < page_end; p += PAGE_SIZE)`, on fuel.
pub add_from : ℕ → Pmm → ℕ → ℕ → Pmm
add_from zero s p end = s
add_from (suc fuel) s p end =
    let s' = if ltb (p / page_size) bitmap_bits then add_page s (p / page_size) else s in
    let rest = add_from fuel s' (add32 p page_size) end in if ltb p end then rest else s

-- One entry of the map; type 1 is MB2_MEM_AVAILABLE.
pub init_entry : Pmm → MmapEntry → Pmm
init_entry s e = if e.type == 1 then add_from (2 ^ 20 + 1) s (page_base e) (page_end e) else s

pub init_entries : Pmm → List MmapEntry → Pmm
init_entries s [] = s
init_entries s (e ∷ es) = init_entries (init_entry s e) es

-- The fallback, `for (i = 256; i < 16384; i++)`, by the number of rounds.
pub add_range : ℕ → Pmm → ℕ → Pmm
add_range zero s i = s
add_range (suc rounds) s i = add_range rounds (add_page s i) (i + 1)

-- `memset(bitmap, 0, sizeof(bitmap))`
pub zero_bitmap : List Word
zero_bitmap = replicate bitmap_words (replicate 32 false)

pub read_map : Pmm → Option (List MmapEntry) → Pmm
read_map s none = add_range (16384 - 256) (record s { bitmap = zero_bitmap }) 256
read_map s (some es) = init_entries (record s { bitmap = zero_bitmap }) es

-- `kernel_phys_end` is the linker's `_kernel_phys_end`.
pub pmm_init : Pmm → Option (List MmapEntry) → ℕ → Pmm
pmm_init s mmap kernel_phys_end =
    let kend = align_up kernel_phys_end page_size in
    let marked = pmm_mark_used (read_map s mmap) 0 (add32 kend (page_size * 16)) in
    record marked { bitmap = bit_clr marked.bitmap 0 }

-- An available entry at or above 4 GB is taken for the one 4 GB below it, since `uptr` drops the
-- high bits: the allocator then hands out low pages that the map does not call available.
pub init_entry_wraps :
    (s : Pmm) (base len type : ℕ)
    → base + len + 2 ^ 32 + page_size < 2 ^ 64
    → init_entry s (record { base_addr = base + 2 ^ 32; len = len; type = type })
      ≡ init_entry s (record { base_addr = base; len = len; type = type })
unfolding init_entry page_base page_end
init_entry_wraps s base len type h =
    let lo : align_down ((base + 2 ^ 32 + (page_size - 1)) % 2 ^ 64) page_size % 2 ^ 32
        ≡ align_down ((base + (page_size - 1)) % 2 ^ 64) page_size % 2 ^ 32 =
      omega arith in
    let hi : align_down ((base + 2 ^ 32 + len) % 2 ^ 64) page_size % 2 ^ 32
        ≡ align_down ((base + len) % 2 ^ 64) page_size % 2 ^ 32 =
      omega arith in
    rw (lo, hi)
