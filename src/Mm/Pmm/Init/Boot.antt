-- ===== src/Mm/Pmm/Init/Boot.antt =====
-- mm/pmm.c: the state that `pmm_init` leaves.
use ore_unix.Common.{
  ℕ, zero, suc, ◌+◌, ◌-◌, ◌*◌, ◌/◌, ◌%◌, ◌^◌, ◌≤◌, ◌≡◌, refl, sym, ◌∙◌, Bool, false, Option, none,
  some, List, [], arith, ltb, leb, ◌&&◌, add32, page_size, align_up, replicate, All, length,
  length-replicate, get_or,
}
use ore_unix.Mm.Pmm.{Pmm, Word, bitmap_bits, bitmap_words, bit_tst, bit_clr, pmm_mark_used}
use ore_unix.Mm.Pmm.Bits.{count, count-zero_of_none, count-set_same, get_or-replicate-false}
use ore_unix.Mm.Pmm.Flat.{
  flat, IsShaped, bit_tst-flat, bit_clr-flat, bit_clr-IsShaped, length-bit_clr,
}
use ore_unix.Mm.Pmm.Inv.{IsCounted, IsValid, bit_tst-bit_clr}
use ore_unix.Mm.Pmm.MarkUsed.{Reserved, pmm_mark_used-Reserved}
use ore_unix.Mm.Pmm.Init.{MmapEntry, zero_bitmap, read_map, pmm_init}
use ore_unix.Mm.Pmm.Init.Entries.{add_range-Added, init_entries-bits, covers_any, IsMap}

module _ (n : ℕ) where
  bit_tst-zeros :
      (m i r : ℕ) → get_or (get_or (replicate m (replicate n false)) i []) r false ≡ false
  bit_tst-zeros zero i r = refl
  bit_tst-zeros (suc m) zero r = get_or-replicate-false n r
  bit_tst-zeros (suc m) (suc i) r = bit_tst-zeros m i r

  All-zeros : (m : ℕ) → All (λ (w : Word). length w ≡ n) (replicate m (replicate n false))
  All-zeros zero = tt
  All-zeros (suc m) = (length-replicate n false, All-zeros m)

bit_tst-zero_bitmap : (j : ℕ) → bit_tst zero_bitmap j ≡ false
unfolding bit_tst zero_bitmap
bit_tst-zero_bitmap j = bit_tst-zeros 32 bitmap_words (j / 32) (j % 32)

zero_bitmap-IsShaped : IsShaped zero_bitmap
unfolding zero_bitmap
zero_bitmap-IsShaped = All-zeros 32 bitmap_words

length-zero_bitmap : length zero_bitmap ≡ bitmap_words
unfolding zero_bitmap
length-zero_bitmap = length-replicate bitmap_words (replicate 32 false)

zero-IsCounted : (s : Pmm) → s.free_pages_count ≡ 0 → IsCounted (record s { bitmap = zero_bitmap })
zero-IsCounted s e = record {
  sized = length-zero_bitmap;
  shaped = zero_bitmap-IsShaped;
  counted =
      e
      ∙ sym (
          count-zero_of_none (flat zero_bitmap)
            (λ j. sym (bit_tst-flat zero_bitmap j zero_bitmap-IsShaped) ∙ bit_tst-zero_bitmap j));
}

-- What the map says of page `j`, the fallback included.
abbrev pub available : Option (List MmapEntry) → ℕ → Bool
available none j = leb 256 j && ltb j 16384
available (some es) j = covers_any es j

abbrev pub IsMap? : Option (List MmapEntry) → Type 0
IsMap? none = Unit {0}
IsMap? (some es) = IsMap es

read_map-bits :
    (s : Pmm) (mmap : Option (List MmapEntry))
    → s.free_pages_count ≡ 0
    → IsMap? mmap
    → IsCounted (read_map s mmap)
      × ((j : ℕ) → bit_tst (read_map s mmap).bitmap j ≡ (available mmap j && ltb j bitmap_bits))
unfolding read_map
read_map-bits s none e m =
    let all =
      add_range-Added (16384 - 256) (record s { bitmap = zero_bitmap }) 256 (zero-IsCounted s e)
        (λ j _. bit_tst-zero_bitmap j) (omega arith) in
    (all.keeps, λ j. all.bits j ∙ ground (arith, bit_tst-zero_bitmap j))
read_map-bits s (some es) e m =
    let all =
      init_entries-bits es (record s { bitmap = zero_bitmap }) (zero-IsCounted s e) m
        (λ j _. bit_tst-zero_bitmap j) in
    (all.0, λ j. all.1 j ∙ ground (arith, bit_tst-zero_bitmap j))

-- The first page after the kernel and its safety margin of 16 pages.
abbrev pub kernel_pages : ℕ → ℕ
kernel_pages kernel_phys_end = (kernel_phys_end + (page_size - 1)) / page_size + 16

-- `BIT_CLR(0)` on a bitmap whose page 0 is used already.
clear_zero-IsValid :
    (s : Pmm)
    → IsCounted s
    → bit_tst s.bitmap 0 ≡ false
    → IsValid (record s { bitmap = bit_clr s.bitmap 0 })
clear_zero-IsValid s v e =
    let same : count (flat (bit_clr s.bitmap 0)) ≡ count (flat s.bitmap) =
      (rw (bit_clr-flat s.bitmap 0 v.shaped)
        (count-set_same (flat s.bitmap) 0 (sym (bit_tst-flat s.bitmap 0 v.shaped) ∙ e))) in
    record {
      counts = record {
        sized = length-bit_clr s.bitmap 0 ∙ v.sized;
        shaped = bit_clr-IsShaped s.bitmap 0 v.shaped;
        counted = v.counted ∙ sym same;
      };
      page_zero = bit_tst-bit_clr s.bitmap 0 0 v.shaped ∙ ground arith;
    }

kernel-Reserved :
    (s : Pmm) (k : ℕ)
    → IsCounted s
    → k + 18 * page_size ≤ 2 ^ 32
    → Reserved s
        (pmm_mark_used s 0 (add32 (align_up k page_size) (page_size * 16)))
        0
        (kernel_pages k)
kernel-Reserved s k v h =
    let q : add32 (align_up k page_size) (page_size * 16) ≡ kernel_pages k * page_size =
      omega arith in
    let r : (kernel_pages k * page_size + page_size - 1) / page_size ≡ kernel_pages k =
      omega arith in
    rw q (rw r at (pmm_mark_used-Reserved s 0 (kernel_pages k * page_size) v (omega arith)))

-- From zeroed counters, and for a memory map whose entries lie below 4 GB and whose available
-- entries share no page (or the fallback), `pmm_init` leaves a valid allocator: the free pages are
-- those of the first gigabyte that the map makes available and that lie behind the kernel and its
-- margin, the free count is their number, and page 0 is used.
pub pmm_init-IsValid :
    (s : Pmm) (mmap : Option (List MmapEntry)) (kernel_phys_end : ℕ)
    → s.free_pages_count ≡ 0
    → IsMap? mmap
    → kernel_phys_end + 18 * page_size ≤ 2 ^ 32
    → IsValid (pmm_init s mmap kernel_phys_end)
      × ((j : ℕ)
          → bit_tst (pmm_init s mmap kernel_phys_end).bitmap j
            ≡ (available mmap j && ltb j bitmap_bits && leb (kernel_pages kernel_phys_end) j))
unfolding pmm_init
pmm_init-IsValid s mmap kernel_phys_end e m h =
    let read = read_map-bits s mmap e m in
    let kept = kernel-Reserved (read_map s mmap) kernel_phys_end read.0 h in
    let used : bit_tst marked.bitmap 0 ≡ false = kept.bits 0 ∙ ground arith in
    (
      clear_zero-IsValid marked kept.keeps used,
      λ j.
          bit_tst-bit_clr marked.bitmap 0 j kept.keeps.shaped
          ∙ ground (arith, kept.bits j, read.1 j),
    )
  where
    marked : Pmm
    marked =
        pmm_mark_used (read_map s mmap) 0
          (add32 (align_up kernel_phys_end page_size) (page_size * 16))
