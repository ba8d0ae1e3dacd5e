-- ===== src/Mm/Pmm.antt =====
-- mm/pmm.c: the physical page allocator, a bitmap with one bit for each 4 KB page of the first
-- gigabyte (1 is free). A `u32` of the bitmap is the list of its 32 bits, the lowest first.
-- The functions run under `pmm_lock` with interrupts off, so each is one step.
pub mod Bits
pub mod Flat
pub mod Inv
pub mod Alloc
pub mod Run
pub mod Contiguous
pub mod MarkUsed
pub mod Init
mod Tests
use ore_unix.Common.{
  ℕ, zero, suc, ◌+◌, ◌-◌, ◌*◌, ◌/◌, ◌%◌, ◌^◌, Bool, true, false, not, ◌&&◌, ◌||◌, Option, none,
  some, List, [], ◌∷◌, ltb, leb, ◌==◌, if◌then◌else◌, get_or, set, replicate, add32, sub32,
  page_size, align_down, align_up,
}

abbrev pub phys_mem_max : ℕ
phys_mem_max = 1024 * 1024 * 1024

abbrev pub bitmap_bits : ℕ
bitmap_bits = phys_mem_max / page_size

abbrev pub bitmap_words : ℕ
bitmap_words = bitmap_bits / 32

abbrev pub Word : Type 0
Word = List Bool

-- The static variables of the file.
pub record Pmm : Type 0 where
  pub bitmap : List Word
  pub total_pages_count : ℕ
  pub free_pages_count : ℕ

-- BIT_TST, BIT_SET and BIT_CLR.
pub bit_tst : List Word → ℕ → Bool
bit_tst bitmap i = get_or (get_or bitmap (i / 32) []) (i % 32) false

bit_put : Bool → List Word → ℕ → List Word
bit_put v bitmap i = set bitmap (i / 32) (set (get_or bitmap (i / 32) []) (i % 32) v)

pub bit_set : List Word → ℕ → List Word
unfolding bit_put
bit_set = bit_put true

pub bit_clr : List Word → ℕ → List Word
unfolding bit_put
bit_clr = bit_put false

-- `bitmap[w] != 0`
nonzero : Word → Bool
nonzero [] = false
nonzero (b ∷ bs) = b || nonzero bs

-- `__builtin_ctz`: the place of the lowest 1.
ctz : Word → ℕ
ctz [] = 0
ctz (true ∷ bs) = 0
ctz (false ∷ bs) = suc (ctz bs)

-- The loop of `pmm_alloc` over the words, from word `w` on.
pub scan_words : ℕ → List Word → Option ℕ
unfolding nonzero ctz
scan_words w [] = none
scan_words w (x ∷ xs) = if nonzero x then some (w * 32 + ctz x) else scan_words (w + 1) xs

pub pmm_alloc : Pmm → Pmm × ℕ
unfolding scan_words
pmm_alloc s = elim (scan_words 0 s.bitmap) [
  | none ↦ (s, 0)
  | some idx ↦ (
    record s { bitmap = bit_clr s.bitmap idx; free_pages_count = sub32 s.free_pages_count 1 },
    idx * page_size,
  )
]

pub pmm_free : Pmm → ℕ → Pmm
pmm_free s phys =
    if phys == 0 || leb phys_mem_max phys
    then s
    else if not (bit_tst s.bitmap (phys / page_size))
    then record s {
      bitmap = bit_set s.bitmap (phys / page_size);
      free_pages_count = add32 s.free_pages_count 1;
    }
    else s

-- The loop of `pmm_alloc_contiguous`, with `rounds` values of `i` left.
pub run_from : ℕ → List Word → ℕ → ℕ → ℕ → ℕ → Option ℕ
run_from zero bitmap n i found start = none
run_from (suc rounds) bitmap n i found start =
    if bit_tst bitmap i
    then (let start' = if found == 0 then i else start in
        let rest = run_from rounds bitmap n (i + 1) (found + 1) start' in
        if found + 1 == n then some start' else rest)
    else (let rest = run_from rounds bitmap n (i + 1) 0 start in rest)

-- `for (j = start; j < start + n; j++) BIT_CLR(j)`
pub clear_run : ℕ → List Word → ℕ → List Word
clear_run zero bitmap start = bitmap
clear_run (suc n) bitmap start = clear_run n (bit_clr bitmap start) (start + 1)

pub pmm_alloc_contiguous : Pmm → ℕ → Pmm × ℕ
pmm_alloc_contiguous s n =
    if n == 0 then (s, 0) else elim (run_from (bitmap_bits - 1) s.bitmap n 1 0 0) [
      | none ↦ (s, 0)
      | some start ↦ (
        record s {
          bitmap = clear_run n s.bitmap start;
          free_pages_count = sub32 s.free_pages_count n;
        },
        start * page_size,
      )
    ]

-- `for (i = 0; i < n; i++) pmm_free(phys + i * PAGE_SIZE)`
pub free_run : ℕ → Pmm → ℕ → ℕ → Pmm
free_run zero s phys i = s
free_run (suc rounds) s phys i =
    free_run rounds (pmm_free s (add32 phys (i * page_size))) phys (i + 1)

pub pmm_free_contiguous : Pmm → ℕ → ℕ → Pmm
unfolding free_run
pmm_free_contiguous s phys n = free_run n s phys 0

-- The body of the loop of `pmm_mark_used`, for the page that holds address `p`.
pub mark_page : Pmm → ℕ → Pmm
mark_page s p =
    if ltb (p / page_size) bitmap_bits && bit_tst s.bitmap (p / page_size)
    then record s {
      bitmap = bit_clr s.bitmap (p / page_size);
      free_pages_count =
          if s.free_pages_count == 0 then s.free_pages_count else sub32 s.free_pages_count 1;
    }
    else s

-- The loop, on fuel.
pub mark_from : ℕ → Pmm → ℕ → ℕ → Pmm
mark_from zero s p end = s
mark_from (suc fuel) s p end =
    let rest = mark_from fuel (mark_page s p) (add32 p page_size) end in
    if ltb p end then rest else s

-- The fuel is one more than the number of pages in the 32-bit address space.
pub pmm_mark_used : Pmm → ℕ → ℕ → Pmm
pmm_mark_used s start end =
    mark_from (2 ^ 20 + 1) s (align_down start page_size) (align_up end page_size)
