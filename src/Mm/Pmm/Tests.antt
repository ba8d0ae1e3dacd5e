-- ===== src/Mm/Pmm/Tests.antt =====
-- The theorems on mm/pmm.c at a machine with 128 MB, and runs of the code.
use ore_unix.Common.{
  ℕ, ◌*◌, ◌<◌, ◌≡◌, refl, ◌⊎◌, ◌↔◌, true, false, none, some, List, [], ◌∷◌, arith, ltb, leb, ◌&&◌,
}
use ore_unix.Mm.Pmm.{
  Pmm, bitmap_bits, bit_tst, bit_set, bit_clr, run_from, clear_run, mark_page, mark_from, pmm_alloc,
  pmm_free, pmm_alloc_contiguous, pmm_mark_used, pmm_free_contiguous,
}
use ore_unix.Mm.Pmm.Inv.{IsValid, count-bit_clr}
use ore_unix.Mm.Pmm.Alloc.{
  Allocated, pmm_alloc-Allocated, pmm_alloc_out_of_memory, pmm_free-pmm_alloc,
}
use ore_unix.Mm.Pmm.Contiguous.{AllocatedRun, NoRun, pmm_alloc_contiguous_first_fit}
use ore_unix.Mm.Pmm.MarkUsed.{Reserved, pmm_mark_used-Reserved}
use ore_unix.Mm.Pmm.Init.{MmapEntry, init_entry, pmm_init, init_entry_wraps}
use ore_unix.Mm.Pmm.Init.Entries.{covers_any, IsMap}
use ore_unix.Mm.Pmm.Init.Boot.{kernel_pages, pmm_init-IsValid}

abbrev off : Pmm
off = record { bitmap = []; total_pages_count = 0; free_pages_count = 0 }

-- Low memory, a reserved hole, and the memory from 1 MB up to 128 MB.
abbrev memory_map : List MmapEntry
memory_map =
    record { base_addr = 0; len = 0x9fc00; type = 1 }
    ∷ record { base_addr = 0x9fc00; len = 0x60400; type = 2 }
    ∷ record { base_addr = 0x100000; len = 0x7ee0000; type = 1 }
    ∷ []

memory_map-IsMap : IsMap memory_map
memory_map-IsMap = (
  omega arith,
  λ j c. ground arith,
  (omega arith, λ j c. ground arith, (omega arith, λ j c. refl, tt)),
)

-- The kernel ends at 2 MB.
booted : Pmm
booted = pmm_init off (some memory_map) 0x200000

pmm_init-IsValid_example :
    IsValid booted
    × ((j : ℕ)
        → bit_tst booted.bitmap j
          ≡ (covers_any memory_map j && ltb j bitmap_bits && leb (kernel_pages 0x200000) j))
unfolding booted
pmm_init-IsValid_example =
    pmm_init-IsValid off (some memory_map) 0x200000 refl memory_map-IsMap (omega arith)

booted-IsValid : IsValid booted
unfolding booted
booted-IsValid =
    (pmm_init-IsValid off (some memory_map) 0x200000 refl memory_map-IsMap (omega arith)).0

booted_free : bit_tst booted.bitmap 600 ≡ true
unfolding booted
booted_free =
    (pmm_init-IsValid off (some memory_map) 0x200000 refl memory_map-IsMap (omega arith)).1 600

booted_some_free : 0 < booted.free_pages_count
booted_some_free = omega (
  arith,
  booted-IsValid.counted,
  count-bit_clr booted.bitmap 600 booted-IsValid.shaped booted_free,
)

pmm_alloc-Allocated_example : Allocated booted (pmm_alloc booted).0 (pmm_alloc booted).1
pmm_alloc-Allocated_example = pmm_alloc-Allocated booted booted-IsValid booted_some_free

pmm_alloc_out_of_memory_example :
    (((pmm_alloc booted).1 ≡ 0) ↔ (booted.free_pages_count ≡ 0))
    × (booted.free_pages_count ≡ 0 → (pmm_alloc booted).0 ≡ booted)
pmm_alloc_out_of_memory_example = pmm_alloc_out_of_memory booted booted-IsValid

pmm_free-pmm_alloc_example : pmm_free (pmm_alloc booted).0 (pmm_alloc booted).1 ≡ booted
pmm_free-pmm_alloc_example = pmm_free-pmm_alloc booted booted-IsValid booted_some_free

pmm_alloc_contiguous_first_fit_example :
    AllocatedRun booted (pmm_alloc_contiguous booted 2).0 (pmm_alloc_contiguous booted 2).1 2
    ⊎ NoRun booted (pmm_alloc_contiguous booted 2).0 (pmm_alloc_contiguous booted 2).1 2
pmm_alloc_contiguous_first_fit_example =
    pmm_alloc_contiguous_first_fit booted 2 booted-IsValid (omega arith)

pmm_mark_used-Reserved_example : Reserved booted (pmm_mark_used booted 0x300010 0x305001) 768 774
pmm_mark_used-Reserved_example =
    pmm_mark_used-Reserved booted 0x300010 0x305001 booted-IsValid.counts (omega arith)

init_entry_wraps_example :
    init_entry off (record { base_addr = 0x100000000; len = 0x1000; type = 1 })
    ≡ init_entry off (record { base_addr = 0; len = 0x1000; type = 1 })
init_entry_wraps_example = init_entry_wraps off 0 0x1000 1 (omega arith)

-- A bitmap of two words with pages 33, 34 and 36 free, for runs.
abbrev small : Pmm
small = record {
  bitmap = (false ∷ false ∷ []) ∷ (false ∷ true ∷ true ∷ false ∷ true ∷ []) ∷ [];
  total_pages_count = 3;
  free_pages_count = 3;
}

alloc_runs : (pmm_alloc small).1 ≡ 33 * 4096
unfolding pmm_alloc bit_clr
alloc_runs = refl

alloc_free_runs : pmm_free (pmm_alloc small).0 (33 * 4096) ≡ small
unfolding pmm_alloc pmm_free bit_clr bit_set bit_tst
alloc_free_runs = refl

run_from_runs :
    (run_from 40 small.bitmap 2 1 0 0 ≡ some 33) × (run_from 40 small.bitmap 3 1 0 0 ≡ none)
unfolding run_from bit_tst
run_from_runs = (refl, refl)

free_contiguous_runs :
    (pmm_free_contiguous
      (record small { bitmap = clear_run 2 small.bitmap 33 })
      (33 * 4096)
      2).bitmap
    ≡ small.bitmap
unfolding pmm_free_contiguous clear_run pmm_free bit_clr bit_set bit_tst
free_contiguous_runs = refl

mark_from_runs : (mark_from 5 small (33 * 4096) (35 * 4096)).free_pages_count ≡ 1
unfolding mark_from mark_page bit_clr bit_tst
mark_from_runs = refl
