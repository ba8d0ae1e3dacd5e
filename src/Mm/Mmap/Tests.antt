-- ===== src/Mm/Mmap/Tests.antt =====
-- The theorems on mm/vmm.c on a machine whose map has one entry, with page 600 as a directory.
use ore_unix.Common.{
  ℕ, ◌+◌, ◌-◌, ◌*◌, ◌%◌, ◌^◌, ◌≤◌, ◌<◌, ◌≡◌, ◌≢◌, refl, ◌∙◌, ◌⊎◌, true, false, not, ◌&&◌, none,
  some, List, [], ◌∷◌, arith, leb, ◌==◌, if◌then◌else◌, page_size, length,
}
use ore_unix.Common.Errno.{enomem}
use ore_unix.Mm.Mmap.Areas.{outside}
use ore_unix.Mm.Mmap.Demand.{cleared-IsReached, page_fault_handler-maps, page_fault_handler_guards}
use ore_unix.Mm.Mmap.Unmap.{Cut, mm_munmap-Cut}
use ore_unix.Mm.Vmm.Reach.{IsReached}
use ore_unix.Mm.Mmap.{MmStruct, VmArea, mm_find_vma, mm_munmap, page_fault_handler, resumes}
use ore_unix.Mm.Pgdir.Create.{pgdir_create-shares}
use ore_unix.Mm.Pgdir.Fresh.{cleared, cleared-IsSpace}
use ore_unix.Mm.Pgdir.Kernel.{in_kernel, paging_init-maps}
use ore_unix.Mm.Pgdir.{kernel_virt_base, paging_init, pgdir_create}
use ore_unix.Mm.Pmm.Init.Boot.{pmm_init-IsValid}
use ore_unix.Mm.Pmm.Init.Entries.{IsMap}
use ore_unix.Mm.Pmm.Init.{MmapEntry, pmm_init}
use ore_unix.Mm.Pmm.Inv.{IsValid, bit_tst-bit_clr, count-bit_clr, free_pages_count-le}
use ore_unix.Mm.Pmm.Flat.{bit_clr-IsShaped}
use ore_unix.Mm.Pmm.{Pmm, bit_clr, bit_tst}
use ore_unix.Mm.Vmm.Entry.{IsSpace, frame}
use ore_unix.Mm.Vmm.Translate.{Retargets, map_page-Retargets}
use ore_unix.Mm.Vmm.{Machine, has_write, map_page, pte_addr, virt_to_phys_pd}

abbrev off : Pmm
off = record { bitmap = []; total_pages_count = 0; free_pages_count = 0 }

abbrev memory_map : List MmapEntry
memory_map = record { base_addr = 0x100000; len = 0x300000; type = 1 } ∷ []

memory_map-IsMap : IsMap memory_map
memory_map-IsMap = (omega arith, λ j c. ground arith, tt)

booted : Pmm
booted = pmm_init off (some memory_map) 0x200000

booted-IsValid : IsValid booted
unfolding booted
booted-IsValid =
    (pmm_init-IsValid off (some memory_map) 0x200000 refl memory_map-IsMap (omega arith)).0

booted_free : (j : ℕ) → 600 ≤ j → j < 700 → bit_tst booted.bitmap j ≡ true
unfolding booted
booted_free j lo hi =
    (pmm_init-IsValid off (some memory_map) 0x200000 refl memory_map-IsMap (omega arith)).1 j
    ∙ ground arith

booted-IsReached : IsReached booted
unfolding booted
booted-IsReached j free =
    let bits =
      (pmm_init-IsValid off (some memory_map) 0x200000 refl memory_map-IsMap (omega arith)).1 j in
    ground (arith, bits, free)

cleared_free : (j k : ℕ) → 600 ≤ j → j < 700 → j ≢ k → bit_tst (bit_clr booted.bitmap k) j ≡ true
cleared_free j k lo hi ne =
    bit_tst-bit_clr booted.bitmap k j booted-IsValid.shaped
    ∙ ground (arith, ne, booted_free j lo hi)

three_free : 3 ≤ booted.free_pages_count
three_free =
    let v = booted-IsValid in
    let one = bit_clr booted.bitmap 600 in
    let shaped_one = bit_clr-IsShaped booted.bitmap 600 v.shaped in
    let two = bit_clr one 601 in
    let free_602 : bit_tst two 602 ≡ true =
      (bit_tst-bit_clr one 601 602 shaped_one
        ∙ ground (arith, cleared_free 602 600 (omega arith) (omega arith) (omega arith))) in
    omega (
      arith,
      v.counted,
      count-bit_clr booted.bitmap 600 v.shaped (booted_free 600 (omega arith) (omega arith)),
      count-bit_clr one 601 shaped_one
          (cleared_free 601 600 (omega arith) (omega arith) (omega arith)),
      count-bit_clr two 602 (bit_clr-IsShaped one 601 shaped_one) free_602,
    )

abbrev machine : Machine
machine = record { pmm = booted; mem = λ a. 0; faulted = false }

paging_init-maps_example :
    (m' : Machine) × (pd : ℕ) × (paging_init machine ≡ some (m', pd))
    × IsSpace m' pd
    × ((va : ℕ)
        → va < 2 ^ 32
        → virt_to_phys_pd m' pd va ≡ (if in_kernel 0 1024 va then va - kernel_virt_base else 0))
paging_init-maps_example = paging_init-maps machine booted-IsValid (omega (arith, three_free))

-- Page 600 is an empty directory.
space : Machine
space = cleared machine 600

abbrev pd : ℕ
pd = 600 * 4096

space-IsSpace : IsSpace space pd
unfolding space
space-IsSpace =
    cleared-IsSpace machine 600 booted-IsValid (booted_free 600 (omega arith) (omega arith))

space_free : 2 ≤ space.pmm.free_pages_count
unfolding space
space_free = omega (arith, three_free, booted_count)
  where
    booted_count : booted.free_pages_count < 2 ^ 32
    booted_count = omega (arith, free_pages_count-le booted-IsValid.counts)

space-IsReached : IsReached space.pmm
unfolding space
space-IsReached = cleared-IsReached machine 600 booted-IsValid booted-IsReached

map_page-Retargets_example :
    (let r = map_page space pd 0x400000 0x700000 2 in
      ((r.1 ≡ none)
        × (r.0.faulted ≡ space.faulted)
        × IsSpace r.0 pd
        × Retargets space r.0 pd 0x400000 (λ va'. pte_addr 0x700000 + va' % page_size))
      ⊎ ((r ≡ (space, some enomem)) × (space.pmm.free_pages_count ≡ 0)))
map_page-Retargets_example =
    map_page-Retargets space pd 0x400000 0x700000 2 space-IsSpace space-IsReached (omega arith)

pgdir_create-shares_example :
    ((pgdir_create space pd ≡ (space, 0)) × (space.pmm.free_pages_count ≡ 0))
    ⊎ ((m' : Machine) × (dir : ℕ) × (pgdir_create space pd ≡ (m', dir))
        × (dir ≢ 0)
        × IsSpace m' dir
        × IsSpace m' pd
        × ((va : ℕ)
            → va < 2 ^ 32
            → (virt_to_phys_pd m' dir va
                ≡ (if leb kernel_virt_base va then virt_to_phys_pd space pd va else 0))
              × (virt_to_phys_pd m' pd va ≡ virt_to_phys_pd space pd va)))
pgdir_create-shares_example = pgdir_create-shares space pd space-IsSpace

abbrev heap : VmArea
heap = record { start = 0x400000; end_ = 0x404000; flags = 3 }

abbrev code : VmArea
code = record { start = 0x500000; end_ = 0x502000; flags = 5 }

abbrev mm : MmStruct
mm = record {
  pgdir = pd;
  vmas = heap ∷ code ∷ [];
  brk = 0x404000;
  start_brk = 0x400000;
  start_stack = 0xBFFFF000;
  map_count = 2;
}

mm_munmap-Cut_example :
    (let r = mm_munmap space mm 0x402000 0x1800 in
      Cut space r.0 pd 0x402000 0x404000
      × (r.1.vmas ≡ code ∷ [])
      × (length r.1.vmas ≡ r.1.map_count)
      × ((x : ℕ) → 0x402000 ≤ x → x < 0x404000 → mm_find_vma r.1.vmas x ≡ none))
unfolding outside
mm_munmap-Cut_example =
    mm_munmap-Cut space mm 0x402000 0x1800 space-IsSpace.tables refl (omega arith) refl
      (omega arith)

-- Error code 6 is a user's write to a page that is not present.
page_fault_handler-maps_example :
    (m' : Machine) × (page : ℕ) × (page_fault_handler space 0 (some mm) 0x400123 6 ≡ resumes m')
    × (m'.faulted ≡ space.faulted)
    × (bit_tst space.pmm.bitmap page ≡ true)
    × IsSpace m' pd
    × ((va : ℕ)
        → va < 2 ^ 32
        → virt_to_phys_pd m' pd va ≡ (
            if frame va == frame 0x400123
            then page * page_size + va % page_size
            else virt_to_phys_pd space pd va))
unfolding mm_find_vma
page_fault_handler-maps_example =
    page_fault_handler-maps space 0 0x400123 6 mm heap space-IsSpace space-IsReached space_free
      (omega arith) refl refl refl refl

-- The machine after that fault.
mapped : Machine
mapped = page_fault_handler-maps_example.0

page_fault_handler_guards_example :
    (s : MmStruct) × (v : VmArea) × (some mm ≡ some s)
    × (mm_find_vma s.vmas 0x400123 ≡ some v)
    × ((true && not (has_write v.flags)) ≡ false)
    × (false ≡ false)
unfolding mapped
page_fault_handler_guards_example =
    page_fault_handler_guards space mapped 0 0x400123 6 (some mm) refl
      page_fault_handler-maps_example.2
