-- ===== src/Mm/Mmap.antt =====
-- mm/vmm.c: `struct mm_struct`, its areas, and the page fault handler. Whether the slab caches have
-- an object for a call is an argument of it.
pub mod Areas
pub mod Unmap
pub mod Demand
mod Tests
use ore_unix.Common.{
  ℕ, zero, suc, ◌+◌, ◌-◌, ◌*◌, ◌/◌, ◌%◌, ◌^◌, Bool, true, false, not, ◌&&◌, ◌||◌, Option, none,
  some, List, [], ◌∷◌, ◌++◌, ltb, leb, ◌==◌, if◌then◌else◌, add32, sub32, page_size, align_down,
  align_up,
}
use ore_unix.Common.Errno.{Errno, einval, enomem}
use ore_unix.Mm.Pgdir.{pgdir_clone, pgdir_create, pgdir_destroy}
use ore_unix.Mm.Pmm.{pmm_free}
use ore_unix.Mm.Vmm.{
  Machine, has_user, has_write, map_page, pmm_alloc_zero, pte_addr, unmap_page, virt_to_phys_pd,
}

-- `struct vm_area` without its list node; the list is in `MmStruct.vmas`.
pub record VmArea : Type 0 where
  pub start : ℕ
  pub end_ : ℕ
  pub flags : ℕ

pub record MmStruct : Type 0 where
  pub pgdir : ℕ
  pub vmas : List VmArea
  pub brk : ℕ
  pub start_brk : ℕ
  pub start_stack : ℕ
  pub map_count : ℕ

abbrev pub user_stack_top : ℕ
user_stack_top = 0xBFFFF000

unfoldable pub mm_create : Bool → Machine → ℕ → Machine × Option MmStruct
mm_create found m kernel_pgdir =
    let r = pgdir_create m kernel_pgdir in
    let start = 0x08048000 + 64 * 1024 * 1024 in
    if not found then (m, none) else if r.1 == 0 then (r.0, none) else (
      r.0,
      some (record {
        pgdir = r.1;
        vmas = [];
        brk = start;
        start_brk = start;
        start_stack = user_stack_top;
        map_count = 0;
      }),
    )

-- The areas and the structure go back to the slab caches.
unfoldable pub mm_destroy : Machine → ℕ → MmStruct → Machine
mm_destroy m kernel_pgdir mm = pgdir_destroy m kernel_pgdir mm.pgdir

-- The loop of `mm_clone`, with the areas that the cache has objects for; `none` is out of memory.
unfoldable pub clone_areas : List Bool → List VmArea → MmStruct → Option MmStruct
clone_areas found [] dst = some dst
clone_areas [] (v ∷ vs) dst = none
clone_areas (found ∷ more) (v ∷ vs) dst =
    let next =
      clone_areas more vs
        (record dst { vmas = dst.vmas ++ (v ∷ []); map_count = add32 dst.map_count 1 }) in
    if found then next else none

-- When an area finds no memory, `mm_destroy` frees the new directory.
abbrev pub finish_clone : Machine → ℕ → ℕ → Option MmStruct → Machine × Option MmStruct
finish_clone m kernel_pgdir pgdir none = (pgdir_destroy m kernel_pgdir pgdir, none)
finish_clone m kernel_pgdir pgdir (some mm) = (m, some mm)

unfoldable pub mm_clone : Bool → List Bool → Machine → ℕ → MmStruct → Machine × Option MmStruct
mm_clone found areas_found m kernel_pgdir src =
    let r = pgdir_clone m kernel_pgdir src.pgdir in
    if not found
    then (m, none)
    else if r.1 == 0
    then (r.0, none)
    else finish_clone r.0 kernel_pgdir r.1
        (clone_areas areas_found src.vmas (record src { pgdir = r.1; vmas = []; map_count = 0 }))

-- VM_USER with VM_WRITE and VM_READ of the flags.
abbrev pub mmap_flags : ℕ → ℕ
mmap_flags flags = 8 + (if has_write flags then 2 else 0) + flags % 2

-- The loop of `mm_mmap`, on fuel; `false` is out of memory. The result of `map_page` is not used.
unfoldable pub mmap_from : ℕ → Machine → ℕ → ℕ → ℕ → ℕ → Machine × Bool
mmap_from zero m pd p end flags = (m, true)
mmap_from (suc fuel) m pd p end flags =
    let r = pmm_alloc_zero m in
    let next =
      mmap_from fuel (map_page r.0 pd p r.1 (mmap_flags flags)).0 pd (add32 p page_size) end
        flags in
    if ltb p end then if r.1 == 0 then (r.0, false) else next else (m, true)

-- One more than the pages of the address space.
abbrev pub rounds : ℕ
rounds = 2 ^ 20 + 1

-- `found` is whether there is an object for the new area.
unfoldable pub mm_mmap : Bool → Machine → MmStruct → ℕ → ℕ → ℕ → Machine × MmStruct × Option Errno
mm_mmap found m mm addr len flags =
    let end = add32 addr (align_up len page_size) in
    let r = mmap_from rounds m mm.pgdir addr end flags in
    let area : VmArea = record { start = addr; end_ = end; flags = flags } in
    if r.1
    then if found
      then (
        r.0,
        record mm { vmas = mm.vmas ++ (area ∷ []); map_count = add32 mm.map_count 1 },
        none,
      )
      else (r.0, mm, some enomem)
    else (r.0, mm, some enomem)

-- One page of `mm_munmap`.
unfoldable pub munmap_page : Machine → ℕ → ℕ → Machine
munmap_page m pd p =
    let phys = virt_to_phys_pd m pd p in
    unmap_page (if phys == 0 then m else record m { pmm = pmm_free m.pmm (pte_addr phys) }) pd p

unfoldable pub munmap_from : ℕ → Machine → ℕ → ℕ → ℕ → Machine
munmap_from zero m pd p end = m
munmap_from (suc fuel) m pd p end =
    let next = munmap_from fuel (munmap_page m pd p) pd (add32 p page_size) end in
    if ltb p end then next else m

abbrev pub misses : VmArea → ℕ → ℕ → Bool
misses v addr end = leb v.end_ addr || leb end v.start

unfoldable pub remove_areas : List VmArea → ℕ → ℕ → ℕ → List VmArea × ℕ
remove_areas [] addr end count = ([], count)
remove_areas (v ∷ vs) addr end count =
    let rest = remove_areas vs addr end (if misses v addr end then count else sub32 count 1) in
    (if misses v addr end then v ∷ rest.0 else rest.0, rest.1)

unfoldable pub mm_munmap : Machine → MmStruct → ℕ → ℕ → Machine × MmStruct
mm_munmap m mm addr len =
    let end = add32 addr (align_up len page_size) in
    let areas = remove_areas mm.vmas addr end mm.map_count in
    (munmap_from rounds m mm.pgdir addr end, record mm { vmas = areas.0; map_count = areas.1 })

abbrev pub set_brk : Machine × MmStruct × Option Errno → ℕ → Machine × MmStruct × Option Errno
set_brk (m, mm, none) new_brk = (m, record mm { brk = new_brk }, none)
set_brk (m, mm, some e) new_brk = (m, mm, some e)

unfoldable pub mm_brk : Bool → Machine → MmStruct → ℕ → Machine × MmStruct × Option Errno
mm_brk found m mm brk =
    let new_brk = align_up brk page_size in
    let less = mm_munmap m mm new_brk (sub32 mm.brk new_brk) in
    if ltb new_brk mm.start_brk
    then (m, mm, some einval)
    else if ltb mm.brk new_brk
    then set_brk (mm_mmap found m mm mm.brk (sub32 new_brk mm.brk) 3) new_brk
    else if ltb new_brk mm.brk
    then (less.0, record less.1 { brk = new_brk }, none)
    else (m, record mm { brk = new_brk }, none)

abbrev pub contains : VmArea → ℕ → Bool
contains v addr = leb v.start addr && ltb addr v.end_

unfoldable pub mm_find_vma : List VmArea → ℕ → Option VmArea
mm_find_vma [] addr = none
mm_find_vma (v ∷ vs) addr = if contains v addr then some v else mm_find_vma vs addr

-- How the page fault handler ends: it returns, it sends SIGSEGV to the current task, or it panics.
pub data Fault : Type 0 where
  resumes : Machine → Fault
  kills : Machine → Fault
  panics : Machine → Fault

-- `vma->flags | VM_USER`
abbrev pub with_user : ℕ → ℕ
with_user flags = if has_user flags then flags else flags + 8

abbrev pub kernel_heap_start : ℕ
kernel_heap_start = 0xD0000000

-- A fault in the kernel: its heap gets its pages on demand.
unfoldable pub kernel_fault : Machine → ℕ → ℕ → Bool → Fault
kernel_fault m kernel_pgdir addr present =
    let r = pmm_alloc_zero m in
    if leb kernel_heap_start addr && ltb addr (kernel_heap_start + 64 * 1024 * 1024) && not present
    then if r.1 == 0
      then panics r.0
      else resumes (map_page r.0 kernel_pgdir (align_down addr page_size) r.1 2).0
    else panics m

-- A fault of a user task, in the area that holds the address, if there is one.
unfoldable pub user_fault : Machine → ℕ → ℕ → Bool → Bool → Option VmArea → Fault
user_fault m pd addr present write none = kills m
user_fault m pd addr present write (some v) =
    let r = pmm_alloc_zero m in
    if write && not (has_write v.flags)
    then kills m
    else if present
    then kills m
    else if r.1 == 0
    then kills r.0
    else resumes (map_page r.0 pd (align_down addr page_size) r.1 (with_user v.flags)).0

-- The handler, for a current task with or without an `mm`. The bits of the error code are present,
-- write and user.
unfoldable pub page_fault_handler : Machine → ℕ → Option MmStruct → ℕ → ℕ → Fault
page_fault_handler m kernel_pgdir mm addr err =
    let present = err % 2 == 1 in
    let write = err / 2 % 2 == 1 in
    if err / 4 % 2 == 1
    then elim mm [
      | none ↦ kills m
      | some s ↦ user_fault m s.pgdir addr present write (mm_find_vma s.vmas addr)
    ]
    else kernel_fault m kernel_pgdir addr present
