-- ===== src/Mm/Vmm.antt =====
-- mm/vmm.c: page directories and page tables in physical memory, and `pmm_alloc_zero` of mm/pmm.c.
-- The translation buffer and the loading of CR3 are not modelled.
pub mod Entry
pub mod Stored
pub mod Table
pub mod Map
pub mod Translate
pub mod Reach
use ore_unix.Common.{
  ℕ, zero, suc, ◌+◌, ◌-◌, ◌*◌, ◌/◌, ◌%◌, Bool, true, false, ◌&&◌, ◌||◌, Option, none, some, ltb,
  leb, ◌==◌, if◌then◌else◌, add32, sub32, page_size, align_down,
}
use ore_unix.Common.Errno.{Errno, enomem}
use ore_unix.Mm.Pmm.{Pmm, pmm_alloc, pmm_free}

-- The page allocator and the physical memory, by words: word `w` is at the physical address `4 * w`,
-- which the kernel reaches at its virtual address `phys_to_virt`. `paging_init` maps 4 MB there
-- alone: an access to a page behind them is a page fault in the kernel, which panics; `faulted`
-- says that this has happened. Directories and tables come from `pmm_alloc_zero`, whose `memset` is
-- the first access to them.
pub record Machine : Type 0 where
  pub pmm : Pmm
  pub mem : ℕ → ℕ
  pub faulted : Bool

-- The physical memory that `paging_init` maps at KERNEL_VIRT_BASE.
abbrev pub window_size : ℕ
window_size = 4194304

abbrev pub write : (ℕ → ℕ) → ℕ → ℕ → ℕ → ℕ
write mem a v b = if b == a then v else mem b

abbrev pub store : Machine → ℕ → ℕ → Machine
store m a v = record m { mem = write m.mem a v }

-- `memset` of a page with 0.
abbrev pub clear_page : (ℕ → ℕ) → ℕ → ℕ → ℕ
clear_page mem phys a = if a / 1024 == phys / page_size then 0 else mem a

unfoldable pub pmm_alloc_zero : Machine → Machine × ℕ
pmm_alloc_zero m =
    let r = pmm_alloc m.pmm in
    if r.1 == 0 then (record m { pmm = r.0 }, 0) else (
      record m {
        pmm = r.0;
        mem = clear_page m.mem r.1;
        faulted = leb window_size r.1 || m.faulted;
      },
      r.1,
    )

-- PD_INDEX, PT_INDEX, PTE_ADDR and the tests of PDE_PRESENT and PTE_PRESENT.
abbrev pub pd_index : ℕ → ℕ
pd_index va = va / 4194304

abbrev pub pt_index : ℕ → ℕ
pt_index va = va / page_size % 1024

abbrev pub pte_addr : ℕ → ℕ
pte_addr e = align_down e page_size

abbrev pub is_present : ℕ → Bool
is_present e = e % 2 == 1

-- The words of the directory's entry, and of the entry in the table at `table`, for an address.
abbrev pub pde_at : ℕ → ℕ → ℕ
pde_at pd va = pd / 4 + pd_index va

abbrev pub pte_at : ℕ → ℕ → ℕ
pte_at table va = table / 4 + pt_index va

-- `get_pte` without and with `create`: the word of the entry, or `none` for NULL. A new table's
-- entry is PDE_PRESENT | PDE_WRITE | PDE_USER.
unfoldable pub find_pte : Machine → ℕ → ℕ → Option ℕ
find_pte m pd va =
    let pde = m.mem (pde_at pd va) in
    if is_present pde then some (pte_at (pte_addr pde) va) else none

unfoldable pub get_pte : Machine → ℕ → ℕ → Machine × Option ℕ
get_pte m pd va =
    let pde = m.mem (pde_at pd va) in
    let r = pmm_alloc_zero m in
    if is_present pde
    then (m, some (pte_at (pte_addr pde) va))
    else if r.1 == 0
    then (r.0, none)
    else (store r.0 (pde_at pd va) (r.1 + 7), some (pte_at r.1 va))

-- VM_WRITE, VM_USER and VM_NOCACHE, bits 1, 3 and 4.
abbrev pub has_write : ℕ → Bool
has_write flags = flags / 2 % 2 == 1

abbrev pub has_user : ℕ → Bool
has_user flags = flags / 8 % 2 == 1

abbrev pub has_nocache : ℕ → Bool
has_nocache flags = flags / 16 % 2 == 1

-- PTE_PRESENT with PTE_WRITE, PTE_USER and PTE_PCD: different bits, so their sum.
abbrev pub pte_flags : ℕ → ℕ
pte_flags flags =
    1
    + (if has_write flags then 2 else 0)
    + (if has_user flags then 4 else 0)
    + (if has_nocache flags then 16 else 0)

-- `map_page` after `get_pte`. The result is `none` for 0 or the error.
abbrev pub set_pte : Machine × Option ℕ → ℕ → ℕ → Machine × Option Errno
set_pte (m, none) pa flags = (m, some enomem)
set_pte (m, some a) pa flags = (store m a (pte_addr pa + pte_flags flags), none)

unfoldable pub map_page : Machine → ℕ → ℕ → ℕ → ℕ → Machine × Option Errno
map_page m pd va pa flags = set_pte (get_pte m pd va) pa flags

-- `n` pages, with `i` of them mapped already.
unfoldable pub map_pages_from : ℕ → ℕ → Machine → ℕ → ℕ → ℕ → ℕ → Machine × Option Errno
map_pages_from zero i m pd va pa flags = (m, none)
map_pages_from (suc n) i m pd va pa flags =
    let r = map_page m pd (add32 va (i * page_size)) (add32 pa (i * page_size)) flags in
    elim r.1 [ some e ↦ (r.0, some e) | none ↦ map_pages_from n (i + 1) r.0 pd va pa flags ]

unfoldable pub map_pages : Machine → ℕ → ℕ → ℕ → ℕ → ℕ → Machine × Option Errno
map_pages m pd va pa n flags = map_pages_from n 0 m pd va pa flags

unfoldable pub unmap_page : Machine → ℕ → ℕ → Machine
unmap_page m pd va = elim (find_pte m pd va) [
  | none ↦ m
  | some a ↦ if is_present (m.mem a) then store m a 0 else m
]

unfoldable pub unmap_pages_from : ℕ → ℕ → Machine → ℕ → ℕ → Machine
unmap_pages_from zero i m pd va = m
unmap_pages_from (suc n) i m pd va =
    unmap_pages_from n (i + 1) (unmap_page m pd (add32 va (i * page_size))) pd va

unfoldable pub unmap_pages : Machine → ℕ → ℕ → ℕ → Machine
unmap_pages m pd va n = unmap_pages_from n 0 m pd va

unfoldable pub virt_to_phys_pd : Machine → ℕ → ℕ → ℕ
virt_to_phys_pd m pd va = elim (find_pte m pd va) [
  | none ↦ 0
  | some a ↦ if is_present (m.mem a) then pte_addr (m.mem a) + va % page_size else 0
]
