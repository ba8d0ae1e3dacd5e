-- ===== src/Mm/Pgdir.antt =====
-- mm/vmm.c: `paging_init` and the creation, copy and destruction of page directories. The virtual
-- address at which the kernel reads physical memory is not modelled (see Mm/Vmm).
pub mod Fresh
pub mod Kernel
pub mod Create
use ore_unix.Common.{
  leb, ◌||◌, ℕ, zero, suc, ◌+◌, ◌-◌, ◌*◌, ◌/◌, ◌%◌, Bool, true, false, ◌&&◌, ◌||◌, Option, none,
  some, ltb, leb, ◌==◌, if◌then◌else◌, add32, page_size,
}
use ore_unix.Mm.Pmm.{pmm_alloc, pmm_free}
use ore_unix.Mm.Vmm.{window_size, Machine, is_present, map_page, pmm_alloc_zero, pte_addr, store}

abbrev pub kernel_virt_base : ℕ
kernel_virt_base = 0xC0000000

-- The loop of `paging_init` over `n` pages from `p` on; the flag is VM_WRITE.
unfoldable pub map_kernel : ℕ → ℕ → Machine → ℕ → Machine
map_kernel zero p m pd = m
map_kernel (suc n) p m pd =
    map_kernel n (p + page_size) (map_page m pd (add32 kernel_virt_base p) p 2).0 pd

-- `none` is a failed ASSERT; the value is `kernel_pgdir`.
unfoldable pub paging_init : Machine → Option (Machine × ℕ)
paging_init m =
    let r = pmm_alloc_zero m in if r.1 == 0 then none else some (map_kernel 1024 0 r.0 r.1, r.1)

-- `memcpy` of the entries 768 to 1023.
abbrev pub copy_kernel : (ℕ → ℕ) → ℕ → ℕ → ℕ → ℕ
copy_kernel mem from to a =
    if leb (to / 4 + 768) a && ltb a (to / 4 + 1024) then mem (from / 4 + (a - to / 4)) else mem a

-- Address 0 is the failure of this and of `pgdir_clone`.
unfoldable pub pgdir_create : Machine → ℕ → Machine × ℕ
pgdir_create m kernel_pgdir =
    let r = pmm_alloc_zero m in
    if r.1 == 0 then (r.0, 0) else (record r.0 { mem = copy_kernel r.0.mem kernel_pgdir r.1 }, r.1)

-- `memcpy` of a page.
abbrev pub copy_page : (ℕ → ℕ) → ℕ → ℕ → ℕ → ℕ
copy_page mem from to a = if a / 1024 == to / page_size then mem (from / 4 + a % 1024) else mem a

-- The inner loop of `pgdir_destroy`, over `n` entries of the table from `pi` on.
unfoldable pub free_table : ℕ → ℕ → Machine → ℕ → Machine
free_table zero pi m table = m
free_table (suc n) pi m table =
    let e = m.mem (table / 4 + pi) in
    free_table n (pi + 1)
      (if is_present e then record m { pmm = pmm_free m.pmm (pte_addr e) } else m) table

unfoldable pub free_tables : ℕ → ℕ → Machine → ℕ → Machine
free_tables zero di m pd = m
free_tables (suc n) di m pd =
    let e = m.mem (pd / 4 + di) in
    let freed = free_table 1024 0 m (pte_addr e) in
    free_tables n (di + 1)
      (if is_present e then record freed { pmm = pmm_free freed.pmm (pte_addr e) } else m) pd

unfoldable pub pgdir_destroy : Machine → ℕ → ℕ → Machine
pgdir_destroy m kernel_pgdir pd =
    let freed = free_tables 768 0 m pd in
    if pd == 0 || pd == kernel_pgdir then m else record freed { pmm = pmm_free freed.pmm pd }

-- The inner loop of `pgdir_clone`, over `n` entries from `pi` on; `false` is out of memory.
unfoldable pub clone_table : ℕ → ℕ → Machine → ℕ → ℕ → Machine × Bool
clone_table zero pi m from to = (m, true)
clone_table (suc n) pi m from to =
    let e = m.mem (from / 4 + pi) in
    let r = pmm_alloc m.pmm in
    let copied = record m {
      pmm = r.0;
      mem = copy_page m.mem (pte_addr e) r.1;
      faulted = leb window_size (pte_addr e) || (leb window_size r.1 || m.faulted);
    } in
    let next = clone_table n (pi + 1) (store copied (to / 4 + pi) (r.1 + e % page_size)) from to in
    let skipped = clone_table n (pi + 1) m from to in
    if is_present e then if r.1 == 0 then (record m { pmm = r.0 }, false) else next else skipped

-- The outer loop. On failure the directory is destroyed as far as it is linked.
unfoldable pub clone_tables : ℕ → ℕ → Machine → ℕ → ℕ → ℕ → Machine × ℕ
clone_tables zero di m kernel_pgdir from to = (m, to)
clone_tables (suc n) di m kernel_pgdir from to =
    let e = m.mem (from / 4 + di) in
    let r = pmm_alloc_zero m in
    let t = clone_table 1024 0 r.0 (pte_addr e) r.1 in
    let next =
      clone_tables n (di + 1) (store t.0 (to / 4 + di) (r.1 + e % page_size)) kernel_pgdir from
        to in
    let skipped = clone_tables n (di + 1) m kernel_pgdir from to in
    if is_present e
    then if r.1 == 0
      then (pgdir_destroy r.0 kernel_pgdir to, 0)
      else if t.1
      then next
      else (pgdir_destroy t.0 kernel_pgdir to, 0)
    else skipped

unfoldable pub pgdir_clone : Machine → ℕ → ℕ → Machine × ℕ
pgdir_clone m kernel_pgdir from =
    let r = pgdir_create m kernel_pgdir in
    if r.1 == 0 then (r.0, 0) else clone_tables 768 0 r.0 kernel_pgdir from r.1
