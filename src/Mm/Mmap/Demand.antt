-- ===== src/Mm/Mmap/Demand.antt =====
-- mm/vmm.c, `page_fault_handler`: pages on demand for user tasks.
use ore_unix.Common.{
  ℕ, ◌+◌, ◌*◌, ◌/◌, ◌%◌, ◌^◌, ◌≤◌, ◌<◌, ◌≡◌, ◌≢◌, refl, sym, ◌∙◌, Bool, true, false, not, ◌&&◌, inl,
  inr, none, some, Option, ◌==◌, if◌then◌else◌, arith, Bool-cases, page_size, align_down,
}
use ore_unix.Mm.Mmap.{
  MmStruct, VmArea, kills, mm_find_vma, page_fault_handler, resumes, user_fault, with_user,
}
use ore_unix.Mm.Pgdir.Fresh.{
  cleared, cleared-bits, pmm_alloc_zero_cases, spared-IsSpace, spared-virt,
}
use ore_unix.Mm.Pmm.Inv
use ore_unix.Mm.Pmm.{bit_tst}
use ore_unix.Mm.Vmm.Entry.{IsSpace, frame}
use ore_unix.Mm.Vmm.Reach.{IsReached, map_page_reaches, reached_page}
use ore_unix.Mm.Vmm.Translate.{map_page_succeeds}
use ore_unix.Mm.Vmm.{Machine, has_write, map_page, pmm_alloc_zero, pte_addr, virt_to_phys_pd}

handler-user :
    (m : Machine) (kpd addr err : ℕ) (mm : MmStruct)
    → (err / 4 % 2 == 1) ≡ true
    → page_fault_handler m kpd (some mm) addr err
      ≡ user_fault m mm.pgdir addr (err % 2 == 1) (err / 2 % 2 == 1) (mm_find_vma mm.vmas addr)
unfolding page_fault_handler
handler-user m kpd addr err mm user = rw (page_fault_handler, user) refl

user_fault-maps :
    (m : Machine) (pd addr k : ℕ) (write : Bool) (v : VmArea)
    → (write && not (has_write v.flags)) ≡ false
    → pmm_alloc_zero m ≡ (cleared m k, k * page_size)
    → k ≢ 0
    → user_fault m pd addr false write (some v)
      ≡ resumes
          (map_page
            (cleared m k)
            pd
            (align_down addr page_size)
            (k * page_size)
            (with_user v.flags)).0
unfolding user_fault
user_fault-maps m pd addr k write v allowed e ne =
    let z : (k * page_size == 0) ≡ false = ground (arith, ne) in rw (user_fault, allowed, e, z) refl

pub cleared-IsReached :
    (m : Machine) (k : ℕ) → Inv.IsValid m.pmm → IsReached m.pmm → IsReached (cleared m k).pmm
cleared-IsReached m k v near j free =
    near j (still (j == k) (bit_tst m.pmm.bitmap j) (sym (cleared-bits m k j v) ∙ free))
  where
    still : (b c : Bool) → (if b then false else c) ≡ true → c ≡ true
    still true c e = absurd (cc)
    still false c e = e

-- A user task's access to an address that is not mapped, in an area that allows the access: with
-- two pages free, and the free pages below 4 MB, the handler returns and does not fault, and the
-- address translates to a page that was free; the translation of no other page has changed.
pub page_fault_handler-maps :
    (m : Machine) (kpd addr err : ℕ) (mm : MmStruct) (v : VmArea)
    → IsSpace m mm.pgdir
    → IsReached m.pmm
    → 2 ≤ m.pmm.free_pages_count
    → addr < 2 ^ 32
    → (err / 4 % 2 == 1) ≡ true
    → (err % 2 == 1) ≡ false
    → mm_find_vma mm.vmas addr ≡ some v
    → ((err / 2 % 2 == 1) && not (has_write v.flags)) ≡ false
    → (m' : Machine) × (page : ℕ) × (page_fault_handler m kpd (some mm) addr err ≡ resumes m')
      × (m'.faulted ≡ m.faulted)
      × (bit_tst m.pmm.bitmap page ≡ true)
      × IsSpace m' mm.pgdir
      × ((va : ℕ)
          → va < 2 ^ 32
          → virt_to_phys_pd m' mm.pgdir va ≡ (
              if frame va == frame addr
              then page * page_size + va % page_size
              else virt_to_phys_pd m mm.pgdir va))
page_fault_handler-maps m kpd addr err mm v s near two low user absent found allowed =
    elim (pmm_alloc_zero_cases m s.valid) [
      | inl (_, full) ↦ absurd (omega arith)
      | inr (k, e, ne, free, less) ↦
          (let pd = mm.pgdir in
            let va0 = align_down addr page_size in
            let one =
              map_page_succeeds (cleared m k) pd va0 (k * page_size) (with_user v.flags)
                (spared-IsSpace m pd k s free) (omega arith) (inr (omega (arith, less))) in
            let m' = (map_page (cleared m k) pd va0 (k * page_size) (with_user v.flags)).0 in
            (
              m',
              k,
              handler-user m kpd addr err mm user
                  ∙ rw (absent, found)
                      (user_fault-maps m pd addr k (err / 2 % 2 == 1) v allowed e ne),
              map_page_reaches (cleared m k) pd va0 (k * page_size) (with_user v.flags)
                    (spared-IsSpace m pd k s free) (cleared-IsReached m k s.valid near)
                  ∙ reached_page k m.faulted (near k free),
              free,
              one.1,
              λ va low'.
                  one.2.translation va low'
                  ∙ retarget va addr k (virt_to_phys_pd (cleared m k) pd va)
                      (virt_to_phys_pd m pd va) (spared-virt m pd k s free va low'),
            ))
    ]
  where
    retarget :
        (va addr k x y : ℕ)
        → x ≡ y
        → (if frame va == frame (align_down addr page_size)
            then pte_addr (k * page_size) + va % page_size
            else x)
          ≡ (if frame va == frame addr then k * page_size + va % page_size else y)
    retarget va addr k x y e = ground arith

user_fault_guards :
    (m m' : Machine) (pd addr : ℕ) (present write : Bool) (o : Option VmArea)
    → user_fault m pd addr present write o ≡ resumes m'
    → (v : VmArea) × (o ≡ some v) × ((write && not (has_write v.flags)) ≡ false) × (present ≡ false)
unfolding user_fault
user_fault_guards m m' pd addr present write none e = absurd (cc)
user_fault_guards m m' pd addr present write (some v) e =
    elim (Bool-cases (write && not (has_write v.flags))) [
      | inl bad ↦ (let k = sym (refused_write m pd addr present write v bad) ∙ e in absurd (cc))
      | inr fine ↦ (v, refl, fine, absent_page m m' pd addr present write v fine e)
    ]
  where
    refused_write :
        (m : Machine) (pd addr : ℕ) (present write : Bool) (v : VmArea)
        → (write && not (has_write v.flags)) ≡ true
        → user_fault m pd addr present write (some v) ≡ kills m
    refused_write m pd addr present write v bad = rw (user_fault, bad) refl

    absent_page :
        (m m' : Machine) (pd addr : ℕ) (present write : Bool) (v : VmArea)
        → (write && not (has_write v.flags)) ≡ false
        → user_fault m pd addr present write (some v) ≡ resumes m'
        → present ≡ false
    absent_page m m' pd addr false write v fine e = refl
    absent_page m m' pd addr true write v fine e =
        let k : user_fault m pd addr true write (some v) ≡ kills m = rw (user_fault, fine) refl in
        let bad = sym k ∙ e in absurd (cc)

-- The handler returns to a user task only if an area holds the address, the access was no write or
-- the area may be written, and the page was not present.
pub page_fault_handler_guards :
    (m m' : Machine) (kpd addr err : ℕ) (mm : Option MmStruct)
    → (err / 4 % 2 == 1) ≡ true
    → page_fault_handler m kpd mm addr err ≡ resumes m'
    → (s : MmStruct) × (v : VmArea) × (mm ≡ some s)
      × (mm_find_vma s.vmas addr ≡ some v)
      × (((err / 2 % 2 == 1) && not (has_write v.flags)) ≡ false)
      × ((err % 2 == 1) ≡ false)
unfolding page_fault_handler
page_fault_handler_guards m m' kpd addr err none user e =
    let k : page_fault_handler m kpd none addr err ≡ kills m = rw (page_fault_handler, user) refl in
    let bad = sym k ∙ e in absurd (cc)
page_fault_handler_guards m m' kpd addr err (some s) user e =
    let g =
      user_fault_guards m m' s.pgdir addr (err % 2 == 1) (err / 2 % 2 == 1)
        (mm_find_vma s.vmas addr) (sym (handler-user m kpd addr err s user) ∙ e) in
    (s, g.0, refl, g.1, g.2, g.3)
