-- ===== src/Mm/Pgdir/Kernel.antt =====
-- mm/vmm.c, `paging_init`: the kernel's own mapping.
use ore_unix.Common.{
  ℕ, zero, suc, ◌+◌, ◌-◌, ◌*◌, ◌%◌, ◌^◌, ◌≤◌, ◌<◌, ◌≡◌, refl, sym, ap, ◌∙◌, Bool, true, false, ◌&&◌,
  inl, inr, ◌⊎◌, some, ltb, leb, ◌==◌, if◌then◌else◌, arith, page_size, add32,
}
use ore_unix.Mm.Pgdir.{kernel_virt_base, map_kernel, paging_init}
use ore_unix.Mm.Pgdir.Fresh.{cleared, cleared-IsSpace, cleared-virt, pmm_alloc_zero_cases}
use ore_unix.Mm.Pmm.Inv
use ore_unix.Mm.Vmm.Entry.{IsSpace, frame}
use ore_unix.Mm.Vmm.Translate.{map_page_succeeds}
use ore_unix.Mm.Vmm.{Machine, is_present, map_page, pde_at, virt_to_phys_pd}

-- The addresses of the `n` pages that are mapped from `p` on.
abbrev pub in_kernel : ℕ → ℕ → ℕ → Bool
in_kernel p n va = leb (kernel_virt_base + p) va && ltb va (kernel_virt_base + p + n * page_size)

-- What mapping the pages makes of a space.
record Mapped (m m' : Machine) (pd p n : ℕ) : Type 0 where
  space : IsSpace m' pd
  translation :
      (va : ℕ)
      → va < 2 ^ 32
      → virt_to_phys_pd m' pd va
        ≡ (if in_kernel p n va then va - kernel_virt_base else virt_to_phys_pd m pd va)

next_page :
    (p n va va0 x y : ℕ)
    → p % page_size ≡ 0
    → frame va0 ≡ frame (kernel_virt_base + p)
    → x ≡ (if frame va == frame va0 then p - p % page_size + va % page_size else y)
    → (if in_kernel (p + page_size) n va then va - kernel_virt_base else x)
      ≡ (if in_kernel p (suc n) va then va - kernel_virt_base else y)
next_page p n va va0 x y whole eq e = ground arith

map_kernel-Mapped :
    (n p : ℕ) (m : Machine) (pd : ℕ)
    → IsSpace m pd
    → (is_present (m.mem (pde_at pd kernel_virt_base)) ≡ true) ⊎ (0 < m.pmm.free_pages_count)
    → p % page_size ≡ 0
    → p + n * page_size ≤ 4194304
    → Mapped m (map_kernel n p m pd) pd p n
unfolding map_kernel
map_kernel-Mapped zero p m pd s can whole small = record {
  space = s;
  translation = λ va low. let e : in_kernel p 0 va ≡ false = ground arith in rw e refl;
}
map_kernel-Mapped (suc n) p m pd s can whole small =
    let va0 = add32 kernel_virt_base p in
    let here : va0 ≡ kernel_virt_base + p = omega arith in
    let index : pde_at pd va0 ≡ pde_at pd kernel_virt_base = omega arith in
    let can' : (is_present (m.mem (pde_at pd va0)) ≡ true) ⊎ (0 < m.pmm.free_pages_count) =
      rw index can in
    let one = map_page_succeeds m pd va0 p 2 s (omega arith) can' in
    let m1 = (map_page m pd va0 p 2).0 in
    let rest =
      map_kernel-Mapped n (p + page_size) m1 pd one.1
        (inl (ap (λ w. is_present (m1.mem w)) (sym index) ∙ one.3)) (omega arith) (omega arith) in
    record {
      space = rest.space;
      translation = λ va low.
          rest.translation va low
          ∙ next_page p n va va0 (virt_to_phys_pd m1 pd va) (virt_to_phys_pd m pd va) whole
              (ap frame here) (one.2.translation va low);
    }

-- From a valid allocator with two free pages, `paging_init` builds a kernel directory that maps
-- exactly the 4 MB from 0xC0000000 on, to the first 4 MB of physical memory.
pub paging_init-maps :
    (m : Machine)
    → Inv.IsValid m.pmm
    → 2 ≤ m.pmm.free_pages_count
    → (m' : Machine) × (pd : ℕ) × (paging_init m ≡ some (m', pd))
      × IsSpace m' pd
      × ((va : ℕ)
          → va < 2 ^ 32
          → virt_to_phys_pd m' pd va ≡ (if in_kernel 0 1024 va then va - kernel_virt_base else 0))
unfolding paging_init
paging_init-maps m v two = elim (pmm_alloc_zero_cases m v) [
  | inl (_, full) ↦ absurd (omega arith)
  | inr (k, e, ne, free, less) ↦
      (let pd = k * page_size in
        let start = cleared m k in
        let z : (pd == 0) ≡ false = ground (arith, ne) in
        let run =
          map_kernel-Mapped 1024 0 start pd (cleared-IsSpace m k v free) (inr (omega (arith, less)))
            refl (omega arith) in
        (
          map_kernel 1024 0 start pd,
          pd,
          rw (paging_init, e, z) refl,
          run.space,
          λ va low.
              run.translation va low
              ∙ ap (λ y. if in_kernel 0 1024 va then va - kernel_virt_base else y)
                  (cleared-virt m k va low),
        ))
]
