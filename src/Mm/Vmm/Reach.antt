-- ===== src/Mm/Vmm/Reach.antt =====
-- mm/vmm.c: the pages that the kernel reaches at `phys_to_virt`.
use ore_unix.Common.{
  ℕ, ◌*◌, ◌<◌, ◌≡◌, ◌≢◌, refl, ap, ◌∙◌, Bool, true, false, ◌||◌, inl, inr, none, some, leb, ◌==◌,
  Bool-cases, arith, page_size, Option,
}
use ore_unix.Mm.Pmm.{Pmm, bit_tst}
use ore_unix.Mm.Pmm.Alloc.{pmm_alloc_cases}
use ore_unix.Mm.Vmm.Entry.{IsSpace}
use ore_unix.Mm.Vmm.Map.{pmm_alloc_zero_none, pmm_alloc_zero_some}
use ore_unix.Mm.Vmm.{
  Machine, get_pte, is_present, map_page, pde_at, pmm_alloc_zero, window_size, set_pte,
}

-- The free pages are below 4 MB.
abbrev pub IsReached : Pmm → Type 0
IsReached s = (k : ℕ) → bit_tst s.bitmap k ≡ true → k < 1024

pub reached_page : (k : ℕ) (b : Bool) → k < 1024 → (leb window_size (k * page_size) || b) ≡ b
reached_page k b low =
    let near : leb window_size (k * page_size) ≡ false = ground arith in rw near refl

-- `pmm_alloc_zero` does not fault while the free pages are below 4 MB.
pub pmm_alloc_zero_reaches :
    (m : Machine) (pd : ℕ)
    → IsSpace m pd
    → IsReached m.pmm
    → (pmm_alloc_zero m).0.faulted ≡ m.faulted
pmm_alloc_zero_reaches m pd s near = elim (pmm_alloc_cases m.pmm s.valid.shaped) [
  | inl (e, all_used) ↦ ap (λ r. r.0.faulted) (pmm_alloc_zero_none m e)
  | inr (k, e, free, first) ↦
      (let ne : k ≢ 0 = λ z. ground (arith, s.valid.page_zero) in
        ap (λ r. r.0.faulted) (pmm_alloc_zero_some m k ne e)
        ∙ reached_page k m.faulted (near k free))
]

get_pte_reaches :
    (m : Machine) (pd va : ℕ)
    → IsSpace m pd
    → IsReached m.pmm
    → (get_pte m pd va).0.faulted ≡ m.faulted
unfolding get_pte
get_pte_reaches m pd va s near =
    let zero = pmm_alloc_zero_reaches m pd s near in
    elim (Bool-cases (is_present (m.mem (pde_at pd va)))) [
      | inl here ↦ rw (get_pte, here) refl
      | inr gone ↦ elim (Bool-cases ((pmm_alloc_zero m).1 == 0)) [
        | inl full ↦ rw (get_pte, gone, full) zero
        | inr page ↦ rw (get_pte, gone, page) zero
      ]
    ]

set_pte_faulted :
    (r : Machine × Option ℕ) (pa flags : ℕ) → (set_pte r pa flags).0.faulted ≡ r.0.faulted
set_pte_faulted (m, none) pa flags = refl
set_pte_faulted (m, some a) pa flags = refl

pub map_page_reaches :
    (m : Machine) (pd va pa flags : ℕ)
    → IsSpace m pd
    → IsReached m.pmm
    → (map_page m pd va pa flags).0.faulted ≡ m.faulted
unfolding map_page
map_page_reaches m pd va pa flags s near =
    set_pte_faulted (get_pte m pd va) pa flags ∙ get_pte_reaches m pd va s near
