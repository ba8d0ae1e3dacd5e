-- ===== src/Mm/Vmm/Translate.antt =====
-- mm/vmm.c: what mapping and unmapping a page do to `virt_to_phys_pd`.
use ore_unix.Common.{
  ℕ, ◌+◌, ◌%◌, ◌^◌, ◌<◌, ◌≡◌, refl, sym, ap, ◌∙◌, Bool, true, false, ◌⊎◌, inl, inr, none, some,
  ◌==◌, if◌then◌else◌, Bool-cases, arith, page_size,
}
use ore_unix.Common.Errno.{enomem}
use ore_unix.Mm.Vmm.Entry.{IsSpace, IsTables, entry, frame, virt_to_phys_pd-entry}
use ore_unix.Mm.Vmm.Reach.{IsReached, map_page_reaches}
use ore_unix.Mm.Vmm.Map.{Updates, map_page-Updates, map_page_found, new_entry, stored-Updates}
use ore_unix.Mm.Vmm.{
  Machine, find_pte, get_pte, is_present, map_page, pd_index, pde_at, pt_index, pte_addr, pte_at,
  pte_flags, store, unmap_page, virt_to_phys_pd,
}

-- The physical address that an entry gives.
abbrev pub address : ℕ → ℕ → ℕ
address e va = if is_present e then pte_addr e + va % page_size else 0

new_entry-address :
    (pa flags va : ℕ) → address (new_entry pa flags) va ≡ pte_addr pa + va % page_size
new_entry-address pa flags va =
    let bound : (pte_flags flags < 4096) × (pte_flags flags % 2 ≡ 1) = ground arith in
    let here : is_present (new_entry pa flags) ≡ true = ground (arith, bound.1) in
    let low : pte_addr (new_entry pa flags) ≡ pte_addr pa = omega (arith, bound.0) in
    rw (here, low) refl

-- The translation of the addresses of one page changes, and no other.
pub record Retargets (m m' : Machine) (pd va : ℕ) (target : ℕ → ℕ) : Type 0 where
  pub tables : IsTables m' pd
  pub translation :
      (va' : ℕ)
      → va' < 2 ^ 32
      → virt_to_phys_pd m' pd va'
        ≡ (if frame va' == frame va then target va' else virt_to_phys_pd m pd va')

Updates-Retargets :
    (m m' : Machine) (pd va new : ℕ) → Updates m m' pd va new → Retargets m m' pd va (address new)
Updates-Retargets m m' pd va new u = record {
  tables = u.tables;
  translation = λ va' low.
      virt_to_phys_pd-entry m' pd va'
      ∙ ap (λ e. address e va') (u.entries va' low)
      ∙ address_if (frame va' == frame va) new (entry m pd va') va'
      ∙ if_both_eq (frame va' == frame va) refl (sym (virt_to_phys_pd-entry m pd va'));
}
  where
    address_if :
        (b : Bool) (x y va' : ℕ)
        → address (if b then x else y) va' ≡ (if b then address x va' else address y va')
    address_if true x y va' = refl
    address_if false x y va' = refl

    if_both_eq :
        {x y x' y' : ℕ} (b : Bool) → x ≡ x' → y ≡ y' → (if b then x else y) ≡ (if b then x' else y')
    if_both_eq true e f = e
    if_both_eq false e f = f

Retargets-same :
    (m m' : Machine) (pd va : ℕ) (f g : ℕ → ℕ)
    → ((x : ℕ) → f x ≡ g x)
    → Retargets m m' pd va f
    → Retargets m m' pd va g
Retargets-same m m' pd va f g same r = record {
  tables = r.tables;
  translation = λ va' low.
      r.translation va' low ∙ pick (virt_to_phys_pd m pd va') (frame va' == frame va) (same va');
}
  where
    pick : {x y : ℕ} (z : ℕ) (b : Bool) → x ≡ y → (if b then x else z) ≡ (if b then y else z)
    pick z true e = e
    pick z false e = refl

-- If the free pages are below 4 MB: `map_page` returns 0, and then exactly the addresses of that
-- page translate anew, to the page of `pa`, in tables that are still separate pages in use; or it
-- returns -ENOMEM, no page was free, and nothing has changed. It does not fault in either case.
pub map_page-Retargets :
    (m : Machine) (pd va pa flags : ℕ)
    → IsSpace m pd
    → IsReached m.pmm
    → va < 2 ^ 32
    → (let r = map_page m pd va pa flags in
        ((r.1 ≡ none)
          × (r.0.faulted ≡ m.faulted)
          × IsSpace r.0 pd
          × Retargets m r.0 pd va (λ va'. pte_addr pa + va' % page_size))
        ⊎ ((r ≡ (m, some enomem)) × (m.pmm.free_pages_count ≡ 0)))
map_page-Retargets m pd va pa flags s near low = elim (map_page-Updates m pd va pa flags s low) [
  | inl (e, space, u) ↦ inl (
    e,
    map_page_reaches m pd va pa flags s near,
    space,
    Retargets-same m (map_page m pd va pa flags).0 pd va (address (new_entry pa flags))
        (λ va'. pte_addr pa + va' % page_size) (new_entry-address pa flags)
        (Updates-Retargets m (map_page m pd va pa flags).0 pd va (new_entry pa flags) u),
  )
  | inr full ↦ inr full
]

pub same_page-entry :
    (m : Machine) (pd va va' : ℕ) → frame va' ≡ frame va → entry m pd va' ≡ entry m pd va
unfolding entry
same_page-entry m pd va va' e =
    let p : pd_index va' ≡ pd_index va = omega (arith, e) in
    let q : pt_index va' ≡ pt_index va = omega (arith, e) in rw (p, q) refl

-- Where a page has no translation, it may as well be unmapped.
absent-Retargets :
    (m : Machine) (pd va : ℕ)
    → IsTables m pd
    → is_present (entry m pd va) ≡ false
    → Retargets m m pd va (λ va'. 0)
absent-Retargets m pd va s gone = record {
  tables = s;
  translation = λ va' low. elim (Bool-cases (frame va' == frame va)) [
    | inl e ↦
        (let same = same_page-entry m pd va va' (ground (arith, e)) in
          rw (virt_to_phys_pd-entry m pd va', e, same, gone) refl)
    | inr e ↦ rw e refl
  ];
}

entry_present :
    (m : Machine) (pd va : ℕ)
    → is_present (m.mem (pde_at pd va)) ≡ true
    → entry m pd va ≡ m.mem (pte_at (pte_addr (m.mem (pde_at pd va))) va)
unfolding entry
entry_present m pd va here = rw (entry, here) refl

entry_absent :
    (m : Machine) (pd va : ℕ) → is_present (m.mem (pde_at pd va)) ≡ false → entry m pd va ≡ 0
unfolding entry
entry_absent m pd va gone = rw (entry, gone) refl

-- After `unmap_page` exactly the addresses of that page have no translation, in tables that are
-- still separate pages.
pub unmap_page-Retargets :
    (m : Machine) (pd va : ℕ)
    → IsTables m pd
    → va < 2 ^ 32
    → Retargets m (unmap_page m pd va) pd va (λ va'. 0)
unfolding unmap_page find_pte
unmap_page-Retargets m pd va s low = elim (Bool-cases (is_present (m.mem (pde_at pd va)))) [
  | inr gone ↦
      rw (unmap_page, find_pte, gone)
        (absent-Retargets m pd va s (ap is_present (entry_absent m pd va gone)))
  | inl here ↦
      (let a = pte_at (pte_addr (m.mem (pde_at pd va))) va in
        elim (Bool-cases (is_present (m.mem a))) [
          | inl mapped ↦
              rw (unmap_page, find_pte, here, mapped)
                (Updates-Retargets m (store m a 0) pd va 0 (stored-Updates m pd va 0 s low here))
          | inr gone ↦
              rw (unmap_page, find_pte, here, gone)
                (absent-Retargets m pd va s (ap is_present (entry_present m pd va here) ∙ gone))
        ])
]

-- An address that translates has a table.
pub entry-pde :
    (m : Machine) (pd va : ℕ)
    → is_present (entry m pd va) ≡ true
    → is_present (m.mem (pde_at pd va)) ≡ true
entry-pde m pd va e = elim (Bool-cases (is_present (m.mem (pde_at pd va)))) [
  | inl here ↦ here
  | inr gone ↦ (let z = ap is_present (entry_absent m pd va gone) in cc)
]

map_page-linked :
    (m : Machine) (pd va pa flags : ℕ)
    → is_present (m.mem (pde_at pd va)) ≡ true
    → (map_page m pd va pa flags).1 ≡ none
unfolding get_pte
map_page-linked m pd va pa flags here =
    ap (λ r. r.1)
      (map_page_found m m pd va pa flags (pte_at (pte_addr (m.mem (pde_at pd va))) va)
        (rw (get_pte, here) refl))

-- Mapping a page whose table is there, or with a free page left, succeeds and leaves its table
-- there.
pub map_page_succeeds :
    (m : Machine) (pd va pa flags : ℕ)
    → IsSpace m pd
    → va < 2 ^ 32
    → (is_present (m.mem (pde_at pd va)) ≡ true) ⊎ (0 < m.pmm.free_pages_count)
    → (let m' = (map_page m pd va pa flags).0 in
        ((map_page m pd va pa flags).1 ≡ none)
        × IsSpace m' pd
        × Retargets m m' pd va (λ va'. pte_addr pa + va' % page_size)
        × (is_present (m'.mem (pde_at pd va)) ≡ true))
map_page_succeeds m pd va pa flags s low can = elim (map_page-Updates m pd va pa flags s low) [
  | inr (e, full) ↦ elim can [
    | inl here ↦
        (let ok = map_page-linked m pd va pa flags here in let bad = ap (λ r. r.1) e in absurd (cc))
    | inr some_free ↦ absurd (omega arith)
  ]
  | inl (e, space, u) ↦
      (let m' = (map_page m pd va pa flags).0 in
        let bound : pte_flags flags % 2 ≡ 1 = ground arith in
        let self : (frame va == frame va) ≡ true = ground arith in
        let written : entry m' pd va ≡ new_entry pa flags = u.entries va low ∙ rw self refl in
        let odd : is_present (new_entry pa flags) ≡ true = ground (arith, bound) in
        (
          e,
          space,
          Retargets-same m m' pd va (address (new_entry pa flags))
              (λ va'. pte_addr pa + va' % page_size) (new_entry-address pa flags)
              (Updates-Retargets m m' pd va (new_entry pa flags) u),
          entry-pde m' pd va (ap is_present written ∙ odd),
        ))
]
