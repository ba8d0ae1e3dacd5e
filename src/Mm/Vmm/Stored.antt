-- ===== src/Mm/Vmm/Stored.antt =====
-- mm/vmm.c: a write to an entry in a page table.
use ore_unix.Common.{
  ℕ, ◌+◌, ◌/◌, ◌^◌, ◌<◌, ◌≡◌, ◌≢◌, refl, sym, ap, ◌∙◌, true, inl, inr, ◌==◌, if◌then◌else◌,
  Bool-cases, arith,
}
use ore_unix.Mm.Vmm.{Machine, is_present, pd_index, pde_at, pt_index, pte_addr, pte_at, store}
use ore_unix.Mm.Vmm.Entry.{
  IsSpace, IsTables, entry, frame, page_of_pde, page_of_pte, pd_index-lt, same_directory-IsSpace,
  same_directory-IsTables, write_ne, write_same,
}

module _ (m : Machine) (pd va v : ℕ) (s : IsTables m pd) (low : va < 2 ^ 32)
    (here : is_present (m.mem (pde_at pd va)) ≡ true) where
  -- The machine after a write to the entry for `va` in its table.
  abbrev pub stored : Machine
  stored = store m (pte_at (pte_addr (m.mem (pde_at pd va))) va) v

  stored-pde : (i : ℕ) → i < 1024 → stored.mem (pd / 4 + i) ≡ m.mem (pd / 4 + i)
  stored-pde i lt =
      let e = m.mem (pde_at pd va) in
      let t = s.separate (pd_index va) (pd_index-lt va low) here in
      write_ne m.mem (pte_at (pte_addr e) va) (pd / 4 + i) v (λ eq. t (
        sym (page_of_pte e (pt_index va) (omega arith))
        ∙ ap (λ w. w / 1024) (sym eq)
        ∙ page_of_pde pd i s.aligned lt))

  pub stored-IsTables : IsTables stored pd
  stored-IsTables = same_directory-IsTables m stored pd s stored-pde

  pub stored-IsSpace : IsSpace m pd → IsSpace stored pd
  stored-IsSpace space = same_directory-IsSpace m stored pd space refl stored-pde

  -- Where another address has its entry.
  other_word :
      (va' : ℕ)
      → va' < 2 ^ 32
      → is_present (m.mem (pde_at pd va')) ≡ true
      → frame va' ≢ frame va
      → pte_at (pte_addr (m.mem (pde_at pd va'))) va' ≢ pte_at (pte_addr (m.mem (pde_at pd va))) va
  other_word va' low' there ne eq =
      let e = m.mem (pde_at pd va) in
      let e' = m.mem (pde_at pd va') in
      let same_table : frame e' ≡ frame e =
        sym (page_of_pte e' (pt_index va') (omega arith))
        ∙ ap (λ w. w / 1024) eq
        ∙ page_of_pte e (pt_index va) (omega arith) in
      let same_index =
        s.distinct (pd_index va') (pd_index va) (pd_index-lt va' low') (pd_index-lt va low) there
          here same_table in
      ne (omega (arith, same_index, same_table, eq))

  pub stored-entry :
      (va' : ℕ)
      → va' < 2 ^ 32
      → entry stored pd va' ≡ (if frame va' == frame va then v else entry m pd va')
  unfolding entry
  stored-entry va' low' = elim (Bool-cases (frame va' == frame va)) [
    | inl e ↦
        (let p : pd_index va' ≡ pd_index va = ground (arith, e) in
          let q : pt_index va' ≡ pt_index va = ground (arith, e) in
          rw (e, p, q, stored-pde (pd_index va) (pd_index-lt va low), here)
            (write_same m.mem (pte_at (pte_addr (m.mem (pde_at pd va))) va) v))
    | inr e ↦
        rw (e, stored-pde (pd_index va') (pd_index-lt va' low'))
          (elim (Bool-cases (is_present (m.mem (pde_at pd va')))) [
            | inl there ↦ rw there (
                write_ne m.mem (pte_at (pte_addr (m.mem (pde_at pd va))) va)
                  (pte_at (pte_addr (m.mem (pde_at pd va'))) va') v
                  (other_word va' low' there (ground (arith, e))))
            | inr gone ↦ rw gone refl
          ])
  ]
