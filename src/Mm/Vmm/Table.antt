-- ===== src/Mm/Vmm/Table.antt =====
-- mm/vmm.c, `get_pte`: a new page table.
use ore_unix.Common.{
  leb, ◌||◌, ℕ, ◌+◌, ◌*◌, ◌/◌, ◌^◌, ◌<◌, ◌≡◌, ◌≢◌, refl, sym, ap, ◌∙◌, true, false, ◌⊎◌, inl, inr,
  ◌==◌, if◌then◌else◌, Bool-cases, arith, page_size,
}
use ore_unix.Mm.Pmm.{bit_tst}
use ore_unix.Mm.Pmm.Inv
use ore_unix.Mm.Pmm.Alloc.{took}
use ore_unix.Mm.Vmm.{
  Machine, window_size, clear_page, is_present, pd_index, pde_at, pt_index, pte_addr, pte_at, store,
}
use ore_unix.Mm.Vmm.Entry.{
  IsSpace, entry, frame, page_of_pde, page_of_pte, pd_index-lt, write_ne, write_same,
}

module _ (m : Machine) (pd va k : ℕ) (s : IsSpace m pd) (low : va < 2 ^ 32)
    (gone : is_present (m.mem (pde_at pd va)) ≡ false) (free : bit_tst m.pmm.bitmap k ≡ true) where
  -- The machine after `get_pte` has made page `k` a table.
  unfoldable pub added : Machine
  added =
      store
        (record m {
          pmm = took m.pmm k;
          mem = clear_page m.mem (k * page_size);
          faulted = leb window_size (k * page_size) || m.faulted;
        })
        (pde_at pd va) (k * page_size + 7)

  used-ne : (j : ℕ) → bit_tst m.pmm.bitmap j ≡ false → j ≢ k
  used-ne j u e = let same = ap (bit_tst m.pmm.bitmap) e in cc

  added-clear : (w : ℕ) → w / 1024 ≢ k → clear_page m.mem (k * page_size) w ≡ m.mem w
  added-clear w ne =
      let e : (w / 1024 == k * page_size / page_size) ≡ false = ground (arith, ne) in rw e refl

  added-pde_other :
      (i : ℕ) → i < 1024 → i ≢ pd_index va → added.mem (pd / 4 + i) ≡ m.mem (pd / 4 + i)
  unfolding added
  added-pde_other i lt ne =
      let page = page_of_pde pd i s.aligned lt in
      write_ne (clear_page m.mem (k * page_size)) (pde_at pd va) (pd / 4 + i) (k * page_size + 7)
        (λ eq. ne (omega (arith, eq)))
      ∙ added-clear (pd / 4 + i) (λ eq. used-ne (frame pd) s.used (sym page ∙ eq))

  pub added-pde_here : added.mem (pde_at pd va) ≡ k * page_size + 7
  unfolding added
  added-pde_here = write_same (clear_page m.mem (k * page_size)) (pde_at pd va) (k * page_size + 7)

  -- A table's word, when the table is not the directory.
  added-other : (w : ℕ) → w / 1024 ≢ k → w / 1024 ≢ frame pd → added.mem w ≡ m.mem w
  unfolding added
  added-other w ne ne' =
      let page = page_of_pde pd (pd_index va) s.aligned (pd_index-lt va low) in
      write_ne (clear_page m.mem (k * page_size)) (pde_at pd va) w (k * page_size + 7)
        (λ eq. ne' (ap (λ x. x / 1024) eq ∙ page))
      ∙ added-clear w ne

  added-new : (w : ℕ) → w / 1024 ≡ k → added.mem w ≡ 0
  unfolding added
  added-new w eq =
      let page = page_of_pde pd (pd_index va) s.aligned (pd_index-lt va low) in
      let e : (w / 1024 == k * page_size / page_size) ≡ true = ground (arith, eq) in
      write_ne (clear_page m.mem (k * page_size)) (pde_at pd va) w (k * page_size + 7)
        (λ same. used-ne (frame pd) s.used (sym page ∙ ap (λ x. x / 1024) (sym same) ∙ eq))
      ∙ rw e refl

  added-pmm :
      (j : ℕ) → bit_tst added.pmm.bitmap j ≡ (if j == k then false else bit_tst m.pmm.bitmap j)
  unfolding added
  added-pmm j = Inv.bit_tst-bit_clr m.pmm.bitmap k j s.valid.shaped

  added-used : (j : ℕ) → bit_tst m.pmm.bitmap j ≡ false → bit_tst added.pmm.bitmap j ≡ false
  added-used j u = ground (arith, added-pmm j, u)

  added-IsValid : Inv.IsValid added.pmm
  unfolding added
  added-IsValid = Inv.take_page-IsValid k s.valid free

  -- A word of the directory.
  word_cases :
      (i : ℕ)
      → i < 1024
      → ((i ≡ pd_index va) × (added.mem (pd / 4 + i) ≡ k * page_size + 7))
        ⊎ ((i ≢ pd_index va) × (added.mem (pd / 4 + i) ≡ m.mem (pd / 4 + i)))
  word_cases i lt = elim (Bool-cases (i == pd_index va)) [
    | inl e ↦
        (let p : i ≡ pd_index va = ground (arith, e) in
          inl (p, ap (λ x. added.mem (pd / 4 + x)) p ∙ added-pde_here))
    | inr e ↦ (let p : i ≢ pd_index va = ground (arith, e) in inr (p, added-pde_other i lt p))
  ]

  added-separate :
      (i : ℕ)
      → i < 1024
      → is_present (added.mem (pd / 4 + i)) ≡ true
      → frame (added.mem (pd / 4 + i)) ≢ frame pd
  added-separate i lt p = elim (word_cases i lt) [
    | inl (here, e) ↦ λ eq. used-ne (frame pd) s.used (sym eq ∙ ap frame e ∙ omega arith)
    | inr (ne, e) ↦ λ eq. s.separate i lt (ap is_present (sym e) ∙ p) (ap frame (sym e) ∙ eq)
  ]

  added-table_used :
      (i : ℕ)
      → i < 1024
      → is_present (added.mem (pd / 4 + i)) ≡ true
      → bit_tst added.pmm.bitmap (frame (added.mem (pd / 4 + i))) ≡ false
  added-table_used i lt p = elim (word_cases i lt) [
    | inl (here, e) ↦
        (let f : frame (added.mem (pd / 4 + i)) ≡ k = ap frame e ∙ omega arith in
          ap (bit_tst added.pmm.bitmap) f ∙ added-pmm k ∙ ground arith)
    | inr (ne, e) ↦
        ap (λ w. bit_tst added.pmm.bitmap (frame w)) e
        ∙ added-used (frame (m.mem (pd / 4 + i))) (s.table_used i lt (ap is_present (sym e) ∙ p))
  ]

  -- The new table is no other entry's.
  new-ne :
      (j : ℕ)
      → j < 1024
      → is_present (m.mem (pd / 4 + j)) ≡ true
      → frame (k * page_size + 7) ≢ frame (m.mem (pd / 4 + j))
  new-ne j lt p eq =
      used-ne (frame (m.mem (pd / 4 + j))) (s.table_used j lt p) (sym eq ∙ omega arith)

  added-distinct :
      (i j : ℕ)
      → i < 1024
      → j < 1024
      → is_present (added.mem (pd / 4 + i)) ≡ true
      → is_present (added.mem (pd / 4 + j)) ≡ true
      → frame (added.mem (pd / 4 + i)) ≡ frame (added.mem (pd / 4 + j))
      → i ≡ j
  added-distinct i j lt lt' p q eq = elim (word_cases i lt) [
    | inl (here, e) ↦ elim (word_cases j lt') [
      | inl (here', e') ↦ here ∙ sym here'
      | inr (ne', e') ↦
          absurd (new-ne j lt' (ap is_present (sym e') ∙ q) (ap frame (sym e) ∙ eq ∙ ap frame e'))
    ]
    | inr (ne, e) ↦ elim (word_cases j lt') [
      | inl (here', e') ↦
          absurd (new-ne i lt (ap is_present (sym e) ∙ p) (ap frame (sym e') ∙ sym eq ∙ ap frame e))
      | inr (ne', e') ↦
          s.distinct i j lt lt' (ap is_present (sym e) ∙ p) (ap is_present (sym e') ∙ q)
            (ap frame (sym e) ∙ eq ∙ ap frame e')
    ]
  ]

  pub added-IsSpace : IsSpace added pd
  added-IsSpace = record {
    tables = record { aligned = s.aligned; separate = added-separate; distinct = added-distinct };
    valid = added-IsValid;
    used = added-used (frame pd) s.used;
    table_used = added-table_used;
  }

  pub added-entry : (va' : ℕ) → va' < 2 ^ 32 → entry added pd va' ≡ entry m pd va'
  unfolding entry
  added-entry va' low' = elim (word_cases (pd_index va') (pd_index-lt va' low')) [
    | inl (here, e) ↦
        (let there : is_present (k * page_size + 7) ≡ true = ground arith in
          let zero_word : added.mem (pte_at (pte_addr (k * page_size + 7)) va') ≡ 0 =
            added-new (pte_at (pte_addr (k * page_size + 7)) va') (omega arith) in
          let old : entry m pd va' ≡ 0 = rw (entry, here, gone) refl in
          rw (entry, e, there) zero_word ∙ sym old)
    | inr (ne, e) ↦ rw e (elim (Bool-cases (is_present (m.mem (pde_at pd va')))) [
      | inl there ↦
          (let i = pd_index va' in
            let lt = pd_index-lt va' low' in
            let page = page_of_pte (m.mem (pde_at pd va')) (pt_index va') (omega arith) in
            rw there (
              added-other (pte_at (pte_addr (m.mem (pde_at pd va'))) va')
                (λ eq.
                  used-ne (frame (m.mem (pde_at pd va'))) (s.table_used i lt there) (sym page ∙ eq))
                (λ eq. s.separate i lt there (sym page ∙ eq))))
      | inr absent ↦ rw absent refl
    ])
  ]
