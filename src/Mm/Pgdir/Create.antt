-- ===== src/Mm/Pgdir/Create.antt =====
-- mm/vmm.c, `pgdir_create`: a new directory shares the kernel's tables.
use ore_unix.Common.{
  ℕ, ◌+◌, ◌-◌, ◌*◌, ◌/◌, ◌^◌, ◌≤◌, ◌<◌, ◌≡◌, ◌≢◌, refl, sym, ap, ◌∙◌, Bool, true, false, ◌&&◌, inl,
  inr, ◌⊎◌, ◌==◌, leb, ltb, if◌then◌else◌, arith, page_size, Bool-cases,
}
use ore_unix.Mm.Pgdir.Fresh.{cleared, cleared-bits, cleared-IsValid, pmm_alloc_zero_cases}
use ore_unix.Mm.Pgdir.{copy_kernel, kernel_virt_base, pgdir_create}
use ore_unix.Mm.Pmm.{bit_tst}
use ore_unix.Mm.Pmm.Inv
use ore_unix.Mm.Vmm.Entry.{
  IsSpace, entry, frame, page_of_pde, page_of_pte, pd_index-lt, same_directory-IsTables,
  virt_to_phys_pd-entry,
}
use ore_unix.Mm.Vmm.Translate.{address}
use ore_unix.Mm.Vmm.{
  Machine, is_present, pd_index, pde_at, pt_index, pte_addr, pte_at, virt_to_phys_pd,
}

-- The translation of an address whose entry is another's, or 0.
entry-virt :
    (m' m : Machine) (pd' pd va : ℕ) (b : Bool)
    → entry m' pd' va ≡ (if b then entry m pd va else 0)
    → virt_to_phys_pd m' pd' va ≡ (if b then virt_to_phys_pd m pd va else 0)
entry-virt m' m pd' pd va true e =
    virt_to_phys_pd-entry m' pd' va ∙ ap (λ x. address x va) e ∙ sym (virt_to_phys_pd-entry m pd va)
entry-virt m' m pd' pd va false e = virt_to_phys_pd-entry m' pd' va ∙ ap (λ x. address x va) e

module _ (m : Machine) (kpd k : ℕ) (s : IsSpace m kpd) (free : bit_tst m.pmm.bitmap k ≡ true) where
  -- The machine after `pgdir_create` has made page `k` a directory.
  made : Machine
  made = record m {
    pmm = (cleared m k).pmm;
    mem = copy_kernel (cleared m k).mem kpd (k * page_size);
    faulted = (cleared m k).faulted;
  }

  used-ne : (j : ℕ) → bit_tst m.pmm.bitmap j ≡ false → j ≢ k
  used-ne j u e = let same = ap (bit_tst m.pmm.bitmap) e in cc

  made-other : (w : ℕ) → w / 1024 ≢ k → made.mem w ≡ m.mem w
  unfolding made
  made-other w ne =
      let out : (leb (k * page_size / 4 + 768) w && ltb w (k * page_size / 4 + 1024)) ≡ false =
        ground (arith, ne) in
      let e : (w / 1024 == k * page_size / page_size) ≡ false = ground (arith, ne) in
      rw (out, e) refl

  made-user : (i : ℕ) → i < 768 → made.mem (k * page_size / 4 + i) ≡ 0
  unfolding made
  made-user i lt =
      let w = k * page_size / 4 + i in
      let out : (leb (k * page_size / 4 + 768) w && ltb w (k * page_size / 4 + 1024)) ≡ false =
        ground arith in
      let e : (w / 1024 == k * page_size / page_size) ≡ true = ground arith in rw (out, e) refl

  made-kernel :
      (i : ℕ) → 768 ≤ i → i < 1024 → made.mem (k * page_size / 4 + i) ≡ m.mem (kpd / 4 + i)
  unfolding made
  made-kernel i lo lt =
      let w = k * page_size / 4 + i in
      let inside : (leb (k * page_size / 4 + 768) w && ltb w (k * page_size / 4 + 1024)) ≡ true =
        ground arith in
      let index : w - k * page_size / 4 ≡ i = omega arith in
      let page = page_of_pde kpd i s.aligned lt in
      let ne = used-ne (frame kpd) s.used in
      let e : ((kpd / 4 + i) / 1024 == k * page_size / page_size) ≡ false =
        ground (arith, page, ne) in
      rw (inside, index, e) refl

  -- The words of the new directory.
  made_cases :
      (i : ℕ)
      → i < 1024
      → ((i < 768) × (made.mem (k * page_size / 4 + i) ≡ 0))
        ⊎ ((768 ≤ i) × (made.mem (k * page_size / 4 + i) ≡ m.mem (kpd / 4 + i)))
  made_cases i lt = elim (Bool-cases (ltb i 768)) [
    | inl e ↦ inl (ground (arith, e), made-user i (ground (arith, e)))
    | inr e ↦ inr (ground (arith, e), made-kernel i (ground (arith, e)) lt)
  ]

  -- A present entry of the new directory is the kernel's.
  made_present :
      (i : ℕ)
      → i < 1024
      → is_present (made.mem (k * page_size / 4 + i)) ≡ true
      → (made.mem (k * page_size / 4 + i) ≡ m.mem (kpd / 4 + i))
        × (is_present (m.mem (kpd / 4 + i)) ≡ true)
  made_present i lt p = elim (made_cases i lt) [
    | inl (_, z) ↦ (let q = ap is_present z in absurd (cc))
    | inr (_, e) ↦ (e, ap is_present (sym e) ∙ p)
  ]

  made-used : (j : ℕ) → bit_tst m.pmm.bitmap j ≡ false → bit_tst made.pmm.bitmap j ≡ false
  unfolding made
  made-used j u = ground (arith, cleared-bits m k j s.valid, u)

  made-IsValid : Inv.IsValid made.pmm
  unfolding made
  made-IsValid = cleared-IsValid m k s.valid free

  made-new_used : bit_tst made.pmm.bitmap (frame (k * page_size)) ≡ false
  unfolding made
  made-new_used =
      let here : frame (k * page_size) ≡ k = omega arith in
      rw here (cleared-bits m k k s.valid ∙ ground arith)

  made-IsSpace : IsSpace made (k * page_size)
  made-IsSpace = record {
    tables = record {
      aligned = omega arith;
      separate = λ i lt p.
          let q = made_present i lt p in
          let here : frame (k * page_size) ≡ k = omega arith in
          λ eq.
            used-ne (frame (m.mem (kpd / 4 + i))) (s.table_used i lt q.1)
              (ap frame (sym q.0) ∙ eq ∙ here);
      distinct = λ i j lt lt' p p' eq.
          let q = made_present i lt p in
          let q' = made_present j lt' p' in
          s.distinct i j lt lt' q.1 q'.1 (ap frame (sym q.0) ∙ eq ∙ ap frame q'.0);
    };
    valid = made-IsValid;
    used = made-new_used;
    table_used = λ i lt p.
        let q = made_present i lt p in
        rw q.0 (made-used (frame (m.mem (kpd / 4 + i))) (s.table_used i lt q.1));
  }

  -- The kernel's tables are no new page.
  made-table :
      (va : ℕ)
      → va < 2 ^ 32
      → is_present (m.mem (pde_at kpd va)) ≡ true
      → made.mem (pte_at (pte_addr (m.mem (pde_at kpd va))) va)
        ≡ m.mem (pte_at (pte_addr (m.mem (pde_at kpd va))) va)
  made-table va low there =
      let e = m.mem (pde_at kpd va) in
      let page = page_of_pte e (pt_index va) (omega arith) in
      made-other (pte_at (pte_addr e) va) (λ eq.
        used-ne (frame e) (s.table_used (pd_index va) (pd_index-lt va low) there) (sym page ∙ eq))

  made-kernel_word : (i : ℕ) → i < 1024 → made.mem (kpd / 4 + i) ≡ m.mem (kpd / 4 + i)
  made-kernel_word i lt =
      let page = page_of_pde kpd i s.aligned lt in
      made-other (kpd / 4 + i) (λ eq. used-ne (frame kpd) s.used (sym page ∙ eq))

  made-entry :
      (va : ℕ)
      → va < 2 ^ 32
      → entry made (k * page_size) va ≡ (if leb kernel_virt_base va then entry m kpd va else 0)
  unfolding entry
  made-entry va low = elim (made_cases (pd_index va) (pd_index-lt va low)) [
    | inl (lt, e) ↦
        (let below : leb kernel_virt_base va ≡ false = ground (arith, lt) in
          rw (entry, e, below) refl)
    | inr (le, e) ↦
        (let above : leb kernel_virt_base va ≡ true = ground (arith, le) in
          rw (entry, e, above)
            (elim (Bool-cases (is_present (m.mem (pde_at kpd va)))) [
              | inl there ↦ rw there (made-table va low there)
              | inr gone ↦ rw gone refl
            ]))
  ]

  -- The kernel's directory is as before.
  made-kernel_IsSpace : IsSpace made kpd
  made-kernel_IsSpace =
      let same : (i : ℕ) → i < 1024 → made.mem (kpd / 4 + i) ≡ m.mem (kpd / 4 + i) =
        λ i lt. made-kernel_word i lt in
      record {
        tables = same_directory-IsTables m made kpd s.tables same;
        valid = made-IsValid;
        used = made-used (frame kpd) s.used;
        table_used = λ i lt p. rw (same i lt) (
            made-used (frame (m.mem (kpd / 4 + i)))
              (s.table_used i lt (ap is_present (sym (same i lt)) ∙ p)));
      }

  made-kernel_entry : (va : ℕ) → va < 2 ^ 32 → entry made kpd va ≡ entry m kpd va
  unfolding entry
  made-kernel_entry va low =
      rw (made-kernel_word (pd_index va) (pd_index-lt va low))
        (elim (Bool-cases (is_present (m.mem (pde_at kpd va)))) [
          | inl there ↦ rw there (made-table va low there)
          | inr gone ↦ rw gone refl
        ])

-- `pgdir_create` returns a directory that translates the addresses from 0xC0000000 on as the
-- kernel's does, and no other address, and leaves the kernel's translations as they were; or it
-- returns 0, no page was free, and nothing has changed.
pub pgdir_create-shares :
    (m : Machine) (kpd : ℕ)
    → IsSpace m kpd
    → ((pgdir_create m kpd ≡ (m, 0)) × (m.pmm.free_pages_count ≡ 0))
      ⊎ ((m' : Machine) × (pd : ℕ) × (pgdir_create m kpd ≡ (m', pd))
          × (pd ≢ 0)
          × IsSpace m' pd
          × IsSpace m' kpd
          × ((va : ℕ)
              → va < 2 ^ 32
              → (virt_to_phys_pd m' pd va
                  ≡ (if leb kernel_virt_base va then virt_to_phys_pd m kpd va else 0))
                × (virt_to_phys_pd m' kpd va ≡ virt_to_phys_pd m kpd va)))
unfolding pgdir_create made
pgdir_create-shares m kpd s = elim (pmm_alloc_zero_cases m s.valid) [
  | inl (e, full) ↦ inl (rw (pgdir_create, e) refl, full)
  | inr (k, e, ne, free, less) ↦
      (let pd = k * page_size in
        let z : (pd == 0) ≡ false = ground (arith, ne) in
        inr (
          made m kpd k s free,
          pd,
          rw (pgdir_create, e, z) refl,
          omega (arith, ne),
          made-IsSpace m kpd k s free,
          made-kernel_IsSpace m kpd k s free,
          λ va low. (
            entry-virt (made m kpd k s free) m pd kpd va (leb kernel_virt_base va)
                (made-entry m kpd k s free va low),
            entry-virt (made m kpd k s free) m kpd kpd va true
                (made-kernel_entry m kpd k s free va low),
          ),
        ))
]
