-- ===== src/Mm/Pgdir/Fresh.antt =====
-- mm/vmm.c: a page that `pmm_alloc_zero` has handed out, as an empty page directory.
use ore_unix.Common.{
  leb, ◌||◌, ℕ, ◌+◌, ◌*◌, ◌/◌, ◌%◌, ◌^◌, ◌<◌, ◌≡◌, ◌≢◌, refl, sym, ap, ◌∙◌, true, false, inl, inr,
  ◌⊎◌, ◌==◌, Bool-cases, if◌then◌else◌, arith, page_size,
}
use ore_unix.Mm.Pmm.{bit_tst}
use ore_unix.Mm.Pmm.Alloc.{pmm_alloc_cases, took}
use ore_unix.Mm.Pmm.Inv
use ore_unix.Mm.Vmm.Entry.{
  IsSpace, entry, frame, page_of_pde, page_of_pte, pd_index-lt, same_directory-IsTables,
  virt_to_phys_pd-entry,
}
use ore_unix.Mm.Vmm.Map.{no_page, pmm_alloc_zero_none, pmm_alloc_zero_some}
use ore_unix.Mm.Vmm.{
  Machine, window_size, clear_page, is_present, pd_index, pde_at, pt_index, pte_addr, pte_at,
  pmm_alloc_zero, virt_to_phys_pd,
}

-- The machine after `pmm_alloc_zero` has handed out page `k`.
abbrev pub cleared : Machine → ℕ → Machine
cleared m k = record m {
  pmm = took m.pmm k;
  mem = clear_page m.mem (k * page_size);
  faulted = leb window_size (k * page_size) || m.faulted;
}

pub cleared-IsValid :
    (m : Machine) (k : ℕ)
    → Inv.IsValid m.pmm
    → bit_tst m.pmm.bitmap k ≡ true
    → Inv.IsValid (cleared m k).pmm
cleared-IsValid m k v free = Inv.take_page-IsValid k v free

pub cleared-bits :
    (m : Machine) (k j : ℕ)
    → Inv.IsValid m.pmm
    → bit_tst (cleared m k).pmm.bitmap j ≡ (if j == k then false else bit_tst m.pmm.bitmap j)
cleared-bits m k j v = Inv.bit_tst-bit_clr m.pmm.bitmap k j v.shaped

pub pmm_alloc_zero_cases :
    (m : Machine)
    → Inv.IsValid m.pmm
    → ((pmm_alloc_zero m ≡ (m, 0)) × (m.pmm.free_pages_count ≡ 0))
      ⊎ ((k : ℕ) × (pmm_alloc_zero m ≡ (cleared m k, k * page_size))
          × (k ≢ 0)
          × (bit_tst m.pmm.bitmap k ≡ true)
          × ((cleared m k).pmm.free_pages_count + 1 ≡ m.pmm.free_pages_count))
pmm_alloc_zero_cases m v = elim (pmm_alloc_cases m.pmm v.shaped) [
  | inl (e, all_used) ↦ inl (pmm_alloc_zero_none m e, no_page m.pmm v all_used)
  | inr (k, e, free, first) ↦
      (let ne : k ≢ 0 = λ z. ground (arith, v.page_zero) in
        inr (
          k,
          pmm_alloc_zero_some m k ne e,
          ne,
          free,
          omega (
            arith,
            v.counted,
            Inv.free_pages_count-le v.counts,
            Inv.count-bit_clr m.pmm.bitmap k v.shaped free,
          ),
        ))
]

cleared-zero : (m : Machine) (k i : ℕ) → i < 1024 → (cleared m k).mem (k * page_size / 4 + i) ≡ 0
cleared-zero m k i lt =
    let e : ((k * page_size / 4 + i) / 1024 == k * page_size / page_size) ≡ true = ground arith in
    rw e refl

pub cleared-IsSpace :
    (m : Machine) (k : ℕ)
    → Inv.IsValid m.pmm
    → bit_tst m.pmm.bitmap k ≡ true
    → IsSpace (cleared m k) (k * page_size)
cleared-IsSpace m k v free =
    let absent : (i : ℕ)
        → i < 1024
        → is_present ((cleared m k).mem (k * page_size / 4 + i)) ≢ true =
      λ i lt p. (let z = ap is_present (cleared-zero m k i lt) in cc) in
    record {
      tables = record {
        aligned = omega arith;
        separate = λ i lt p. absurd (absent i lt p);
        distinct = λ i j lt lt' p q e. absurd (absent i lt p);
      };
      valid = cleared-IsValid m k v free;
      used =
          (let q : frame (k * page_size) ≡ k = omega arith in
            rw q (cleared-bits m k k v ∙ ground arith));
      table_used = λ i lt p. absurd (absent i lt p);
    }

cleared-entry : (m : Machine) (k va : ℕ) → va < 2 ^ 32 → entry (cleared m k) (k * page_size) va ≡ 0
unfolding entry
cleared-entry m k va low = rw (entry, cleared-zero m k (pd_index va) (pd_index-lt va low)) refl

pub cleared-virt :
    (m : Machine) (k va : ℕ) → va < 2 ^ 32 → virt_to_phys_pd (cleared m k) (k * page_size) va ≡ 0
cleared-virt m k va low =
    rw (virt_to_phys_pd-entry (cleared m k) (k * page_size) va, cleared-entry m k va low) refl

-- Handing out and clearing a free page leaves the tables of a space.
module _ (m : Machine) (pd k : ℕ) (s : IsSpace m pd) (free : bit_tst m.pmm.bitmap k ≡ true) where
  spared : (w : ℕ) → bit_tst m.pmm.bitmap (w / 1024) ≡ false → (cleared m k).mem w ≡ m.mem w
  spared w used =
      let ne : w / 1024 ≢ k = λ e. (let same = ap (bit_tst m.pmm.bitmap) e in cc) in
      let e : (w / 1024 == k * page_size / page_size) ≡ false = ground (arith, ne) in rw e refl

  still_used : (j : ℕ) → bit_tst m.pmm.bitmap j ≡ false → bit_tst (cleared m k).pmm.bitmap j ≡ false
  still_used j u = ground (arith, cleared-bits m k j s.valid, u)

  spared-pde : (i : ℕ) → i < 1024 → (cleared m k).mem (pd / 4 + i) ≡ m.mem (pd / 4 + i)
  spared-pde i lt = spared (pd / 4 + i) (rw (page_of_pde pd i s.aligned lt) s.used)

  pub spared-IsSpace : IsSpace (cleared m k) pd
  spared-IsSpace = record {
    tables = same_directory-IsTables m (cleared m k) pd s.tables spared-pde;
    valid = cleared-IsValid m k s.valid free;
    used = still_used (frame pd) s.used;
    table_used = λ i lt p. rw (spared-pde i lt) (
        still_used (frame (m.mem (pd / 4 + i)))
          (s.table_used i lt (ap is_present (sym (spared-pde i lt)) ∙ p)));
  }

  spared-entry : (va : ℕ) → va < 2 ^ 32 → entry (cleared m k) pd va ≡ entry m pd va
  unfolding entry
  spared-entry va low =
      rw (spared-pde (pd_index va) (pd_index-lt va low))
        (elim (Bool-cases (is_present (m.mem (pde_at pd va)))) [
          | inl there ↦
              (let e = m.mem (pde_at pd va) in
                let page = page_of_pte e (pt_index va) (omega arith) in
                rw there (
                  spared (pte_at (pte_addr e) va)
                    (rw page (s.table_used (pd_index va) (pd_index-lt va low) there))))
          | inr gone ↦ rw gone refl
        ])

  pub spared-virt :
      (va : ℕ) → va < 2 ^ 32 → virt_to_phys_pd (cleared m k) pd va ≡ virt_to_phys_pd m pd va
  spared-virt va low =
      virt_to_phys_pd-entry (cleared m k) pd va
      ∙ ap (λ e. if is_present e then pte_addr e + va % page_size else 0) (spared-entry va low)
      ∙ sym (virt_to_phys_pd-entry m pd va)
