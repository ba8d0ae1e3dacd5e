-- ===== src/Mm/Vmm/Entry.antt =====
-- mm/vmm.c: the page tables as a map from page numbers to entries, which mapping a page updates.
use ore_unix.Common.{
  ℕ, ◌+◌, ◌/◌, ◌%◌, ◌^◌, ◌<◌, ◌≡◌, ◌≢◌, refl, sym, ap, ◌∙◌, true, false, inl, inr, ◌==◌,
  if◌then◌else◌, Bool-cases, arith, page_size,
}
use ore_unix.Mm.Pmm.{bit_tst}
use ore_unix.Mm.Pmm.Inv
use ore_unix.Mm.Vmm.{
  Machine, find_pte, is_present, pd_index, pde_at, pte_addr, pte_at, virt_to_phys_pd, write,
}

-- The page frame of an entry.
abbrev pub frame : ℕ → ℕ
frame e = e / page_size

-- What the tables of a directory hold for an address: the page table's entry, or 0.
unfoldable pub entry : Machine → ℕ → ℕ → ℕ
entry m pd va =
    let pde = m.mem (pde_at pd va) in if is_present pde then m.mem (pte_at (pte_addr pde) va) else 0

-- The directory and its tables are different pages.
pub record IsTables (m : Machine) (pd : ℕ) : Type 0 where
  pub aligned : pd % page_size ≡ 0
  pub separate :
      (i : ℕ)
      → i < 1024
      → is_present (m.mem (pd / 4 + i)) ≡ true
      → frame (m.mem (pd / 4 + i)) ≢ frame pd
  pub distinct :
      (i j : ℕ)
      → i < 1024
      → j < 1024
      → is_present (m.mem (pd / 4 + i)) ≡ true
      → is_present (m.mem (pd / 4 + j)) ≡ true
      → frame (m.mem (pd / 4 + i)) ≡ frame (m.mem (pd / 4 + j))
      → i ≡ j

-- And these pages are handed out by a valid allocator.
pub record IsSpace (m : Machine) (pd : ℕ) : Type 0 where
  pub tables : IsTables m pd
  pub open tables use *
  pub valid : Inv.IsValid m.pmm
  pub used : bit_tst m.pmm.bitmap (frame pd) ≡ false
  pub table_used :
      (i : ℕ)
      → i < 1024
      → is_present (m.mem (pd / 4 + i)) ≡ true
      → bit_tst m.pmm.bitmap (frame (m.mem (pd / 4 + i))) ≡ false

-- The translation depends on the entry alone.
pub virt_to_phys_pd-entry :
    (m : Machine) (pd va : ℕ)
    → virt_to_phys_pd m pd va
      ≡ (if is_present (entry m pd va) then pte_addr (entry m pd va) + va % page_size else 0)
unfolding virt_to_phys_pd find_pte entry
virt_to_phys_pd-entry m pd va = elim (Bool-cases (is_present (m.mem (pde_at pd va)))) [
  | inl e ↦ rw (virt_to_phys_pd, find_pte, entry, e) refl
  | inr e ↦ rw (virt_to_phys_pd, find_pte, entry, e) refl
]

-- The page that a word is in.
pub page_of_pde : (pd i : ℕ) → pd % page_size ≡ 0 → i < 1024 → (pd / 4 + i) / 1024 ≡ frame pd
page_of_pde pd i h lt = omega arith

pub page_of_pte : (e i : ℕ) → i < 1024 → (pte_addr e / 4 + i) / 1024 ≡ frame e
page_of_pte e i lt = omega arith

pub pd_index-lt : (va : ℕ) → va < 2 ^ 32 → pd_index va < 1024
pd_index-lt va h = omega arith

pub write_ne : (mem : ℕ → ℕ) (a b v : ℕ) → b ≢ a → write mem a v b ≡ mem b
write_ne mem a b v ne = let e : (b == a) ≡ false = ground (arith, ne) in rw e refl

pub write_same : (mem : ℕ → ℕ) (a v : ℕ) → write mem a v a ≡ v
write_same mem a v = let e : (a == a) ≡ true = ground arith in rw e refl

-- The conditions speak of the directory's words and of which pages are in use.
pub same_directory-IsTables :
    (m m' : Machine) (pd : ℕ)
    → IsTables m pd
    → ((i : ℕ) → i < 1024 → m'.mem (pd / 4 + i) ≡ m.mem (pd / 4 + i))
    → IsTables m' pd
same_directory-IsTables m m' pd s same = record {
  aligned = s.aligned;
  separate = λ i lt p. rw (same i lt) (s.separate i lt (ap is_present (sym (same i lt)) ∙ p));
  distinct = λ i j lt lt' p q e.
      s.distinct i j lt lt' (ap is_present (sym (same i lt)) ∙ p)
        (ap is_present (sym (same j lt')) ∙ q)
        (ap frame (sym (same i lt)) ∙ e ∙ ap frame (same j lt'));
}

pub same_directory-IsSpace :
    (m m' : Machine) (pd : ℕ)
    → IsSpace m pd
    → m'.pmm ≡ m.pmm
    → ((i : ℕ) → i < 1024 → m'.mem (pd / 4 + i) ≡ m.mem (pd / 4 + i))
    → IsSpace m' pd
same_directory-IsSpace m m' pd s pmm same = record {
  tables = same_directory-IsTables m m' pd s.tables same;
  valid = rw pmm s.valid;
  used = rw pmm s.used;
  table_used =
      λ i lt p. rw (pmm, same i lt) (s.table_used i lt (ap is_present (sym (same i lt)) ∙ p));
}
