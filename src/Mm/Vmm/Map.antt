-- ===== src/Mm/Vmm/Map.antt =====
-- mm/vmm.c: `map_page` and `unmap_page` update the translation of one page.
use ore_unix.Common.{
  leb, ◌||◌, ℕ, ◌+◌, ◌*◌, ◌^◌, ◌<◌, ◌≡◌, ◌≢◌, refl, sym, ap, ◌∙◌, Bool, true, false, ◌⊎◌, inl, inr,
  none, some, ◌==◌, if◌then◌else◌, Bool-cases, arith, page_size,
}
use ore_unix.Common.Errno.{enomem}
use ore_unix.Mm.Pmm.{Pmm, bit_tst, pmm_alloc}
use ore_unix.Mm.Pmm.Inv
use ore_unix.Mm.Pmm.Flat.{flat, bit_tst-flat}
use ore_unix.Mm.Pmm.Bits.{count-zero_of_none}
use ore_unix.Mm.Pmm.Alloc.{pmm_alloc_cases, took}
use ore_unix.Mm.Vmm.Entry.{IsSpace, IsTables, entry, frame}
use ore_unix.Mm.Vmm.Stored.{stored-IsSpace, stored-IsTables, stored-entry}
use ore_unix.Mm.Vmm.Table.{added, added-IsSpace, added-entry, added-pde_here}
use ore_unix.Mm.Vmm.{
  Machine, window_size, clear_page, get_pte, is_present, map_page, pde_at, pmm_alloc_zero, pte_addr,
  pte_at, pte_flags, set_pte, store,
}

if_same : {x y : ℕ} (z : ℕ) (b : Bool) → x ≡ y → (if b then z else x) ≡ (if b then z else y)
if_same z true e = refl
if_same z false e = e

-- The entry of one page becomes `new`, and no other entry changes.
pub record Updates (m m' : Machine) (pd va new : ℕ) : Type 0 where
  pub tables : IsTables m' pd
  pub entries :
      (va' : ℕ)
      → va' < 2 ^ 32
      → entry m' pd va' ≡ (if frame va' == frame va then new else entry m pd va')

pub stored-Updates :
    (m : Machine) (pd va v : ℕ) (s : IsTables m pd) (low : va < 2 ^ 32)
    → is_present (m.mem (pde_at pd va)) ≡ true
    → Updates m (store m (pte_at (pte_addr (m.mem (pde_at pd va))) va) v) pd va v
stored-Updates m pd va v s low here = record {
  tables = stored-IsTables m pd va v s low here;
  entries = stored-entry m pd va v s low here;
}

pub no_page :
    (s : Pmm) → Inv.IsValid s → ((j : ℕ) → bit_tst s.bitmap j ≡ false) → s.free_pages_count ≡ 0
no_page s v all_used =
    v.counted
    ∙ count-zero_of_none (flat s.bitmap) (λ j. sym (bit_tst-flat s.bitmap j v.shaped) ∙ all_used j)

pub map_page_found :
    (m m' : Machine) (pd va pa flags a : ℕ)
    → get_pte m pd va ≡ (m', some a)
    → map_page m pd va pa flags ≡ (store m' a (pte_addr pa + pte_flags flags), none)
unfolding map_page
map_page_found m m' pd va pa flags a e = ap (λ r. set_pte r pa flags) e

map_page_null :
    (m m' : Machine) (pd va pa flags : ℕ)
    → get_pte m pd va ≡ (m', none)
    → map_page m pd va pa flags ≡ (m', some enomem)
unfolding map_page
map_page_null m m' pd va pa flags e = ap (λ r. set_pte r pa flags) e

pub pmm_alloc_zero_none : (m : Machine) → pmm_alloc m.pmm ≡ (m.pmm, 0) → pmm_alloc_zero m ≡ (m, 0)
unfolding pmm_alloc_zero
pmm_alloc_zero_none m e = rw (pmm_alloc_zero, e) refl

pub pmm_alloc_zero_some :
    (m : Machine) (k : ℕ)
    → k ≢ 0
    → pmm_alloc m.pmm ≡ (took m.pmm k, k * page_size)
    → pmm_alloc_zero m ≡ (
      record m {
        pmm = took m.pmm k;
        mem = clear_page m.mem (k * page_size);
        faulted = leb window_size (k * page_size) || m.faulted;
      },
      k * page_size,
    )
unfolding pmm_alloc_zero
pmm_alloc_zero_some m k ne e =
    let z : (k * page_size == 0) ≡ false = ground (arith, ne) in rw (pmm_alloc_zero, e, z) refl

get_pte-added :
    (m : Machine) (pd va k : ℕ) (s : IsSpace m pd) (low : va < 2 ^ 32)
    (gone : is_present (m.mem (pde_at pd va)) ≡ false) (free : bit_tst m.pmm.bitmap k ≡ true)
    → k ≢ 0
    → pmm_alloc m.pmm ≡ (took m.pmm k, k * page_size)
    → get_pte m pd va ≡ (added m pd va k s low gone free, some (pte_at (k * page_size) va))
unfolding get_pte added
get_pte-added m pd va k s low gone free ne e =
    let z : (k * page_size == 0) ≡ false = ground (arith, ne) in
    rw (get_pte, gone, pmm_alloc_zero_some m k ne e, z) refl

-- What `get_pte` with `create` returns: the word of the entry in a space with the same entries,
-- or NULL when no page is free.
get_pte_cases :
    (m : Machine) (pd va : ℕ)
    → IsSpace m pd
    → va < 2 ^ 32
    → ((get_pte m pd va ≡ (m, none)) × (m.pmm.free_pages_count ≡ 0))
      ⊎ ((m' : Machine) × (get_pte m pd va
            ≡ (m', some (pte_at (pte_addr (m'.mem (pde_at pd va))) va)))
          × IsSpace m' pd
          × (is_present (m'.mem (pde_at pd va)) ≡ true)
          × ((va' : ℕ) → va' < 2 ^ 32 → entry m' pd va' ≡ entry m pd va'))
unfolding get_pte
get_pte_cases m pd va s low = elim (Bool-cases (is_present (m.mem (pde_at pd va)))) [
  | inl here ↦ inr (m, rw (get_pte, here) refl, s, here, λ va' low'. refl)
  | inr gone ↦ elim (pmm_alloc_cases m.pmm s.valid.shaped) [
    | inl (e, all_used) ↦
        inl (rw (get_pte, gone, pmm_alloc_zero_none m e) refl, no_page m.pmm s.valid all_used)
    | inr (k, e, free, first) ↦
        (let ne : k ≢ 0 = λ z. ground (arith, s.valid.page_zero) in
          let m' = added m pd va k s low gone free in
          let here = added-pde_here m pd va k s low gone free in
          inr (
            m',
            get_pte-added m pd va k s low gone free ne e
                ∙ ap (λ t. (m', some (pte_at t va))) (sym (ap pte_addr here ∙ omega arith)),
            added-IsSpace m pd va k s low gone free,
            ap is_present here ∙ ground arith,
            added-entry m pd va k s low gone free,
          ))
  ]
]

-- What `map_page` writes.
abbrev pub new_entry : ℕ → ℕ → ℕ
new_entry pa flags = pte_addr pa + pte_flags flags

-- `map_page` of any address of a space ends in one of two ways: it returns 0 and the entry of that
-- page alone is the new one; or it returns -ENOMEM, no page was free, and nothing has changed.
pub map_page-Updates :
    (m : Machine) (pd va pa flags : ℕ)
    → IsSpace m pd
    → va < 2 ^ 32
    → (let r = map_page m pd va pa flags in
        ((r.1 ≡ none) × IsSpace r.0 pd × Updates m r.0 pd va (new_entry pa flags))
        ⊎ ((r ≡ (m, some enomem)) × (m.pmm.free_pages_count ≡ 0)))
map_page-Updates m pd va pa flags s low = elim (get_pte_cases m pd va s low) [
  | inl (e, full) ↦ inr (map_page_null m m pd va pa flags e, full)
  | inr (m', e, s', here, same) ↦
      (let a = pte_at (pte_addr (m'.mem (pde_at pd va))) va in
        let u = stored-Updates m' pd va (new_entry pa flags) s'.tables low here in
        rw (map_page_found m m' pd va pa flags a e) (
          inl (
            refl,
            stored-IsSpace m' pd va (new_entry pa flags) s'.tables low here s',
            record {
              tables = u.tables;
              entries = λ va' low'.
                  u.entries va' low'
                  ∙ if_same (new_entry pa flags) (frame va' == frame va) (same va' low');
            },
          )))
]
