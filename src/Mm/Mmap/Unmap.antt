-- ===== src/Mm/Mmap/Unmap.antt =====
-- mm/vmm.c, `mm_munmap`.
use ore_unix.Common.{
  ℕ, zero, suc, ◌+◌, ◌*◌, ◌%◌, ◌^◌, ◌≤◌, ◌<◌, ◌≡◌, refl, ap, ◌∙◌, Bool, false, ◌&&◌, inl, inr, none,
  ltb, leb, ◌==◌, if◌then◌else◌, arith, Bool-cases, length, add32, align_up, page_size,
}
use ore_unix.Mm.Mmap.Areas.{mm_find_vma-none, outside, outside-misses, remove_areas-outside}
use ore_unix.Mm.Mmap.{MmStruct, mm_find_vma, mm_munmap, munmap_from, munmap_page, rounds}
use ore_unix.Mm.Pmm.{Pmm, pmm_free}
use ore_unix.Mm.Vmm.Entry.{IsTables, frame}
use ore_unix.Mm.Vmm.Translate.{Retargets, unmap_page-Retargets}
use ore_unix.Mm.Vmm.{Machine, find_pte, pte_addr, virt_to_phys_pd}

-- The tables are in the memory, whatever the allocator does.
with_pmm-IsTables :
    (m : Machine) (s : Pmm) (pd : ℕ) → IsTables m pd → IsTables (record m { pmm = s }) pd
with_pmm-IsTables m s pd t = record {
  aligned = t.aligned;
  separate = t.separate;
  distinct = t.distinct;
}

with_pmm-virt :
    (m : Machine) (s : Pmm) (pd va : ℕ)
    → virt_to_phys_pd (record m { pmm = s }) pd va ≡ virt_to_phys_pd m pd va
unfolding virt_to_phys_pd find_pte
with_pmm-virt m s pd va = refl

munmap_page-Retargets :
    (m : Machine) (pd p : ℕ)
    → IsTables m pd
    → p < 2 ^ 32
    → Retargets m (munmap_page m pd p) pd p (λ va. 0)
unfolding munmap_page
munmap_page-Retargets m pd p t low = elim (Bool-cases (virt_to_phys_pd m pd p == 0)) [
  | inl e ↦ rw (munmap_page, e) (unmap_page-Retargets m pd p t low)
  | inr e ↦
      (let s = pmm_free m.pmm (pte_addr (virt_to_phys_pd m pd p)) in
        let u = unmap_page-Retargets (record m { pmm = s }) pd p (with_pmm-IsTables m s pd t) low in
        rw (munmap_page, e)
          (record {
            tables = u.tables;
            translation = λ va low.
                u.translation va low
                ∙ ap (λ y. if frame va == frame p then 0 else y) (with_pmm-virt m s pd va);
          }))
]

-- The range from `p` to `end`.
abbrev pub between : ℕ → ℕ → ℕ → Bool
between p end va = leb p va && ltb va end

-- Exactly the addresses of the range have lost their translation.
pub record Cut (m m' : Machine) (pd p end : ℕ) : Type 0 where
  pub tables : IsTables m' pd
  pub translation :
      (va : ℕ)
      → va < 2 ^ 32
      → virt_to_phys_pd m' pd va ≡ (if between p end va then 0 else virt_to_phys_pd m pd va)

cut_page :
    (p end va x y : ℕ)
    → p % page_size ≡ 0
    → p + page_size ≤ end
    → x ≡ (if frame va == frame p then 0 else y)
    → (if between (p + page_size) end va then 0 else x) ≡ (if between p end va then 0 else y)
cut_page p end va x y whole le e = ground arith

munmap_from-Cut :
    (fuel : ℕ) (m : Machine) (pd p end : ℕ)
    → IsTables m pd
    → p % page_size ≡ 0
    → end % page_size ≡ 0
    → p ≤ end
    → end < 2 ^ 32
    → end < p + fuel * page_size
    → Cut m (munmap_from fuel m pd p end) pd p end
unfolding munmap_from
munmap_from-Cut zero m pd p end t whole whole' le low short = absurd (omega arith)
munmap_from-Cut (suc fuel) m pd p end t whole whole' le low short = elim (Bool-cases (ltb p end)) [
  | inr stop ↦
      rw (munmap_from, stop)
        (record {
          tables = t;
          translation =
              λ va low. let e : between p end va ≡ false = ground (arith, stop) in rw e refl;
        })
  | inl more ↦
      (let one = munmap_page-Retargets m pd p t (ground (arith, more)) in
        let next : add32 p page_size ≡ p + page_size = ground (arith, more) in
        let rest =
          munmap_from-Cut fuel (munmap_page m pd p) pd (p + page_size) end one.tables (omega arith)
            whole' (ground (arith, more)) low (omega arith) in
        rw (munmap_from, more, next)
          (record {
            tables = rest.tables;
            translation = λ va low.
                rest.translation va low
                ∙ cut_page p end va (virt_to_phys_pd (munmap_page m pd p) pd va)
                    (virt_to_phys_pd m pd va) whole (ground (arith, more)) (one.translation va low);
          }))
]

-- `mm_munmap` of a range of pages that ends below the end of the address space: exactly the
-- addresses of the range lose their translation, the areas that miss the range are kept and
-- counted, and no area holds an address of the range.
pub mm_munmap-Cut :
    (m : Machine) (mm : MmStruct) (addr len : ℕ)
    → IsTables m mm.pgdir
    → addr % page_size ≡ 0
    → addr + len + page_size < 2 ^ 32
    → length mm.vmas ≡ mm.map_count
    → mm.map_count < 2 ^ 32
    → (let r = mm_munmap m mm addr len in
        let end = addr + align_up len page_size in
        Cut m r.0 mm.pgdir addr end
        × (r.1.vmas ≡ outside mm.vmas addr end)
        × (length r.1.vmas ≡ r.1.map_count)
        × ((x : ℕ) → addr ≤ x → x < end → mm_find_vma r.1.vmas x ≡ none))
unfolding mm_munmap
mm_munmap-Cut m mm addr len t whole room counted low =
    let end = addr + align_up len page_size in
    let bound : align_up len page_size ≤ len + page_size = omega arith in
    let whole_end : align_up len page_size % page_size ≡ 0 = omega arith in
    let stop : add32 addr (align_up len page_size) ≡ end = omega (arith, bound) in
    let areas = remove_areas-outside mm.vmas addr end mm.map_count low (omega arith) in
    rw (mm_munmap, stop)
      (
        munmap_from-Cut rounds m mm.pgdir addr end t whole (omega (arith, whole_end)) (omega arith)
            (omega (arith, bound)) (omega (arith, bound)),
        areas.0,
        ap length areas.0 ∙ omega (arith, areas.1),
        λ x lo hi. rw areas.0 (
            mm_find_vma-none (outside mm.vmas addr end) x
              (outside-misses mm.vmas addr end x lo hi)),
      )
