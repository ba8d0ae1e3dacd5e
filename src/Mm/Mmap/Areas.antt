-- ===== src/Mm/Mmap/Areas.antt =====
-- mm/vmm.c, `mm_find_vma` and the areas that `mm_munmap` removes.
use ore_unix.Common.{
  ℕ, ◌+◌, ◌-◌, ◌≤◌, ◌<◌, ◌^◌, ◌≡◌, refl, ap, false, inl, inr, none, List, [], ◌∷◌, if◌then◌else◌,
  arith, Bool-cases, All, length, sub32,
}
use ore_unix.Mm.Mmap.{VmArea, contains, misses, mm_find_vma, remove_areas}

-- The areas that end at or before `addr` or begin at or behind `end`, in their order.
unfoldable pub outside : List VmArea → ℕ → ℕ → List VmArea
outside [] addr end = []
outside (v ∷ vs) addr end =
    if misses v addr end then v ∷ outside vs addr end else outside vs addr end

outside-shorter : (vs : List VmArea) (addr end : ℕ) → length (outside vs addr end) ≤ length vs
unfolding outside
outside-shorter [] addr end = omega arith
outside-shorter (v ∷ vs) addr end = ground (arith, outside-shorter vs addr end)

-- `mm_munmap` keeps the areas that miss the range, and counts them: if the count was the number of
-- the areas, it still is.
pub remove_areas-outside :
    (vs : List VmArea) (addr end n : ℕ)
    → n < 2 ^ 32
    → length vs ≤ n
    → ((remove_areas vs addr end n).0 ≡ outside vs addr end)
      × ((remove_areas vs addr end n).1 + length vs ≡ n + length (outside vs addr end))
unfolding remove_areas outside
remove_areas-outside [] addr end n low le = (refl, omega arith)
remove_areas-outside (v ∷ vs) addr end n low le = elim (Bool-cases (misses v addr end)) [
  | inl e ↦
      (let ih = remove_areas-outside vs addr end n low (omega arith) in
        rw (remove_areas, outside, e) (ap (λ ws. v ∷ ws) ih.0, omega (arith, ih.1)))
  | inr e ↦
      (let one : sub32 n 1 ≡ n - 1 = omega arith in
        let ih = remove_areas-outside vs addr end (sub32 n 1) (omega arith) (omega arith) in
        rw (remove_areas, outside, e) (ih.0, omega (arith, ih.1)))
]

-- No area that is left has an address of the range.
pub outside-misses :
    (vs : List VmArea) (addr end x : ℕ)
    → addr ≤ x
    → x < end
    → All (λ v. contains v x ≡ false) (outside vs addr end)
unfolding outside
outside-misses [] addr end x lo hi = tt
outside-misses (v ∷ vs) addr end x lo hi = elim (Bool-cases (misses v addr end)) [
  | inl e ↦ rw (outside, e) (ground (arith, e), outside-misses vs addr end x lo hi)
  | inr e ↦ rw (outside, e) (outside-misses vs addr end x lo hi)
]

pub mm_find_vma-none :
    (vs : List VmArea) (x : ℕ) → All (λ v. contains v x ≡ false) vs → mm_find_vma vs x ≡ none
unfolding mm_find_vma
mm_find_vma-none [] x all = refl
mm_find_vma-none (v ∷ vs) x all = rw (mm_find_vma, all.0) (mm_find_vma-none vs x all.1)
