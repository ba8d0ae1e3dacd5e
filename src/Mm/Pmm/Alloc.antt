-- ===== src/Mm/Pmm/Alloc.antt =====
-- mm/pmm.c: `pmm_alloc` hands out the lowest free page, and `pmm_free` takes it back.
use mathlib.Core.Option
use ore_unix.Common.{
  ℕ, ◌+◌, ◌*◌, ◌/◌, ◌<◌, ◌≡◌, refl, sym, ap, ◌∙◌, ◌≢◌, ◌⊎◌, inl, inr, true, false, none, some, List,
  arith, sub32, page_size, ◌==◌, if◌then◌else◌, Option-cases, ◌↔◌,
}
use ore_unix.Mm.Pmm.{
  Pmm, Word, bitmap_bits, phys_mem_max, bit_tst, bit_clr, pmm_free, pmm_alloc, scan_words,
}
use ore_unix.Mm.Pmm.Bits.{
  count, first_true, first_true-true, first_true-first, first_true-none, count-zero_of_none,
}
use ore_unix.Mm.Pmm.Flat.{flat, IsShaped, bit_tst-flat, scan_words-flat, bit_set-bit_clr}
use ore_unix.Mm.Pmm.Inv.{
  IsValid, count-bit_clr, pmm_free_used, free_pages_count-le, bit_tst-bit_clr, lt_of_bit_tst,
  take_page-IsValid,
}

pmm_ext :
    {a b : List Word} {m n t : ℕ}
    → a ≡ b
    → m ≡ n
    → ◌≡◌ {A = Pmm}
        (record { bitmap = a; total_pages_count = t; free_pages_count = m })
        (record { bitmap = b; total_pages_count = t; free_pages_count = n })
pmm_ext p q = cc

-- What the scan finds: the lowest free page, or that there is none.
scan_words_cases :
    (bm : List Word)
    → IsShaped bm
    → ((scan_words 0 bm ≡ none) × ((j : ℕ) → bit_tst bm j ≡ false))
      ⊎ ((k : ℕ) × (scan_words 0 bm ≡ some k)
          × (bit_tst bm k ≡ true)
          × ((j : ℕ) → j < k → bit_tst bm j ≡ false))
scan_words_cases bm h = elim (Option-cases (first_true (flat bm))) [
  | inl e ↦ inl (
    scan_words-flat 0 bm h ∙ ap (Option.map (λ k. 0 * 32 + k)) e,
    λ j. bit_tst-flat bm j h ∙ first_true-none (flat bm) j e,
  )
  | inr (k, e) ↦ inr (
    k,
    scan_words-flat 0 bm h ∙ ap (Option.map (λ k. 0 * 32 + k)) e ∙ ap some (omega arith),
    bit_tst-flat bm k h ∙ first_true-true (flat bm) k e,
    λ j lt. bit_tst-flat bm j h ∙ first_true-first (flat bm) k j e lt,
  )
]

-- The state with page `k` taken.
abbrev pub took : Pmm → ℕ → Pmm
took s k = record s { bitmap = bit_clr s.bitmap k; free_pages_count = sub32 s.free_pages_count 1 }

-- The two outcomes of `pmm_alloc`.
pub pmm_alloc_cases :
    (s : Pmm)
    → IsShaped s.bitmap
    → ((pmm_alloc s ≡ (s, 0)) × ((j : ℕ) → bit_tst s.bitmap j ≡ false))
      ⊎ ((k : ℕ) × (pmm_alloc s ≡ (took s k, k * page_size))
          × (bit_tst s.bitmap k ≡ true)
          × ((j : ℕ) → j < k → bit_tst s.bitmap j ≡ false))
unfolding pmm_alloc
pmm_alloc_cases s h = elim (scan_words_cases s.bitmap h) [
  | inl (e, none_free) ↦ inl (rw (e, pmm_alloc), none_free)
  | inr (k, e, hit, first) ↦ inr (k, rw (e, pmm_alloc), hit, first)
]

-- What a successful `pmm_alloc` returns from state `s`: state `t` and address `phys`.
pub record Allocated (s t : Pmm) (phys : ℕ) : Type 0 where
  pub page : ℕ
  pub address : phys ≡ page * page_size
  pub in_range : phys < phys_mem_max
  pub not_zero : phys ≢ 0
  pub was_free : bit_tst s.bitmap page ≡ true
  pub lowest : (j : ℕ) → j < page → bit_tst s.bitmap j ≡ false
  pub bits : (j : ℕ) → bit_tst t.bitmap j ≡ (if j == page then false else bit_tst s.bitmap j)
  pub less : t.free_pages_count + 1 ≡ s.free_pages_count
  pub keeps : IsValid t

-- In a valid state with a free page, `pmm_alloc` returns the address of the lowest free page,
-- which is inside the managed memory and not 0; that page alone becomes used, the free count
-- falls by one and the state stays valid.
pub pmm_alloc-Allocated :
    (s : Pmm) → IsValid s → 0 < s.free_pages_count → Allocated s (pmm_alloc s).0 (pmm_alloc s).1
pmm_alloc-Allocated s v some_free = elim (pmm_alloc_cases s v.shaped) [
  | inl (_, all_used) ↦ absurd (
      omega (
        arith,
        v.counted,
        count-zero_of_none (flat s.bitmap)
            (λ j. sym (bit_tst-flat s.bitmap j v.shaped) ∙ all_used j),
      ))
  | inr (k, e, hit, first) ↦
      let lt : k < bitmap_bits = lt_of_bit_tst s.bitmap k v.sized v.shaped hit in
      let pos : k ≢ 0 = λ z. ground (arith, v.page_zero) in
      rw e (record {
        page = k;
        address = refl;
        in_range = omega arith;
        not_zero = omega arith;
        was_free = hit;
        lowest = first;
        bits = λ j. bit_tst-bit_clr s.bitmap k j v.shaped;
        less = omega (arith, free_pages_count-le v.counts);
        keeps = take_page-IsValid k v hit;
      })
]

-- In a valid state `pmm_alloc` reports out of memory, by address 0, exactly when the free count
-- is 0, and the state is then unchanged.
pub pmm_alloc_out_of_memory :
    (s : Pmm)
    → IsValid s
    → (((pmm_alloc s).1 ≡ 0) ↔ (s.free_pages_count ≡ 0))
      × (s.free_pages_count ≡ 0 → (pmm_alloc s).0 ≡ s)
pmm_alloc_out_of_memory s v = elim (pmm_alloc_cases s v.shaped) [
  | inl (e, all_used) ↦
      let none_free : s.free_pages_count ≡ 0 =
        v.counted
        ∙ count-zero_of_none (flat s.bitmap)
            (λ j. sym (bit_tst-flat s.bitmap j v.shaped) ∙ all_used j) in
      rw e (((λ _. none_free), (λ _. refl)), (λ _. refl))
  | inr (k, e, hit, _) ↦
      let pos : k ≢ 0 = λ z. ground (arith, v.page_zero) in
      let one : count (flat (bit_clr s.bitmap k)) + 1 ≡ count (flat s.bitmap) =
        count-bit_clr s.bitmap k v.shaped hit in
      rw e (
        ((λ z. absurd (omega arith)), (λ z. absurd (omega (arith, v.counted)))),
        (λ z. absurd (omega (arith, v.counted))),
      )
]

-- `pmm_free` undoes the taking of a page.
free-took :
    (s : Pmm) (k : ℕ)
    → IsValid s
    → bit_tst s.bitmap k ≡ true
    → pmm_free (took s k) (k * page_size) ≡ s
free-took s k v hit =
    let lt : k < bitmap_bits = lt_of_bit_tst s.bitmap k v.sized v.shaped hit in
    let pos : k ≢ 0 = λ z. ground (arith, v.page_zero) in
    let q : k * page_size / page_size ≡ k = omega arith in
    let used : bit_tst (bit_clr s.bitmap k) k ≡ false =
      bit_tst-bit_clr s.bitmap k k v.shaped ∙ ground arith in
    let one : count (flat (bit_clr s.bitmap k)) + 1 ≡ count (flat s.bitmap) =
      count-bit_clr s.bitmap k v.shaped hit in
    pmm_free_used (took s k) k pos lt used
    ∙ pmm_ext (bit_set-bit_clr s.bitmap k hit)
        (omega (arith, v.counted, free_pages_count-le v.counts))

-- Freeing the page that `pmm_alloc` has just handed out restores the allocator.
pub pmm_free-pmm_alloc :
    (s : Pmm) → IsValid s → 0 < s.free_pages_count → pmm_free (pmm_alloc s).0 (pmm_alloc s).1 ≡ s
pmm_free-pmm_alloc s v some_free = elim (pmm_alloc_cases s v.shaped) [
  | inl (_, all_used) ↦ absurd (
      omega (
        arith,
        v.counted,
        count-zero_of_none (flat s.bitmap)
            (λ j. sym (bit_tst-flat s.bitmap j v.shaped) ∙ all_used j),
      ))
  | inr (k, e, hit, first) ↦ rw e (free-took s k v hit)
]
