-- ===== src/Mm/Pmm/MarkUsed.antt =====
-- mm/pmm.c: `pmm_mark_used` reserves the pages of an address range.
use ore_unix.Common.{
  ℕ, zero, suc, ◌+◌, ◌-◌, ◌*◌, ◌/◌, ◌^◌, ◌≤◌, ◌<◌, ◌≡◌, ◌∙◌, inl, inr, true, false, arith, ltb, leb,
  ◌==◌, ◌&&◌, if◌then◌else◌, Bool-cases, add32, page_size, align_up, align_down,
}
use ore_unix.Mm.Pmm.{Pmm, bitmap_bits, bit_tst, bit_clr, mark_page, mark_from, pmm_mark_used}
use ore_unix.Mm.Pmm.Bits.{count}
use ore_unix.Mm.Pmm.Flat.{flat}
use ore_unix.Mm.Pmm.Inv.{
  IsCounted, bit_tst-bit_clr, count-bit_clr, take_page-IsCounted, lt_of_bit_tst,
}

-- The pages from `a` up to `b` are used in `t`; the others are as in `s`.
pub record Reserved (s t : Pmm) (a b : ℕ) : Type 0 where
  pub bits :
      (j : ℕ) → bit_tst t.bitmap j ≡ (if leb a j && ltb j b then false else bit_tst s.bitmap j)
  pub keeps : IsCounted t

used_page : (s : Pmm) (a : ℕ) → IsCounted s → bit_tst s.bitmap a ≡ false → Reserved s s a (a + 1)
used_page s a v e = record {
  bits = λ j. elim (Bool-cases (j == a)) [
    | inl p ↦ (let q : j ≡ a = ground arith in rw (q, e) (ground arith))
    | inr p ↦ ground arith
  ];
  keeps = v;
}

mark_page-Reserved :
    (s : Pmm) (a : ℕ) → IsCounted s → Reserved s (mark_page s (a * page_size)) a (a + 1)
unfolding mark_page
mark_page-Reserved s a v =
    let q : a * page_size / page_size ≡ a = omega arith in
    elim (Bool-cases (bit_tst s.bitmap a)) [
      | inl e ↦
          (let lt : ltb a bitmap_bits ≡ true =
              (let h : a < bitmap_bits = lt_of_bit_tst s.bitmap a v.sized v.shaped e in
                ground arith) in
            let c : count (flat (bit_clr s.bitmap a)) + 1 ≡ count (flat s.bitmap) =
              count-bit_clr s.bitmap a v.shaped e in
            let some_free : (s.free_pages_count == 0) ≡ false = ground (arith, v.counted) in
            rw (q, lt, e, some_free)
              (record {
                bits = λ j. bit_tst-bit_clr s.bitmap a j v.shaped ∙ ground arith;
                keeps = take_page-IsCounted a v e;
              }))
      | inr e ↦
          (let no_hit : (ltb a bitmap_bits && bit_tst s.bitmap a) ≡ false = ground arith in
            rw (q, no_hit) (used_page s a v e))
    ]

-- The loop from page `a`: the fuel covers the pages up to `b`.
mark_from-Reserved :
    (fuel : ℕ) (s : Pmm) (a b : ℕ)
    → IsCounted s
    → b < 2 ^ 20
    → b < a + fuel
    → Reserved s (mark_from fuel s (a * page_size) (b * page_size)) a b
unfolding mark_from
mark_from-Reserved zero s a b v top enough = record { bits = λ j. ground arith; keeps = v }
mark_from-Reserved (suc fuel) s a b v top enough =
    elim (Bool-cases (ltb (a * page_size) (b * page_size))) [
      | inl e ↦
          (let lt : a < b = ground arith in
            let q : add32 (a * page_size) page_size ≡ (a + 1) * page_size = omega arith in
            let one = mark_page-Reserved s a v in
            let rest =
              mark_from-Reserved fuel (mark_page s (a * page_size)) (a + 1) b one.keeps top
                (omega arith) in
            rw (e, q)
              (record { bits = λ j. ground (arith, rest.bits j, one.bits j); keeps = rest.keeps }))
      | inr e ↦ rw e (record { bits = λ j. ground arith; keeps = v })
    ]

-- For a range that ends at or below the last page of the address space, `pmm_mark_used` makes
-- exactly the pages used that the range touches, leaves the others as they were, and keeps the
-- counts right: the loop ends by its test.
pub pmm_mark_used-Reserved :
    (s : Pmm) (start end : ℕ)
    → IsCounted s
    → end + page_size ≤ 2 ^ 32
    → Reserved s (pmm_mark_used s start end) (start / page_size) ((end + page_size - 1) / page_size)
unfolding pmm_mark_used
pmm_mark_used-Reserved s start end v h =
    let a : align_down start page_size ≡ start / page_size * page_size = omega arith in
    let b : align_up end page_size ≡ (end + page_size - 1) / page_size * page_size = omega arith in
    rw (a, b)
      (mark_from-Reserved _ s (start / page_size) ((end + page_size - 1) / page_size) v
        (omega arith) (omega arith))
