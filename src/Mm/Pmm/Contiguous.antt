-- ===== src/Mm/Pmm/Contiguous.antt =====
-- mm/pmm.c: `pmm_alloc_contiguous` and `pmm_free_contiguous`.
use ore_unix.Common.{
  ℕ, zero, suc, ◌+◌, ◌-◌, ◌*◌, ◌≤◌, ◌<◌, ◌≡◌, refl, ◌∙◌, ◌≢◌, ◌⊎◌, inl, inr, false, none, some,
  List, arith, ltb, leb, ◌==◌, ◌&&◌, if◌then◌else◌, Option-cases, length, sub32, page_size,
}
use ore_unix.Mm.Pmm.{
  Pmm, Word, bitmap_bits, bit_tst, bit_clr, run_from, clear_run, pmm_alloc_contiguous,
}
use ore_unix.Mm.Pmm.Bits.{count}
use ore_unix.Mm.Pmm.Flat.{flat, IsShaped, bit_clr-IsShaped, length-bit_clr}
use ore_unix.Mm.Pmm.Inv.{
  IsValid, bit_tst-bit_clr, count-bit_clr, free_pages_count-le, count-bit_clr,
}
use ore_unix.Mm.Pmm.Run.{Blocked, AllFree, run_from_sound, run_from_complete}

clear_run-IsShaped : (n : ℕ) (bm : List Word) (s : ℕ) → IsShaped bm → IsShaped (clear_run n bm s)
unfolding clear_run
clear_run-IsShaped zero bm s h = h
clear_run-IsShaped (suc n) bm s h =
    clear_run-IsShaped n (bit_clr bm s) (s + 1) (bit_clr-IsShaped bm s h)

length-clear_run : (n : ℕ) (bm : List Word) (s : ℕ) → length (clear_run n bm s) ≡ length bm
unfolding clear_run
length-clear_run zero bm s = refl
length-clear_run (suc n) bm s = length-clear_run n (bit_clr bm s) (s + 1) ∙ length-bit_clr bm s

-- Exactly the pages of the run become used.
bit_tst-clear_run :
    (n : ℕ) (bm : List Word) (s j : ℕ)
    → IsShaped bm
    → bit_tst (clear_run n bm s) j ≡ (if leb s j && ltb j (s + n) then false else bit_tst bm j)
unfolding clear_run
bit_tst-clear_run zero bm s j h = ground arith
bit_tst-clear_run (suc n) bm s j h = ground (
  arith,
  bit_tst-clear_run n (bit_clr bm s) (s + 1) j (bit_clr-IsShaped bm s h),
  bit_tst-bit_clr bm s j h,
)

-- Clearing a run of free pages lowers the number of 1s by its length.
count-clear_run :
    (n : ℕ) (bm : List Word) (s : ℕ)
    → IsShaped bm
    → AllFree bm s (s + n)
    → count (flat (clear_run n bm s)) + n ≡ count (flat bm)
unfolding clear_run
count-clear_run zero bm s h all = omega arith
count-clear_run (suc n) bm s h all = omega (
  arith,
  count-clear_run n (bit_clr bm s) (s + 1) (bit_clr-IsShaped bm s h) rest,
  count-bit_clr bm s h (all s (omega arith) (omega arith)),
)
  where
    rest : AllFree (bit_clr bm s) (s + 1) (s + 1 + n)
    rest j lo hi =
        bit_tst-bit_clr bm s j h
        ∙ (let e : (j == s) ≡ false = ground arith in rw e (all j (omega arith) (omega arith)))

-- What a successful `pmm_alloc_contiguous` of `n` pages returns.
pub record AllocatedRun (s t : Pmm) (phys n : ℕ) : Type 0 where
  pub start : ℕ
  pub address : phys ≡ start * page_size
  pub not_zero : 1 ≤ start
  pub inside : start + n ≤ bitmap_bits
  pub were_free : AllFree s.bitmap start (start + n)
  pub first : (u : ℕ) → 1 ≤ u → u < start → Blocked s.bitmap u n
  pub bits :
      (j : ℕ)
      → bit_tst t.bitmap j
        ≡ (if leb start j && ltb j (start + n) then false else bit_tst s.bitmap j)
  pub less : t.free_pages_count + n ≡ s.free_pages_count
  pub keeps : IsValid t

-- What a failed one means.
pub record NoRun (s t : Pmm) (phys n : ℕ) : Type 0 where
  pub address : phys ≡ 0
  pub same : t ≡ s
  pub blocked : (u : ℕ) → 1 ≤ u → u + n ≤ bitmap_bits → Blocked s.bitmap u n

contiguous_none :
    (s : Pmm) (n : ℕ)
    → n ≢ 0
    → run_from (bitmap_bits - 1) s.bitmap n 1 0 0 ≡ none
    → pmm_alloc_contiguous s n ≡ (s, 0)
unfolding pmm_alloc_contiguous
contiguous_none s n h e = let q : (n == 0) ≡ false = ground arith in rw (q, e)

contiguous_some :
    (s : Pmm) (n start : ℕ)
    → n ≢ 0
    → run_from (bitmap_bits - 1) s.bitmap n 1 0 0 ≡ some start
    → pmm_alloc_contiguous s n ≡ (
      record s {
        bitmap = clear_run n s.bitmap start;
        free_pages_count = sub32 s.free_pages_count n;
      },
      start * page_size,
    )
unfolding pmm_alloc_contiguous
contiguous_some s n start h e = let q : (n == 0) ≡ false = ground arith in rw (q, e)

AllocatedRun-taken :
    (s : Pmm) (n start : ℕ)
    → IsValid s
    → 1 ≤ start
    → start + n ≤ bitmap_bits
    → AllFree s.bitmap start (start + n)
    → ((u : ℕ) → 1 ≤ u → u < start → Blocked s.bitmap u n)
    → AllocatedRun s
        (record s {
          bitmap = clear_run n s.bitmap start;
          free_pages_count = sub32 s.free_pages_count n;
        })
        (start * page_size)
        n
AllocatedRun-taken s n start v lo hi free first =
    let c : count (flat (clear_run n s.bitmap start)) + n ≡ count (flat s.bitmap) =
      count-clear_run n s.bitmap start v.shaped free in
    record {
      start = start;
      address = refl;
      not_zero = lo;
      inside = hi;
      were_free = free;
      first = first;
      bits = λ j. bit_tst-clear_run n s.bitmap start j v.shaped;
      less = omega (arith, v.counted, free_pages_count-le v.counts);
      keeps = record {
        counts = record {
          sized = length-clear_run n s.bitmap start ∙ v.sized;
          shaped = clear_run-IsShaped n s.bitmap start v.shaped;
          counted = omega (arith, v.counted, free_pages_count-le v.counts);
        };
        page_zero = bit_tst-clear_run n s.bitmap start 0 v.shaped ∙ ground (arith, v.page_zero);
      };
    }

-- In a valid state and for `n ≢ 0`, `pmm_alloc_contiguous` either takes the first run of `n` free
-- pages (the lowest start from page 1 on): exactly those pages become used, the free count falls
-- by `n` and the state stays valid; or it returns 0, changes nothing, and every run of `n` pages
-- from page 1 on has a used page.
pub pmm_alloc_contiguous_first_fit :
    (s : Pmm) (n : ℕ)
    → IsValid s
    → n ≢ 0
    → AllocatedRun s (pmm_alloc_contiguous s n).0 (pmm_alloc_contiguous s n).1 n
      ⊎ NoRun s (pmm_alloc_contiguous s n).0 (pmm_alloc_contiguous s n).1 n
pmm_alloc_contiguous_first_fit s n v h =
    elim (Option-cases (run_from (bitmap_bits - 1) s.bitmap n 1 0 0)) [
      | inl e ↦ inr (
          rw (contiguous_none s n h e) (record {
            address = refl;
            same = refl;
            blocked = run_from_complete s.bitmap n (bitmap_bits - 1) (omega arith) e;
          }))
      | inr (start, e) ↦
          (let f = run_from_sound s.bitmap n (bitmap_bits - 1) start (omega arith) e in
            inl
              (rw (contiguous_some s n start h e) (AllocatedRun-taken s n start v f.0 f.1 f.2 f.3)))
    ]
