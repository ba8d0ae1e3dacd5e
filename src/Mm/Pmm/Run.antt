-- ===== src/Mm/Pmm/Run.antt =====
-- mm/pmm.c: the search of `pmm_alloc_contiguous` finds the first run of `n` free pages.
use ore_unix.Common.{
  ℕ, zero, suc, ◌+◌, ◌-◌, ◌≤◌, ◌<◌, ◌≡◌, refl, sym, ◌∙◌, ◌≢◌, ◌⊎◌, inl, inr, true, false, none,
  some, List, arith, leb, ◌==◌, if◌then◌else◌, Bool-cases,
}
use ore_unix.Mm.Pmm.{Word, bit_tst, run_from}

-- A used page among the `n` from page `s` on.
abbrev pub Blocked : List Word → ℕ → ℕ → Type 0
Blocked bm s n = (j : ℕ) × (s ≤ j) × (j < s + n) × (bit_tst bm j ≡ false)

-- All pages from `s` up to `e` are free.
abbrev pub AllFree : List Word → ℕ → ℕ → Type 0
AllFree bm s e = (j : ℕ) → s ≤ j → j < e → bit_tst bm j ≡ true

AllFree-snoc :
    (bm : List Word) (s i : ℕ) → AllFree bm s i → bit_tst bm i ≡ true → AllFree bm s (i + 1)
AllFree-snoc bm s i h e j lo hi = elim (Bool-cases (j == i)) [
  | inl p ↦ (let q : j ≡ i = ground arith in rw q e)
  | inr p ↦ h j lo (ground arith)
]

-- One round of the loop.
abbrev next_start : ℕ → ℕ → ℕ → ℕ
next_start i found start = if found == 0 then i else start

run_from_last :
    (rounds : ℕ) (bm : List Word) (n i found start : ℕ)
    → bit_tst bm i ≡ true
    → found + 1 ≡ n
    → run_from (suc rounds) bm n i found start ≡ some (next_start i found start)
unfolding run_from
run_from_last rounds bm n i found start e p =
    let q : (found + 1 == n) ≡ true = ground arith in rw (e, q)

run_from_more :
    (rounds : ℕ) (bm : List Word) (n i found start : ℕ)
    → bit_tst bm i ≡ true
    → found + 1 ≢ n
    → run_from (suc rounds) bm n i found start
      ≡ run_from rounds bm n (i + 1) (found + 1) (next_start i found start)
unfolding run_from
run_from_more rounds bm n i found start e p =
    let q : (found + 1 == n) ≡ false = ground arith in rw (e, q)

run_from_miss :
    (rounds : ℕ) (bm : List Word) (n i found start : ℕ)
    → bit_tst bm i ≡ false
    → run_from (suc rounds) bm n i found start ≡ run_from rounds bm n (i + 1) 0 start
unfolding run_from
run_from_miss rounds bm n i found start e = rw e

run_from_zero :
    (bm : List Word) (n i found start s : ℕ) → ¬ (run_from 0 bm n i found start ≡ some s)
unfolding run_from
run_from_zero bm n i found start s h = cc

some_inj : {s t : ℕ} → some s ≡ some t → s ≡ t
some_inj h = ground arith

some≢none : {s : ℕ} → ¬ (some s ≡ none)
some≢none h = cc

module _ (bm : List Word) (n : ℕ) where
  -- The loop's variables: `found` free pages end just before `i`, and start at `start`.
  record AtRound (i found start : ℕ) : Type 0 where
    short : found < n
    place : (found ≡ 0) ⊎ (start + found ≡ i)
    fits : found ≤ i
    free : AllFree bm (i - found) i

  AtRound-hit :
      (i found start : ℕ)
      → AtRound i found start
      → bit_tst bm i ≡ true
      → found + 1 ≢ n
      → AtRound (i + 1) (found + 1) (next_start i found start)
  AtRound-hit i found start a e ne = record {
    short = omega (arith, a.short);
    place = inr (ground (arith, a.place));
    fits = omega (arith, a.fits);
    free =
        (let q : i + 1 - (found + 1) ≡ i - found = omega arith in
          rw q (AllFree-snoc bm (i - found) i a.free e));
  }

  AtRound-miss : (i start : ℕ) → 0 < n → AtRound (i + 1) 0 start
  AtRound-miss i start pos = record {
    short = pos;
    place = inl refl;
    fits = omega arith;
    free = λ j lo hi. absurd (omega arith);
  }

  -- What the search promises from round `i` on.
  record Finds (i found rounds : ℕ) (s : ℕ) : Type 0 where
    from : i ≤ s + found
    inside : s + n ≤ i + rounds
    free : AllFree bm s (s + n)
    first : (t : ℕ) → i ≤ t + found → t < s → Blocked bm t n

  Finds-miss :
      (i found rounds s : ℕ)
      → found < n
      → bit_tst bm i ≡ false
      → Finds (i + 1) 0 rounds s
      → Finds i found (suc rounds) s
  Finds-miss i found rounds s short e f = record {
    from = omega (arith, f.from);
    inside = omega (arith, f.inside);
    free = f.free;
    first = λ t lo hi. elim (Bool-cases (leb (i + 1) t)) [
      | inl p ↦ f.first t (ground arith) hi
      | inr p ↦ (i, ground arith, ground arith, e)
    ];
  }

  Finds-last :
      (i found start rounds s : ℕ)
      → AtRound i found start
      → bit_tst bm i ≡ true
      → found + 1 ≡ n
      → next_start i found start ≡ s
      → Finds i found (suc rounds) s
  Finds-last i found start rounds s a e p q =
      let at : s + found ≡ i = ground (arith, a.place) in
      record {
        from = omega arith;
        inside = omega arith;
        free =
            (let lo : i - found ≡ s = omega arith in
              let hi : s + n ≡ i + 1 = omega arith in
              rw (hi, ← lo) (AllFree-snoc bm (i - found) i a.free e));
        first = λ t lo hi. absurd (omega arith);
      }

  Finds-more :
      (i found rounds s : ℕ) → Finds (i + 1) (found + 1) rounds s → Finds i found (suc rounds) s
  Finds-more i found rounds s f = record {
    from = omega (arith, f.from);
    inside = omega (arith, f.inside);
    free = f.free;
    first = λ t lo hi. f.first t (omega arith) hi;
  }

  run_from-Finds :
      (rounds i found start s : ℕ)
      → AtRound i found start
      → run_from rounds bm n i found start ≡ some s
      → Finds i found rounds s
  run_from-Finds zero i found start s a h = absurd (run_from_zero bm n i found start s h)
  run_from-Finds (suc rounds) i found start s a h = elim (Bool-cases (bit_tst bm i)) [
    | inl e ↦ elim (Bool-cases (found + 1 == n)) [
      | inl p ↦
          (let last : found + 1 ≡ n = ground arith in
            Finds-last i found start rounds s a e last
              (some_inj (sym (run_from_last rounds bm n i found start e last) ∙ h)))
      | inr p ↦
          (let more : found + 1 ≢ n = ground arith in
            Finds-more i found rounds s (
              run_from-Finds rounds (i + 1) (found + 1) (next_start i found start) s
                (AtRound-hit i found start a e more)
                (sym (run_from_more rounds bm n i found start e more) ∙ h)))
    ]
    | inr e ↦ Finds-miss i found rounds s a.short e (
        run_from-Finds rounds (i + 1) 0 start s (AtRound-miss i start (omega (arith, a.short)))
          (sym (run_from_miss rounds bm n i found start e) ∙ h))
  ]

  run_from-Blocked :
      (rounds i found start : ℕ)
      → AtRound i found start
      → run_from rounds bm n i found start ≡ none
      → (t : ℕ) → i ≤ t + found
      → t + n ≤ i + rounds
      → Blocked bm t n
  run_from-Blocked zero i found start a h t lo hi = absurd (omega (arith, a.short))
  run_from-Blocked (suc rounds) i found start a h t lo hi = elim (Bool-cases (bit_tst bm i)) [
    | inl e ↦ elim (Bool-cases (found + 1 == n)) [
      | inl p ↦
          (let last : found + 1 ≡ n = ground arith in
            absurd (some≢none (sym (run_from_last rounds bm n i found start e last) ∙ h)))
      | inr p ↦
          (let more : found + 1 ≢ n = ground arith in
            run_from-Blocked rounds (i + 1) (found + 1) (next_start i found start)
              (AtRound-hit i found start a e more)
              (sym (run_from_more rounds bm n i found start e more) ∙ h) t (omega arith)
              (omega arith))
    ]
    | inr e ↦ elim (Bool-cases (leb (i + 1) t)) [
      | inl p ↦
          run_from-Blocked rounds (i + 1) 0 start (AtRound-miss i start (omega (arith, a.short)))
            (sym (run_from_miss rounds bm n i found start e) ∙ h) t (ground arith) (omega arith)
      | inr p ↦ (i, ground arith, omega (arith, a.short), e)
    ]
  ]

-- The search over the whole bitmap, which starts at page 1.
pub run_from_sound :
    (bm : List Word) (n rounds s : ℕ)
    → 0 < n
    → run_from rounds bm n 1 0 0 ≡ some s
    → (1 ≤ s)
      × (s + n ≤ 1 + rounds)
      × AllFree bm s (s + n)
      × ((t : ℕ) → 1 ≤ t → t < s → Blocked bm t n)
run_from_sound bm n rounds s pos h =
    let f = run_from-Finds bm n rounds 1 0 0 s (AtRound-miss bm n 0 0 pos) h in
    (omega (arith, f.from), f.inside, f.free, λ t lo. f.first t (omega arith))

pub run_from_complete :
    (bm : List Word) (n rounds : ℕ)
    → 0 < n
    → run_from rounds bm n 1 0 0 ≡ none
    → (t : ℕ) → 1 ≤ t
    → t + n ≤ 1 + rounds
    → Blocked bm t n
run_from_complete bm n rounds pos h t lo hi =
    run_from-Blocked bm n rounds 1 0 0 (AtRound-miss bm n 0 0 pos) h t (omega arith) hi
