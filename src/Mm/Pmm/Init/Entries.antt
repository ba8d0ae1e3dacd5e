-- ===== src/Mm/Pmm/Init/Entries.antt =====
-- mm/pmm.c: what the loops of `pmm_init` over the memory map add to the bitmap.
use ore_unix.Common.{
  ℕ, zero, suc, ◌+◌, ◌-◌, ◌*◌, ◌/◌, ◌%◌, ◌^◌, ◌≤◌, ◌<◌, ◌≡◌, refl, ◌∙◌, inl, inr, Bool, true, false,
  List, [], ◌∷◌, arith, ltb, leb, ◌==◌, ◌&&◌, ◌||◌, if◌then◌else◌, Bool-cases, add32, page_size,
  align_down,
}
use ore_unix.Mm.Pmm.{Pmm, bitmap_bits, bit_tst}
use ore_unix.Mm.Pmm.Inv.{IsCounted, give_page-IsCounted, bit_tst-bit_set}
use ore_unix.Mm.Pmm.Init.{
  MmapEntry, page_base, page_end, add_page, add_from, init_entry, init_entries, add_range,
}

-- The pages from `a` up to `b` that the bitmap holds are free in `t`; the others are as in `s`.
pub record Added (s t : Pmm) (a b : ℕ) : Type 0 where
  pub bits :
      (j : ℕ)
      → bit_tst t.bitmap j
        ≡ (if leb a j && ltb j b && ltb j bitmap_bits then true else bit_tst s.bitmap j)
  pub keeps : IsCounted t

add_page-Added :
    (s : Pmm) (a : ℕ)
    → IsCounted s
    → bit_tst s.bitmap a ≡ false
    → Added s (if ltb a bitmap_bits then add_page s a else s) a (a + 1)
unfolding add_page
add_page-Added s a v e = elim (Bool-cases (ltb a bitmap_bits)) [
  | inl h ↦
      (let lt : a < bitmap_bits = ground arith in
        let g = give_page-IsCounted a v lt e in
        rw h (record {
          bits = λ j. bit_tst-bit_set s.bitmap a j v.sized v.shaped lt ∙ ground arith;
          keeps = record { sized = g.sized; shaped = g.shaped; counted = g.counted };
        }))
  | inr h ↦ rw h (record { bits = λ j. ground arith; keeps = v })
]

add_from-Added :
    (fuel : ℕ) (s : Pmm) (a b : ℕ)
    → IsCounted s
    → ((j : ℕ) → a ≤ j → j < b → bit_tst s.bitmap j ≡ false)
    → b < 2 ^ 20
    → b < a + fuel
    → Added s (add_from fuel s (a * page_size) (b * page_size)) a b
unfolding add_from
add_from-Added zero s a b v new top enough = record { bits = λ j. ground arith; keeps = v }
add_from-Added (suc fuel) s a b v new top enough =
    elim (Bool-cases (ltb (a * page_size) (b * page_size))) [
      | inl e ↦
          (let lt : a < b = ground arith in
            let p : a * page_size / page_size ≡ a = omega arith in
            let q : add32 (a * page_size) page_size ≡ (a + 1) * page_size = omega arith in
            let one = add_page-Added s a v (new a (omega arith) lt) in
            let rest =
              add_from-Added fuel (if ltb a bitmap_bits then add_page s a else s) (a + 1) b
                one.keeps (λ j lo hi. one.bits j ∙ ground (arith, new j (omega arith) hi)) top
                (omega arith) in
            rw (e, p, q)
              (record { bits = λ j. ground (arith, rest.bits j, one.bits j); keeps = rest.keeps }))
      | inr e ↦ rw e (record { bits = λ j. ground arith; keeps = v })
    ]

-- An available entry covers the pages that lie wholly inside it.
abbrev pub covers : MmapEntry → ℕ → Bool
covers e j =
    e.type == 1
    && leb ((e.base_addr + (page_size - 1)) / page_size) j
    && ltb j ((e.base_addr + e.len) / page_size)

abbrev pub covers_any : List MmapEntry → ℕ → Bool
covers_any [] j = false
covers_any (e ∷ es) j = covers e j || covers_any es j

-- The entries lie below 4 GB, and no two available ones share a page.
abbrev pub IsMap : List MmapEntry → Type 0
IsMap [] = Unit {0}
IsMap (e ∷ es) =
    (e.base_addr + e.len + page_size ≤ 2 ^ 32)
    × ((j : ℕ) → covers e j ≡ true → covers_any es j ≡ false)
    × IsMap es

init_entry-bits :
    (s : Pmm) (e : MmapEntry)
    → IsCounted s
    → e.base_addr + e.len + page_size ≤ 2 ^ 32
    → ((j : ℕ) → covers e j ≡ true → bit_tst s.bitmap j ≡ false)
    → IsCounted (init_entry s e)
      × ((j : ℕ)
          → bit_tst (init_entry s e).bitmap j
            ≡ (if covers e j && ltb j bitmap_bits then true else bit_tst s.bitmap j))
unfolding init_entry page_base page_end
init_entry-bits s e v below new = elim (Bool-cases (e.type == 1)) [
  | inl t ↦
      (let lo : align_down ((e.base_addr + (page_size - 1)) % 2 ^ 64) page_size % 2 ^ 32
            ≡ (e.base_addr + (page_size - 1)) / page_size * page_size =
          omega arith in
        let hi : align_down ((e.base_addr + e.len) % 2 ^ 64) page_size % 2 ^ 32
            ≡ (e.base_addr + e.len) / page_size * page_size =
          omega arith in
        let all =
          add_from-Added (2 ^ 20 + 1) s ((e.base_addr + (page_size - 1)) / page_size)
            ((e.base_addr + e.len) / page_size) v (λ j l h. new j (ground arith)) (omega arith)
            (omega arith) in
        rw (t, lo, hi) (all.keeps, λ j. all.bits j ∙ ground arith))
  | inr t ↦ rw t (v, λ j. refl)
]

pub init_entries-bits :
    (es : List MmapEntry) (s : Pmm)
    → IsCounted s
    → IsMap es
    → ((j : ℕ) → covers_any es j ≡ true → bit_tst s.bitmap j ≡ false)
    → IsCounted (init_entries s es)
      × ((j : ℕ)
          → bit_tst (init_entries s es).bitmap j
            ≡ (if covers_any es j && ltb j bitmap_bits then true else bit_tst s.bitmap j))
unfolding init_entries
init_entries-bits [] s v m new = (v, λ j. refl)
init_entries-bits (e ∷ es) s v (below, apart, m) new =
    let one = init_entry-bits s e v below (λ j c. new j (ground arith)) in
    let rest =
      init_entries-bits es (init_entry s e) one.0 m
        (λ j c. one.1 j ∙ ground (arith, apart j, new j)) in
    (rest.0, λ j. rest.1 j ∙ ground (arith, one.1 j))

pub add_range-Added :
    (rounds : ℕ) (s : Pmm) (i : ℕ)
    → IsCounted s
    → ((j : ℕ) → i ≤ j → bit_tst s.bitmap j ≡ false)
    → i + rounds ≤ bitmap_bits
    → Added s (add_range rounds s i) i (i + rounds)
unfolding add_range
add_range-Added zero s i v new h = record { bits = λ j. ground arith; keeps = v }
add_range-Added (suc rounds) s i v new h =
    let in_range : ltb i bitmap_bits ≡ true = ground arith in
    let one : Added s (add_page s i) i (i + 1) =
      (rw in_range at (add_page-Added s i v (new i (omega arith)))) in
    let rest =
      add_range-Added rounds (add_page s i) (i + 1) one.keeps
        (λ j lo. one.bits j ∙ ground (arith, new j (omega arith))) (omega arith) in
    record { bits = λ j. ground (arith, rest.bits j, one.bits j); keeps = rest.keeps }
