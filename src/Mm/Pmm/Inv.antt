-- ===== src/Mm/Pmm/Inv.antt =====
-- The invariant of mm/pmm.c, and that single pages keep it.
use ore_unix.Common.{
  ℕ, ◌+◌, ◌*◌, ◌/◌, ◌≤◌, ◌<◌, ◌≡◌, refl, sym, ◌∙◌, ◌≢◌, ◌⊎◌, inl, inr, true, false, ◌||◌, List,
  arith, length, add32, sub32, page_size, leb, ◌==◌, if◌then◌else◌, Bool-cases,
}
use ore_unix.Mm.Pmm.{
  Pmm, Word, bitmap_words, bitmap_bits, phys_mem_max, bit_tst, bit_set, bit_clr, pmm_free,
}
use ore_unix.Mm.Pmm.Bits.{
  count, count-le-length, count-set-true, count-set-false, lt-length_of_true, get_or-set_bit,
  get_or-set_bit_self, get_or-clear_self,
}
use ore_unix.Mm.Pmm.Flat.{
  flat, IsShaped, bit_tst-flat, bit_set-flat, bit_clr-flat, bit_set-IsShaped, bit_clr-IsShaped,
  length-bit_set, length-bit_clr, length-flat,
}

-- The bitmap has the static size of the array, and the free count is the number of 1s.
pub record IsCounted (s : Pmm) : Type 0 where
  pub sized : length s.bitmap ≡ bitmap_words
  pub shaped : IsShaped s.bitmap
  pub counted : s.free_pages_count ≡ count (flat s.bitmap)

-- And page 0 is never free: its address is the allocator's "out of memory".
pub record IsValid (s : Pmm) : Type 0 where
  pub counts : IsCounted s
  pub open counts use *
  pub page_zero : bit_tst s.bitmap 0 ≡ false

pub length-pages :
    (bm : List Word) → length bm ≡ bitmap_words → IsShaped bm → length (flat bm) ≡ bitmap_bits
length-pages bm h k = omega (arith, length-flat bm k)

pub free_pages_count-le : {s : Pmm} → IsCounted s → s.free_pages_count ≤ bitmap_bits
free_pages_count-le {s} v =
    omega
      (arith, v.counted, count-le-length (flat s.bitmap), length-pages s.bitmap v.sized v.shaped)

-- What a write to one bit changes.
pub bit_tst-bit_clr :
    (bm : List Word) (i j : ℕ)
    → IsShaped bm
    → bit_tst (bit_clr bm i) j ≡ (if j == i then false else bit_tst bm j)
bit_tst-bit_clr bm i j h =
    rw
      (
        bit_tst-flat (bit_clr bm i) j (bit_clr-IsShaped bm i h),
        bit_clr-flat bm i h,
        bit_tst-flat bm j h,
      )
      (elim (Bool-cases (j == i)) [
        | inl e ↦ (let p : j ≡ i = ground arith in rw (e, p) (get_or-clear_self (flat bm) i))
        | inr e ↦ (let p : i ≢ j = ground arith in rw e (get_or-set_bit (flat bm) i j false p))
      ])

pub bit_tst-bit_set :
    (bm : List Word) (i j : ℕ)
    → length bm ≡ bitmap_words
    → IsShaped bm
    → i < bitmap_bits
    → bit_tst (bit_set bm i) j ≡ (if j == i then true else bit_tst bm j)
bit_tst-bit_set bm i j s h lt =
    rw
      (
        bit_tst-flat (bit_set bm i) j (bit_set-IsShaped bm i h),
        bit_set-flat bm i h,
        bit_tst-flat bm j h,
      )
      (elim (Bool-cases (j == i)) [
        | inl e ↦
            (let p : j ≡ i = ground arith in
              rw (e, p) (get_or-set_bit_self (flat bm) i true (omega (arith, length-pages bm s h))))
        | inr e ↦ (let p : i ≢ j = ground arith in rw e (get_or-set_bit (flat bm) i j true p))
      ])

pub count-bit_clr :
    (bm : List Word) (i : ℕ)
    → IsShaped bm
    → bit_tst bm i ≡ true
    → count (flat (bit_clr bm i)) + 1 ≡ count (flat bm)
count-bit_clr bm i h e =
    rw (bit_clr-flat bm i h) (count-set-false (flat bm) i (sym (bit_tst-flat bm i h) ∙ e))

pub count-bit_set :
    (bm : List Word) (i : ℕ)
    → length bm ≡ bitmap_words
    → IsShaped bm
    → i < bitmap_bits
    → bit_tst bm i ≡ false
    → count (flat (bit_set bm i)) ≡ count (flat bm) + 1
count-bit_set bm i s h lt e = rw (bit_set-flat bm i h) (
    count-set-true (flat bm) i (omega (arith, length-pages bm s h)) (sym (bit_tst-flat bm i h) ∙ e))

-- A page that is free lies in the bitmap.
pub lt_of_bit_tst :
    (bm : List Word) (i : ℕ)
    → length bm ≡ bitmap_words
    → IsShaped bm
    → bit_tst bm i ≡ true
    → i < bitmap_bits
lt_of_bit_tst bm i s h e =
    omega
      (arith, lt-length_of_true (flat bm) i (sym (bit_tst-flat bm i h) ∙ e), length-pages bm s h)

-- Taking a free page, as `pmm_alloc` does, keeps the counts.
pub take_page-IsCounted :
    {s : Pmm} (i : ℕ)
    → IsCounted s
    → bit_tst s.bitmap i ≡ true
    → IsCounted
        (record s { bitmap = bit_clr s.bitmap i; free_pages_count = sub32 s.free_pages_count 1 })
take_page-IsCounted {s} i v e = record {
  sized = length-bit_clr s.bitmap i ∙ v.sized;
  shaped = bit_clr-IsShaped s.bitmap i v.shaped;
  counted = omega (arith, v.counted, count-bit_clr s.bitmap i v.shaped e, free_pages_count-le v);
}

pub take_page-IsValid :
    {s : Pmm} (i : ℕ)
    → IsValid s
    → bit_tst s.bitmap i ≡ true
    → IsValid
        (record s { bitmap = bit_clr s.bitmap i; free_pages_count = sub32 s.free_pages_count 1 })
take_page-IsValid {s} i v e = record {
  counts = take_page-IsCounted i v.counts e;
  page_zero = bit_tst-bit_clr s.bitmap i 0 v.shaped ∙ ground (arith, v.page_zero);
}

-- Giving a used page back, as `pmm_free` does, keeps them.
pub give_page-IsCounted :
    {s : Pmm} (i : ℕ)
    → IsCounted s
    → i < bitmap_bits
    → bit_tst s.bitmap i ≡ false
    → IsCounted
        (record s { bitmap = bit_set s.bitmap i; free_pages_count = add32 s.free_pages_count 1 })
give_page-IsCounted {s} i v lt e = record {
  sized = length-bit_set s.bitmap i ∙ v.sized;
  shaped = bit_set-IsShaped s.bitmap i v.shaped;
  counted =
      omega
        (arith, v.counted, count-bit_set s.bitmap i v.sized v.shaped lt e, free_pages_count-le v);
}

pub give_page-IsValid :
    {s : Pmm} (i : ℕ)
    → IsValid s
    → 0 < i
    → i < bitmap_bits
    → bit_tst s.bitmap i ≡ false
    → IsValid
        (record s { bitmap = bit_set s.bitmap i; free_pages_count = add32 s.free_pages_count 1 })
give_page-IsValid {s} i v pos lt e = record {
  counts = give_page-IsCounted i v.counts lt e;
  page_zero = bit_tst-bit_set s.bitmap i 0 v.sized v.shaped lt ∙ ground (arith, v.page_zero);
}

-- `pmm_free` of the address of a used page of the bitmap.
pub pmm_free_used :
    (s : Pmm) (i : ℕ)
    → i ≢ 0
    → i < bitmap_bits
    → bit_tst s.bitmap i ≡ false
    → pmm_free s (i * page_size)
      ≡ record s { bitmap = bit_set s.bitmap i; free_pages_count = add32 s.free_pages_count 1 }
unfolding pmm_free
pmm_free_used s i h lt used =
    let q : i * page_size / page_size ≡ i = omega arith in
    let t : (i * page_size == 0 || leb phys_mem_max (i * page_size)) ≡ false = ground arith in
    rw (t, q, used)

-- `pmm_free` changes the state only for a used page of the bitmap.
pub pmm_free_cases :
    (s : Pmm) (phys : ℕ)
    → (pmm_free s phys ≡ s)
      ⊎ ((phys ≢ 0)
          × (phys < phys_mem_max)
          × (bit_tst s.bitmap (phys / page_size) ≡ false)
          × (pmm_free s phys ≡ record s {
            bitmap = bit_set s.bitmap (phys / page_size);
            free_pages_count = add32 s.free_pages_count 1;
          }))
unfolding pmm_free
pmm_free_cases s phys = elim (Bool-cases (phys == 0 || leb phys_mem_max phys)) [
  | inl e ↦ inl (rw e refl)
  | inr e ↦ elim (Bool-cases (bit_tst s.bitmap (phys / page_size))) [
    | inl f ↦ inl (rw (e, f) refl)
    | inr f ↦ inr (ground arith, ground arith, f, rw (e, f) refl)
  ]
]

-- `pmm_free` keeps the invariant for every address that is not inside page 0, one of no page
-- included.
pmm_free-IsValid :
    {s : Pmm} (phys : ℕ) → IsValid s → phys / page_size ≢ 0 → IsValid (pmm_free s phys)
pmm_free-IsValid {s} phys v h = elim (pmm_free_cases s phys) [
  | inl e ↦ rw e v
  | inr (_, lt, used, e) ↦
      rw e (give_page-IsValid (phys / page_size) v (omega arith) (omega arith) used)
]
