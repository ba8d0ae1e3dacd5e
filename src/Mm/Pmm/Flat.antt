-- ===== src/Mm/Pmm/Flat.antt =====
-- The bitmap of mm/pmm.c seen as one list of bits, a bit for each page.
use mathlib.Core.Option
use ore_unix.Common.{
  ℕ, zero, suc, ◌+◌, ◌-◌, ◌*◌, ◌/◌, ◌%◌, ◌≤◌, ◌<◌, ◌≡◌, refl, sym, ap, ◌∙◌, ◌⊎◌, inl, inr, Bool,
  true, false, some, List, [], ◌∷◌, ◌++◌, arith, length, get_or, set, length-append, length-set,
  Bool-cases, All,
}
use ore_unix.Mm.Pmm.Bits.{first_true, set-true-set-false}
use ore_unix.Mm.Pmm.{Word, bit_tst, bit_put, bit_set, bit_clr, nonzero, ctz, scan_words}

abbrev pub flat : List Word → List Bool
flat [] = []
flat (w ∷ ws) = w ++ flat ws

abbrev pub IsShaped : List Word → Type 0
IsShaped = All (λ w. length w ≡ 32)

-- A page's index splits into its word and its place there.
index_cases :
    (i : ℕ)
    → ((i < 32) × (i / 32 ≡ 0) × (i % 32 ≡ i))
      ⊎ ((32 ≤ i) × (i / 32 ≡ suc ((i - 32) / 32)) × (i % 32 ≡ (i - 32) % 32))
index_cases i = grind arith

get_or-append_left :
    (xs ys : List Bool) (i : ℕ) → i < length xs → get_or (xs ++ ys) i false ≡ get_or xs i false
get_or-append_left [] ys i h = absurd (omega arith)
get_or-append_left (x ∷ xs) ys zero h = refl
get_or-append_left (x ∷ xs) ys (suc i) h = get_or-append_left xs ys i (omega arith)

get_or-append_right :
    (xs ys : List Bool) (i : ℕ)
    → length xs ≤ i
    → get_or (xs ++ ys) i false ≡ get_or ys (i - length xs) false
get_or-append_right [] ys i h = ap (λ k. get_or ys k false) (omega arith)
get_or-append_right (x ∷ xs) ys zero h = absurd (omega arith)
get_or-append_right (x ∷ xs) ys (suc i) h =
    get_or-append_right xs ys i (omega arith) ∙ ap (λ k. get_or ys k false) (omega arith)

set-append_left :
    (xs ys : List Bool) (i : ℕ) (v : Bool) → i < length xs → set (xs ++ ys) i v ≡ set xs i v ++ ys
set-append_left [] ys i v h = absurd (omega arith)
set-append_left (x ∷ xs) ys zero v h = refl
set-append_left (x ∷ xs) ys (suc i) v h = ap (◌∷◌ x) (set-append_left xs ys i v (omega arith))

set-append_right :
    (xs ys : List Bool) (i : ℕ) (v : Bool)
    → length xs ≤ i
    → set (xs ++ ys) i v ≡ xs ++ set ys (i - length xs) v
set-append_right [] ys i v h = ap (λ k. set ys k v) (omega arith)
set-append_right (x ∷ xs) ys zero v h = absurd (omega arith)
set-append_right (x ∷ xs) ys (suc i) v h =
    ap (◌∷◌ x) (set-append_right xs ys i v (omega arith) ∙ ap (λ k. xs ++ set ys k v) (omega arith))

-- Testing a bit of the bitmap reads the flat list.
pub bit_tst-flat : (bm : List Word) (i : ℕ) → IsShaped bm → bit_tst bm i ≡ get_or (flat bm) i false
unfolding bit_tst
bit_tst-flat [] i h = refl
bit_tst-flat (w ∷ ws) i (hw, hs) = elim (index_cases i) [
  | inl (lt, q, r) ↦ rw (q, r) (sym (get_or-append_left w (flat ws) i (omega arith)))
  | inr (ge, q, r) ↦
      rw (q, r)
        (let e : i - length w ≡ i - 32 = omega arith in
          bit_tst-flat ws (i - 32) hs
          ∙ ap (λ k. get_or (flat ws) k false) (sym e)
          ∙ sym (get_or-append_right w (flat ws) i (omega arith)))
]

-- Writing a bit of the bitmap writes the flat list.
bit_put-flat :
    (v : Bool) (bm : List Word) (i : ℕ) → IsShaped bm → flat (bit_put v bm i) ≡ set (flat bm) i v
unfolding bit_put
bit_put-flat v [] i h = refl
bit_put-flat v (w ∷ ws) i (hw, hs) = elim (index_cases i) [
  | inl (lt, q, r) ↦ rw (q, r) (sym (set-append_left w (flat ws) i v (omega arith)))
  | inr (ge, q, r) ↦
      rw (q, r)
        (let e : i - length w ≡ i - 32 = omega arith in
          ap (◌++◌ w) (bit_put-flat v ws (i - 32) hs ∙ ap (λ k. set (flat ws) k v) (sym e))
          ∙ sym (set-append_right w (flat ws) i v (omega arith)))
]

pub bit_set-flat :
    (bm : List Word) (i : ℕ) → IsShaped bm → flat (bit_set bm i) ≡ set (flat bm) i true
unfolding bit_set
bit_set-flat bm i h = bit_put-flat true bm i h

pub bit_clr-flat :
    (bm : List Word) (i : ℕ) → IsShaped bm → flat (bit_clr bm i) ≡ set (flat bm) i false
unfolding bit_clr
bit_clr-flat bm i h = bit_put-flat false bm i h

set_word-IsShaped :
    (bm : List Word) (k j : ℕ) (v : Bool)
    → IsShaped bm
    → IsShaped (set bm k (set (get_or bm k []) j v))
set_word-IsShaped [] k j v h = tt
set_word-IsShaped (w ∷ ws) zero j v (hw, hs) = (length-set w j v ∙ hw, hs)
set_word-IsShaped (w ∷ ws) (suc k) j v (hw, hs) = (hw, set_word-IsShaped ws k j v hs)

pub bit_set-IsShaped : (bm : List Word) (i : ℕ) → IsShaped bm → IsShaped (bit_set bm i)
unfolding bit_set
bit_set-IsShaped bm i h = set_word-IsShaped bm (i / 32) (i % 32) true h

pub bit_clr-IsShaped : (bm : List Word) (i : ℕ) → IsShaped bm → IsShaped (bit_clr bm i)
unfolding bit_clr
bit_clr-IsShaped bm i h = set_word-IsShaped bm (i / 32) (i % 32) false h

pub length-bit_set : (bm : List Word) (i : ℕ) → length (bit_set bm i) ≡ length bm
unfolding bit_set
length-bit_set bm i = length-set bm (i / 32) _

pub length-bit_clr : (bm : List Word) (i : ℕ) → length (bit_clr bm i) ≡ length bm
unfolding bit_clr
length-bit_clr bm i = length-set bm (i / 32) _

pub length-flat : (bm : List Word) → IsShaped bm → length (flat bm) ≡ length bm * 32
length-flat [] h = refl
length-flat (w ∷ ws) (hw, hs) = omega (arith, length-append w (flat ws), length-flat ws hs)

first_true-append_zero :
    (xs ys : List Bool)
    → nonzero xs ≡ false
    → first_true (xs ++ ys) ≡ Option.map (λ k. length xs + k) (first_true ys)
unfolding nonzero first_true
first_true-append_zero [] ys h = ground (arith)
first_true-append_zero (true ∷ xs) ys h = cc
first_true-append_zero (false ∷ xs) ys h = ground (arith, first_true-append_zero xs ys h)

first_true-append_nonzero :
    (xs ys : List Bool) → nonzero xs ≡ true → first_true (xs ++ ys) ≡ some (ctz xs)
unfolding nonzero first_true ctz
first_true-append_nonzero [] ys h = cc
first_true-append_nonzero (true ∷ xs) ys h = refl
first_true-append_nonzero (false ∷ xs) ys h = ground (arith, first_true-append_nonzero xs ys h)

-- The scan by words finds the first 1 of the flat list, counted from the scan's first word.
pub scan_words-flat :
    (w : ℕ) (bm : List Word)
    → IsShaped bm
    → scan_words w bm ≡ Option.map (λ k. w * 32 + k) (first_true (flat bm))
unfolding scan_words first_true
scan_words-flat w [] h = refl
scan_words-flat w (x ∷ xs) (hx, hs) = elim (Bool-cases (nonzero x)) [
  | inl e ↦ rw e (rw (first_true-append_nonzero x (flat xs) e))
  | inr e ↦
      rw e
        (rw (first_true-append_zero x (flat xs) e) (ground (arith, scan_words-flat (w + 1) xs hs)))
]

set_word-restores :
    (bm : List Word) (q r : ℕ)
    → get_or (get_or bm q []) r false ≡ true
    → (let bm' = set bm q (set (get_or bm q []) r false) in
        set bm' q (set (get_or bm' q []) r true) ≡ bm)
set_word-restores [] q r e = refl
set_word-restores (w ∷ ws) zero r e = ap (λ x. x ∷ ws) (set-true-set-false w r e)
set_word-restores (w ∷ ws) (suc q) r e = ap (◌∷◌ w) (set_word-restores ws q r e)

-- Setting a bit that was just cleared restores the bitmap.
pub bit_set-bit_clr : (bm : List Word) (i : ℕ) → bit_tst bm i ≡ true → bit_set (bit_clr bm i) i ≡ bm
unfolding bit_set bit_clr bit_tst
bit_set-bit_clr bm i e = set_word-restores bm (i / 32) (i % 32) e
