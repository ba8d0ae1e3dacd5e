-- ===== src/Mm/Pmm/Bits.antt =====
-- Lists of bits: how many are set, and what `first_true` finds.
use mathlib.Core.Option
use ore_unix.Common.{
  ℕ, zero, suc, ◌+◌, ◌≤◌, ◌<◌, ◌≡◌, refl, ap, ◌≢◌, Bool, true, false, Option, none, some, List, [],
  ◌∷◌, arith, length, get_or, set, replicate, if◌then◌else◌,
}

-- The place of the first 1.
unfoldable pub first_true : List Bool → Option ℕ
first_true [] = none
first_true (true ∷ bs) = some 0
first_true (false ∷ bs) = Option.map suc (first_true bs)

-- How many bits are 1.
abbrev pub count : List Bool → ℕ
count [] = 0
count (b ∷ bs) = (if b then 1 else 0) + count bs

pub count-le-length : (bs : List Bool) → count bs ≤ length bs
count-le-length [] = omega arith
count-le-length (b ∷ bs) = ground (arith, count-le-length bs)

pub count-set-true :
    (bs : List Bool) (i : ℕ)
    → i < length bs
    → get_or bs i false ≡ false
    → count (set bs i true) ≡ count bs + 1
count-set-true [] i h e = absurd (omega arith)
count-set-true (b ∷ bs) zero h e = ground arith
count-set-true (b ∷ bs) (suc i) h e = ground (arith, count-set-true bs i)

pub count-set-false :
    (bs : List Bool) (i : ℕ) → get_or bs i false ≡ true → count (set bs i false) + 1 ≡ count bs
count-set-false [] i e = cc
count-set-false (b ∷ bs) zero e = ground arith
count-set-false (b ∷ bs) (suc i) e = ground (arith, count-set-false bs i)

-- A set bit lies inside the list.
pub lt-length_of_true : (bs : List Bool) (i : ℕ) → get_or bs i false ≡ true → i < length bs
lt-length_of_true [] i e = cc
lt-length_of_true (b ∷ bs) zero e = omega arith
lt-length_of_true (b ∷ bs) (suc i) e = omega (arith, lt-length_of_true bs i e)

pub first_true-true : (bs : List Bool) (k : ℕ) → first_true bs ≡ some k → get_or bs k false ≡ true
unfolding first_true
first_true-true [] k e = cc
first_true-true (true ∷ bs) zero e = refl
first_true-true (true ∷ bs) (suc k) e = ground arith
first_true-true (false ∷ bs) zero e = ground arith
first_true-true (false ∷ bs) (suc k) e = first_true-true bs k (ground arith)

pub first_true-first :
    (bs : List Bool) (k j : ℕ) → first_true bs ≡ some k → j < k → get_or bs j false ≡ false
unfolding first_true
first_true-first [] k j e h = refl
first_true-first (true ∷ bs) k j e h = ground arith
first_true-first (false ∷ bs) k zero e h = refl
first_true-first (false ∷ bs) zero (suc j) e h = absurd (omega arith)
first_true-first (false ∷ bs) (suc k) (suc j) e h =
    first_true-first bs k j (ground arith) (omega arith)

pub first_true-none : (bs : List Bool) (j : ℕ) → first_true bs ≡ none → get_or bs j false ≡ false
unfolding first_true
first_true-none [] j e = refl
first_true-none (true ∷ bs) j e = cc
first_true-none (false ∷ bs) zero e = refl
first_true-none (false ∷ bs) (suc j) e = first_true-none bs j (ground arith)

-- Putting a cleared bit back restores the list.
pub set-true-set-false :
    (bs : List Bool) (k : ℕ) → get_or bs k false ≡ true → set (set bs k false) k true ≡ bs
set-true-set-false [] k e = refl
set-true-set-false (b ∷ bs) zero e = rw (← e)
set-true-set-false (b ∷ bs) (suc k) e = ap (◌∷◌ b) (set-true-set-false bs k e)

pub get_or-set_bit :
    (bs : List Bool) (i j : ℕ) (v : Bool) → i ≢ j → get_or (set bs i v) j false ≡ get_or bs j false
get_or-set_bit [] i j v h = refl
get_or-set_bit (b ∷ bs) zero zero v h = absurd (h refl)
get_or-set_bit (b ∷ bs) zero (suc j) v h = refl
get_or-set_bit (b ∷ bs) (suc i) zero v h = refl
get_or-set_bit (b ∷ bs) (suc i) (suc j) v h = get_or-set_bit bs i j v (λ e. h (ap suc e))

pub get_or-set_bit_self :
    (bs : List Bool) (i : ℕ) (v : Bool) → i < length bs → get_or (set bs i v) i false ≡ v
get_or-set_bit_self [] i v h = absurd (omega arith)
get_or-set_bit_self (b ∷ bs) zero v h = refl
get_or-set_bit_self (b ∷ bs) (suc i) v h = get_or-set_bit_self bs i v (omega arith)

pub get_or-clear_self : (bs : List Bool) (i : ℕ) → get_or (set bs i false) i false ≡ false
get_or-clear_self [] i = refl
get_or-clear_self (b ∷ bs) zero = refl
get_or-clear_self (b ∷ bs) (suc i) = get_or-clear_self bs i

pub count-zero_of_none : (bs : List Bool) → ((j : ℕ) → get_or bs j false ≡ false) → count bs ≡ 0
count-zero_of_none [] h = refl
count-zero_of_none (b ∷ bs) h = rw (h 0) (omega (arith, count-zero_of_none bs (λ j. h (suc j))))

pub count-set_same :
    (bs : List Bool) (i : ℕ) → get_or bs i false ≡ false → count (set bs i false) ≡ count bs
count-set_same [] i e = refl
count-set_same (b ∷ bs) zero e = rw e
count-set_same (b ∷ bs) (suc i) e = omega (arith, count-set_same bs i e)

pub get_or-replicate-false : (n i : ℕ) → get_or (replicate n false) i false ≡ false
get_or-replicate-false zero i = refl
get_or-replicate-false (suc n) zero = refl
get_or-replicate-false (suc n) (suc i) = get_or-replicate-false n i
