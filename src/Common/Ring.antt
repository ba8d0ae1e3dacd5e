-- ===== src/Common/Ring.antt =====
-- The bytes of a circular buffer, oldest first: what the index arithmetic of fs/pipe.c and of
-- `kbd_buf` in drivers/keyboard.c keeps.
use Prim.Native.Nat.{ℕ, zero, suc, ◌+◌, ◌-◌, ◌%◌, ◌≤◌, ◌<◌}
use mathlib.Core.Path.{◌≡◌, refl, sym, ap, ap₂, ◌∙◌}
use mathlib.Core.Logic.{◌≢◌, ◌⊎◌, inl, inr}
use mathlib.Core.List.{List, [], ◌∷◌, ◌++◌}
use native.Mathlib.Nat.{mod-add-mod, mod-eq_of_lt, mod-eq-sub-mod}
use native.Mathlib.Decide.{dec_lt}
use native.Mathlib.Omega.{arith}
use ore_unix.Common.Lists.{length, get_or, set}

-- The `n` items of `buf` from index `t` on, round a buffer of `capacity`.
abbrev pub window : List ℕ → ℕ → ℕ → ℕ → List ℕ
window buf capacity t zero = []
window buf capacity t (suc n) = get_or buf t 0 ∷ window buf capacity ((t + 1) % capacity) n

pub length-window : (buf : List ℕ) (capacity t n : ℕ) → length (window buf capacity t n) ≡ n
length-window buf capacity t zero = refl
length-window buf capacity t (suc n) = ap suc (length-window buf capacity ((t + 1) % capacity) n)

pub here_place : (capacity t : ℕ) → t < capacity → (t + 0) % capacity ≡ t
here_place capacity t h = ap (λ m. m % capacity) (omega arith) ∙ mod-eq_of_lt h

pub step_place : (capacity t k : ℕ) → ((t + 1) % capacity + k) % capacity ≡ (t + suc k) % capacity
step_place capacity t k = rw mod-add-mod (ap (λ m. m % capacity) (omega arith))

pub window-add :
    (buf : List ℕ) (capacity t m n : ℕ)
    → t < capacity
    → window buf capacity t (m + n)
      ≡ window buf capacity t m ++ window buf capacity ((t + m) % capacity) n
window-add buf capacity t zero n h =
    let e : 0 + n ≡ n = omega arith in rw (e, here_place capacity t h)
window-add buf capacity t (suc m) n h =
    let e : suc m + n ≡ suc (m + n) = omega arith in
    rw (e, ← step_place capacity t m)
      (ap (◌∷◌ (get_or buf t 0)) (window-add buf capacity ((t + 1) % capacity) m n (omega arith)))

-- An index at most once round.
place_cases :
    (capacity a : ℕ)
    → a < capacity + capacity
    → ((a < capacity) × (a % capacity ≡ a)) ⊎ ((capacity ≤ a) × (a % capacity ≡ a - capacity))
place_cases capacity a h = elim (dec_lt a capacity) [
  | yes p ↦ inl (p, mod-eq_of_lt p)
  | no p ↦ inr (
    omega arith,
    mod-eq-sub-mod {n = a} {m = capacity} (omega arith) ∙ mod-eq_of_lt (omega arith),
  )
]

-- Places of a window that is not full differ from the place just behind it.
place-ne :
    (capacity t k n : ℕ)
    → t < capacity
    → k < n
    → n < capacity
    → (t + k) % capacity ≢ (t + n) % capacity
place-ne capacity t k n h lt room = λ e.
    ground (
      arith,
      place_cases capacity (t + k) (omega arith),
      place_cases capacity (t + n) (omega arith),
    )

get_or-set : (xs : List ℕ) (i j v : ℕ) → i ≢ j → get_or (set xs i v) j 0 ≡ get_or xs j 0
get_or-set [] i j v h = refl
get_or-set (x ∷ xs) zero zero v h = absurd (h refl)
get_or-set (x ∷ xs) zero (suc j) v h = refl
get_or-set (x ∷ xs) (suc i) zero v h = refl
get_or-set (x ∷ xs) (suc i) (suc j) v h = get_or-set xs i j v (λ e. h (ap suc e))

get_or-set_here : (xs : List ℕ) (i v : ℕ) → i < length xs → get_or (set xs i v) i 0 ≡ v
get_or-set_here [] i v h = absurd (omega arith)
get_or-set_here (x ∷ xs) zero v h = refl
get_or-set_here (x ∷ xs) (suc i) v h = get_or-set_here xs i v (omega arith)

-- A write outside a window leaves it.
window-set_outside :
    (buf : List ℕ) (capacity t n i v : ℕ)
    → t < capacity
    → ((k : ℕ) → k < n → (t + k) % capacity ≢ i)
    → window (set buf i v) capacity t n ≡ window buf capacity t n
window-set_outside buf capacity t zero i v h out = refl
window-set_outside buf capacity t (suc n) i v h out = ap₂ ◌∷◌ (get_or-set buf i t v ne) (
    window-set_outside buf capacity ((t + 1) % capacity) n i v (omega arith)
      (λ k lt. rw (step_place capacity t k) (out (suc k) (omega arith))))
  where
    ne : i ≢ t
    ne e = out 0 (omega arith) (here_place capacity t h ∙ sym e)

-- A write just behind a window that is not full extends it by the item written.
pub window-put :
    (buf : List ℕ) (capacity t n v : ℕ)
    → length buf ≡ capacity
    → t < capacity
    → n < capacity
    → window (set buf ((t + n) % capacity) v) capacity t (n + 1)
      ≡ window buf capacity t n ++ (v ∷ [])
window-put buf capacity t n v len h room =
    window-add (set buf ((t + n) % capacity) v) capacity t n 1 h
    ∙ ap₂ ◌++◌
        (window-set_outside buf capacity t n ((t + n) % capacity) v h
          (λ k lt. place-ne capacity t k n h lt room))
        (ap (λ x. x ∷ []) (get_or-set_here buf ((t + n) % capacity) v (omega arith)))
