-- ===== src/Drivers/Dev/Random.antt =====
-- drivers/dev.c: the low bits of what /dev/random gives.
use ore_unix.Common.{
  ℕ, zero, suc, ◌+◌, ◌-◌, ◌*◌, ◌/◌, ◌%◌, ◌<◌, ◌≡◌, refl, ◌∙◌, ap, [], ◌++◌, get_or, take, arith,
}
use ore_unix.Drivers.Dev.{lcg_rand, random_from, random_read, word_bytes}

-- The factor and the increment are odd.
lcg_rand-flips : (s : ℕ) → lcg_rand s % 2 ≡ (s + 1) % 2
unfolding lcg_rand
lcg_rand-flips s = omega arith

take-nil : (n : ℕ) → take {A = ℕ} n [] ≡ []
take-nil zero = refl
take-nil (suc n) = refl

take-word : (n r : ℕ) → take (suc (suc (suc (suc n)))) (word_bytes r) ≡ word_bytes r
take-word n r = rw (take-nil n) refl

word-step :
    (words s : ℕ)
    → (random_from (suc words) (4 * suc words) s).0
      ≡ word_bytes (lcg_rand s) ++ (random_from words (4 * words) (lcg_rand s)).0
unfolding random_from
word-step words s =
    let e : 4 * suc words ≡ suc (suc (suc (suc (4 * words)))) = omega arith in
    let f : suc (suc (suc (suc (4 * words)))) - 4 ≡ 4 * words = omega arith in
    rw (e, f, take-nil (4 * words)) refl

word-low :
    (words k s : ℕ)
    → k < words
    → get_or (random_from words (4 * words) s).0 (4 * k) 0 % 2 ≡ (s + k + 1) % 2
word-low zero k s h = absurd (omega arith)
word-low (suc words) zero s h =
    let r = lcg_rand s in
    let z : 4 * 0 ≡ 0 = refl in
    ap (λ bs. get_or bs 0 0 % 2) (word-step words s) ∙ omega (arith, lcg_rand-flips s)
word-low (suc words) (suc k) s h =
    let e : 4 * suc k ≡ suc (suc (suc (suc (4 * k)))) = omega arith in
    let ih = word-low words k (lcg_rand s) (omega arith) in
    ap (λ bs. get_or bs (4 * suc k) 0 % 2) (word-step words s)
    ∙ rw e (ih ∙ omega (arith, lcg_rand-flips s))

-- The lowest bit of the first byte of each word that `random_read` gives flips from word to word,
-- whatever the generator's state is.
pub random_read-alternates :
    (words k s : ℕ)
    → k < words
    → get_or (random_read (4 * words) s).0 (4 * k) 0 % 2 ≡ (s + k + 1) % 2
unfolding random_read
random_read-alternates words k s h =
    let e : (4 * words + 3) / 4 ≡ words = omega arith in rw e (word-low words k s h)
