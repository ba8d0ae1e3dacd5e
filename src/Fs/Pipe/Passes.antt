-- ===== src/Fs/Pipe/Passes.antt =====
-- fs/pipe.c: one pass of `pipe_read` or `pipe_write` is one step on the queue of the pipe's bytes.
use native.Mathlib.Nat.{mod-add-mod}
use ore_unix.Common.{
  ℕ, zero, suc, ◌+◌, ◌-◌, ◌%◌, ◌≤◌, ◌<◌, ◌≡◌, refl, sym, ap, ◌∙◌, List, [], ◌∷◌, ◌++◌, arith,
  length, take, drop, add32, sub32, ltb, if◌then◌else◌, true,
}
use ore_unix.Common.Ring.{window, length-window, window-add}
use ore_unix.Fs.Pipe.{
  Pipe, ReadPass, got, eof, WritePass, put, read_pass, write_pass, copy_in, min_of, is_zero,
}
use ore_unix.Fs.Pipe.Inv.{IsValid, contents, copy_out-window, CopiedIn, copy_in-CopiedIn}

take-window : (xs ys : List ℕ) (n : ℕ) → length xs ≡ n → take n (xs ++ ys) ≡ xs
take-window [] ys zero e = refl
take-window [] ys (suc n) e = absurd (omega arith)
take-window (x ∷ xs) ys zero e = absurd (omega arith)
take-window (x ∷ xs) ys (suc n) e = ap (◌∷◌ x) (take-window xs ys n (omega arith))

drop-window : (xs ys : List ℕ) (n : ℕ) → length xs ≡ n → drop n (xs ++ ys) ≡ ys
drop-window [] ys zero e = refl
drop-window [] ys (suc n) e = absurd (omega arith)
drop-window (x ∷ xs) ys zero e = absurd (omega arith)
drop-window (x ∷ xs) ys (suc n) e = drop-window xs ys n (omega arith)

pub take_all : (xs : List ℕ) (n : ℕ) → length xs ≤ n → take n xs ≡ xs
take_all [] zero h = refl
take_all [] (suc n) h = refl
take_all (x ∷ xs) zero h = absurd (omega arith)
take_all (x ∷ xs) (suc n) h = ap (◌∷◌ x) (take_all xs n (omega arith))

pub drop_all : (xs : List ℕ) (n : ℕ) → length xs ≤ n → drop n xs ≡ []
drop_all [] zero h = refl
drop_all [] (suc n) h = refl
drop_all (x ∷ xs) zero h = absurd (omega arith)
drop_all (x ∷ xs) (suc n) h = drop_all xs n (omega arith)

-- What a pass of `pipe_read` that finds bytes does: it takes the oldest `count` bytes, or all.
pub record Reads (p : Pipe) (count : ℕ) (bytes : List ℕ) (q : Pipe) : Type 0 where
  pub oldest : bytes ≡ take (min_of count p.size) (contents p)
  pub rest : contents q ≡ drop (min_of count p.size) (contents p)
  pub keeps : IsValid q
  pub writers_same : q.writers ≡ p.writers
  pub readers_same : q.readers ≡ p.readers

-- The pipe after `n` bytes were read.
abbrev after_read : Pipe → ℕ → Pipe
after_read p n = record p { tail = (p.tail + n) % p.capacity; size = sub32 p.size n }

contents_split :
    (p : Pipe) (n : ℕ)
    → IsValid p
    → n ≤ p.size
    → contents p ≡ window p.buf p.capacity p.tail n ++ contents (after_read p n)
contents_split p n v h =
    let e : p.size ≡ n + (p.size - n) = omega arith in
    let f : p.size - n ≡ sub32 p.size n = omega (arith, v.fits, v.small) in
    ap (window p.buf p.capacity p.tail) e
    ∙ window-add p.buf p.capacity p.tail n (p.size - n) v.tail_in
    ∙ ap
        (λ k.
          window p.buf p.capacity p.tail n ++ window p.buf p.capacity ((p.tail + n) % p.capacity) k)
        f

after_read-IsValid : (p : Pipe) (n : ℕ) → IsValid p → n ≤ p.size → IsValid (after_read p n)
after_read-IsValid p n v h = record {
  buffered = v.buffered;
  small = v.small;
  tail_in = omega (arith, v.tail_in);
  fits = omega (arith, v.fits, v.small);
  head_at =
      (let e : p.tail + p.size ≡ p.tail + n + sub32 p.size n = omega (arith, v.fits, v.small) in
        v.head_at
        ∙ ap (λ k. k % p.capacity) e
        ∙ sym (mod-add-mod (p.tail + n) p.capacity (sub32 p.size n)));
}

read_pass-some :
    (p : Pipe) (count : ℕ)
    → IsValid p
    → 0 < p.size
    → read_pass p count
      ≡ got
          (window p.buf p.capacity p.tail (min_of count p.size))
          (after_read p (min_of count p.size))
unfolding read_pass
read_pass-some p count v h =
    let t : ltb 0 p.size ≡ true = ground arith in
    rw t (rw (copy_out-window (min_of count p.size) p v.small v.tail_in))

-- A pass of `pipe_read` on a pipe that holds bytes returns the oldest `count` of them, or all,
-- removes exactly those and keeps the invariant.
pub read_pass-Reads :
    (p : Pipe) (count : ℕ)
    → IsValid p
    → 0 < p.size
    → (bytes : List ℕ) × (q : Pipe) × (read_pass p count ≡ got bytes q) × Reads p count bytes q
read_pass-Reads p count v h =
    let n = min_of count p.size in
    let le : n ≤ p.size = ground arith in
    let split = contents_split p n v le in
    let len = length-window p.buf p.capacity p.tail n in
    (
      window p.buf p.capacity p.tail n,
      after_read p n,
      read_pass-some p count v h,
      record {
        oldest = sym (ap (take n) split ∙ take-window (window p.buf p.capacity p.tail n) _ n len);
        rest = sym (ap (drop n) split ∙ drop-window (window p.buf p.capacity p.tail n) _ n len);
        keeps = after_read-IsValid p n v le;
        writers_same = refl;
        readers_same = refl;
      },
    )

-- An empty pipe ends the call exactly when no writer is left.
pub read_pass-empty :
    (p : Pipe) (count : ℕ)
    → p.size ≡ 0
    → read_pass p count ≡ (if is_zero p.writers then eof else ReadPass.sleeps)
unfolding read_pass
read_pass-empty p count e = ground arith

-- What a pass of `pipe_write` that finds room does: it appends as many bytes as fit.
pub record Writes (p : Pipe) (bytes : List ℕ) (n : ℕ) (q : Pipe) : Type 0 where
  pub fits : n ≡ min_of (length bytes) (p.capacity - p.size)
  pub appended : contents q ≡ contents p ++ take n bytes
  pub keeps : IsValid q
  pub writers_same : q.writers ≡ p.writers
  pub readers_same : q.readers ≡ p.readers

-- The pipe after the copy loop of a write, with its new size.
abbrev grown : Pipe → ℕ → Pipe
grown q n = record q { size = add32 q.size n }

write_pass-some :
    (p : Pipe) (bytes : List ℕ)
    → IsValid p
    → p.size < p.capacity
    → (let n = min_of (length bytes) (p.capacity - p.size) in
        write_pass p bytes ≡ put n (grown (copy_in n p bytes) n))
unfolding write_pass
write_pass-some p bytes v h =
    let e : sub32 p.capacity p.size ≡ p.capacity - p.size = omega (arith, v.small) in
    let t : ltb 0 (p.capacity - p.size) ≡ true = ground arith in rw e (rw t)

grown-Writes :
    (p q : Pipe) (bytes : List ℕ) (n : ℕ)
    → IsValid p
    → n ≡ min_of (length bytes) (p.capacity - p.size)
    → n ≤ p.capacity - p.size
    → CopiedIn p q p.size n bytes
    → Writes p bytes n (grown q n)
grown-Writes p q bytes n v e le c =
    let size : add32 q.size n ≡ p.size + n = omega (arith, c.size_same, v.small, v.fits) in
    record {
      fits = e;
      appended = (rw (size, c.tail_same, c.capacity_same) c.appended);
      keeps = record {
        buffered = c.buffered;
        small = omega (arith, c.capacity_same, v.small);
        tail_in = omega (arith, c.capacity_same, c.tail_same, v.tail_in);
        fits = omega (arith, c.capacity_same, v.fits);
        head_at = (rw (size, c.tail_same, c.capacity_same) c.head_at);
      };
      writers_same = c.writers_same;
      readers_same = c.readers_same;
    }

-- A pass of `pipe_write` on a pipe with room appends as many of the bytes as fit, in order, and
-- keeps the invariant.
pub write_pass-Writes :
    (p : Pipe) (bytes : List ℕ)
    → IsValid p
    → p.size < p.capacity
    → (n : ℕ) × (q : Pipe) × (write_pass p bytes ≡ put n q) × Writes p bytes n q
write_pass-Writes p bytes v h =
    let n = min_of (length bytes) (p.capacity - p.size) in
    let le : n ≤ p.capacity - p.size = ground arith in
    let enough : n ≤ length bytes = ground arith in
    (
      n,
      grown (copy_in n p bytes) n,
      write_pass-some p bytes v h,
      grown-Writes p (copy_in n p bytes) bytes n v refl le (
          copy_in-CopiedIn n p.size p bytes v.buffered v.small v.tail_in v.head_at
            (omega (arith, v.fits)) enough),
    )

pub write_pass-full :
    (p : Pipe) (bytes : List ℕ)
    → IsValid p
    → p.size ≡ p.capacity
    → write_pass p bytes ≡ WritePass.sleeps
unfolding write_pass
write_pass-full p bytes v e = let full : sub32 p.capacity p.size ≡ 0 = omega arith in rw full
