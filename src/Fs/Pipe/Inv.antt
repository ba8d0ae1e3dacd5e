-- ===== src/Fs/Pipe/Inv.antt =====
-- fs/pipe.c: the invariant of a pipe's buffer, and what the two copy loops do to its bytes.
use mathlib.Core.List.{append-nil, append_assoc}
use native.Mathlib.Nat.{mod-add-mod}
use ore_unix.Common.{
  ℕ, zero, suc, ◌+◌, ◌%◌, ◌^◌, ◌≤◌, ◌<◌, ◌≡◌, refl, sym, ap, ◌∙◌, List, [], ◌∷◌, ◌++◌, arith,
  length, length-set, set, take, add32,
}
use ore_unix.Common.Ring.{window, length-window, window-put, here_place, step_place}
use ore_unix.Fs.Pipe.{Pipe, copy_out, copy_in}

pub record IsValid (p : Pipe) : Type 0 where
  pub buffered : length p.buf ≡ p.capacity
  pub small : p.capacity < 2 ^ 31
  pub tail_in : p.tail < p.capacity
  pub fits : p.size ≤ p.capacity
  pub head_at : p.head ≡ (p.tail + p.size) % p.capacity

-- The bytes in the pipe, oldest first.
abbrev pub contents : Pipe → List ℕ
contents p = window p.buf p.capacity p.tail p.size

pub length-contents : (p : Pipe) → length (contents p) ≡ p.size
length-contents p = length-window p.buf p.capacity p.tail p.size

-- The loop of `pipe_read` copies a window and moves the tail behind it.
pub copy_out-window :
    (n : ℕ) (p : Pipe)
    → p.capacity < 2 ^ 31
    → p.tail < p.capacity
    → copy_out n p
      ≡ (window p.buf p.capacity p.tail n, record p { tail = (p.tail + n) % p.capacity })
unfolding copy_out
copy_out-window zero p small h = rw (here_place p.capacity p.tail h)
copy_out-window (suc n) p small h =
    let e : add32 p.tail 1 ≡ p.tail + 1 = omega arith in
    rw e (
      rw (
        copy_out-window n (record p { tail = (p.tail + 1) % p.capacity }) small (omega arith),
        step_place p.capacity p.tail n,
      ))

-- What the loop of `pipe_write` has done after copying `n` of `bytes` behind `m` bytes.
pub record CopiedIn (p q : Pipe) (m n : ℕ) (bytes : List ℕ) : Type 0 where
  pub buffered : length q.buf ≡ q.capacity
  pub capacity_same : q.capacity ≡ p.capacity
  pub tail_same : q.tail ≡ p.tail
  pub size_same : q.size ≡ p.size
  pub readers_same : q.readers ≡ p.readers
  pub writers_same : q.writers ≡ p.writers
  pub head_at : q.head ≡ (p.tail + (m + n)) % p.capacity
  pub appended :
      window q.buf p.capacity p.tail (m + n) ≡ window p.buf p.capacity p.tail m ++ take n bytes

pub copy_in-CopiedIn :
    (n m : ℕ) (p : Pipe) (bytes : List ℕ)
    → length p.buf ≡ p.capacity
    → p.capacity < 2 ^ 31
    → p.tail < p.capacity
    → p.head ≡ (p.tail + m) % p.capacity
    → m + n ≤ p.capacity
    → n ≤ length bytes
    → CopiedIn p (copy_in n p bytes) m n bytes
unfolding copy_in
copy_in-CopiedIn zero m p bytes len small tail_in behind fits enough = record {
  buffered = len;
  capacity_same = refl;
  tail_same = refl;
  size_same = refl;
  readers_same = refl;
  writers_same = refl;
  head_at = behind ∙ ap (λ k. (p.tail + k) % p.capacity) (omega arith);
  appended =
      ap (window p.buf p.capacity p.tail) (omega arith)
      ∙ sym (append-nil (window p.buf p.capacity p.tail m));
}
copy_in-CopiedIn (suc n) m p [] len small tail_in behind fits enough = absurd (omega arith)
copy_in-CopiedIn (suc n) m p (x ∷ bytes) len small tail_in behind fits enough =
    let head_in : p.head < p.capacity = omega arith in
    let step : add32 p.head 1 ≡ p.head + 1 = omega arith in
    let next_at : add32 p.head 1 % p.capacity ≡ (p.tail + (m + 1)) % p.capacity =
      ap (λ k. k % p.capacity) step
      ∙ ap (λ k. (k + 1) % p.capacity) behind
      ∙ mod-add-mod (p.tail + m) p.capacity 1
      ∙ ap (λ k. k % p.capacity) (omega arith) in
    let c =
      copy_in-CopiedIn n (m + 1)
        (record p { buf = set p.buf p.head x; head = add32 p.head 1 % p.capacity }) bytes
        (length-set p.buf p.head x ∙ len) small tail_in next_at (omega arith) (omega arith) in
    let put_one : window (set p.buf p.head x) p.capacity p.tail (m + 1)
        ≡ window p.buf p.capacity p.tail m ++ (x ∷ []) =
      (rw behind (window-put p.buf p.capacity p.tail m x len tail_in (omega arith))) in
    record {
      buffered = c.buffered;
      capacity_same = c.capacity_same;
      tail_same = c.tail_same;
      size_same = c.size_same;
      readers_same = c.readers_same;
      writers_same = c.writers_same;
      head_at = c.head_at ∙ ap (λ k. (p.tail + k) % p.capacity) (omega arith);
      appended =
          ap (window _ p.capacity p.tail) (omega arith)
          ∙ c.appended
          ∙ ap (λ w. w ++ take n bytes) put_one
          ∙ append_assoc (window p.buf p.capacity p.tail m) (x ∷ []) (take n bytes);
    }
