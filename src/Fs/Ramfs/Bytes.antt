-- ===== src/Fs/Ramfs/Bytes.antt =====
-- fs/ramfs.c: what a file's calls do to its bytes.
use ore_unix.Common.{
  ℕ, zero, suc, ◌+◌, ◌-◌, ◌*◌, ◌%◌, ◌≤◌, ◌<◌, ◌^◌, Bool, true, false, ◌≡◌, ◌≢◌, refl, ap, List, [],
  ◌∷◌, ◌++◌, ltb, leb, ◌==◌, if◌then◌else◌, take, drop, replicate, length, length-append,
  length-take, length-drop, length-replicate, arith, Bool-cases, inl, inr,
}
use ore_unix.Fs.Ramfs.{
  File, grow, is_null, new_capacity, overwrite, store_bytes, ramfs_read, ramfs_truncate,
  ramfs_write,
}

-- What is below the size is in memory, and the capacity can double.
pub record IsValid (f : File) : Type 0 where
  pub in_memory : f.size ≤ length f.data_
  pub small : length f.data_ * 2 + 4096 < 2 ^ 32

take-front : (xs ys : List ℕ) → take (length xs) (xs ++ ys) ≡ xs
take-front [] ys = refl
take-front (x ∷ xs) ys = ap (λ zs. x ∷ zs) (take-front xs ys)

-- What was written at a position inside the data or at its end is read there.
take-drop-overwrite :
    (bytes : List ℕ) (i : ℕ) (new : List ℕ)
    → i ≤ length bytes
    → take (length new) (drop i (overwrite bytes i new)) ≡ new
take-drop-overwrite bytes zero new h = take-front new (drop (0 + length new) bytes)
take-drop-overwrite [] (suc i) new h = absurd (omega arith)
take-drop-overwrite (b ∷ bytes) (suc i) new h =
    let e : suc i + length new ≡ suc (i + length new) = omega arith in
    rw e (take-drop-overwrite bytes i new (omega arith))

length-overwrite :
    (bytes : List ℕ) (i : ℕ) (new : List ℕ)
    → i + length new ≤ length bytes
    → length (overwrite bytes i new) ≡ length bytes
length-overwrite bytes i new h =
    let a = length-append (take i bytes) (new ++ drop (i + length new) bytes) in
    let b = length-append new (drop (i + length new) bytes) in
    let c = length-take i bytes in
    let d = length-drop (i + length new) bytes in omega (arith, a, b, c, d)

length-grow :
    (bytes : List ℕ) (capacity : ℕ)
    → length bytes ≤ capacity
    → length (grow bytes capacity) ≡ capacity
length-grow bytes capacity h =
    let a = length-append bytes (replicate (capacity - length bytes) 0) in
    let b = length-replicate {A = ℕ} (capacity - length bytes) 0 in omega (arith, a, b)

-- The outcome of a write at `p` that succeeds.
record Written (p : ℕ) (bytes : List ℕ) (g : File) : Type 0 where
  at_end : g.pos ≡ p + length bytes
  sized : g.size ≤ length g.data_
  covered : p + length bytes ≤ g.size
  there : take (length bytes) (drop p g.data_) ≡ bytes

store_bytes-Written :
    (f : File) (bytes : List ℕ)
    → f.size ≤ length f.data_
    → f.pos + length bytes ≤ length f.data_
    → Written f.pos bytes (store_bytes f bytes)
store_bytes-Written f bytes inside fits =
    let len = length-overwrite f.data_ f.pos bytes fits in
    record {
      at_end = refl;
      sized = ground (arith, len);
      covered = ground arith;
      there = take-drop-overwrite f.data_ f.pos bytes (omega arith);
    }

-- Where a write begins.
abbrev pub start : File → ℕ
start f = if f.append then f.size else f.pos

write-Written :
    (f : File) (bytes : List ℕ)
    → IsValid f
    → f.pos + length bytes < 2 ^ 32
    → (let end = f.pos + length bytes in
        Written f.pos bytes (
          if ltb (length f.data_) end
          then store_bytes
              (record f { data_ = grow f.data_ (new_capacity end (length f.data_)) })
              bytes
          else store_bytes f bytes))
write-Written f bytes v low =
    let end = f.pos + length bytes in
    let capacity = new_capacity end (length f.data_) in
    elim (Bool-cases (ltb (length f.data_) end)) [
      | inl short ↦
          (let len = length-grow f.data_ capacity (ground (arith, short, v.small)) in
            rw short (
              store_bytes-Written (record f { data_ = grow f.data_ capacity }) bytes
                (omega (arith, v.in_memory, v.small, len)) (omega (arith, v.small, len))))
      | inr enough ↦ rw enough (store_bytes-Written f bytes v.in_memory (ground (arith, enough)))
    ]

is_null-length : (bytes : List ℕ) → 0 < length bytes → is_null bytes ≡ false
is_null-length [] h = ground arith
is_null-length (b ∷ bytes) h = refl

read-Written :
    (p : ℕ) (bytes : List ℕ) (g : File)
    → Written p bytes g
    → 0 < length bytes
    → (ramfs_read (record g { pos = p }) (length bytes)).0 ≡ bytes
unfolding ramfs_read
read-Written p bytes g w some_bytes =
    let a : ltb g.size (p + length bytes) ≡ false = ground (arith, w.covered) in
    let b : leb g.size p ≡ false = ground (arith, w.covered, some_bytes) in
    let c = is_null-length g.data_ (omega (arith, w.covered, w.sized, some_bytes)) in
    rw (ramfs_read, a, b, c) w.there

-- The file once O_APPEND has set its position.
placed : File → File
placed f = record f { pos = start f }

-- The file after a write at its position.
written : File → List ℕ → File
written f bytes =
    let end = f.pos + length bytes in
    if ltb (length f.data_) end
    then store_bytes (record f { data_ = grow f.data_ (new_capacity end (length f.data_)) }) bytes
    else store_bytes f bytes

if_pair :
    (b : Bool) (x y : File)
    → ◌≡◌ {A = Bool × File} (if b then (true, x) else (true, y)) (true, if b then x else y)
if_pair true x y = refl
if_pair false x y = refl

write-found :
    (f : File) (bytes : List ℕ)
    → start f + length bytes < 2 ^ 32
    → ramfs_write true f bytes ≡ (true, written (placed f) bytes)
unfolding ramfs_write placed written
write-found f bytes low = elim (Bool-cases f.append) [
  | inl e ↦
      (let low' : f.size + length bytes < 2 ^ 32 = ground (arith, e, low) in
        let fits : (f.size + length bytes) % 2 ^ 32 ≡ f.size + length bytes = omega arith in
        rw (ramfs_write, e, fits) (if_pair _ _ _))
  | inr e ↦
      (let low' : f.pos + length bytes < 2 ^ 32 = ground (arith, e, low) in
        let fits : (f.pos + length bytes) % 2 ^ 32 ≡ f.pos + length bytes = omega arith in
        rw (ramfs_write, e, fits) (if_pair _ _ _))
]

-- If memory is found and the write ends below 4 GB, `ramfs_write` of at least one byte to a valid
-- file succeeds, and `ramfs_read` of as many bytes from where it began returns those bytes.
pub ramfs_read-ramfs_write :
    (f : File) (bytes : List ℕ)
    → IsValid f
    → start f + length bytes < 2 ^ 32
    → 0 < length bytes
    → (let r = ramfs_write true f bytes in
        (r.0 ≡ true) × ((ramfs_read (record r.1 { pos = start f }) (length bytes)).0 ≡ bytes))
unfolding placed written
ramfs_read-ramfs_write f bytes v low some_bytes =
    let g = placed f in
    let w : Written (start f) bytes (written g bytes) =
      write-Written g bytes (record { in_memory = v.in_memory; small = v.small }) low in
    rw (write-found f bytes low) (refl, read-Written (start f) bytes (written g bytes) w some_bytes)

-- Shrinking a valid file to a size that is not 0 and then growing it again, to no more than its
-- capacity, brings its old bytes back: a read from its start returns them.
pub ramfs_truncate-stale :
    (f : File) (m n : ℕ)
    → m ≢ 0
    → m ≤ n
    → n ≤ length f.data_
    → length f.data_ < 2 ^ 32
    → (let g = (ramfs_truncate true (ramfs_truncate true f m).1 n).1 in
        (ramfs_read (record g { pos = 0 }) n).0 ≡ take n f.data_)
unfolding ramfs_truncate ramfs_read
ramfs_truncate-stale f m n ne le fits low =
    let a : (m == 0) ≡ false = ground (arith, ne) in
    let b : (n == 0) ≡ false = ground (arith, ne) in
    let c : ltb (length f.data_) (m % 2 ^ 32) ≡ false = ground arith in
    let d : ltb (length f.data_) (n % 2 ^ 32) ≡ false = ground arith in
    let e : leb n 0 ≡ false = ground (arith, ne) in
    let h = is_null-length f.data_ (omega arith) in
    let i : ltb n (0 + n) ≡ false = ground arith in
    rw (ramfs_truncate, ramfs_read, a, c, b, d, i, e, h) refl
