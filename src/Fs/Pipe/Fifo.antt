-- ===== src/Fs/Pipe/Fifo.antt =====
-- fs/pipe.c: any interleaving of passes by any number of readers and writers.
use mathlib.Core.List.{append-nil, append_assoc}
use ore_unix.Common.{
  ℕ, ◌≡◌, sym, ap, ◌∙◌, List, [], ◌∷◌, ◌++◌, arith, take, ltb, if◌then◌else◌, Bool-cases, inl, inr,
  take-append-drop,
}
use ore_unix.Fs.Pipe.{
  Pipe, ReadPass, got, eof, WritePass, put, read_pass, write_pass, min_of, is_zero,
}
use ore_unix.Fs.Pipe.Inv.{IsValid, contents}
use ore_unix.Fs.Pipe.Passes.{read_pass-Reads, read_pass-empty, write_pass-Writes, write_pass-full}

-- A pass of some reader's or writer's call.
pub data Pass : Type 0 where
  reads : ℕ → Pass
  writes : List ℕ → Pass

-- What a pass took from the pipe, what it put there, and the pipe after it.
pub record Moved : Type 0 where
  pub out : List ℕ
  pub in_ : List ℕ
  pub after : Pipe

unfoldable pub step : Pipe → Pass → Moved
step p (reads count) = elim (read_pass p count) [
  | got bytes q ↦ record { out = bytes; in_ = []; after = q }
  | eof ↦ record { out = []; in_ = []; after = p }
  | ReadPass.sleeps ↦ record { out = []; in_ = []; after = p }
]
step p (writes bytes) = elim (write_pass p bytes) [
  | put n q ↦ record { out = []; in_ = take n bytes; after = q }
  | WritePass.sleeps ↦ record { out = []; in_ = []; after = p }
]

unfoldable pub run : Pipe → List Pass → Moved
unfolding step
run p [] = record { out = []; in_ = []; after = p }
run p (a ∷ as') =
    let m = step p a in
    let r = run m.after as' in
    record { out = m.out ++ r.out; in_ = m.in_ ++ r.in_; after = r.after }

-- Bytes taken, then bytes left, are bytes held, then bytes put.
pub record Conserves (p : Pipe) (m : Moved) : Type 0 where
  pub bytes : m.out ++ contents m.after ≡ contents p ++ m.in_
  pub keeps : IsValid m.after

stays-Conserves : (p : Pipe) → IsValid p → Conserves p (record { out = []; in_ = []; after = p })
stays-Conserves p v = record { bytes = sym (append-nil (contents p)); keeps = v }

step-Conserves : (p : Pipe) (a : Pass) → IsValid p → Conserves p (step p a)
unfolding step
step-Conserves p (reads count) v = elim (Bool-cases (ltb 0 p.size)) [
  | inl some_bytes ↦
      (let (bytes, q, e, r) = read_pass-Reads p count v (ground arith) in
        rw (e, step)
          (record {
            bytes =
                ap (λ b. b ++ contents q) r.oldest
                ∙ ap (λ c. take (min_of count p.size) (contents p) ++ c) r.rest
                ∙ take-append-drop (min_of count p.size) (contents p)
                ∙ sym (append-nil (contents p));
            keeps = r.keeps;
          }))
  | inr empty ↦ elim (Bool-cases (is_zero p.writers)) [
    | inl z ↦
        (let e : read_pass p count ≡ eof =
            read_pass-empty p count (ground arith)
            ∙ ap (λ b. if b then eof else ReadPass.sleeps) z in
          rw (e, step) (stays-Conserves p v))
    | inr z ↦
        (let e : read_pass p count ≡ ReadPass.sleeps =
            read_pass-empty p count (ground arith)
            ∙ ap (λ b. if b then eof else ReadPass.sleeps) z in
          rw (e, step) (stays-Conserves p v))
  ]
]
step-Conserves p (writes bytes) v = elim (Bool-cases (ltb p.size p.capacity)) [
  | inl room ↦
      (let (n, q, e, w) = write_pass-Writes p bytes v (ground arith) in
        rw (e, step) (record { bytes = w.appended; keeps = w.keeps }))
  | inr full ↦ rw (write_pass-full p bytes v (ground (arith, v.fits)), step) (stays-Conserves p v)
]

-- Over any interleaving of passes of readers and writers, the bytes read, followed by those still
-- in the pipe, are the bytes that were in it, followed by those written: nothing is lost,
-- duplicated or reordered. The pipe stays valid.
pub run-Conserves : (p : Pipe) (passes : List Pass) → IsValid p → Conserves p (run p passes)
unfolding run
run-Conserves p [] v = stays-Conserves p v
run-Conserves p (a ∷ as') v =
    let one = step-Conserves p a v in
    let rest = run-Conserves (step p a).after as' one.keeps in
    record {
      bytes =
          append_assoc (step p a).out (run (step p a).after as').out _
          ∙ ap (◌++◌ (step p a).out) rest.bytes
          ∙ sym (append_assoc (step p a).out (contents (step p a).after) _)
          ∙ ap (λ b. b ++ (run (step p a).after as').in_) one.bytes
          ∙ append_assoc (contents p) (step p a).in_ _;
      keeps = rest.keeps;
    }
