-- ===== src/Fs/Pipe/Calls.antt =====
-- fs/pipe.c: whole calls of `pipe_write` and `pipe_read`.
use ore_unix.Common.{
  ℕ, ◌+◌, ◌-◌, ◌≤◌, ◌<◌, ◌≡◌, refl, sym, ap, ◌∙◌, List, [], ◌∷◌, ◌++◌, arith, length, take, drop,
  false, All, length-drop, some,
}
use ore_unix.Fs.Pipe.{
  Pipe, got, put, read_pass, write_pass, min_of, is_zero, Turn, Outcome, returned, running,
  write_loop, read_loop, pipe_read, pipe_write,
}
use ore_unix.Fs.Pipe.Inv.{IsValid, contents, length-contents}
use ore_unix.Fs.Pipe.Passes.{
  read_pass-Reads, Writes, write_pass-Writes, write_pass-full, take_all, drop_all,
}

-- Other tasks that keep the pipe valid and leave room in it.
abbrev pub Drains : Turn → Type 0
Drains t =
    (p : Pipe) → IsValid p → IsValid (t.others p) × ((t.others p).size < (t.others p).capacity)

length-drop_put :
    (p : Pipe) (bytes : List ℕ) (n : ℕ) (q : Pipe)
    → Writes p bytes n q
    → p.size < p.capacity
    → 0 < length bytes
    → (0 < n) × (n ≤ length bytes) × (length (drop n bytes) + n ≡ length bytes)
length-drop_put p bytes n q w room some_bytes = ground (arith, w.fits, length-drop n bytes)

write_loop_put :
    (t : Turn) (ts : List Turn) (p q : Pipe) (x : ℕ) (bytes : List ℕ) (written n : ℕ)
    → write_pass (t.others p) (x ∷ bytes) ≡ put n q
    → write_loop (t ∷ ts) p (x ∷ bytes) written ≡ write_loop ts q (drop n (x ∷ bytes)) (written + n)
unfolding write_loop
write_loop_put t ts p q x bytes written n e = rw (e, write_loop)

-- If the other tasks leave room before each pass, `pipe_write` on a pipe with a reader returns the
-- full count after at most one pass for each byte.
pub write_loop_total :
    (ts : List Turn) (p : Pipe) (bytes : List ℕ) (written : ℕ)
    → IsValid p
    → All Drains ts
    → length bytes ≤ length ts
    → (write_loop ts p bytes written).0 ≡ returned (written + length bytes)
unfolding write_loop
write_loop_total [] p [] written v d h = ap returned (omega arith)
write_loop_total (t ∷ ts) p [] written v d h = ap returned (omega arith)
write_loop_total [] p (x ∷ bytes) written v d h = absurd (omega arith)
write_loop_total (t ∷ ts) p (x ∷ bytes) written v (d, ds) h =
    let (valid, room) = d p v in
    let (n, q, e, w) = write_pass-Writes (t.others p) (x ∷ bytes) valid room in
    let counts = length-drop_put (t.others p) (x ∷ bytes) n q w room (omega arith) in
    rw (write_loop_put t ts p q x bytes written n e) (
      write_loop_total ts q (drop n (x ∷ bytes)) (written + n) w.keeps ds (omega arith)
      ∙ ap returned (omega arith))

-- A turn in which the others do nothing and no signal arrives.
abbrev pub IsIdle : Turn → Type 0
IsIdle t = ((p : Pipe) → t.others p ≡ p) × (t.interrupted ≡ false)

-- A writer that sleeps on a full pipe goes on sleeping when nobody reads: also once the last
-- reader is gone and `pipe_read_release` has woken it, since the loop does not test `readers`.
pub write_loop_hangs :
    (ts : List Turn) (p : Pipe) (x : ℕ) (bytes : List ℕ) (written : ℕ)
    → IsValid p
    → p.size ≡ p.capacity
    → All IsIdle ts
    → write_loop ts p (x ∷ bytes) written ≡ (running, p)
unfolding write_loop
write_loop_hangs [] p x bytes written v full idle = refl
write_loop_hangs (t ∷ ts) p x bytes written v full ((same, quiet), idle) =
    rw (write_loop, same p, write_pass-full p (x ∷ bytes) v full, quiet)
      (rw (same p) (write_loop_hangs ts p x bytes written v full idle))

-- One idle pass of `pipe_write` on an empty pipe takes all of the bytes, if they fit.
write_loop_fits :
    (t : Turn) (ts : List Turn) (p : Pipe) (x : ℕ) (bytes : List ℕ)
    → IsValid p
    → IsIdle t
    → length (x ∷ bytes) ≤ p.capacity - p.size
    → (q : Pipe) × (write_loop (t ∷ ts) p (x ∷ bytes) 0 ≡ (returned (length (x ∷ bytes)), q))
      × (contents q ≡ contents p ++ (x ∷ bytes))
      × IsValid q
unfolding write_loop
write_loop_fits t ts p x bytes v (same, quiet) fits =
    let (n, q, e, w) = write_pass-Writes p (x ∷ bytes) v (omega arith) in
    let all : n ≡ length (x ∷ bytes) = ground (arith, w.fits) in
    let none_left : drop n (x ∷ bytes) ≡ [] = drop_all (x ∷ bytes) n (omega arith) in
    let whole : take n (x ∷ bytes) ≡ x ∷ bytes = take_all (x ∷ bytes) n (omega arith) in
    (
      q,
      rw (write_loop, same p, e, none_left) (ap (λ k. (returned k, q)) (omega arith)),
      w.appended ∙ ap (◌++◌ (contents p)) whole,
      w.keeps,
    )

pipe_write_call :
    (ts : List Turn) (p q : Pipe) (bytes : List ℕ) (r : Outcome ℕ)
    → is_zero p.readers ≡ false
    → write_loop ts p bytes 0 ≡ (r, q)
    → pipe_write ts (some p) bytes ≡ (r, some q, false)
unfolding pipe_write
pipe_write_call ts p q bytes r open_end e = rw (open_end, e)

pipe_read_once :
    (t : Turn) (p q : Pipe) (count : ℕ) (bytes : List ℕ)
    → IsIdle t
    → read_pass p count ≡ got bytes q
    → pipe_read (t ∷ []) (some p) count ≡ (returned bytes, some q)
unfolding pipe_read read_loop
pipe_read_once t p q count bytes (same, quiet) e = rw (pipe_read, read_loop, same p, e)

nil_of_length : (xs : List ℕ) → length xs ≡ 0 → xs ≡ []
nil_of_length [] e = refl
nil_of_length (x ∷ xs) e = absurd (omega arith)

-- What `pipe_write` puts into an empty pipe with a reader, if it fits, `pipe_read` for as many
-- bytes or more returns: the write returns the count with no signal, the read those bytes in
-- order, and the pipe is empty again.
pub pipe_read-pipe_write :
    (t : Turn) (p : Pipe) (x count : ℕ) (bytes : List ℕ)
    → IsValid p
    → IsIdle t
    → p.size ≡ 0
    → is_zero p.readers ≡ false
    → length (x ∷ bytes) ≤ p.capacity
    → length (x ∷ bytes) ≤ count
    → (q r : Pipe) × (pipe_write (t ∷ []) (some p) (x ∷ bytes)
        ≡ (returned (length (x ∷ bytes)), some q, false))
      × (pipe_read (t ∷ []) (some q) count ≡ (returned (x ∷ bytes), some r))
      × (contents r ≡ [])
pipe_read-pipe_write t p x count bytes v idle empty open_end fits enough =
    let (q, e, held, w) = write_loop_fits t [] p x bytes v idle (omega arith) in
    let nothing : contents p ≡ [] = nil_of_length (contents p) (length-contents p ∙ empty) in
    let exactly : contents q ≡ x ∷ bytes = held ∙ ap (λ c. c ++ (x ∷ bytes)) nothing in
    let size : q.size ≡ length (x ∷ bytes) = sym (length-contents q) ∙ ap length exactly in
    let (got_bytes, r, f, d) = read_pass-Reads q count w (omega arith) in
    let n : length (contents q) ≤ min_of count q.size = ground (arith, length-contents q) in
    let whole : got_bytes ≡ x ∷ bytes = d.oldest ∙ take_all (contents q) _ n ∙ exactly in
    (
      q,
      r,
      pipe_write_call (t ∷ []) p q (x ∷ bytes) _ open_end e,
      pipe_read_once t q r count got_bytes idle f ∙ ap (λ b. (returned b, some r)) whole,
      d.rest ∙ drop_all (contents q) _ n,
    )
