-- ===== src/Fs/Pipe.antt =====
-- fs/pipe.c: anonymous pipes. A call of `pipe_read` or `pipe_write` is a loop of passes; in each it
-- takes `lock` once. Between two passes other tasks run (they hold the lock, or the caller sleeps
-- on a wait queue), so a call takes a list of turns: what the others do to the pipe before the
-- pass, and whether a signal is pending when a sleep in that pass ends. A call whose turns run out
-- is still running.
pub mod Inv
pub mod Passes
pub mod Fifo
pub mod Calls
mod Tests
use ore_unix.Common.Errno.{Errno, einval, eintr, epipe}
use ore_unix.Common.Int.{ℤ, pos, negsuc, ◌-ℤ◌}
use ore_unix.Common.{
  ℕ, zero, suc, ◌+◌, ◌-◌, ◌*◌, ◌%◌, ◌^◌, Bool, true, false, not, ◌&&◌, Option, none, some, List, [],
  ◌∷◌, ◌++◌, ltb, leb, ◌==◌, if◌then◌else◌, get_or, set, length, add32, sub32, replicate, drop,
}

abbrev pub pipe_buf : ℕ
pipe_buf = 4096

-- `struct pipe_inode_info` but for its lock and wait queues.
pub record Pipe : Type 0 where
  pub buf : List ℕ
  pub head : ℕ
  pub tail : ℕ
  pub size : ℕ
  pub capacity : ℕ
  pub readers : ℤ
  pub writers : ℤ

-- What `vfs_pipe` makes of two blocks from kmalloc; `garbage` is what the buffer holds.
pub new_pipe : List ℕ → Pipe
new_pipe garbage = record {
  buf = garbage;
  head = 0;
  tail = 0;
  size = 0;
  capacity = pipe_buf;
  readers = pos 1;
  writers = pos 1;
}

abbrev pub is_zero : ℤ → Bool
is_zero (pos n) = n == 0
is_zero (negsuc n) = false

-- MIN(a, b)
abbrev pub min_of : ℕ → ℕ → ℕ
min_of a b = if ltb a b then a else b

-- `for (i = 0; i < n; i++) { buf[i] = p->buf[p->tail]; p->tail = (p->tail + 1) % p->capacity; }`
pub copy_out : ℕ → Pipe → List ℕ × Pipe
copy_out zero p = ([], p)
copy_out (suc n) p =
    let (bytes, q) = copy_out n (record p { tail = add32 p.tail 1 % p.capacity }) in
    (get_or p.buf p.tail 0 ∷ bytes, q)

-- `for (i = 0; i < n; i++) { p->buf[p->head] = buf[…]; p->head = (p->head + 1) % p->capacity; }`
-- over the caller's bytes from the first unwritten one on.
pub copy_in : ℕ → Pipe → List ℕ → Pipe
copy_in zero p bytes = p
copy_in (suc n) p [] = p
copy_in (suc n) p (x ∷ bytes) =
    copy_in n (record p { buf = set p.buf p.head x; head = add32 p.head 1 % p.capacity }) bytes

-- One pass of the loop of `pipe_read`: bytes and `wake_up(&p->wr_wait)`, end of file, or a sleep.
pub data ReadPass : Type 0 where
  got : List ℕ → Pipe → ReadPass
  eof : ReadPass
  sleeps : ReadPass

pub read_pass : Pipe → ℕ → ReadPass
unfolding copy_out
read_pass p count =
    if ltb 0 p.size
    then (let n = min_of count p.size in
        let (bytes, q) = copy_out n p in got bytes (record q { size = sub32 q.size n }))
    else if is_zero p.writers
    then eof
    else sleeps

-- One turn of the other tasks.
pub record Turn : Type 0 where
  pub others : Pipe → Pipe
  pub interrupted : Bool

-- A call's outcome: the bytes read or the count written, an error, or that it is still running.
pub data Outcome (A : Type 0) : Type 0 where
  returned : A → Outcome A
  failed : Errno → Outcome A
  running : Outcome A

-- The loop of `pipe_read`.
pub read_loop : List Turn → Pipe → ℕ → Outcome (List ℕ) × Pipe
read_loop [] p count = (running, p)
read_loop (t ∷ ts) p count =
    let p' = t.others p in
    let rest = read_loop ts p' count in
    elim (read_pass p' count) [
      | got bytes q ↦ (returned bytes, q)
      | eof ↦ (returned [], p')
      | sleeps ↦ if t.interrupted then (failed eintr, p') else rest
    ]

-- The part of `pipe_read` before the loop: `i_private` may be null.
pub pipe_read : List Turn → Option Pipe → ℕ → Outcome (List ℕ) × Option Pipe
pipe_read ts none count = (failed einval, none)
pipe_read ts (some p) count = let (r, q) = read_loop ts p count in (r, some q)

-- One pass of the loop of `pipe_write` over the bytes not yet written: how many it copied, and
-- `wake_up(&p->rd_wait)`, or a sleep.
pub data WritePass : Type 0 where
  put : ℕ → Pipe → WritePass
  sleeps : WritePass

pub write_pass : Pipe → List ℕ → WritePass
unfolding copy_in
write_pass p bytes =
    let avail = sub32 p.capacity p.size in
    if ltb 0 avail
    then (let n = min_of (length bytes) avail in
        let q = copy_in n p bytes in put n (record q { size = add32 q.size n }))
    else sleeps

-- The loop of `pipe_write`; `bytes` is `buf[written .. count)`.
pub write_loop : List Turn → Pipe → List ℕ → ℕ → Outcome ℕ × Pipe
write_loop ts p [] written = (returned written, p)
write_loop [] p (x ∷ bytes) written = (running, p)
write_loop (t ∷ ts) p (x ∷ bytes) written =
    let p' = t.others p in
    let idle = write_loop ts p' (x ∷ bytes) written in
    elim (write_pass p' (x ∷ bytes)) [
      | put n q ↦ write_loop ts q (drop n (x ∷ bytes)) (written + n)
      | sleeps ↦
          if t.interrupted
          then (if ltb 0 written then (returned written, p') else (failed eintr, p'))
          else idle
    ]

-- `pipe_write`: with no reader the caller gets SIGPIPE (the flag) and -EPIPE.
pub pipe_write : List Turn → Option Pipe → List ℕ → Outcome ℕ × Option Pipe × Bool
pipe_write ts none bytes = (failed einval, none, false)
pipe_write ts (some p) bytes =
    if is_zero p.readers
    then (failed epipe, some p, true)
    else (let (r, q) = write_loop ts p bytes 0 in (r, some q, false))

-- `pipe_read_release` and `pipe_write_release`; `none` is the freed `i_private`.
pub pipe_read_release : Pipe → Option Pipe
unfolding ◌-ℤ◌
pipe_read_release p =
    let q = record p { readers = p.readers -ℤ pos 1 } in
    if is_zero q.readers && is_zero q.writers then none else some q

pub pipe_write_release : Pipe → Option Pipe
unfolding ◌-ℤ◌
pipe_write_release p =
    let q = record p { writers = p.writers -ℤ pos 1 } in
    if is_zero q.readers && is_zero q.writers then none else some q
