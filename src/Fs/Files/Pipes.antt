-- ===== src/Fs/Files/Pipes.antt =====
-- fs/vfs.c, `sys_pipe`, and the descriptor calls in any order.
use ore_unix.Common.{
  ℕ, ◌<◌, ◌≡◌, ◌≢◌, false, inl, inr, none, some, leb, set, get_or, arith, Bool-cases, Option-cases,
}
use ore_unix.Common.Int.{ℤ, pos, negsuc}
use ore_unix.Fs.Files.Calls.{
  After, HasRoom, IsFresh, file_alloc-IsCounted, sys_open-After, sys_close-After, sys_dup-After,
}
use ore_unix.Fs.Files.Counts.{
  IsCounted, bump, file_put-IsCounted, files_alloc_fd-empty, install-IsCounted, put_slot-IsCounted,
}
use ore_unix.Fs.Files.Dup.{dup_to-IsCounted, dup_to-lem}
use ore_unix.Fs.Files.{
  FileId, FdOutcome, Refs, Table, dup_to, fd_to_file, file_alloc, file_put, files_alloc_fd,
  files_free_fd, open_max, pipe_ends, pipe_write_end, same_fd, sys_close, sys_dup, sys_dup2,
  sys_open, sys_pipe,
}

bump_swap :
    (s : Refs) (fds : Table) (other : FileId → ℕ) (r w : FileId)
    → IsCounted s fds (bump (bump other r) w)
    → IsCounted s fds (bump (bump other w) r)
bump_swap s fds other r w c = record {
  sized = c.sized;
  counted = λ g. ground (arith, c.counted g);
  small = c.small;
  gone = c.gone;
}

pipe_write_end-After :
    (s : Refs) (fds : Table) (other : FileId → ℕ) (w : FileId) (rfd : ℕ)
    → IsCounted s fds (bump other w)
    → rfd < open_max
    → After other (pipe_write_end s fds w rfd (files_alloc_fd fds)).0
unfolding files_free_fd
pipe_write_end-After s fds other w rfd c lt = elim (Option-cases (files_alloc_fd fds)) [
  | inl e ↦
      let r = files_free_fd s fds (pos rfd) in
      rw e (file_put-IsCounted r.0 r.1 other w (put_slot-IsCounted s fds (bump other w) rfd c lt))
  | inr (i, e) ↦
      let empty = files_alloc_fd-empty fds i e in
      rw e (install-IsCounted s fds other w i c (omega (arith, empty.0, c.sized)) empty.1)
]

pipe_ends-After :
    (s : Refs) (fds : Table) (other : FileId → ℕ) (r w : FileId)
    → IsCounted s fds (bump (bump other w) r)
    → After other (pipe_ends s fds r w (files_alloc_fd fds)).0
pipe_ends-After s fds other r w c = elim (Option-cases (files_alloc_fd fds)) [
  | inl e ↦
      rw e (
        file_put-IsCounted (file_put s r) fds other w (file_put-IsCounted s fds (bump other w) r c))
  | inr (i, e) ↦
      let empty = files_alloc_fd-empty fds i e in
      let lt : i < open_max = omega (arith, empty.0, c.sized) in
      rw e (
        pipe_write_end-After s (set fds i (some r)) other w i
          (install-IsCounted s fds (bump other w) r i c lt empty.1) lt)
]

sys_pipe-After :
    (s : Refs) (fds : Table) (other : FileId → ℕ) (r w : FileId)
    → IsCounted s fds other
    → IsFresh s r
    → IsFresh (file_alloc s r) w
    → After other (sys_pipe (file_alloc (file_alloc s r) w) fds r w).0
unfolding sys_pipe
sys_pipe-After s fds other r w c new_r new_w =
    let s1 = file_alloc s r in
    let c1 = file_alloc-IsCounted s fds other r c new_r in
    let c2 = file_alloc-IsCounted s1 fds (bump other r) w c1 new_w in
    pipe_ends-After (file_alloc s1 w) fds other r w (bump_swap (file_alloc s1 w) fds other r w c2)

dup_to-After :
    (s : Refs) (fds : Table) (other : FileId → ℕ) (a : ℕ) (f : FileId) (nw : ℤ)
    → IsCounted s fds other
    → HasRoom s
    → get_or fds a none ≡ some f
    → same_fd (pos a) nw ≡ false
    → After other (dup_to s fds (some f) nw)
dup_to-After s fds other a f (negsuc n) c room here ne = c
dup_to-After s fds other a f (pos n) c room here ne = elim (Bool-cases (leb open_max n)) [
  | inl big ↦ rw big c
  | inr small ↦
      let lt : n < open_max = ground (arith, small) in
      let apart : n ≢ a = ground (arith, ne) in
      rw (dup_to-lem s fds other a n f c room here apart lt)
        (dup_to-IsCounted s fds other a n f c room here apart lt)
]

dup_from :
    (s : Refs) (fds : Table) (other : FileId → ℕ) (old : ℤ) (f : FileId) (nw : ℤ)
    → IsCounted s fds other
    → HasRoom s
    → fd_to_file fds old ≡ some f
    → same_fd old nw ≡ false
    → After other (dup_to s fds (some f) nw)
dup_from s fds other (negsuc a) f nw c room here ne = absurd (cc)
dup_from s fds other (pos a) f nw c room here ne = dup_to-After s fds other a f nw c room here ne

sys_dup2-After :
    (s : Refs) (fds : Table) (other : FileId → ℕ) (old nw : ℤ)
    → IsCounted s fds other
    → HasRoom s
    → After other (sys_dup2 s fds old nw)
unfolding sys_dup2
sys_dup2-After s fds other old nw c room = elim (Bool-cases (same_fd old nw)) [
  | inl same ↦ rw (sys_dup2, same) c
  | inr ne ↦ elim (Option-cases (fd_to_file fds old)) [
    | inl e ↦ rw (sys_dup2, ne, e) c
    | inr (f, e) ↦ rw (sys_dup2, ne, e) (dup_from s fds other old f nw c room e ne)
  ]
]

-- One descriptor call of a process, with what it leaves.
pub data FdCall : Refs → Table → FdOutcome → Type 0 where
  no_file : (s : Refs) (fds : Table) → FdCall s fds (sys_open s fds none)
  open_file :
      (s : Refs) (fds : Table) (f : FileId)
      → IsFresh s f
      → FdCall s fds (sys_open (file_alloc s f) fds (some f))
  close_file : (s : Refs) (fds : Table) (fd : ℤ) → FdCall s fds (sys_close s fds fd)
  dup_file : (s : Refs) (fds : Table) (fd : ℤ) → HasRoom s → FdCall s fds (sys_dup s fds fd)
  dup2_file :
      (s : Refs) (fds : Table) (old nw : ℤ) → HasRoom s → FdCall s fds (sys_dup2 s fds old nw)
  pipe_files :
      (s : Refs) (fds : Table) (r w : FileId)
      → IsFresh s r
      → IsFresh (file_alloc s r) w
      → FdCall s fds (sys_pipe (file_alloc (file_alloc s r) w) fds r w).0

pub data FdTrace : Refs → Table → Refs → Table → Type 0 where
  done : (s : Refs) (fds : Table) → FdTrace s fds s fds
  next :
      (s : Refs) (fds : Table) (o : FdOutcome) (s' : Refs) (fds' : Table)
      → FdCall s fds o
      → FdTrace o.refs o.table s' fds'
      → FdTrace s fds s' fds'

call-After :
    (s : Refs) (fds : Table) (o : FdOutcome) (other : FileId → ℕ)
    → FdCall s fds o
    → IsCounted s fds other
    → After other o
unfolding sys_open
call-After _ _ _ other (no_file s fds) c = c
call-After _ _ _ other (open_file s fds f new) c = sys_open-After s fds other f c new
call-After _ _ _ other (close_file s fds fd) c = sys_close-After s fds other fd c
call-After _ _ _ other (dup_file s fds fd room) c = sys_dup-After s fds other fd c room
call-After _ _ _ other (dup2_file s fds old nw room) c = sys_dup2-After s fds other old nw c room
call-After _ _ _ other (pipe_files s fds r w new_r new_w) c =
    sys_pipe-After s fds other r w c new_r new_w

-- After any sequence of opens, closes, `dup`s, `dup2`s and pipes, the failing ones included, that
-- starts where each file's reference count is the number of its references, in the table and
-- elsewhere, the counts are right again with the same references elsewhere, and every file that was
-- given back has no reference left. A call that takes a file's address takes a new one, and before
-- a `dup` or `dup2` no count is at the top of its 32 bits.
pub calls-IsCounted :
    (s s' : Refs) (fds fds' : Table) (other : FileId → ℕ)
    → FdTrace s fds s' fds'
    → IsCounted s fds other
    → IsCounted s' fds' other
calls-IsCounted _ _ _ _ other (done s fds) c = c
calls-IsCounted _ _ _ _ other (next s fds o s' fds' call rest) c =
    calls-IsCounted o.refs s' o.table fds' other rest (call-After s fds o other call c)
