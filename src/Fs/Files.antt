-- ===== src/Fs/Files.antt =====
-- Open files and descriptor tables: `struct file`'s reference counts and the descriptor calls of
-- fs/vfs.c, `files_struct` of kernel/process.c. Whether the slab
-- cache and the heap have memory is an argument, and so are the files that `vfs_open` and
-- `vfs_pipe` return.
pub mod Counts
pub mod Calls
pub mod Dup
pub mod Pipes
pub mod Clone
mod Tests
use ore_unix.Common.{
  ℕ, zero, suc, ◌+◌, ◌-◌, ◌*◌, ◌/◌, ◌%◌, ◌^◌, Bool, true, false, not, ◌&&◌, ◌||◌, Option, none,
  some, List, [], ◌∷◌, ltb, leb, ◌==◌, if◌then◌else◌, set, get_or, replicate, add32, sub32,
}
use ore_unix.Common.Errno.{Errno, ebadf, emfile, enoent}
use ore_unix.Common.Int.{ℤ, pos, negsuc}

-- A `struct file` is known by a number in place of its address, each file that is allocated by one
-- of its own.
abbrev pub FileId : Type 0
FileId = ℕ

abbrev pub Table : Type 0
Table = List (Option FileId)

abbrev pub open_max : ℕ
open_max = 1024

-- The reference counts, and the files that `file_free` has given back, the last first.
pub record Refs : Type 0 where
  pub refcount : FileId → ℕ
  pub freed : List FileId

abbrev pub update : (FileId → ℕ) → FileId → ℕ → FileId → ℕ
update r f n g = if g == f then n else r g

-- `file_alloc`, for a file at an address that the slab cache hands out.
unfoldable pub file_alloc : Refs → FileId → Refs
file_alloc s f = record s { refcount = update s.refcount f 1 }

unfoldable pub file_get : Refs → FileId → Refs
file_get s f = record s { refcount = update s.refcount f (add32 (s.refcount f) 1) }

unfoldable pub file_put : Refs → FileId → Refs
file_put s f =
    let n = sub32 (s.refcount f) 1 in
    record s { refcount = update s.refcount f n; freed = if n == 0 then f ∷ s.freed else s.freed }

abbrev pub put_slot : Refs → Option FileId → Refs
put_slot s none = s
put_slot s (some f) = file_put s f

abbrev pub get_slot : Refs → Option FileId → Refs
get_slot s none = s
get_slot s (some f) = file_get s f

-- The lowest empty slot, from number `i` on; `none` is -EMFILE.
unfoldable pub alloc_from : ℕ → Table → Option ℕ
alloc_from i [] = none
alloc_from i (none ∷ fds) = some i
alloc_from i (some f ∷ fds) = alloc_from (i + 1) fds

unfoldable pub files_alloc_fd : Table → Option ℕ
files_alloc_fd fds = alloc_from 0 fds

-- Tables have OPEN_MAX slots, so a number outside the table has no slot.
abbrev pub slot : Table → ℤ → Option FileId
slot fds (pos n) = get_or fds n none
slot fds (negsuc n) = none

abbrev pub fd_to_file : Table → ℤ → Option FileId
fd_to_file fds fd = slot fds fd

unfoldable pub files_free_fd : Refs → Table → ℤ → Refs × Table
files_free_fd s fds (negsuc n) = (s, fds)
files_free_fd s fds (pos n) = (put_slot s (get_or fds n none), set fds n none)

-- What a call returns: a number, or an error.
pub data FdResult : Type 0 where
  value : ℤ → FdResult
  error : Errno → FdResult

pub record FdOutcome : Type 0 where
  pub refs : Refs
  pub table : Table
  pub result : FdResult

abbrev pub fail : Refs → Table → Errno → FdOutcome
fail s fds e = record { refs = s; table = fds; result = error e }

abbrev pub give : Refs → Table → ℤ → FdOutcome
give s fds n = record { refs = s; table = fds; result = value n }

abbrev pub same_fd : ℤ → ℤ → Bool
same_fd (pos a) (pos b) = a == b
same_fd (pos a) (negsuc b) = false
same_fd (negsuc a) (pos b) = false
same_fd (negsuc a) (negsuc b) = a == b

-- The calls, with what they look up: the file of the descriptor and the lowest empty slot.
abbrev pub install : Refs → Table → FileId → Option ℕ → FdOutcome
install s fds f none = fail (file_put s f) fds emfile
install s fds f (some fd) = give s (set fds fd (some f)) (pos fd)

abbrev pub close_at : Refs → Table → ℤ → Option FileId → FdOutcome
close_at s fds fd none = fail s fds ebadf
close_at s fds fd (some f) = let r = files_free_fd s fds fd in give r.0 r.1 (pos 0)

abbrev pub dup_at : Refs → Table → Option FileId → Option ℕ → FdOutcome
dup_at s fds none free = fail s fds ebadf
dup_at s fds (some f) none = fail s fds emfile
dup_at s fds (some f) (some nfd) = give (file_get s f) (set fds nfd (some f)) (pos nfd)

abbrev pub dup_to : Refs → Table → Option FileId → ℤ → FdOutcome
dup_to s fds none nw = fail s fds ebadf
dup_to s fds (some f) (negsuc n) = fail s fds ebadf
dup_to s fds (some f) (pos n) =
    let r = files_free_fd s fds (pos n) in
    if leb open_max n then fail s fds ebadf else give (file_get r.0 f) (set r.1 n (some f)) (pos n)

-- `sys_open` with what `vfs_open` returns: NULL, or a file with one reference.
unfoldable pub sys_open : Refs → Table → Option FileId → FdOutcome
sys_open s fds none = fail s fds enoent
sys_open s fds (some f) = install s fds f (files_alloc_fd fds)

unfoldable pub sys_close : Refs → Table → ℤ → FdOutcome
sys_close s fds fd = close_at s fds fd (fd_to_file fds fd)

unfoldable pub sys_dup : Refs → Table → ℤ → FdOutcome
sys_dup s fds fd = dup_at s fds (fd_to_file fds fd) (files_alloc_fd fds)

unfoldable pub sys_dup2 : Refs → Table → ℤ → ℤ → FdOutcome
sys_dup2 s fds old nw =
    if same_fd old nw then give s fds nw else dup_to s fds (fd_to_file fds old) nw

-- `sys_pipe` with the two files of `vfs_pipe`, each with one reference; `fds[0]` and `fds[1]` are
-- the numbers in the result.
abbrev pub pipe_write_end : Refs → Table → FileId → ℕ → Option ℕ → FdOutcome × Option (ℕ × ℕ)
pipe_write_end s fds w rfd none =
    let r = files_free_fd s fds (pos rfd) in (fail (file_put r.0 w) r.1 emfile, none)
pipe_write_end s fds w rfd (some wfd) = (give s (set fds wfd (some w)) (pos 0), some (rfd, wfd))

abbrev pub pipe_ends : Refs → Table → FileId → FileId → Option ℕ → FdOutcome × Option (ℕ × ℕ)
pipe_ends s fds r w none = (fail (file_put (file_put s r) w) fds emfile, none)
pipe_ends s fds r w (some rfd) =
    let fds' = set fds rfd (some r) in pipe_write_end s fds' w rfd (files_alloc_fd fds')

unfoldable pub sys_pipe : Refs → Table → FileId → FileId → FdOutcome × Option (ℕ × ℕ)
sys_pipe s fds r w = pipe_ends s fds r w (files_alloc_fd fds)

-- `files_create`, if the cache has an object; the result of `kcalloc` is not tested.
unfoldable pub files_create : Bool → Option Table
files_create found = if found then some (replicate open_max none) else none

-- The loop of `files_clone`.
unfoldable pub clone_slots : Refs → Table → Refs × Table
clone_slots s [] = (s, [])
clone_slots s (none ∷ fds) = (let r = clone_slots s fds in (r.0, none ∷ r.1))
clone_slots s (some f ∷ fds) = (let r = clone_slots (file_get s f) fds in (r.0, some f ∷ r.1))

unfoldable pub files_clone : Bool → Refs → Table → Refs × Option Table
files_clone found s src = let r = clone_slots s src in if found then (r.0, some r.1) else (s, none)

-- The loop of `files_destroy`; the table goes back to the heap.
unfoldable pub files_destroy : Refs → Table → Refs
files_destroy s [] = s
files_destroy s (o ∷ fds) = files_destroy (put_slot s o) fds
