-- ===== src/Fs/Files/Tests.antt =====
-- The theorems on open files at a table with one open file, and runs of the code.
use ore_unix.Common.{
  ℕ, zero, suc, ◌+◌, ◌≡◌, refl, true, Option, none, some, [], ◌∷◌, ◌==◌, if◌then◌else◌, replicate,
  get_or, length-replicate, arith,
}
use ore_unix.Common.Errno.{ebadf}
use ore_unix.Common.Int.{pos, negsuc}
use ore_unix.Fs.Files.Calls.{HasRoom}
use ore_unix.Fs.Files.Clone.{files_clone-files_destroy}
use ore_unix.Fs.Files.Counts.{IsCounted, count_file}
use ore_unix.Fs.Files.Dup.{sys_dup2-Dups}
use ore_unix.Fs.Files.Pipes.{FdTrace, calls-IsCounted, close_file, done, dup2_file, next}
use ore_unix.Fs.Files.{
  FileId, Refs, Table, error, files_clone, files_destroy, sys_close, sys_dup2, sys_pipe, value,
  file_get, file_put, files_free_fd, files_alloc_fd, alloc_from,
}

-- File 7 has descriptor 0.
abbrev fds_one : Table
fds_one = some 7 ∷ replicate 1023 none

abbrev refs_one : Refs
refs_one = record { refcount = λ f. if f == 7 then 1 else 0; freed = [] }

abbrev nowhere : FileId → ℕ
nowhere f = 0

count_file-replicate : (f : FileId) (n : ℕ) → count_file f (replicate n none) ≡ 0
count_file-replicate f zero = refl
count_file-replicate f (suc n) = omega (arith, count_file-replicate f n)

count_one : (f : FileId) → count_file f fds_one ≡ (if f == 7 then 1 else 0)
count_one f = ground (arith, count_file-replicate f 1023)

one-IsCounted : IsCounted refs_one fds_one nowhere
one-IsCounted = record {
  sized = let empty : Option FileId = none in omega (arith, length-replicate 1023 empty);
  counted = λ f. omega (arith, count_one f);
  small = λ f. ground arith;
  gone = tt;
}

one-HasRoom : HasRoom refs_one
one-HasRoom f = ground arith

sys_dup2-Dups_example :
    (let o = sys_dup2 refs_one fds_one (pos 0) (pos 5) in
      (o.result ≡ value (pos 5))
      × ((j : ℕ) → get_or o.table j none ≡ (if j == 5 then some 7 else get_or fds_one j none))
      × IsCounted o.refs o.table nowhere)
sys_dup2-Dups_example =
    sys_dup2-Dups refs_one fds_one nowhere 0 5 7 one-IsCounted one-HasRoom refl
      (λ e. absurd (omega (arith, e))) (omega arith)

-- `dup2` onto 5, then 0 and 5 are closed.
abbrev dupped : Refs × Table
dupped = (let o = sys_dup2 refs_one fds_one (pos 0) (pos 5) in (o.refs, o.table))

abbrev closed : Refs × Table
closed = (let o = sys_close dupped.0 dupped.1 (pos 0) in (o.refs, o.table))

abbrev both_closed : Refs × Table
both_closed = (let o = sys_close closed.0 closed.1 (pos 5) in (o.refs, o.table))

three_calls : FdTrace refs_one fds_one both_closed.0 both_closed.1
three_calls =
    next refs_one fds_one (sys_dup2 refs_one fds_one (pos 0) (pos 5)) both_closed.0 both_closed.1
      (dup2_file refs_one fds_one (pos 0) (pos 5) one-HasRoom)
      (next dupped.0 dupped.1 (sys_close dupped.0 dupped.1 (pos 0)) both_closed.0 both_closed.1
        (close_file dupped.0 dupped.1 (pos 0))
        (next closed.0 closed.1 (sys_close closed.0 closed.1 (pos 5)) both_closed.0 both_closed.1
          (close_file closed.0 closed.1 (pos 5)) (done both_closed.0 both_closed.1)))

calls-IsCounted_example : IsCounted both_closed.0 both_closed.1 nowhere
calls-IsCounted_example =
    calls-IsCounted refs_one both_closed.0 fds_one both_closed.1 nowhere three_calls one-IsCounted

both_closed_freed : both_closed.0.freed ≡ 7 ∷ []
unfolding sys_dup2 sys_close file_get file_put files_free_fd
both_closed_freed = refl

files_clone-files_destroy_example :
    (let r = files_clone true refs_one fds_one in
      (r.1 ≡ some fds_one)
      × ((f : FileId) → r.0.refcount f ≡ refs_one.refcount f + count_file f fds_one)
      × ((f : FileId) → (files_destroy r.0 fds_one).refcount f ≡ refs_one.refcount f)
      × ((files_destroy r.0 fds_one).freed ≡ refs_one.freed))
files_clone-files_destroy_example =
    files_clone-files_destroy refs_one fds_one nowhere one-IsCounted
      (λ f. ground (arith, count_one f))

-- A number out of range is not closed; a closed descriptor is `dup2`ed onto itself.
close_bad : (sys_close refs_one fds_one (negsuc 0)).result ≡ error ebadf
unfolding sys_close
close_bad = refl

dup2_self : (sys_dup2 refs_one fds_one (pos 9) (pos 9)).result ≡ value (pos 9)
unfolding sys_dup2
dup2_self = refl

-- A pipe takes the two lowest numbers.
pipe_numbers : (sys_pipe refs_one fds_one 8 9).1 ≡ some (1, 2)
unfolding sys_pipe files_alloc_fd alloc_from
pipe_numbers = refl
