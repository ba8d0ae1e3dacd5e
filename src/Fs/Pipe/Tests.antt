-- ===== src/Fs/Pipe/Tests.antt =====
-- The theorems on fs/pipe.c at small pipes, and runs of the code.
use ore_unix.Common.Errno.{eintr, epipe, einval}
use ore_unix.Common.Int.{pos}
use ore_unix.Common.{◌≡◌, refl, true, false, none, some, List, [], ◌∷◌, arith}
use ore_unix.Fs.Pipe.{
  Pipe, read_pass, write_pass, Turn, returned, failed, running, read_loop, write_loop, pipe_read,
  pipe_write, pipe_read_release, pipe_write_release,
}
use ore_unix.Fs.Pipe.Inv.{IsValid, contents}
use ore_unix.Fs.Pipe.Fifo.{Pass, reads, writes, Conserves, run, run-Conserves}
use ore_unix.Fs.Pipe.Calls.{
  Drains, IsIdle, write_loop_total, write_loop_hangs, pipe_read-pipe_write,
}

-- A pipe of four bytes that holds 8 and 9 round the end of its buffer.
abbrev wrapped : Pipe
wrapped = record {
  buf = 9 ∷ 6 ∷ 7 ∷ 8 ∷ [];
  head = 1;
  tail = 3;
  size = 2;
  capacity = 4;
  readers = pos 1;
  writers = pos 1;
}

wrapped-IsValid : IsValid wrapped
wrapped-IsValid = omega arith

abbrev empty : Pipe
empty = record wrapped { head = 3; size = 0 }

empty-IsValid : IsValid empty
empty-IsValid = omega arith

abbrev full : Pipe
full = record wrapped { head = 3; size = 4 }

full-IsValid : IsValid full
full-IsValid = omega arith

abbrev idle : Turn
idle = record { others = λ p. p; interrupted = false }

idle-IsIdle : IsIdle idle
idle-IsIdle = (λ p. refl, refl)

-- Another task that empties the pipe.
abbrev drain : Turn
drain = record { others = λ _. empty; interrupted = false }

drain-Drains : Drains drain
drain-Drains = λ p v. (empty-IsValid, omega arith)

abbrev passes : List Pass
passes = writes (1 ∷ 2 ∷ 3 ∷ []) ∷ reads 3 ∷ writes (3 ∷ []) ∷ reads 9 ∷ reads 9 ∷ []

run-Conserves_example : Conserves wrapped (run wrapped passes)
run-Conserves_example = run-Conserves wrapped passes wrapped-IsValid

write_loop_total_example : (write_loop (drain ∷ drain ∷ []) full (5 ∷ 6 ∷ []) 0).0 ≡ returned 2
write_loop_total_example =
    write_loop_total (drain ∷ drain ∷ []) full (5 ∷ 6 ∷ []) 0 full-IsValid
      (drain-Drains, (drain-Drains, tt)) (omega arith)

write_loop_hangs_example :
    write_loop (idle ∷ idle ∷ []) (record full { readers = pos 0 }) (1 ∷ []) 0
    ≡ (running, record full { readers = pos 0 })
write_loop_hangs_example =
    write_loop_hangs (idle ∷ idle ∷ []) (record full { readers = pos 0 }) 1 [] 0 (omega arith) refl
      (idle-IsIdle, (idle-IsIdle, tt))

pipe_read-pipe_write_example :
    (q r : Pipe) × (pipe_write (idle ∷ []) (some empty) (5 ∷ 6 ∷ []) ≡ (returned 2, some q, false))
    × (pipe_read (idle ∷ []) (some q) 10 ≡ (returned (5 ∷ 6 ∷ []), some r))
    × (contents r ≡ [])
pipe_read-pipe_write_example =
    pipe_read-pipe_write idle empty 5 10 (6 ∷ []) empty-IsValid idle-IsIdle refl refl (omega arith)
      (omega arith)

run_runs : (run wrapped passes).out ≡ 8 ∷ 9 ∷ 1 ∷ 2 ∷ 3 ∷ []
unfolding run read_pass write_pass
run_runs = refl

-- With no reader: SIGPIPE and -EPIPE. A signal ends a sleep. No inode data: -EINVAL.
errors_run :
    (pipe_write [] (some (record full { readers = pos 0 })) (1 ∷ [])
      ≡ (failed epipe, some (record full { readers = pos 0 }), true))
    × (pipe_write (record idle { interrupted = true } ∷ []) (some full) (1 ∷ [])
        ≡ (failed eintr, some full, false))
    × (pipe_read [] none 3 ≡ (failed einval, none))
    × (pipe_read (idle ∷ []) (some (record empty { writers = pos 0 })) 3
        ≡ (returned [], some (record empty { writers = pos 0 })))
unfolding pipe_write pipe_read read_loop write_loop read_pass write_pass
errors_run = (refl, refl, refl, refl)

-- The second release frees the pipe, in either order.
releases_run :
    (pipe_read_release (record full { writers = pos 0 }) ≡ none)
    × (pipe_write_release (record full { readers = pos 0 }) ≡ none)
    × (pipe_read_release full ≡ some (record full { readers = pos 0 }))
unfolding pipe_read_release pipe_write_release
releases_run = (refl, refl, refl)
