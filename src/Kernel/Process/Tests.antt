-- ===== src/Kernel/Process/Tests.antt =====
-- Tests of fork, exit and waitpid: task 1 sleeps, its child 2 runs, and 3 is a zombie child of 2.
use ore_unix.Common.Errno.{enomem}
use ore_unix.Common.Int.{pos, negsuc}
use ore_unix.Common.Queue.{linked, list_del}
use ore_unix.Common.{
  ◌*◌, ◌+◌, true, false, none, some, ◌≡◌, refl, inl, [], ◌∷◌, ◌==◌, if◌then◌else◌, replicate, arith,
}
use ore_unix.Kernel.Process.{
  Found, Outcome, Owned, Processes, Waited, corrupt, files_at, mm_at, signal_at, stack_at, sys_exit,
  sys_fork, task_at, wait_pass, give_back,
}
use ore_unix.Kernel.Process.Exit.{sys_exit-corrupts, sys_exit-orphans}
use ore_unix.Kernel.Process.Fork.{Forked, found, own, sys_fork-Forked, sys_fork-frees_parent}
use ore_unix.Kernel.Process.Reap.{wait_pass-reaps}
use ore_unix.Kernel.Signal.{find_task_by_pid}
use ore_unix.Kernel.Task.{Task, TaskId, Signal, running, sleeping, zombie, sig_dfl}

abbrev quiet : Signal
quiet = record { pending = replicate 64 false; actions = replicate 64 sig_dfl }

abbrev task : TaskId → Task
task t = record {
  pid = t;
  ppid = 1;
  pgid = t;
  sid = 1;
  state = if t == 1 then sleeping else if t == 3 then zombie else running;
  exit_code = 258;
  signal = some quiet;
  time_slice = 20;
  runtime_ns = 0;
}

abbrev addresses : TaskId → Owned
addresses t = record {
  mm = some (t * 4 + 100);
  files = some (t * 4 + 101);
  signal = some (t * 4 + 102);
  stack = some (t * 4 + 103);
}

abbrev processes : Processes
processes = record {
  kernel = record {
    tasks = task;
    task_list = 0 ∷ 1 ∷ 2 ∷ 3 ∷ [];
    runqueue = 2 ∷ [];
    current = 2;
    next_pid = 7;
  };
  parent = λ t. if t == 2 then some 1 else if t == 3 then some 2 else none;
  children = λ t. if t == 1 then 2 ∷ [] else if t == 2 then 3 ∷ [] else [];
  owned = addresses;
  freed = [];
}

sys_fork-Forked_example :
    (q : Processes) × (sys_fork (found 9 (own 50 60 70 80)) processes ≡ Outcome.done 7 q)
    × Forked processes q 9 (own 50 60 70 80)
unfolding linked
sys_fork-Forked_example =
    sys_fork-Forked processes 9 50 60 70 80 quiet refl (omega arith) refl refl refl

abbrev no_space : Found
no_space = record { task = some 9; mm = none; files = some 60; signal = some 70; stack = some 80 }

sys_fork-frees_parent_example :
    (q : Processes) × (sys_fork no_space processes ≡ Outcome.fails enomem q)
    × (q.freed ≡ files_at 109 ∷ signal_at 110 ∷ stack_at 111 ∷ task_at 9 ∷ [])
    × (q.owned ≡ processes.owned)
    × (q.kernel.tasks ≡ processes.kernel.tasks)
    × (q.kernel.runqueue ≡ processes.kernel.runqueue)
sys_fork-frees_parent_example =
    sys_fork-frees_parent no_space processes 9 109 110 111 refl refl refl refl refl

sys_exit-corrupts_example : sys_exit 0 processes ≡ corrupt
unfolding find_task_by_pid
sys_exit-corrupts_example =
    sys_exit-corrupts 0 processes 1 quiet refl (omega arith) refl refl (inl refl)

-- Without a link to the parent.
abbrev orphan : Processes
orphan = record processes { parent = λ t. none }

sys_exit-orphans_example :
    (q : Processes) × (sys_exit 5 orphan ≡ Outcome.done 5 q)
    × ((q.kernel.tasks 2).state ≡ zombie)
    × ((q.kernel.tasks 2).exit_code ≡ 5)
    × (linked 2 q.kernel.runqueue ≡ false)
    × (q.freed ≡ files_at 109 ∷ mm_at 108 ∷ [])
    × (q.children ≡ orphan.children)
    × ((t : TaskId)
        → linked t (3 ∷ []) ≡ true
        → q.parent t ≡ find_task_by_pid orphan.kernel (pos 1) orphan.kernel.task_list)
unfolding linked
sys_exit-orphans_example = sys_exit-orphans 5 orphan refl (refl, tt)

wait_pass-reaps_example :
    (q : Processes) × (wait_pass (negsuc 0) false processes ≡ Waited.reaped 3 512 q)
    × (q.children 2 ≡ [])
    × (q.kernel.task_list ≡ list_del 3 (0 ∷ 1 ∷ 2 ∷ 3 ∷ []))
    × (q.freed ≡ give_back (processes.owned 3) 3)
    × (q.kernel.tasks ≡ processes.kernel.tasks)
    × (q.kernel.runqueue ≡ processes.kernel.runqueue)
unfolding linked
wait_pass-reaps_example = wait_pass-reaps processes (negsuc 0) false [] 3 [] refl tt refl refl
