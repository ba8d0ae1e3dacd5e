-- ===== src/Kernel/Tests.antt =====
-- Tests of the kernel's scheduler, wait queues, signals and pids on small examples.
use ore_unix.Common.{
  true, false, ◌≡◌, refl, ◌∷◌, [], List, ◌==◌, if◌then◌else◌, replicate, set, All, some, none,
}
use ore_unix.Common.Int.{pos}
use ore_unix.Common.Queue.{linked, list_del, IsOnce}
use ore_unix.Kernel.Sched.RoundRobin.{turns, schedule-round}
use ore_unix.Kernel.Sched.Sleep.{sleep_on-last, sleep_on-again}
use ore_unix.Kernel.Sched.Wait.{IsAsleep, IsValid, wake_up_all-order}
use ore_unix.Kernel.Sched.{sleep_on, wake_up, wake_up_all}
use ore_unix.Kernel.Signal.Deliver.{actions_for, pending_from, signal_deliver-actions}
use ore_unix.Kernel.Signal.Kill.{sys_kill-wakes_twice}
use ore_unix.Kernel.Signal.{
  calls, done, exits, find_task_by_pid, is_pending, signal_deliver, sys_kill, action_of,
  deliver_from,
}
use ore_unix.Kernel.Task.{Kernel, Task, TaskId, Signal, running, sleeping, Handler, sig_dfl, user}

abbrev handlers : List Handler
handlers = replicate 64 sig_dfl

-- SIGUSR1 is pending, with a user handler, and SIGTERM and SIGCHLD.
abbrev signals : Signal
signals = record {
  pending = set (set (set (replicate 64 false) 10 true) 15 true) 17 true;
  actions = set handlers 10 (user 4096);
}

abbrev quiet : Signal
quiet = record { pending = replicate 64 false; actions = handlers }

-- Tasks 3 and 4 sleep, the others run.
abbrev task : TaskId → Task
task t = record {
  pid = t;
  ppid = 1;
  pgid = t;
  sid = 1;
  state = if t == 3 then sleeping else if t == 4 then sleeping else running;
  exit_code = 0;
  signal = some quiet;
  time_slice = 20;
  runtime_ns = 0;
}

abbrev kernel : Kernel
kernel = record {
  tasks = task;
  task_list = 0 ∷ 1 ∷ 2 ∷ 3 ∷ 4 ∷ [];
  runqueue = 1 ∷ 2 ∷ [];
  current = 1;
  next_pid = 32766;
}

-- Only task 1 can run.
abbrev lonely : Kernel
lonely = record kernel { runqueue = 1 ∷ [] }

deliver-actions : (signal_deliver signals).0 ≡ calls 4096 10 ∷ exits 143 ∷ []
unfolding signal_deliver deliver_from action_of
deliver-actions = refl

schedule-round_example :
    ((turns 2 kernel).0 ≡ 1 ∷ 2 ∷ []) × ((turns 2 kernel).1.runqueue ≡ 1 ∷ 2 ∷ [])
schedule-round_example = schedule-round kernel

waiting-IsValid : IsValid kernel (3 ∷ 4 ∷ [])
unfolding linked
waiting-IsValid = record {
  runs_once = (refl, (refl, tt));
  waits_once = (refl, (refl, tt));
  asleep = ((refl, refl), ((refl, refl), tt));
}

wake_up_all-order_example :
    (k' : Kernel) × (wake_up_all kernel (3 ∷ 4 ∷ []) ≡ some (k', []))
    × (k'.runqueue ≡ 1 ∷ 2 ∷ 3 ∷ 4 ∷ [])
    × IsOnce k'.runqueue
    × All (λ t. (k'.tasks t).state ≡ running) (3 ∷ 4 ∷ [])
    × ((u : TaskId) → (kernel.tasks u).state ≡ running → (k'.tasks u).state ≡ running)
wake_up_all-order_example = wake_up_all-order (3 ∷ 4 ∷ []) kernel waiting-IsValid

sleep_on-last_example :
    (k' : Kernel) × (sleep_on kernel (3 ∷ 4 ∷ []) ≡ some (k', 3 ∷ 4 ∷ 1 ∷ []))
    × IsAsleep k' 1
    × IsValid k' (3 ∷ 4 ∷ 1 ∷ [])
unfolding linked
sleep_on-last_example = sleep_on-last kernel (3 ∷ 4 ∷ []) waiting-IsValid refl

sleep_on-again_example :
    (k' : Kernel) × (sleep_on lonely (3 ∷ []) ≡ some (k', 3 ∷ 1 ∷ []))
    × (k'.current ≡ 1)
    × (sleep_on k' (3 ∷ 1 ∷ []) ≡ none)
unfolding linked list_del
sleep_on-again_example = sleep_on-again lonely (3 ∷ []) refl refl

signal_deliver-actions_example :
    ((signal_deliver signals).0 ≡ actions_for signals.actions (pending_from 63 1 signals.pending))
    × (is_pending (signal_deliver signals).1.pending ≡ false)
    × ((signal_deliver signals).1.actions ≡ signals.actions)
signal_deliver-actions_example = signal_deliver-actions signals

sys_kill-wakes_twice_example :
    (k' : Kernel) × (sys_kill kernel (pos 3) (pos 15) ≡ done k')
    × (k'.runqueue ≡ 1 ∷ 2 ∷ 3 ∷ [])
    × (wake_up k' (3 ∷ 4 ∷ []) ≡ none)
unfolding find_task_by_pid
sys_kill-wakes_twice_example =
    sys_kill-wakes_twice kernel (pos 3) (pos 15) 3 (4 ∷ []) quiet refl refl refl waiting-IsValid
