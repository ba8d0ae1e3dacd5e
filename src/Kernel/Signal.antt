-- ===== src/Kernel/Signal.antt =====
-- kernel/process.c: task lookup, `sys_kill`, `sys_sigaction` and `signal_deliver`. Of a
-- `struct sigaction` only the handler is modelled.
pub mod Kill
pub mod Deliver
pub mod Handlers
use ore_unix.Common.{
  ℕ, zero, suc, ◌+◌, ◌-◌, Bool, true, false, ◌||◌, Option, none, some, List, [], ◌∷◌, map, leb,
  ◌==◌, if◌then◌else◌, set, get_or,
}
use ore_unix.Common.Errno.{Errno, esrch, einval}
use ore_unix.Common.Int.{ℤ, pos, negsuc}
use ore_unix.Kernel.Sched.{wake_up_process}
use ore_unix.Kernel.Task.{
  Kernel, Task, TaskId, Signal, Handler, sig_dfl, sig_ign, user, State, running, sleeping, stopped,
  zombie, dead, set_task, update,
}

-- The first task of `task_list` with the pid.
unfoldable pub find_task_by_pid : Kernel → ℤ → List TaskId → Option TaskId
find_task_by_pid k pid [] = none
find_task_by_pid k (pos n) (t ∷ ts) =
    let rest = find_task_by_pid k (pos n) ts in if (k.tasks t).pid == n then some t else rest
find_task_by_pid k (negsuc n) (t ∷ ts) = find_task_by_pid k (negsuc n) ts

abbrev pub max_signals : ℕ
max_signals = 64

-- `sig <= 0 || sig >= MAX_SIGNALS`
abbrev pub is_bad_signal : ℤ → Bool
is_bad_signal (pos n) = n == 0 || leb max_signals n
is_bad_signal (negsuc n) = true

abbrev pub signal_number : ℤ → ℕ
signal_number (pos n) = n
signal_number (negsuc n) = 0

-- A call ends with a result, or by reading through a null `signal` pointer, or by linking a task
-- into the run queue twice.
pub data CallResult : Type 0 where
  done : Kernel → CallResult
  fails : Errno → Kernel → CallResult
  null_signal : CallResult
  corrupt : CallResult

abbrev pub is_sleeping : State → Bool
is_sleeping running = false
is_sleeping sleeping = true
is_sleeping stopped = false
is_sleeping zombie = false
is_sleeping dead = false

abbrev pub finish : Option Kernel → CallResult
finish none = corrupt
finish (some k) = done k

-- `sys_kill` from the lookup on.
abbrev pub post_signal : Kernel → TaskId → ℕ → Option Signal → CallResult
post_signal k t sig none = null_signal
post_signal k t sig (some s) =
    let marked = record s { pending = set s.pending sig true } in
    let k' = set_task k t (record (k.tasks t) { signal = some marked }) in
    if is_sleeping (k.tasks t).state then finish (wake_up_process k' t) else done k'

unfoldable pub sys_kill : Kernel → ℤ → ℤ → CallResult
sys_kill k pid sig =
    if is_bad_signal sig then fails einval k else elim (find_task_by_pid k pid k.task_list) [
      | none ↦ fails esrch k
      | some t ↦ post_signal k t (signal_number sig) (k.tasks t).signal
    ]

-- `sys_sigaction` with a null or a given `act`; the value is what it writes to a given `old`.
abbrev pub change_action : Kernel → ℕ → Option Handler → Option Signal → CallResult × Handler
change_action k sig act none = (null_signal, sig_dfl)
change_action k sig none (some s) = (done k, get_or s.actions sig sig_dfl)
change_action k sig (some h) (some s) =
    let changed = record s { actions = set s.actions sig h } in
    let k' = set_task k k.current (record (k.tasks k.current) { signal = some changed }) in
    (done k', get_or s.actions sig sig_dfl)

unfoldable pub sys_sigaction : Kernel → ℤ → Option Handler → CallResult × Handler
sys_sigaction k sig act =
    let n = signal_number sig in
    if is_bad_signal sig || (n == 9 || n == 19)
    then (fails einval k, sig_dfl)
    else change_action k n act (k.tasks k.current).signal

-- What `signal_deliver` does for one signal: `sys_exit` with the status, which does not return,
-- stopping the task, nothing, or the call of a user handler.
pub data Action : Type 0 where
  exits : ℕ → Action
  stops : Action
  ignores : Action
  calls : ℕ → ℕ → Action

-- The signals that SIG_DFL ends the task with. The source also names SIGBUS, which no header
-- defines.
abbrev pub is_fatal : ℕ → Bool
is_fatal sig =
    sig == 9
    || sig == 11
    || sig == 8
    || sig == 4
    || sig == 6
    || sig == 15
    || sig == 1
    || sig == 2
    || sig == 13
    || sig == 14
    || sig == 10
    || sig == 12

unfoldable pub action_of : ℕ → Handler → Action
action_of sig sig_ign = ignores
action_of sig sig_dfl =
    if is_fatal sig then exits (128 + sig) else (if sig == 19 || sig == 20 then stops else ignores)
action_of sig (user h) = calls h sig

-- `pending` is not zero.
abbrev pub is_pending : List Bool → Bool
is_pending [] = false
is_pending (b ∷ bs) = b || is_pending bs

abbrev pub then_unless_exit : Action → List Action → List Action
then_unless_exit (exits code) later = exits code ∷ []
then_unless_exit stops later = stops ∷ later
then_unless_exit ignores later = ignores ∷ later
then_unless_exit (calls h sig) later = calls h sig ∷ later

-- The loop over `n` signals from `sig` on, as the actions it takes.
unfoldable pub deliver_from : ℕ → ℕ → List Bool → List Handler → List Action
deliver_from zero sig pending actions = []
deliver_from (suc n) sig pending actions =
    let skipped = deliver_from n (suc sig) pending actions in
    let later = deliver_from n (suc sig) (set pending sig false) actions in
    if is_pending pending
    then if get_or pending sig false
      then then_unless_exit (action_of sig (get_or actions sig sig_dfl)) later
      else skipped
    else []

-- The actions and the signals after it: none is pending.
unfoldable pub signal_deliver : Signal → List Action × Signal
signal_deliver s = (
  deliver_from (max_signals - 1) 1 s.pending s.actions,
  record s { pending = map (λ b. false) s.pending },
)
