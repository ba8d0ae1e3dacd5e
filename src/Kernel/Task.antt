-- ===== src/Kernel/Task.antt =====
-- kernel/process.h: `struct task_struct`, its states and signals. A task is known by a number in
-- place of its address; 0 is `kernel_task`.
use ore_unix.Common.{ℕ, List, Option, Bool, ◌==◌, if◌then◌else◌}

pub data State : Type 0 where
  running sleeping stopped zombie dead : State

-- SIG_DFL, SIG_IGN or the address of a user handler.
pub data Handler : Type 0 where
  sig_dfl : Handler
  sig_ign : Handler
  user : ℕ → Handler

-- `struct signal_struct`: `pending` is the list of the 64 bits, the lowest first.
pub record Signal : Type 0 where
  pub pending : List Bool
  pub actions : List Handler

-- The fields that scheduling and signals use.
pub record Task : Type 0 where
  pub pid : ℕ
  pub ppid : ℕ
  pub pgid : ℕ
  pub sid : ℕ
  pub state : State
  pub exit_code : ℕ
  pub signal : Option Signal
  pub time_slice : ℕ
  pub runtime_ns : ℕ

abbrev pub TaskId : Type 0
TaskId = ℕ

-- The static variables of kernel/process.c.
pub record Kernel : Type 0 where
  pub tasks : TaskId → Task
  pub task_list : List TaskId
  pub runqueue : List TaskId
  pub current : TaskId
  pub next_pid : ℕ

-- A write to one task.
abbrev pub update : (TaskId → Task) → TaskId → Task → TaskId → Task
update tasks t v u = if u == t then v else tasks u

abbrev pub set_task : Kernel → TaskId → Task → Kernel
set_task k t v = record k { tasks = update k.tasks t v }

abbrev pub set_state : Kernel → TaskId → State → Kernel
set_state k t s = set_task k t (record (k.tasks t) { state = s })
