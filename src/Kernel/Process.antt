-- ===== src/Kernel/Process.antt =====
-- kernel/process.c: the life of a task, from `task_create` and `sys_fork` over `sys_exit` to
-- `sys_waitpid` and `task_destroy`. What the allocators return is an argument. The registers and
-- the kernel stack's contents, the name, and the references to the directories `cwd` and `root` are
-- not followed. `list_add_tail` of a linked node is the outcome `corrupt` (see Common/Queue).
pub mod Fork
pub mod Exit
pub mod Reap
mod Tests
use ore_unix.Common.Errno.{Errno, enomem}
use ore_unix.Common.Int.{ℤ, pos, negsuc}
use ore_unix.Common.Queue.{list_add_tail, list_del}
use ore_unix.Common.{
  ℕ, ◌*◌, ◌%◌, Bool, true, false, not, ◌||◌, ◌&&◌, Option, none, some, List, [], ◌∷◌, ◌++◌, ◌==◌,
  if◌then◌else◌,
}
use ore_unix.Kernel.Pid.{alloc_pid}
use ore_unix.Kernel.Sched.{sched_add, sched_remove, schedule, wake_up_process, ◌>>=◌}
use ore_unix.Kernel.Signal.{CallResult, find_task_by_pid, sys_kill}
use ore_unix.Kernel.Task.{
  Kernel, Task, TaskId, Signal, State, running, sleeping, stopped, zombie, dead, set_task, update,
}

-- The addresses that a task holds; `none` is a null pointer.
pub record Owned : Type 0 where
  pub mm : Option ℕ
  pub files : Option ℕ
  pub signal : Option ℕ
  pub stack : Option ℕ

-- What has been given back.
pub data Resource : Type 0 where
  mm_at files_at signal_at stack_at task_at : ℕ → Resource

-- The tasks with their `parent`, `children` (linked by `sibling`) and addresses.
pub record Processes : Type 0 where
  pub kernel : Kernel
  pub parent : TaskId → Option TaskId
  pub children : TaskId → List TaskId
  pub owned : TaskId → Owned
  pub freed : List Resource

-- What `kmem_cache_alloc`, `mm_clone` or `mm_create`, `files_clone` or `files_create`,
-- `signal_create` and `alloc_kstack` return.
pub record Found : Type 0 where
  pub task : Option TaskId
  pub mm : Option ℕ
  pub files : Option ℕ
  pub signal : Option ℕ
  pub stack : Option ℕ

-- A call returns a number or an error, reads through a null `signal`, or corrupts a list.
pub data Outcome : Type 0 where
  done : ℕ → Processes → Outcome
  fails : Errno → Processes → Outcome
  null_signal : Outcome
  corrupt : Outcome

abbrev pub update_at {ℓ} : {A : Type ℓ} → (TaskId → A) → TaskId → A → TaskId → A
update_at f t v u = if u == t then v else f u

abbrev pub resource : (ℕ → Resource) → Option ℕ → List Resource
resource kind none = []
resource kind (some a) = kind a ∷ []

-- The label `err` of `sys_fork`.
abbrev pub give_back : Owned → TaskId → List Resource
give_back o t =
    resource mm_at o.mm
    ++ (resource files_at o.files
        ++ (resource signal_at o.signal ++ (resource stack_at o.stack ++ (task_at t ∷ []))))

-- The child's addresses once all are found, or those that the label `err` sees; `null` is the read
-- through the parent's null `signal`.
pub data Copied : Type 0 where
  complete missing : Owned → Copied
  null : Copied

-- The addresses begin as a copy of the parent's.
unfoldable pub fork_owned : Found → Owned → Option Signal → Copied
fork_owned f o handlers =
    let o1 = record o { mm = f.mm } in
    let o2 = record o1 { files = f.files } in
    let o3 = record o2 { signal = f.signal } in
    let o4 = record o3 { stack = f.stack } in
    elim f.mm [
      | none ↦ missing o1
      | some m ↦ elim f.files [
        | none ↦ missing o2
        | some s ↦ elim f.signal [
          | none ↦ missing o3
          | some g ↦ elim handlers [
            | none ↦ null
            | some h ↦ elim f.stack [ none ↦ missing o4 | some t ↦ complete o4 ]
          ]
        ]
      ]
    ]

abbrev pub outcome : ℕ → Option Processes → Outcome
outcome n none = corrupt
outcome n (some p) = done n p

-- The task enters the task list and the children of the current task.
unfoldable pub link_child : Processes → TaskId → Option Processes
link_child p c = do
  let cur = p.kernel.current
  all ← list_add_tail c p.kernel.task_list
  siblings ← list_add_tail c (p.children cur)
  some (record p {
    kernel = record (p.kernel) { task_list = all };
    children = update_at p.children cur siblings;
  })

-- The child in the tables, before it is linked.
abbrev pub with_child : Processes → TaskId → Task → Owned → Processes
with_child p c t o = record p {
  kernel = set_task p.kernel c t;
  parent = update_at p.parent c (some p.kernel.current);
  children = update_at p.children c [];
  owned = update_at p.owned c o;
}

abbrev pub start_child : Processes → TaskId → Option Processes
start_child p c = do
  q ← link_child p c
  ready ← sched_add q.kernel c
  some (record q { kernel = ready })

-- `sys_fork` from the allocation of the child on.
unfoldable pub fork_child : Found → Processes → TaskId → Outcome
fork_child f p c =
    let (pid, k) = alloc_pid p.kernel in
    let p' = record p { kernel = k } in
    let parent = k.tasks k.current in
    let child = record parent { pid = pid; ppid = parent.pid; state = running } in
    elim (fork_owned f (p.owned k.current) parent.signal) [
      | complete o ↦ outcome pid (start_child (with_child p' c child o) c)
      | missing o ↦ fails enomem (record p' { freed = p.freed ++ give_back o c })
      | null ↦ null_signal
    ]

unfoldable pub sys_fork : Found → Processes → Outcome
unfolding fork_child
sys_fork f p = elim f.task [ none ↦ fails enomem p | some c ↦ fork_child f p c ]

-- `task_create`; `handlers` is the content of a new `signal_struct`. A kernel thread has no address
-- space, and the allocations of `signal` and `files` are not tested. Unlike `sys_fork` it does not
-- enter the task in the run queue.
abbrev pub new_task : ℕ → Task → Option Signal → Task
new_task pid parent handlers = record {
  pid = pid;
  ppid = parent.pid;
  pgid = parent.pgid;
  sid = parent.sid;
  state = running;
  exit_code = 0;
  signal = handlers;
  time_slice = 20;
  runtime_ns = 0;
}

abbrev pub is_missing : Option ℕ → Bool
is_missing none = true
is_missing (some a) = false

abbrev pub when_found : Option ℕ → Signal → Option Signal
when_found none s = none
when_found (some a) s = some s

-- The label `err` of `task_create`.
abbrev pub undo_create : Option ℕ → Option ℕ → TaskId → List Resource
undo_create mm signal t = resource mm_at mm ++ (resource signal_at signal ++ (task_at t ∷ []))

unfoldable pub create_at : Found → Bool → Signal → Processes → TaskId → Outcome
unfolding link_child
create_at f kthread blank p c =
    let (pid, k) = alloc_pid p.kernel in
    let p' = record p { kernel = k } in
    let mm = if kthread then none else f.mm in
    let task = new_task pid (k.tasks k.current) (when_found f.signal blank) in
    let o : Owned = record { mm = mm; files = f.files; signal = f.signal; stack = f.stack } in
    if not kthread && is_missing f.mm || is_missing f.stack
    then fails enomem (record p' { freed = p.freed ++ undo_create mm f.signal c })
    else outcome c (link_child (with_child p' c task o) c)

unfoldable pub task_create : Found → Bool → Signal → Processes → Outcome
unfolding create_at
task_create f kthread blank p = elim f.task [
  | none ↦ fails enomem p
  | some c ↦ create_at f kthread blank p c
]

-- `sys_exit` up to the call of `schedule`, which does not come back. A `u32` is kept of the code.
abbrev pub end_current : ℕ → Processes → Processes
end_current code p =
    let cur = p.kernel.current in
    let o = p.owned cur in
    record p {
      kernel =
          set_task (p.kernel) cur
            (record (p.kernel.tasks cur) { state = zombie; exit_code = code });
      owned = update_at p.owned cur (record o { files = none; mm = none });
      freed = p.freed ++ (resource files_at o.files ++ resource mm_at o.mm);
    }

-- The result of `sys_kill` is not looked at.
abbrev pub after_kill : CallResult → TaskId → Option Kernel
after_kill (CallResult.done k) q = wake_up_process k q
after_kill (CallResult.fails e k) q = wake_up_process k q
after_kill CallResult.null_signal q = none
after_kill CallResult.corrupt q = none

abbrev pub is_null_signal : CallResult → Bool
is_null_signal CallResult.null_signal = true
is_null_signal _ = false

-- The children get the task with pid 1 as their parent. They stay linked where they are.
abbrev pub adopted : Option TaskId → Processes → TaskId → Processes
adopted init p c = record p {
  kernel = set_task p.kernel c (record (p.kernel.tasks c) { ppid = 1 });
  parent = update_at p.parent c init;
}

unfoldable pub reparent : Option TaskId → List TaskId → Processes → Processes
reparent init [] p = p
reparent init (c ∷ cs) p = reparent init cs (adopted init p c)

-- From the search of the init task on.
abbrev pub leave : ℕ → Processes → Outcome
leave code p =
    let cur = p.kernel.current in
    let init = find_task_by_pid (p.kernel) (pos 1) (p.kernel.task_list) in
    let q = reparent init (p.children cur) p in
    done code (record q { kernel = schedule (sched_remove (q.kernel) cur) })

abbrev pub leave_woken : ℕ → Processes → Option Kernel → Outcome
leave_woken code p none = corrupt
leave_woken code p (some k) = leave code (record p { kernel = k })

abbrev pub notify : ℕ → Processes → Option TaskId → Outcome
notify code p none = leave code p
notify code p (some q) =
    let killed = sys_kill (p.kernel) (pos (p.kernel.tasks q).pid) (pos 17) in
    if is_null_signal killed then null_signal else leave_woken code p (after_kill killed q)

unfoldable pub sys_exit : ℕ → Processes → Outcome
sys_exit code p = let q = end_current code p in notify code q (p.parent p.kernel.current)

abbrev pub is_zombie : State → Bool
is_zombie running = false
is_zombie sleeping = false
is_zombie stopped = false
is_zombie zombie = true
is_zombie dead = false

-- `pid == -1 || t->pid == pid`
abbrev pub is_wanted : ℤ → ℕ → Bool
is_wanted (pos n) pid = pid == n
is_wanted (negsuc n) pid = n == 0

-- The first zombie among the children that are wanted.
unfoldable pub find_zombie : Kernel → ℤ → List TaskId → Option TaskId
find_zombie k pid [] = none
find_zombie k pid (t ∷ ts) =
    let rest = find_zombie k pid ts in
    let u = k.tasks t in if is_wanted pid u.pid && is_zombie u.state then some t else rest

-- `task_destroy`: what it gives back. A task that was created has a stack, which is not tested.
abbrev pub task_destroy : Owned → TaskId → List Resource
task_destroy o t = give_back o t

-- One pass of the loop of `sys_waitpid`: the pid and the status of a child, or what follows when
-- there is none.
pub data Waited : Type 0 where
  reaped : ℕ → ℕ → Processes → Waited
  returns_zero : Processes → Waited
  sleeps : Processes → Waited

unfoldable pub reap : Processes → TaskId → Waited
reap p c =
    let t = p.kernel.tasks c in
    let cur = p.kernel.current in
    reaped t.pid (t.exit_code % 256 * 256) (record p {
      kernel = record (p.kernel) { task_list = list_del c (p.kernel.task_list) };
      children = update_at p.children cur (list_del c (p.children cur));
      freed = p.freed ++ task_destroy (p.owned c) c;
    })

unfoldable pub wait_pass : ℤ → Bool → Processes → Waited
unfolding reap find_zombie
wait_pass pid no_hang p = elim (find_zombie p.kernel pid (p.children p.kernel.current)) [
  | none ↦ if no_hang then returns_zero p else sleeps p
  | some c ↦ reap p c
]
