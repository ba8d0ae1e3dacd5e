-- ===== src/Kernel/Process/Fork.antt =====
-- kernel/process.c, `sys_fork`.
use ore_unix.Common.Errno.{enomem}
use ore_unix.Common.Queue.{linked, list_add_tail}
use ore_unix.Common.{
  ℕ, true, false, some, none, Option, ◌≡◌, ◌≢◌, refl, sym, ◌∙◌, [], ◌∷◌, ◌++◌, arith, ◌==◌,
}
use ore_unix.Kernel.Pid.{alloc_pid}
use ore_unix.Kernel.Process.{
  Found, Owned, Processes, Outcome, complete, files_at, fork_child, fork_owned, link_child, outcome,
  signal_at, stack_at, start_child, sys_fork, task_at, update_at, with_child,
}
use ore_unix.Kernel.Sched.Wait.{sched_add-fresh}
use ore_unix.Kernel.Task.{TaskId, Signal, running, set_state, Task}

-- The child that a successful fork leaves.
pub record Forked (p q : Processes) (c : TaskId) (o : Owned) : Type 0 where
  pub identity : (q.kernel.tasks c).pid ≡ p.kernel.next_pid
  pub parent_pid : (q.kernel.tasks c).ppid ≡ (p.kernel.tasks p.kernel.current).pid
  pub ready : (q.kernel.tasks c).state ≡ running
  pub same_handlers : (q.kernel.tasks c).signal ≡ (p.kernel.tasks p.kernel.current).signal
  pub parent_link : q.parent c ≡ some p.kernel.current
  pub listed : q.kernel.task_list ≡ p.kernel.task_list ++ (c ∷ [])
  pub queued : q.kernel.runqueue ≡ p.kernel.runqueue ++ (c ∷ [])
  pub sibling : q.children p.kernel.current ≡ p.children p.kernel.current ++ (c ∷ [])
  pub childless : q.children c ≡ []
  pub holds : q.owned c ≡ o
  pub others : (t : TaskId) → t ≢ c → q.kernel.tasks t ≡ p.kernel.tasks t
  pub others_own : (t : TaskId) → t ≢ c → q.owned t ≡ p.owned t
  pub still_current : q.kernel.current ≡ p.kernel.current
  pub none_freed : q.freed ≡ p.freed

eq_self : (t : ℕ) → (t == t) ≡ true
eq_self t = ground arith

eq_ne : (t u : ℕ) → t ≢ u → (t == u) ≡ false
eq_ne t u ne = ground (arith, ne)

-- `link_child` of a task that is in neither list.
linked_to : Processes → TaskId → Processes
linked_to p c = record p {
  kernel = record (p.kernel) { task_list = p.kernel.task_list ++ (c ∷ []) };
  children = update_at p.children p.kernel.current (p.children p.kernel.current ++ (c ∷ []));
}

link_child-fresh :
    (p : Processes) (c : TaskId)
    → linked c p.kernel.task_list ≡ false
    → linked c (p.children p.kernel.current) ≡ false
    → link_child p c ≡ some (linked_to p c)
unfolding link_child list_add_tail linked_to
link_child-fresh p c a b = rw (link_child, list_add_tail, a, b) refl

start_child-fresh :
    (p : Processes) (c : TaskId)
    → linked c p.kernel.task_list ≡ false
    → linked c (p.children p.kernel.current) ≡ false
    → linked c p.kernel.runqueue ≡ false
    → start_child p c
      ≡ some (
          let q = linked_to p c in
          record q {
            kernel = record (set_state q.kernel c running) {
              runqueue = p.kernel.runqueue ++ (c ∷ []);
            };
          })
unfolding linked_to
start_child-fresh p c a b r =
    let e = link_child-fresh p c a b in
    let k = (linked_to p c).kernel in rw (e, sched_add-fresh k c r) refl

-- The child, and the tables with it before it is linked.
child_of : Processes → Task
child_of p =
    let parent = p.kernel.tasks p.kernel.current in
    record parent { pid = p.kernel.next_pid; ppid = parent.pid; state = running }

prepared : Processes → TaskId → Owned → Processes
unfolding alloc_pid child_of
prepared p c o = with_child (record p { kernel = (alloc_pid p.kernel).1 }) c (child_of p) o

abbrev pub own : ℕ → ℕ → ℕ → ℕ → Owned
own mm files signal stack = record {
  mm = some mm;
  files = some files;
  signal = some signal;
  stack = some stack;
}

-- Memory found for everything.
abbrev pub found : TaskId → Owned → Found
found c o = record { task = some c; mm = o.mm; files = o.files; signal = o.signal; stack = o.stack }

module _ (p : Processes) (c mm files signal stack : ℕ) (s : Signal)
    (handlers : (p.kernel.tasks p.kernel.current).signal ≡ some s) where
  fork_owned-complete :
      (o : Owned) (h : Option Signal)
      → h ≡ some s
      → fork_owned (found c (own mm files signal stack)) o h ≡ complete (own mm files signal stack)
  unfolding fork_owned
  fork_owned-complete o h e = rw (fork_owned, e) refl

  sys_fork-prepared :
      sys_fork (found c (own mm files signal stack)) p
      ≡ outcome p.kernel.next_pid (start_child (prepared p c (own mm files signal stack)) c)
  unfolding sys_fork alloc_pid prepared child_of
  sys_fork-prepared =
      let all =
        fork_owned-complete (p.owned p.kernel.current) ((p.kernel.tasks p.kernel.current).signal)
          handlers in
      rw (sys_fork, fork_child, all) refl

  module _ (other : p.kernel.current ≢ c) (unlisted : linked c p.kernel.task_list ≡ false)
      (unqueued : linked c p.kernel.runqueue ≡ false)
      (no_sibling : linked c (p.children p.kernel.current) ≡ false) where
    -- If memory is found for a child at a new address and the current task has signal handlers,
    -- `sys_fork` returns the next pid, and the child, with this pid, the current task's handlers
    -- and its own memory, is linked behind the other tasks, children and runnable tasks; the other
    -- tasks are as they were and nothing is given back.
    pub sys_fork-Forked :
        (q : Processes) × (sys_fork (found c (own mm files signal stack)) p
          ≡ Outcome.done p.kernel.next_pid q)
        × Forked p q c (own mm files signal stack)
    unfolding prepared alloc_pid child_of linked_to
    sys_fork-Forked =
        let r = prepared p c (own mm files signal stack) in
        let apart = eq_ne p.kernel.current c other in
        let same = eq_self c in
        let same_current = eq_self p.kernel.current in
        let sib : linked c (r.children r.kernel.current) ≡ false = rw apart no_sibling in
        let e = start_child-fresh r c unlisted sib unqueued in
        (
          record (linked_to r c) {
            kernel = record (set_state ((linked_to r c).kernel) c running) {
              runqueue = p.kernel.runqueue ++ (c ∷ []);
            };
          },
          sys_fork-prepared ∙ rw e refl,
          record {
            identity = rw same refl;
            parent_pid = rw same refl;
            ready = rw same refl;
            same_handlers = rw same refl;
            parent_link = rw same refl;
            listed = refl;
            queued = refl;
            sibling = rw (same_current, apart) refl;
            childless = rw (eq_ne c p.kernel.current (λ x. other (sym x)), same) refl;
            holds = rw same refl;
            others = λ t ne. rw (eq_ne t c ne) refl;
            others_own = λ t ne. rw (eq_ne t c ne) refl;
            still_current = refl;
            none_freed = refl;
          },
        )

-- If `mm_clone` finds no memory, `sys_fork` returns -ENOMEM with the run queue and the tasks as
-- they were, but it has given back the files, the signals and the kernel stack of the current task,
-- whose addresses the child was made with, beside the child.
pub sys_fork-frees_parent :
    (f : Found) (p : Processes) (c files signal stack : ℕ)
    → f.task ≡ some c
    → f.mm ≡ none
    → (p.owned p.kernel.current).files ≡ some files
    → (p.owned p.kernel.current).signal ≡ some signal
    → (p.owned p.kernel.current).stack ≡ some stack
    → (q : Processes) × (sys_fork f p ≡ Outcome.fails enomem q)
      × (q.freed ≡ p.freed ++ (files_at files ∷ signal_at signal ∷ stack_at stack ∷ task_at c ∷ []))
      × (q.owned ≡ p.owned)
      × (q.kernel.tasks ≡ p.kernel.tasks)
      × (q.kernel.runqueue ≡ p.kernel.runqueue)
unfolding sys_fork fork_owned alloc_pid
sys_fork-frees_parent f p c files signal stack found no_mm a b d = (
  record p {
    kernel = (alloc_pid p.kernel).1;
    freed = p.freed ++ (files_at files ∷ signal_at signal ∷ stack_at stack ∷ task_at c ∷ []);
  },
  rw (sys_fork, found, fork_owned, no_mm, a, b, d) refl,
  refl,
  refl,
  refl,
  refl,
)
