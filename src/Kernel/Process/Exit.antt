-- ===== src/Kernel/Process/Exit.antt =====
-- kernel/process.c, `sys_exit`.
use ore_unix.Common.Int.{ℤ, pos, negsuc}
use ore_unix.Common.Queue.{linked, list_add_tail, list_del-gone, list_del-IsOnce, IsOnce}
use ore_unix.Common.{
  ℕ, true, false, some, none, Bool, Option, ◌≡◌, ◌≢◌, ◌⊎◌, inl, inr, refl, sym, ap, subst, ◌∙◌,
  List, [], ◌∷◌, ◌++◌, arith, ◌==◌, if◌then◌else◌, Bool-cases,
}
use ore_unix.Kernel.Process.{
  Outcome, Processes, adopted, after_kill, corrupt, end_current, files_at, is_null_signal, mm_at,
  notify, reparent, resource, sys_exit,
}
use ore_unix.Kernel.Sched.RoundRobin.{schedule-keeps}
use ore_unix.Kernel.Sched.{sched_add, sched_remove, schedule, wake_up_process}
use ore_unix.Kernel.Sched.Wait.{sched_add-fresh}
use ore_unix.Kernel.Signal.Kill.{linked-end, marked, sys_kill-posts}
use ore_unix.Kernel.Signal.{CallResult, find_task_by_pid, finish, is_sleeping, sys_kill}
use ore_unix.Kernel.Task.{Kernel, Task, TaskId, Signal, running, sleeping, zombie, set_state}

-- The search reads the pids alone.
find-same :
    (k k' : Kernel) (pid : ℤ) (ts : List TaskId)
    → ((t : TaskId) → (k'.tasks t).pid ≡ (k.tasks t).pid)
    → find_task_by_pid k' pid ts ≡ find_task_by_pid k pid ts
unfolding find_task_by_pid
find-same k k' pid [] same = refl
find-same k k' (pos n) (t ∷ ts) same =
    rw (find_task_by_pid, same t, find-same k k' (pos n) ts same) refl
find-same k k' (negsuc n) (t ∷ ts) same = find-same k k' (negsuc n) ts same

wake-linked : (k : Kernel) (t : TaskId) → linked t k.runqueue ≡ true → wake_up_process k t ≡ none
unfolding wake_up_process sched_add list_add_tail
wake-linked k t e = rw (wake_up_process, sched_add, list_add_tail, e) refl

-- A task that `sys_kill` has woken, or could not wake, cannot be woken once more.
wake-twice : (k : Kernel) (t : TaskId) → after_kill (finish (wake_up_process k t)) t ≡ none
unfolding wake_up_process
wake-twice k t = elim (Bool-cases (linked t k.runqueue)) [
  | inl e ↦ rw (wake-linked k t e) refl
  | inr e ↦
      (let k' = set_state k t running in
        let k'' : Kernel = record (set_state k' t running) { runqueue = k.runqueue ++ (t ∷ []) } in
        rw (wake_up_process, sched_add-fresh k' t e) (wake-linked k'' t (linked-end t k.runqueue)))
]

finish-not_null : (o : Option Kernel) → is_null_signal (finish o) ≡ false
finish-not_null none = refl
finish-not_null (some k) = refl

-- What `sys_kill` returns for a parent that can run or sleeps, and the second waking.
posted-corrupts :
    (k : Kernel) (q : TaskId) (b : Bool)
    → ((b ≡ true) ⊎ (linked q k.runqueue ≡ true))
    → (let killed = if b then finish (wake_up_process k q) else CallResult.done k in
        (is_null_signal killed ≡ false) × (after_kill killed q ≡ none))
posted-corrupts k q true h = (finish-not_null (wake_up_process k q), wake-twice k q)
posted-corrupts k q false (inl e) = cc
posted-corrupts k q false (inr e) = (refl, wake-linked k q e)

notify-corrupt :
    (code : ℕ) (p : Processes) (q : TaskId) (killed : CallResult)
    → sys_kill p.kernel (pos (p.kernel.tasks q).pid) (pos 17) ≡ killed
    → is_null_signal killed ≡ false
    → after_kill killed q ≡ none
    → notify code p (some q) ≡ corrupt
notify-corrupt code p q killed e a b = rw (e, a, b) refl

ended-pid :
    (code : ℕ) (p : Processes) (t : TaskId)
    → ((end_current code p).kernel.tasks t).pid ≡ (p.kernel.tasks t).pid
ended-pid code p t = elim (Bool-cases (t == p.kernel.current)) [
  | inl e ↦ rw e (ap (λ u. (p.kernel.tasks u).pid) (ground (arith, e)))
  | inr e ↦ rw e refl
]

-- `sys_exit` of a task whose parent, another task that its pid leads to and that has signals,
-- sleeps or is in the run queue, links the parent into the run queue while it is linked already: it
-- wakes the parent a second time after `sys_kill`, or wakes it though it does not sleep.
pub sys_exit-corrupts :
    (code : ℕ) (p : Processes) (q : TaskId) (s : Signal)
    → p.parent p.kernel.current ≡ some q
    → q ≢ p.kernel.current
    → find_task_by_pid p.kernel (pos (p.kernel.tasks q).pid) p.kernel.task_list ≡ some q
    → (p.kernel.tasks q).signal ≡ some s
    → ((p.kernel.tasks q).state ≡ sleeping) ⊎ (linked q p.kernel.runqueue ≡ true)
    → sys_exit code p ≡ corrupt
unfolding sys_exit marked
sys_exit-corrupts code p q s parent ne found handlers active =
    let k = (end_current code p).kernel in
    let other : (q == p.kernel.current) ≡ false = ground (arith, ne) in
    let same : k.tasks q ≡ p.kernel.tasks q = rw other refl in
    let pids = ended-pid code p in
    let found' : find_task_by_pid k (pos (k.tasks q).pid) k.task_list ≡ some q =
      ap (λ n. find_task_by_pid k (pos n) k.task_list) (pids q)
      ∙ find-same p.kernel k (pos (p.kernel.tasks q).pid) k.task_list pids
      ∙ found in
    let posts =
      sys_kill-posts k (pos (k.tasks q).pid) (pos 17) q s refl found'
        (ap (λ t. t.signal) same ∙ handlers) in
    let awake : (is_sleeping (k.tasks q).state ≡ true) ⊎ (linked q p.kernel.runqueue ≡ true) =
      elim active [
        | inl e ↦ inl (ap (λ t. is_sleeping t.state) same ∙ ap is_sleeping e)
        | inr e ↦ inr e
      ] in
    let m = marked k q s 17 in
    let c = posted-corrupts m q (is_sleeping (k.tasks q).state) awake in
    rw parent (notify-corrupt code (end_current code p) q _ posts c.0 c.1)

adopted-keeps {ℓ} :
    {A : Type ℓ} (f : Task → A) (init : Option TaskId) (p : Processes) (c t : TaskId)
    → ((u : Task) → f (record u { ppid = 1 }) ≡ f u)
    → f ((adopted init p c).kernel.tasks t) ≡ f (p.kernel.tasks t)
adopted-keeps f init p c t same = elim (Bool-cases (t == c)) [
  | inl e ↦ rw e (same (p.kernel.tasks c) ∙ ap (λ u. f (p.kernel.tasks u)) (ground (arith, e)))
  | inr e ↦ rw e refl
]

-- The loop over the children.
record Reparented (init : Option TaskId) (cs : List TaskId) (p q : Processes) : Type 0 where
  children_same : q.children ≡ p.children
  queue_same : q.kernel.runqueue ≡ p.kernel.runqueue
  current_same : q.kernel.current ≡ p.kernel.current
  freed_same : q.freed ≡ p.freed
  state_same : (t : TaskId) → (q.kernel.tasks t).state ≡ (p.kernel.tasks t).state
  code_same : (t : TaskId) → (q.kernel.tasks t).exit_code ≡ (p.kernel.tasks t).exit_code
  parents : (t : TaskId) → q.parent t ≡ (if linked t cs then init else p.parent t)

reparent-Reparented :
    (init : Option TaskId) (cs : List TaskId) (p : Processes)
    → Reparented init cs p (reparent init cs p)
unfolding reparent linked
reparent-Reparented init [] p = record {
  children_same = refl;
  queue_same = refl;
  current_same = refl;
  freed_same = refl;
  state_same = λ t. refl;
  code_same = λ t. refl;
  parents = λ t. refl;
}
reparent-Reparented init (c ∷ cs) p =
    let r = reparent-Reparented init cs (adopted init p c) in
    record {
      children_same = r.children_same;
      queue_same = r.queue_same;
      current_same = r.current_same;
      freed_same = r.freed_same;
      state_same = λ t. r.state_same t ∙ adopted-keeps (λ u. u.state) init p c t (λ u. refl);
      code_same = λ t. r.code_same t ∙ adopted-keeps (λ u. u.exit_code) init p c t (λ u. refl);
      parents = λ t. ground (arith, r.parents t);
    }

schedule-code :
    (k : Kernel) (queue : List TaskId) (t : TaskId)
    → k.runqueue ≡ queue
    → ((schedule k).tasks t).exit_code ≡ (k.tasks t).exit_code
unfolding schedule
schedule-code k [] t e = rw (schedule, e) refl
schedule-code k (next ∷ rest) t e = ground (arith, e)

find-ended :
    (code : ℕ) (p : Processes) (pid : ℤ) (ts : List TaskId)
    → find_task_by_pid (end_current code p).kernel pid ts ≡ find_task_by_pid p.kernel pid ts
find-ended code p pid ts = find-same p.kernel (end_current code p).kernel pid ts (ended-pid code p)

-- `sys_exit` of a task without a parent ends with the task a zombie that keeps the code, off the
-- run queue, its files and its address space given back; its children have the task with pid 1 for
-- parent, if there is one, but no list of children has changed: they stay linked where they were.
pub sys_exit-orphans :
    (code : ℕ) (p : Processes)
    → p.parent p.kernel.current ≡ none
    → IsOnce p.kernel.runqueue
    → (let cur = p.kernel.current in
        (q : Processes) × (sys_exit code p ≡ Outcome.done code q)
        × ((q.kernel.tasks cur).state ≡ zombie)
        × ((q.kernel.tasks cur).exit_code ≡ code)
        × (linked cur q.kernel.runqueue ≡ false)
        × (q.freed
            ≡ p.freed ++ (resource files_at (p.owned cur).files ++ resource mm_at (p.owned cur).mm))
        × (q.children ≡ p.children)
        × ((t : TaskId)
            → linked t (p.children cur) ≡ true
            → q.parent t ≡ find_task_by_pid p.kernel (pos 1) p.kernel.task_list))
unfolding sys_exit sched_remove
sys_exit-orphans code p no_parent once =
    let cur = p.kernel.current in
    let p' = end_current code p in
    let init = find_task_by_pid p'.kernel (pos 1) p.kernel.task_list in
    let q = reparent init (p.children cur) p' in
    let r = reparent-Reparented init (p.children cur) p' in
    let k = sched_remove q.kernel cur in
    let same : (cur == cur) ≡ true = ground arith in
    let once' : IsOnce k.runqueue =
      list_del-IsOnce cur q.kernel.runqueue (subst IsOnce (sym r.queue_same) once) in
    let kept = schedule-keeps k cur once' in
    (
      record q { kernel = schedule k },
      rw no_parent refl,
      kept.0 ∙ r.state_same cur ∙ rw same refl,
      schedule-code k k.runqueue cur refl ∙ r.code_same cur ∙ rw same refl,
      kept.2 ∙ list_del-gone cur q.kernel.runqueue (subst IsOnce (sym r.queue_same) once),
      r.freed_same,
      r.children_same,
      λ t e. r.parents t ∙ rw e (find-ended code p (pos 1) p.kernel.task_list),
    )
