-- ===== src/Kernel/Signal/Kill.antt =====
-- kernel/process.c, `sys_kill` and its encounter with `wake_up`.
use ore_unix.Common.Queue.{linked, linked-append, list_add_tail}
use ore_unix.Common.{
  ℕ, ◌<◌, true, false, some, none, ◌≡◌, ◌≢◌, refl, ap, ◌∙◌, List, [], ◌∷◌, ◌++◌, arith, ◌==◌, set,
  length, get_elem?, get_elem?-set_self, get_elem?-set_ne, if◌then◌else◌,
}
use ore_unix.Common.Int.{ℤ}
use ore_unix.Kernel.Sched.Wait.{IsValid, sched_add-fresh}
use ore_unix.Kernel.Sched.{sched_add, wake_up, wake_up_process}
use ore_unix.Kernel.Signal.{
  done, find_task_by_pid, is_bad_signal, is_sleeping, signal_number, sys_kill, finish,
}
use ore_unix.Kernel.Task.{Kernel, TaskId, Signal, running, set_state, set_task}

-- The kernel with the signal marked as pending for the task.
unfoldable pub marked : Kernel → TaskId → Signal → ℕ → Kernel
marked k t s sig =
    set_task k t
      (record (k.tasks t) { signal = some (record s { pending = set s.pending sig true }) })

pub sys_kill-posts :
    (k : Kernel) (pid sig : ℤ) (t : TaskId) (s : Signal)
    → is_bad_signal sig ≡ false
    → find_task_by_pid k pid k.task_list ≡ some t
    → (k.tasks t).signal ≡ some s
    → sys_kill k pid sig ≡ (
        if is_sleeping (k.tasks t).state
        then finish (wake_up_process (marked k t s (signal_number sig)) t)
        else done (marked k t s (signal_number sig)))
unfolding sys_kill marked
sys_kill-posts k pid sig t s ok found some_s = rw (sys_kill, ok, found, some_s) refl

-- `sys_kill` of a good signal for a task that is found, has signals and does not sleep sets that
-- bit of its pending signals and no other, and keeps its handlers and its state and the run queue.
pub sys_kill-marks :
    (k : Kernel) (pid sig : ℤ) (t : TaskId) (s : Signal)
    → is_bad_signal sig ≡ false
    → find_task_by_pid k pid k.task_list ≡ some t
    → (k.tasks t).signal ≡ some s
    → is_sleeping (k.tasks t).state ≡ false
    → signal_number sig < length s.pending
    → (k' : Kernel) × (s' : Signal) × (sys_kill k pid sig ≡ done k')
      × ((k'.tasks t).signal ≡ some s')
      × (get_elem? s'.pending (signal_number sig) ≡ some true)
      × ((i : ℕ) → signal_number sig ≢ i → get_elem? s'.pending i ≡ get_elem? s.pending i)
      × (s'.actions ≡ s.actions)
      × ((k'.tasks t).state ≡ (k.tasks t).state)
      × (k'.runqueue ≡ k.runqueue)
unfolding marked
sys_kill-marks k pid sig t s ok found some_s awake small =
    let n = signal_number sig in
    let same : (t == t) ≡ true = ground arith in
    (
      marked k t s n,
      record s { pending = set s.pending n true },
      sys_kill-posts k pid sig t s ok found some_s ∙ rw awake refl,
      rw same refl,
      get_elem?-set_self s.pending n true small,
      λ i ne. get_elem?-set_ne s.pending true ne,
      refl,
      rw same refl,
      refl,
    )

-- The kernel in which `sys_kill` has woken the task.
roused : Kernel → TaskId → Signal → ℕ → Kernel
roused k t s sig =
    let k' = set_state (marked k t s sig) t running in
    record (set_state k' t running) { runqueue = k.runqueue ++ (t ∷ []) }

wake_up_process-roused :
    (k : Kernel) (t : TaskId) (s : Signal) (sig : ℕ)
    → linked t k.runqueue ≡ false
    → wake_up_process (marked k t s sig) t ≡ some (roused k t s sig)
unfolding wake_up_process roused marked
wake_up_process-roused k t s sig e = sched_add-fresh (set_state (marked k t s sig) t running) t e

wake_up-linked :
    (k : Kernel) (t : TaskId) (us : List TaskId)
    → linked t k.runqueue ≡ true
    → wake_up k (t ∷ us) ≡ none
unfolding wake_up sched_add list_add_tail
wake_up-linked k t us e = rw (wake_up, sched_add, list_add_tail, e) refl

pub linked-end : (t : TaskId) (us : List TaskId) → linked t (us ++ (t ∷ [])) ≡ true
unfolding linked
linked-end t us = ground (arith, linked-append t us (t ∷ []))

-- A good signal for the task that has waited longest on a queue puts that task at the
-- end of the run queue and leaves it in the wait queue; the next `wake_up` of that queue then
-- links the task into the run queue a second time.
pub sys_kill-wakes_twice :
    (k : Kernel) (pid sig : ℤ) (t : TaskId) (us : List TaskId) (s : Signal)
    → is_bad_signal sig ≡ false
    → find_task_by_pid k pid k.task_list ≡ some t
    → (k.tasks t).signal ≡ some s
    → IsValid k (t ∷ us)
    → (k' : Kernel) × (sys_kill k pid sig ≡ done k')
      × (k'.runqueue ≡ k.runqueue ++ (t ∷ []))
      × (wake_up k' (t ∷ us) ≡ none)
unfolding roused
sys_kill-wakes_twice k pid sig t us s ok found some_s v =
    let n = signal_number sig in
    let asleep : is_sleeping (k.tasks t).state ≡ true = ap is_sleeping v.asleep.0.0 in
    (
      roused k t s n,
      sys_kill-posts k pid sig t s ok found some_s
          ∙ rw (asleep, wake_up_process-roused k t s n v.asleep.0.1) refl,
      refl,
      wake_up-linked (roused k t s n) t us (linked-end t k.runqueue),
    )
