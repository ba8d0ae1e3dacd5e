-- ===== src/Kernel/Sched.antt =====
-- kernel/process.c: the run queue, round-robin scheduling and wait queues. Each function runs with
-- interrupts off under its lock. `none` is a corrupted list (see Common/Queue).
pub mod RoundRobin
pub mod Wait
pub mod Sleep
use ore_unix.Common.Queue.{list_add_tail, list_del, linked}
use ore_unix.Common.{
  ℕ, zero, suc, ◌+◌, ◌-◌, ◌%◌, ◌^◌, Bool, true, false, ◌||◌, ◌&&◌, Option, none, some, List, [],
  ◌∷◌, ◌++◌, ltb, ◌==◌, if◌then◌else◌,
}
use ore_unix.Kernel.Task.{
  Kernel, Task, TaskId, State, running, sleeping, update, set_task, set_state,
}

infixl 5 ◌>>=◌
abbrev pub ◌>>=◌ {ℓ κ} : {A : Type ℓ} {B : Type κ} → Option A → (A → Option B) → Option B
none >>= f = none
some a >>= f = f a

unfoldable pub sched_add : Kernel → TaskId → Option Kernel
sched_add k t = do
  queue ← list_add_tail t k.runqueue
  some (record (set_state k t running) { runqueue = queue })

unfoldable pub sched_remove : Kernel → TaskId → Kernel
sched_remove k t = record k { runqueue = list_del t k.runqueue }

-- `schedule` up to the context switch: the task that runs next is `current`. With an empty run
-- queue it waits for an interrupt and returns to the caller.
unfoldable pub schedule : Kernel → Kernel
schedule k = elim k.runqueue [
  | [] ↦ k
  | next ∷ rest ↦
      let queued = record k { runqueue = rest ++ (next ∷ []) } in
      if k.current == next
      then queued
      else record (set_task queued next (record (k.tasks next) { time_slice = 20 })) {
        current = next;
      }
]

-- `sched_tick`, from the timer interrupt. `runtime_ns` is a `u64`.
pub sched_tick : Kernel → Kernel
sched_tick k =
    let t = k.tasks k.current in
    let left = if ltb 0 t.time_slice then t.time_slice - 1 else t.time_slice in
    let t' = record t { runtime_ns = (t.runtime_ns + 10000000) % 2 ^ 64; time_slice = left } in
    if k.current == 0
    then k
    else if left == 0
    then schedule (set_task k k.current (record t' { time_slice = 20 }))
    else set_task k k.current t'

pub sched_yield : Kernel → Kernel
sched_yield k =
    let t = k.tasks k.current in
    schedule (if ltb 0 t.time_slice then set_task k k.current (record t { time_slice = 0 }) else k)

-- `sleep_on`: the wait queue and the kernel after it.
pub sleep_on : Kernel → List TaskId → Option (Kernel × List TaskId)
sleep_on k queue = do
  queue' ← list_add_tail k.current queue
  some (schedule (sched_remove (set_state k k.current sleeping) k.current), queue')

unfoldable pub wake_up : Kernel → List TaskId → Option (Kernel × List TaskId)
wake_up k [] = some (k, [])
wake_up k (t ∷ queue) = do k' ← sched_add (set_state k t running) t; some (k', queue)

pub wake_up_all : Kernel → List TaskId → Option (Kernel × List TaskId)
wake_up_all k [] = some (k, [])
wake_up_all k (t ∷ queue) = do k' ← sched_add (set_state k t running) t; wake_up_all k' queue

unfoldable pub wake_up_process : Kernel → TaskId → Option Kernel
wake_up_process k t = sched_add (set_state k t running) t
