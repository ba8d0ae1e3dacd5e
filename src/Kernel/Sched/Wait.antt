-- ===== src/Kernel/Sched/Wait.antt =====
-- kernel/process.c, `sleep_on`, `wake_up` and `wake_up_all`: wait queues.
use ore_unix.Common.Queue.{linked, linked-append, list_add_tail, snoc-IsOnce, IsOnce}
use mathlib.Core.List.{append-nil, append_assoc}
use ore_unix.Common.{
  true, false, ◌≡◌, refl, sym, ◌∙◌, List, [], ◌∷◌, ◌++◌, arith, ◌==◌, All, Bool-cases, inl, inr,
  some,
}
use ore_unix.Kernel.Sched.{sched_add, wake_up, wake_up_all}
use ore_unix.Kernel.Task.{Kernel, TaskId, running, sleeping, set_state}

-- A task that waits: it sleeps and is not in the run queue.
abbrev pub IsAsleep : Kernel → TaskId → Type 0
IsAsleep k t = ((k.tasks t).state ≡ sleeping) × (linked t k.runqueue ≡ false)

-- No task stands twice in the run queue or in the wait queue, and the tasks of the wait queue wait.
pub record IsValid (k : Kernel) (queue : List TaskId) : Type 0 where
  pub runs_once : IsOnce k.runqueue
  pub waits_once : IsOnce queue
  pub asleep : All (IsAsleep k) queue

pub sched_add-fresh :
    (k : Kernel) (t : TaskId)
    → linked t k.runqueue ≡ false
    → sched_add k t ≡ some (record (set_state k t running) { runqueue = k.runqueue ++ (t ∷ []) })
unfolding sched_add list_add_tail
sched_add-fresh k t e = rw (sched_add, list_add_tail, e) refl

-- What a woken task looks like.
woken : Kernel → TaskId → Kernel
woken k t = record (set_state (set_state k t running) t running) {
  runqueue = k.runqueue ++ (t ∷ []);
}

woken-IsAsleep :
    (k : Kernel) (t u : TaskId) → (u == t) ≡ false → IsAsleep k u → IsAsleep (woken k t) u
unfolding woken linked
woken-IsAsleep k t u ne (s, out) =
    (rw ne s, ground (arith, out, ne, linked-append u k.runqueue (t ∷ [])))

woken-All :
    (k : Kernel) (t : TaskId) (us : List TaskId)
    → linked t us ≡ false
    → All (IsAsleep k) us
    → All (IsAsleep (woken k t)) us
unfolding linked
woken-All k t [] e all = tt
woken-All k t (u ∷ us) e all = elim (Bool-cases (u == t)) [
  | inl same ↦ ground (arith, e, same)
  | inr ne ↦ (woken-IsAsleep k t u ne all.0, woken-All k t us (ground (arith, e, ne)) all.1)
]

woken-IsValid :
    (k : Kernel) (t : TaskId) (us : List TaskId) → IsValid k (t ∷ us) → IsValid (woken k t) us
unfolding woken
woken-IsValid k t us v = record {
  runs_once = snoc-IsOnce t k.runqueue v.runs_once v.asleep.0.1;
  waits_once = v.waits_once.1;
  asleep = woken-All k t us v.waits_once.0 v.asleep.1;
}

wake_up-woken :
    (k : Kernel) (t : TaskId) (us : List TaskId)
    → linked t k.runqueue ≡ false
    → wake_up k (t ∷ us) ≡ some (woken k t, us)
unfolding wake_up woken
wake_up-woken k t us e = rw (wake_up, sched_add-fresh (set_state k t running) t e) refl

woken-state : (k : Kernel) (t : TaskId) → ((woken k t).tasks t).state ≡ running
unfolding woken
woken-state k t = let same : (t == t) ≡ true = ground arith in rw same refl

-- With a task in the wait queue, `wake_up` takes the one that has waited longest out of the queue
-- and puts it, running, at the end of the run queue; the two queues stay valid.
pub wake_up-first :
    (k : Kernel) (t : TaskId) (us : List TaskId)
    → IsValid k (t ∷ us)
    → (k' : Kernel) × (wake_up k (t ∷ us) ≡ some (k', us))
      × (k'.runqueue ≡ k.runqueue ++ (t ∷ []))
      × ((k'.tasks t).state ≡ running)
      × IsValid k' us
unfolding woken
wake_up-first k t us v =
    (woken k t, wake_up-woken k t us v.asleep.0.1, refl, woken-state k t, woken-IsValid k t us v)

woken-keeps :
    (k : Kernel) (t u : TaskId)
    → (k.tasks u).state ≡ running
    → ((woken k t).tasks u).state ≡ running
unfolding woken
woken-keeps k t u e = elim (Bool-cases (u == t)) [ inl same ↦ rw same refl | inr ne ↦ rw ne e ]

-- `wake_up_all` empties the wait queue: its tasks come, running and in the order of their waiting,
-- to the end of the run queue, in which no task stands twice. A task that ran still does.
pub wake_up_all-order :
    (us : List TaskId) (k : Kernel)
    → IsValid k us
    → (k' : Kernel) × (wake_up_all k us ≡ some (k', []))
      × (k'.runqueue ≡ k.runqueue ++ us)
      × IsOnce k'.runqueue
      × All (λ t. (k'.tasks t).state ≡ running) us
      × ((u : TaskId) → (k.tasks u).state ≡ running → (k'.tasks u).state ≡ running)
unfolding wake_up_all woken
wake_up_all-order [] k v = (k, refl, sym (append-nil k.runqueue), v.runs_once, tt, λ u e. e)
wake_up_all-order (t ∷ us) k v =
    let ih = wake_up_all-order us (woken k t) (woken-IsValid k t us v) in
    (
      ih.0,
      rw (wake_up_all, sched_add-fresh (set_state k t running) t v.asleep.0.1) ih.1,
      ih.2 ∙ append_assoc k.runqueue (t ∷ []) us,
      ih.3,
      (ih.5 t (woken-state k t), ih.4),
      λ u e. ih.5 u (woken-keeps k t u e),
    )
