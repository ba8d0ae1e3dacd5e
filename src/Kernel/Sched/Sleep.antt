-- ===== src/Kernel/Sched/Sleep.antt =====
-- kernel/process.c, `sleep_on`.
use ore_unix.Common.Queue.{
  linked, linked-append, linked-list_del, list_add_tail, list_del, list_del-gone, list_del-IsOnce,
  snoc-IsOnce, IsOnce,
}
use ore_unix.Common.{
  true, false, ◌≡◌, refl, ap, ◌∙◌, List, [], ◌∷◌, ◌++◌, arith, ◌==◌, All, Bool-cases, inl, inr,
  some, none,
}
use ore_unix.Kernel.Sched.RoundRobin.{schedule-keeps}
use ore_unix.Kernel.Sched.Wait.{IsAsleep, IsValid}
use ore_unix.Kernel.Sched.{schedule, sched_remove, sleep_on}
use ore_unix.Kernel.Task.{Kernel, TaskId, sleeping, set_state}

-- The kernel when `sleep_on` calls `schedule`.
resting : Kernel → Kernel
resting k = sched_remove (set_state k k.current sleeping) k.current

resting-runs : (k : Kernel) → IsOnce k.runqueue → IsOnce (resting k).runqueue
unfolding resting sched_remove
resting-runs k once = list_del-IsOnce k.current k.runqueue once

resting-current : (k : Kernel) → IsOnce k.runqueue → IsAsleep (resting k) k.current
unfolding resting sched_remove
resting-current k once =
    let same : (k.current == k.current) ≡ true = ground arith in
    (rw same refl, list_del-gone k.current k.runqueue once)

resting-other : (k : Kernel) (u : TaskId) → IsAsleep k u → IsAsleep (resting k) u
unfolding resting sched_remove
resting-other k u (s, out) = elim (Bool-cases (u == k.current)) [
  | inl same ↦ (rw same refl, linked-list_del k.current u k.runqueue out)
  | inr ne ↦ (rw ne s, linked-list_del k.current u k.runqueue out)
]

schedule-IsAsleep :
    (k : Kernel) (t : TaskId) → IsOnce k.runqueue → IsAsleep k t → IsAsleep (schedule k) t
schedule-IsAsleep k t once (s, out) = let f = schedule-keeps k t once in (f.0 ∙ s, f.2 ∙ out)

sleep_on-All :
    (k : Kernel) (us : List TaskId)
    → IsOnce k.runqueue
    → All (IsAsleep k) us
    → All (IsAsleep (schedule (resting k))) (us ++ (k.current ∷ []))
sleep_on-All k [] once all =
    (schedule-IsAsleep (resting k) k.current (resting-runs k once) (resting-current k once), tt)
sleep_on-All k (u ∷ us) once all = (
  schedule-IsAsleep (resting k) u (resting-runs k once) (resting-other k u all.0),
  sleep_on-All k us once all.1,
)

sleep_on-added :
    (k : Kernel) (queue : List TaskId)
    → linked k.current queue ≡ false
    → sleep_on k queue ≡ some (schedule (resting k), queue ++ (k.current ∷ []))
unfolding sleep_on resting list_add_tail
sleep_on-added k queue e = rw (sleep_on, list_add_tail, e) refl

-- If the current task is not in the wait queue, `sleep_on` puts it, asleep and out of the run
-- queue, at the end of the wait queue, and the two queues stay valid.
pub sleep_on-last :
    (k : Kernel) (queue : List TaskId)
    → IsValid k queue
    → linked k.current queue ≡ false
    → (k' : Kernel) × (sleep_on k queue ≡ some (k', queue ++ (k.current ∷ [])))
      × IsAsleep k' k.current
      × IsValid k' (queue ++ (k.current ∷ []))
sleep_on-last k queue v fresh =
    let runs = resting-runs k v.runs_once in
    (
      schedule (resting k),
      sleep_on-added k queue fresh,
      schedule-IsAsleep (resting k) k.current runs (resting-current k v.runs_once),
      record {
        runs_once = (schedule-keeps (resting k) k.current runs).1;
        waits_once = snoc-IsOnce k.current queue v.waits_once fresh;
        asleep = sleep_on-All k queue v.runs_once v.asleep;
      },
    )

linked-snoc : (t : TaskId) (us : List TaskId) → linked t (us ++ (t ∷ [])) ≡ true
unfolding linked
linked-snoc t us = ground (arith, linked-append t us (t ∷ []))

schedule-idle : (k : Kernel) → k.runqueue ≡ [] → (schedule k).current ≡ k.current
unfolding schedule
schedule-idle k e = rw (schedule, e) refl

sleep_on-twice :
    (k : Kernel) (queue : List TaskId) → linked k.current queue ≡ true → sleep_on k queue ≡ none
unfolding sleep_on list_add_tail
sleep_on-twice k queue e = rw (sleep_on, list_add_tail, e) refl

-- When no other task can run, `sleep_on` returns with its caller still current and in the wait
-- queue, and a second `sleep_on` on that queue then links a node that is linked already.
pub sleep_on-again :
    (k : Kernel) (queue : List TaskId)
    → linked k.current queue ≡ false
    → list_del k.current k.runqueue ≡ []
    → (k' : Kernel) × (sleep_on k queue ≡ some (k', queue ++ (k.current ∷ [])))
      × (k'.current ≡ k.current)
      × (sleep_on k' (queue ++ (k.current ∷ [])) ≡ none)
unfolding resting sched_remove
sleep_on-again k queue fresh alone =
    let same = schedule-idle (resting k) alone in
    let queue' = queue ++ (k.current ∷ []) in
    (
      schedule (resting k),
      sleep_on-added k queue fresh,
      same,
      sleep_on-twice (schedule (resting k)) queue'
          (ap (λ t. linked t queue') same ∙ linked-snoc k.current queue),
    )
