-- ===== src/Kernel/Sched/RoundRobin.antt =====
-- kernel/process.c, `schedule`: the order in which the tasks of the run queue get the processor.
use mathlib.Core.List.{append-nil, append_assoc}
use ore_unix.Common.{length}
use ore_unix.Common.Queue.{linked, linked-append, snoc-IsOnce, IsOnce}
use ore_unix.Common.{
  ℕ, zero, suc, ◌≡◌, refl, sym, ap, ◌∙◌, List, [], ◌∷◌, ◌++◌, arith, ◌==◌, Bool-cases, inl, inr,
}
use ore_unix.Kernel.Sched.{schedule}
use ore_unix.Kernel.Task.{Kernel, TaskId, update}

-- The tasks that `n` calls of `schedule` in a row give the processor to, and the kernel after them.
unfoldable pub turns : ℕ → Kernel → List TaskId × Kernel
turns zero k = ([], k)
turns (suc n) k = let k' = schedule k in let later = turns n k' in (k'.current ∷ later.0, later.1)

pub schedule-next :
    (k : Kernel) (t : TaskId) (us : List TaskId)
    → k.runqueue ≡ t ∷ us
    → ((schedule k).current ≡ t) × ((schedule k).runqueue ≡ us ++ (t ∷ []))
unfolding schedule
schedule-next k t us e = elim (Bool-cases (k.current == t)) [
  | inl same ↦ rw (schedule, e, same) (ground arith, refl)
  | inr other ↦ rw (schedule, e, other) (refl, refl)
]

turns-front :
    (us vs : List TaskId) (k : Kernel)
    → k.runqueue ≡ us ++ vs
    → (let n = length us in ((turns n k).0 ≡ us) × ((turns n k).1.runqueue ≡ vs ++ us))
unfolding turns
turns-front [] vs k e = (refl, e ∙ sym (append-nil vs))
turns-front (u ∷ us) vs k e =
    let s = schedule-next k u (us ++ vs) e in
    let ih = turns-front us (vs ++ (u ∷ [])) (schedule k) (s.1 ∙ append_assoc us vs (u ∷ [])) in
    (
      ap (λ t. t ∷ (turns (length us) (schedule k)).0) s.0 ∙ ap (λ ts. u ∷ ts) ih.0,
      ih.1 ∙ append_assoc vs (u ∷ []) us,
    )

-- As many calls of `schedule` as there are tasks in the run queue give the processor to each of
-- these tasks in turn, in the order of the queue, and leave the queue as it was.
pub schedule-round :
    (k : Kernel)
    → (let n = length k.runqueue in
        ((turns n k).0 ≡ k.runqueue) × ((turns n k).1.runqueue ≡ k.runqueue))
schedule-round k = turns-front k.runqueue [] k (sym (append-nil k.runqueue))

rotate-linked : (t u : TaskId) (us : List TaskId) → linked t (us ++ (u ∷ [])) ≡ linked t (u ∷ us)
unfolding linked
rotate-linked t u us = ground (arith, linked-append t us (u ∷ []))

schedule-queue :
    (k : Kernel) (us : List TaskId)
    → k.runqueue ≡ us
    → IsOnce us
    → (t : TaskId) → IsOnce (schedule k).runqueue × (linked t (schedule k).runqueue ≡ linked t us)
unfolding linked schedule
schedule-queue k [] e once t = rw (schedule, e, e) (tt, refl)
schedule-queue k (u ∷ us) e once t =
    let s = schedule-next k u us e in rw s.1 (snoc-IsOnce u us once.1 once.0, rotate-linked t u us)

slice-state :
    (k : Kernel) (u t : TaskId)
    → (update k.tasks u (record (k.tasks u) { time_slice = 20 }) t).state ≡ (k.tasks t).state
slice-state k u t = elim (Bool-cases (t == u)) [
  | inl same ↦ rw same (ap (λ v. (k.tasks v).state) (ground (arith, same)))
  | inr other ↦ rw other refl
]

schedule-state :
    (k : Kernel) (us : List TaskId)
    → k.runqueue ≡ us
    → (t : TaskId) → ((schedule k).tasks t).state ≡ (k.tasks t).state
unfolding schedule
schedule-state k [] e t = rw (schedule, e) refl
schedule-state k (u ∷ us) e t = elim (Bool-cases (k.current == u)) [
  | inl same ↦ rw (schedule, e, same) refl
  | inr other ↦ rw (schedule, e, other) (slice-state k u t)
]

-- `schedule` keeps the state of every task and which tasks are in the run queue, and a run queue
-- in which no task stands twice stays one.
pub schedule-keeps :
    (k : Kernel) (t : TaskId)
    → IsOnce k.runqueue
    → (((schedule k).tasks t).state ≡ (k.tasks t).state)
      × IsOnce (schedule k).runqueue
      × (linked t (schedule k).runqueue ≡ linked t k.runqueue)
schedule-keeps k t once =
    let q = schedule-queue k k.runqueue refl once t in
    (schedule-state k k.runqueue refl t, q.0, q.1)
