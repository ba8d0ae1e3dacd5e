-- ===== src/Kernel/Process/Reap.antt =====
-- kernel/process.c, `sys_waitpid`, one pass of its loop.
use ore_unix.Common.Int.{ℤ}
use ore_unix.Common.Queue.{linked, list_del}
use ore_unix.Common.{
  ◌*◌, ◌%◌, true, false, Bool, ◌&&◌, some, none, ◌≡◌, refl, ap, ◌∙◌, List, [], ◌∷◌, ◌++◌, arith,
  ◌==◌, All,
}
use ore_unix.Kernel.Process.{
  Processes, Waited, find_zombie, give_back, is_wanted, is_zombie, update_at, wait_pass,
}
use ore_unix.Kernel.Task.{Kernel, TaskId}

-- The test of the loop over the children.
abbrev pub is_due : Kernel → ℤ → TaskId → Bool
is_due k pid t = is_wanted pid (k.tasks t).pid && is_zombie (k.tasks t).state

find_zombie-none :
    (k : Kernel) (pid : ℤ) (ts : List TaskId)
    → All (λ t. is_due k pid t ≡ false) ts
    → find_zombie k pid ts ≡ none
unfolding find_zombie
find_zombie-none k pid [] h = refl
find_zombie-none k pid (t ∷ ts) h = rw (find_zombie, h.0) (find_zombie-none k pid ts h.1)

find_zombie-first :
    (k : Kernel) (pid : ℤ) (before : List TaskId) (c : TaskId) (after : List TaskId)
    → All (λ t. is_due k pid t ≡ false) before
    → is_due k pid c ≡ true
    → find_zombie k pid (before ++ (c ∷ after)) ≡ some c
unfolding find_zombie
find_zombie-first k pid [] c after h due = rw (find_zombie, due) refl
find_zombie-first k pid (t ∷ ts) c after h due =
    rw (find_zombie, h.0) (find_zombie-first k pid ts c after h.1 due)

list_del-middle :
    (us : List TaskId) (c : TaskId) (vs : List TaskId)
    → linked c us ≡ false
    → list_del c (us ++ (c ∷ vs)) ≡ us ++ vs
unfolding list_del linked
list_del-middle [] c vs e = let same : (c == c) ≡ true = ground arith in rw (list_del, same) refl
list_del-middle (u ∷ us) c vs e =
    let ne : (u == c) ≡ false = ground (arith, e) in
    rw (list_del, ne) (ap (λ ts. u ∷ ts) (list_del-middle us c vs (ground (arith, e))))

-- The state that `reap` leaves.
reaped_state : Processes → TaskId → Processes
reaped_state p c = record p {
  kernel = record (p.kernel) { task_list = list_del c p.kernel.task_list };
  children = update_at p.children p.kernel.current (list_del c (p.children p.kernel.current));
  freed = p.freed ++ give_back (p.owned c) c;
}

-- If a child that is wanted is a zombie and none before it in the list of children is, a pass of
-- `sys_waitpid` returns its pid and, as status, the low byte of its exit code shifted by 8; the
-- child alone leaves the children and the task list, and what it holds is given back with it.
pub wait_pass-reaps :
    (p : Processes) (pid : ℤ) (no_hang : Bool) (before : List TaskId) (c : TaskId)
    (after : List TaskId)
    → p.children p.kernel.current ≡ before ++ (c ∷ after)
    → All (λ t. is_due p.kernel pid t ≡ false) before
    → is_due p.kernel pid c ≡ true
    → linked c before ≡ false
    → (q : Processes) × (wait_pass pid no_hang p
        ≡ Waited.reaped (p.kernel.tasks c).pid ((p.kernel.tasks c).exit_code % 256 * 256) q)
      × (q.children p.kernel.current ≡ before ++ after)
      × (q.kernel.task_list ≡ list_del c p.kernel.task_list)
      × (q.freed ≡ p.freed ++ give_back (p.owned c) c)
      × (q.kernel.tasks ≡ p.kernel.tasks)
      × (q.kernel.runqueue ≡ p.kernel.runqueue)
unfolding wait_pass reaped_state
wait_pass-reaps p pid no_hang before c after split h due once =
    let k = p.kernel in
    let cur = p.kernel.current in
    let found = ap (find_zombie k pid) split ∙ find_zombie-first k pid before c after h due in
    let same : (cur == cur) ≡ true = ground arith in
    (
      reaped_state p c,
      rw (wait_pass, found) refl,
      rw same (ap (list_del c) split ∙ list_del-middle before c after once),
      refl,
      refl,
      refl,
      refl,
    )

-- If no child that is wanted is a zombie, the pass changes nothing: it returns 0 with WNOHANG, and
-- goes to sleep without.
pub wait_pass-waits :
    (p : Processes) (pid : ℤ)
    → All (λ t. is_due p.kernel pid t ≡ false) (p.children p.kernel.current)
    → (wait_pass pid true p ≡ Waited.returns_zero p) × (wait_pass pid false p ≡ Waited.sleeps p)
unfolding wait_pass
wait_pass-waits p pid h =
    let e = find_zombie-none p.kernel pid (p.children p.kernel.current) h in
    (rw (wait_pass, e) refl, rw (wait_pass, e) refl)
