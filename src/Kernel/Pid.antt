-- ===== src/Kernel/Pid.antt =====
-- kernel/process.c: the pid allocator.
use ore_unix.Common.{
  ℕ, zero, suc, ◌+◌, ◌-◌, ◌%◌, ◌≤◌, ◌<◌, ◌≡◌, ◌≢◌, arith, leb, if◌then◌else◌, Bool-cases, inl, inr,
}
use ore_unix.Kernel.Task.{Kernel}

abbrev pub pid_max : ℕ
pid_max = 32768

unfoldable pub alloc_pid : Kernel → ℕ × Kernel
alloc_pid k =
    let next = k.next_pid + 1 in
    (k.next_pid, record k { next_pid = if leb pid_max next then 2 else next })

-- The allocator after `n` calls.
pub alloc_pids : ℕ → Kernel → Kernel
alloc_pids zero k = k
alloc_pids (suc n) k = alloc_pids n (alloc_pid k).1

-- Pids 2 to 32767 in a circle, from `p` on.
abbrev pub pid_from : ℕ → ℕ → ℕ
pid_from p n = 2 + (p - 2 + n) % (pid_max - 2)

alloc_pids-circle :
    (n : ℕ) (k : Kernel)
    → 2 ≤ k.next_pid
    → k.next_pid < pid_max
    → (alloc_pids n k).next_pid ≡ pid_from k.next_pid n
unfolding alloc_pids alloc_pid
alloc_pids-circle zero k lo hi = omega arith
alloc_pids-circle (suc n) k lo hi = elim (Bool-cases (leb pid_max (k.next_pid + 1))) [
  | inl e ↦
      (let ih = alloc_pids-circle n (record k { next_pid = 2 }) (omega arith) (omega arith) in
        rw (alloc_pids, alloc_pid, e) (ground (arith, ih)))
  | inr e ↦
      (let ih =
          alloc_pids-circle n (record k { next_pid = k.next_pid + 1 }) (omega arith)
            (ground arith) in
        rw (alloc_pids, alloc_pid, e) (ground (arith, ih)))
]

-- From a next pid of at least 2, the pids of two calls of `alloc_pid` differ unless a multiple of
-- 32766 calls lies between them; each is at least 2 and below PID_MAX.
pub alloc_pid-ne :
    (k : Kernel) (m n : ℕ)
    → 2 ≤ k.next_pid
    → k.next_pid < pid_max
    → m < n
    → n < m + (pid_max - 2)
    → (let a = (alloc_pid (alloc_pids m k)).0 in
        let b = (alloc_pid (alloc_pids n k)).0 in (a ≢ b) × (2 ≤ a) × (a < pid_max))
unfolding alloc_pid
alloc_pid-ne k m n lo hi lt near =
    let p = alloc_pids-circle m k lo hi in
    let q = alloc_pids-circle n k lo hi in (omega (arith, p, q), omega (arith, p), omega (arith, p))
