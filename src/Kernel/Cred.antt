-- ===== src/Kernel/Cred.antt =====
-- kernel/syscall.c: the calls of `syscall_handler` on the current task's ids, its credentials and
-- its umask, with those of kernel/process.c behind them.
pub mod Privilege
mod Tests
use ore_unix.Common.{ℕ, zero, ◌+◌, ◌-◌, ◌%◌, ◌^◌, ◌==◌, if◌then◌else◌, List, [], ◌∷◌}

-- The fields of `struct task_struct` that the calls use.
pub record Cred : Type 0 where
  pub pid : ℕ
  pub ppid : ℕ
  pub pgid : ℕ
  pub sid : ℕ
  pub uid : ℕ
  pub euid : ℕ
  pub gid : ℕ
  pub egid : ℕ
  pub umask : ℕ

-- A case of the dispatcher, with its arguments.
pub data Syscall : Type 0 where
  getpid getppid gettid getpgrp setsid getuid geteuid getgid getegid : Syscall
  setuid setgid set_umask : ℕ → Syscall
  setreuid setregid : ℕ → ℕ → Syscall

-- The errno.
abbrev pub eperm : ℕ
eperm = 1

-- A negative result, in the register that returns it.
abbrev pub minus : ℕ → ℕ
minus e = 2 ^ 32 - e

unfoldable pub sys_setsid : Cred → Cred × ℕ
sys_setsid t = (record t { sid = t.pid; pgid = t.pid }, t.pid)

unfoldable pub syscall_handler : Cred → Syscall → Cred × ℕ
syscall_handler t getpid = (t, t.pid)
syscall_handler t getppid = (t, t.ppid)
syscall_handler t gettid = (t, t.pid)
syscall_handler t getpgrp = (t, t.pgid)
syscall_handler t setsid = sys_setsid t
syscall_handler t getuid = (t, t.uid)
syscall_handler t geteuid = (t, t.euid)
syscall_handler t getgid = (t, t.gid)
syscall_handler t getegid = (t, t.egid)
syscall_handler t (setuid u) =
    if t.euid == 0 then (record t { uid = u; euid = u }, 0) else (t, minus eperm)
syscall_handler t (setgid g) =
    if t.euid == 0 then (record t { gid = g; egid = g }, 0) else (t, minus eperm)
syscall_handler t (setreuid r e) = (record t { uid = r; euid = e }, 0)
syscall_handler t (setregid r e) = (record t { gid = r; egid = e }, 0)
syscall_handler t (set_umask m) = (record t { umask = m % 512 }, t.umask)

-- The calls of a task, one after the other.
abbrev pub run_calls : Cred → List Syscall → Cred
run_calls t [] = t
run_calls t (c ∷ cs) = run_calls (syscall_handler t c).0 cs
