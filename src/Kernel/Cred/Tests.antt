-- ===== src/Kernel/Cred/Tests.antt =====
-- The theorems on credentials at a user's task.
use ore_unix.Common.{◌≡◌, refl, [], ◌∷◌, arith}
use ore_unix.Kernel.Cred.Privilege.{SameIds, run_calls-SameIds}
use ore_unix.Kernel.Cred.{Cred, run_calls, set_umask, setgid, setuid, syscall_handler}

abbrev user : Cred
user = record {
  pid = 7;
  ppid = 1;
  pgid = 7;
  sid = 7;
  uid = 1000;
  euid = 1000;
  gid = 100;
  egid = 100;
  umask = 18;
}

run_calls-SameIds_example :
    SameIds user (run_calls user (setuid 0 ∷ setgid 0 ∷ set_umask 1023 ∷ []))
run_calls-SameIds_example =
    run_calls-SameIds user (setuid 0 ∷ setgid 0 ∷ set_umask 1023 ∷ [])
      (λ e. absurd (omega (arith, e))) (refl, (refl, (refl, tt)))

-- The umask keeps nine bits, and the old one is returned.
umask_bits : syscall_handler user (set_umask 1023) ≡ (record user { umask = 511 }, 18)
unfolding syscall_handler
umask_bits = refl
