-- ===== src/Kernel/Cred/Privilege.antt =====
-- kernel/syscall.c: which calls change the credentials.
use ore_unix.Common.{
  ℕ, ◌≡◌, ◌≢◌, refl, sym, ◌∙◌, Bool, true, false, List, [], ◌∷◌, ◌==◌, All, arith,
}
use ore_unix.Kernel.Cred.{
  Cred, Syscall, getegid, geteuid, getgid, getpgrp, getpid, getppid, gettid, getuid, run_calls,
  set_umask, setgid, setregid, setreuid, setsid, setuid, syscall_handler, sys_setsid,
}

-- The two tasks have the same credentials.
pub record SameIds (t t' : Cred) : Type 0 where
  pub same_uid : t'.uid ≡ t.uid
  pub same_euid : t'.euid ≡ t.euid
  pub same_gid : t'.gid ≡ t.gid
  pub same_egid : t'.egid ≡ t.egid

-- Neither of the calls that set the real and the effective id.
abbrev pub sets_both : Syscall → Bool
sets_both (setreuid r e) = true
sets_both (setregid r e) = true
sets_both _ = false

unchanged : (t : Cred) → SameIds t t
unchanged t = record { same_uid = refl; same_euid = refl; same_gid = refl; same_egid = refl }

call-SameIds :
    (t : Cred) (c : Syscall) → t.euid ≢ 0 → sets_both c ≡ false → SameIds t (syscall_handler t c).0
unfolding syscall_handler sys_setsid
call-SameIds t getpid ne o = unchanged t
call-SameIds t getppid ne o = unchanged t
call-SameIds t gettid ne o = unchanged t
call-SameIds t getpgrp ne o = unchanged t
call-SameIds t setsid ne o = record {
  same_uid = refl;
  same_euid = refl;
  same_gid = refl;
  same_egid = refl;
}
call-SameIds t getuid ne o = unchanged t
call-SameIds t geteuid ne o = unchanged t
call-SameIds t getgid ne o = unchanged t
call-SameIds t getegid ne o = unchanged t
call-SameIds t (setuid u) ne o =
    let e : (t.euid == 0) ≡ false = ground (arith, ne) in rw e (unchanged t)
call-SameIds t (setgid g) ne o =
    let e : (t.euid == 0) ≡ false = ground (arith, ne) in rw e (unchanged t)
call-SameIds t (set_umask m) ne o = record {
  same_uid = refl;
  same_euid = refl;
  same_gid = refl;
  same_egid = refl;
}
call-SameIds t (setreuid r e) ne o = absurd (cc)
call-SameIds t (setregid r e) ne o = absurd (cc)

-- A task whose effective user is not 0 keeps its four ids over any calls that have neither
-- `setreuid` nor `setregid` among them.
pub run_calls-SameIds :
    (t : Cred) (cs : List Syscall)
    → t.euid ≢ 0
    → All (λ c. sets_both c ≡ false) cs
    → SameIds t (run_calls t cs)
run_calls-SameIds t [] ne others = unchanged t
run_calls-SameIds t (c ∷ cs) ne others =
    let t' = (syscall_handler t c).0 in
    let first = call-SameIds t c ne others.0 in
    let rest = run_calls-SameIds t' cs (λ z. ne (sym first.same_euid ∙ z)) others.1 in
    record {
      same_uid = rest.same_uid ∙ first.same_uid;
      same_euid = rest.same_euid ∙ first.same_euid;
      same_gid = rest.same_gid ∙ first.same_gid;
      same_egid = rest.same_egid ∙ first.same_egid;
    }

-- `setreuid` tests nothing: after `setreuid` of 0 and 0 any task takes on any user and group.
setreuid_escalates :
    (t : Cred) (u g : ℕ)
    → (let t1 = (syscall_handler t (setreuid 0 0)).0 in
        let t2 = syscall_handler t1 (setgid g) in
        let t3 = syscall_handler t2.0 (setuid u) in
        (t2.1 ≡ 0)
        × (t3.1 ≡ 0)
        × (t3.0.uid ≡ u)
        × (t3.0.euid ≡ u)
        × (t3.0.gid ≡ g)
        × (t3.0.egid ≡ g))
unfolding syscall_handler
setreuid_escalates t u g = (refl, refl, refl, refl, refl, refl)
