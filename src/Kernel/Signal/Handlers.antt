-- ===== src/Kernel/Signal/Handlers.antt =====
-- kernel/process.c, `sys_sigaction`: which handlers it changes.
use ore_unix.Common.{
  ℕ, zero, suc, ◌<◌, Bool, true, false, ◌||◌, Option, some, none, ◌≡◌, ◌≢◌, refl, ap, ◌∙◌, List, [],
  ◌∷◌, arith, ◌==◌, set, get_or, length, inl, inr, ◌⊎◌,
}
use ore_unix.Common.Errno.{einval}
use ore_unix.Common.Int.{ℤ, pos}
use ore_unix.Kernel.Signal.{done, fails, is_bad_signal, signal_number, sys_sigaction, change_action}
use ore_unix.Kernel.Task.{Kernel, Signal, Handler, sig_dfl, set_task}

-- Whether `sys_sigaction` refuses the signal.
abbrev pub refused : ℤ → Bool
refused sig = is_bad_signal sig || (signal_number sig == 9 || signal_number sig == 19)

get_or-set :
    (hs : List Handler) (i : ℕ) (h : Handler) → i < length hs → get_or (set hs i h) i sig_dfl ≡ h
get_or-set [] i h lt = ground arith
get_or-set (x ∷ hs) zero h lt = refl
get_or-set (x ∷ hs) (suc i) h lt = get_or-set hs i h (ground arith)

get_or-set_ne :
    (hs : List Handler) (i j : ℕ) (h : Handler)
    → i ≢ j
    → get_or (set hs i h) j sig_dfl ≡ get_or hs j sig_dfl
get_or-set_ne [] i j h ne = refl
get_or-set_ne (x ∷ hs) zero zero h ne = absurd (ne refl)
get_or-set_ne (x ∷ hs) zero (suc j) h ne = refl
get_or-set_ne (x ∷ hs) (suc i) zero h ne = refl
get_or-set_ne (x ∷ hs) (suc i) (suc j) h ne = get_or-set_ne hs i j h (λ e. ne (ap suc e))

sys_sigaction-accepts :
    (k : Kernel) (sig : ℤ) (act : Option Handler) (s : Signal)
    → refused sig ≡ false
    → (k.tasks k.current).signal ≡ some s
    → sys_sigaction k sig act ≡ change_action k (signal_number sig) act (some s)
unfolding sys_sigaction
sys_sigaction-accepts k sig act s ok some_s = rw (sys_sigaction, ok, some_s) refl

change_action-old :
    (k : Kernel) (n : ℕ) (act : Option Handler) (s : Signal)
    → (change_action k n act (some s)).1 ≡ get_or s.actions n sig_dfl
change_action-old k n none s = refl
change_action-old k n (some h) s = refl

-- A handler that `sys_sigaction` has installed for a signal it does not refuse is the one that
-- the next call for that signal reports as the old one; no other handler has changed.
pub sys_sigaction-reports :
    (k : Kernel) (sig : ℤ) (h : Handler) (s : Signal) (act : Option Handler)
    → refused sig ≡ false
    → (k.tasks k.current).signal ≡ some s
    → signal_number sig < length s.actions
    → (k' : Kernel) × (s' : Signal) × (sys_sigaction k sig (some h)
        ≡ (done k', get_or s.actions (signal_number sig) sig_dfl))
      × ((sys_sigaction k' sig act).1 ≡ h)
      × ((k'.tasks k'.current).signal ≡ some s')
      × ((i : ℕ) → signal_number sig ≢ i → get_or s'.actions i sig_dfl ≡ get_or s.actions i sig_dfl)
sys_sigaction-reports k sig h s act ok some_s small =
    let n = signal_number sig in
    let s' = record s { actions = set s.actions n h } in
    let k' = set_task k k.current (record (k.tasks k.current) { signal = some s' }) in
    let same : (k.current == k.current) ≡ true = ground arith in
    let has : (k'.tasks k'.current).signal ≡ some s' = rw same refl in
    (
      k',
      s',
      sys_sigaction-accepts k sig (some h) s ok some_s,
      ap (λ r. r.1) (sys_sigaction-accepts k' sig act s' ok has)
          ∙ change_action-old k' n act s'
          ∙ get_or-set s.actions n h small,
      has,
      λ i ne. get_or-set_ne s.actions n i h ne,
    )

-- For SIGKILL and SIGSTOP, and for numbers that are no signal's, `sys_sigaction` fails with EINVAL
-- and changes nothing.
sys_sigaction-protects :
    (k : Kernel) (sig : ℤ) (act : Option Handler)
    → (sig ≡ pos 9) ⊎ ((sig ≡ pos 19) ⊎ (is_bad_signal sig ≡ true))
    → sys_sigaction k sig act ≡ (fails einval k, sig_dfl)
unfolding sys_sigaction
sys_sigaction-protects k sig act (inl e) = rw (sys_sigaction, e) refl
sys_sigaction-protects k sig act (inr (inl e)) = rw (sys_sigaction, e) refl
sys_sigaction-protects k sig act (inr (inr e)) = rw (sys_sigaction, e) refl
