-- ===== src/Fs/Files/Calls.antt =====
-- fs/vfs.c: the descriptor calls keep the reference counts right.
use ore_unix.Common.{
  ℕ, zero, suc, ◌+◌, ◌≤◌, ◌<◌, ◌^◌, ◌≡◌, ◌≢◌, refl, false, inl, inr, none, some, List, [], ◌∷◌,
  ◌==◌, get_or, length, arith, Option-cases, All,
}
use ore_unix.Common.Int.{ℤ, pos, negsuc}
use ore_unix.Fs.Files.Counts.{
  IsCounted, bump, file_get-IsCounted, file_put-IsCounted, files_alloc_fd-empty, held-ne,
  install-IsCounted, put_slot-IsCounted,
}
use ore_unix.Fs.Files.{
  FileId, FdOutcome, Refs, Table, close_at, fd_to_file, file_alloc, file_get, files_alloc_fd,
  files_free_fd, install, sys_close, sys_dup, sys_open, update,
}

-- Nobody refers to the address, and it has not been given back before.
pub record IsFresh (s : Refs) (f : FileId) : Type 0 where
  pub unused : s.refcount f ≡ 0
  pub new : All (λ g. g ≢ f) s.freed

All-fresh :
    (r : FileId → ℕ) (f : FileId) (gs : List FileId)
    → All (λ g. g ≢ f) gs
    → All (λ g. r g ≡ 0) gs
    → All (λ g. update r f 1 g ≡ 0) gs
All-fresh r f [] ne all = tt
All-fresh r f (g ∷ gs) ne all =
    let e : (g == f) ≡ false = ground (arith, ne.0) in (rw e all.0, All-fresh r f gs ne.1 all.1)

pub file_alloc-IsCounted :
    (s : Refs) (fds : Table) (other : FileId → ℕ) (f : FileId)
    → IsCounted s fds other
    → IsFresh s f
    → IsCounted (file_alloc s f) fds (bump other f)
unfolding file_alloc
file_alloc-IsCounted s fds other f c new = record {
  sized = c.sized;
  counted = λ g. ground (arith, c.counted g, c.counted f, new.unused);
  small = λ g. ground (arith, c.small g);
  gone = All-fresh s.refcount f s.freed new.new c.gone;
}

-- The reference counts have room for one more.
abbrev pub HasRoom : Refs → Type 0
HasRoom s = (f : FileId) → s.refcount f + 1 < 2 ^ 32

-- The state is right after a call.
abbrev pub After : (FileId → ℕ) → FdOutcome → Type 0
After other o = IsCounted o.refs o.table other

pub install-After :
    (s : Refs) (fds : Table) (other : FileId → ℕ) (f : FileId)
    → IsCounted s fds (bump other f)
    → After other (install s fds f (files_alloc_fd fds))
install-After s fds other f c = elim (Option-cases (files_alloc_fd fds)) [
  | inl e ↦ rw e (file_put-IsCounted s fds other f c)
  | inr (i, e) ↦
      (let empty = files_alloc_fd-empty fds i e in
        rw e (install-IsCounted s fds other f i c (omega (arith, empty.0, c.sized)) empty.1))
]

pub sys_open-After :
    (s : Refs) (fds : Table) (other : FileId → ℕ) (f : FileId)
    → IsCounted s fds other
    → IsFresh s f
    → After other (sys_open (file_alloc s f) fds (some f))
unfolding sys_open
sys_open-After s fds other f c new =
    install-After (file_alloc s f) fds other f (file_alloc-IsCounted s fds other f c new)

get_or_outside : (fds : Table) (i : ℕ) → length fds ≤ i → get_or fds i none ≡ none
get_or_outside [] i h = refl
get_or_outside (o ∷ fds) zero h = absurd (omega arith)
get_or_outside (o ∷ fds) (suc i) h = get_or_outside fds i (omega arith)

inside : (fds : Table) (i : ℕ) (f : FileId) → get_or fds i none ≡ some f → i < length fds
inside [] i f e = absurd (cc)
inside (o ∷ fds) zero f e = omega arith
inside (o ∷ fds) (suc i) f e = omega (arith, inside fds i f e)

close-After :
    (s : Refs) (fds : Table) (other : FileId → ℕ) (fd : ℤ) (f : FileId)
    → IsCounted s fds other
    → fd_to_file fds fd ≡ some f
    → After other (close_at s fds fd (some f))
unfolding files_free_fd
close-After s fds other (negsuc n) f c e = absurd (cc)
close-After s fds other (pos n) f c e =
    put_slot-IsCounted s fds other n c (omega (arith, inside fds n f e, c.sized))

pub sys_close-After :
    (s : Refs) (fds : Table) (other : FileId → ℕ) (fd : ℤ)
    → IsCounted s fds other
    → After other (sys_close s fds fd)
unfolding sys_close
sys_close-After s fds other fd c = elim (Option-cases (fd_to_file fds fd)) [
  | inl e ↦ rw (sys_close, e) c
  | inr (f, e) ↦ rw (sys_close, e) (close-After s fds other fd f c e)
]

held :
    (s : Refs) (fds : Table) (other : FileId → ℕ) (fd : ℤ) (f : FileId)
    → IsCounted s fds other
    → fd_to_file fds fd ≡ some f
    → s.refcount f ≢ 0
held s fds other (negsuc n) f c e = absurd (cc)
held s fds other (pos n) f c e = held-ne s fds other f n c e

pub sys_dup-After :
    (s : Refs) (fds : Table) (other : FileId → ℕ) (fd : ℤ)
    → IsCounted s fds other
    → HasRoom s
    → After other (sys_dup s fds fd)
unfolding sys_dup
sys_dup-After s fds other fd c room = elim (Option-cases (fd_to_file fds fd)) [
  | inl e ↦ rw (sys_dup, e) c
  | inr (f, e) ↦ elim (Option-cases (files_alloc_fd fds)) [
    | inl full ↦ rw (sys_dup, e, full) c
    | inr (i, free) ↦
        (let empty = files_alloc_fd-empty fds i free in
          rw (sys_dup, e, free)
            (install-IsCounted (file_get s f) fds other f i
              (file_get-IsCounted s fds other f c (held s fds other fd f c e) (room f))
              (omega (arith, empty.0, c.sized)) empty.1))
  ]
]
