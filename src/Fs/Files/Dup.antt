-- ===== src/Fs/Files/Dup.antt =====
-- fs/vfs.c, `sys_dup2` and `sys_pipe`.
use ore_unix.Common.{
  ℕ, zero, suc, ◌+◌, ◌≤◌, ◌<◌, ◌^◌, ◌≡◌, ◌≢◌, refl, ap, ◌∙◌, false, inl, inr, Option, none, some,
  [], ◌∷◌, ◌==◌, leb, if◌then◌else◌, set, get_or, length, arith, Bool-cases,
}
use ore_unix.Common.Int.{pos}
use ore_unix.Fs.Files.Calls.{HasRoom}
use ore_unix.Fs.Files.Counts.{
  IsCounted, file_get-IsCounted, held-ne, install-IsCounted, put_slot-IsCounted,
}
use ore_unix.Fs.Files.{
  FileId, Refs, Table, dup_to, file_get, file_put, files_free_fd, open_max, put_slot, sys_dup2,
  value,
}

get_or-set_self :
    (fds : Table) (i : ℕ) (o : Option FileId) → i < length fds → get_or (set fds i o) i none ≡ o
get_or-set_self [] i o h = absurd (omega arith)
get_or-set_self (x ∷ fds) zero o h = refl
get_or-set_self (x ∷ fds) (suc i) o h = get_or-set_self fds i o (omega arith)

get_or-set_ne :
    (fds : Table) (i j : ℕ) (o : Option FileId)
    → i ≢ j
    → get_or (set fds i o) j none ≡ get_or fds j none
get_or-set_ne [] i j o ne = refl
get_or-set_ne (x ∷ fds) zero zero o ne = absurd (ne refl)
get_or-set_ne (x ∷ fds) zero (suc j) o ne = refl
get_or-set_ne (x ∷ fds) (suc i) zero o ne = refl
get_or-set_ne (x ∷ fds) (suc i) (suc j) o ne = get_or-set_ne fds i j o (λ e. ne (ap suc e))

-- Putting lowers counts.
put_slot-le :
    (s : Refs) (o : Option FileId) (g : FileId)
    → ((f : FileId) → o ≡ some f → s.refcount f ≢ 0)
    → ((f : FileId) → s.refcount f < 2 ^ 32)
    → (put_slot s o).refcount g ≤ s.refcount g
unfolding file_put
put_slot-le s none g ne low = omega arith
put_slot-le s (some f) g ne low = ground (arith, ne f refl, low f)

module _ (s : Refs) (fds : Table) (other : FileId → ℕ) (a n : ℕ) (f : FileId)
    (c : IsCounted s fds other) (room : HasRoom s) (here : get_or fds a none ≡ some f) (ne : n ≢ a)
    (lt : n < open_max) where
  -- After slot `n` has been emptied.
  pub emptied : Refs
  emptied = put_slot s (get_or fds n none)

  emptied-IsCounted : IsCounted emptied (set fds n none) other
  unfolding emptied
  emptied-IsCounted = put_slot-IsCounted s fds other n c lt

  emptied-room : emptied.refcount f + 1 < 2 ^ 32
  unfolding emptied
  emptied-room = omega (
    arith,
    put_slot-le s (get_or fds n none) f (λ g e. held-ne s fds other g n c e) c.small,
    room f,
  )

  pub dup_to-IsCounted : IsCounted (file_get emptied f) (set (set fds n none) n (some f)) other
  dup_to-IsCounted =
      let still : get_or (set fds n none) a none ≡ some f = get_or-set_ne fds n a none ne ∙ here in
      install-IsCounted (file_get emptied f) (set fds n none) other f n
        (file_get-IsCounted emptied (set fds n none) other f emptied-IsCounted
          (held-ne emptied (set fds n none) other f a emptied-IsCounted still) emptied-room)
        lt (get_or-set_self fds n none (omega (arith, c.sized)))

  dup_to-slots :
      (j : ℕ)
      → get_or (set (set fds n none) n (some f)) j none
        ≡ (if j == n then some f else get_or fds j none)
  dup_to-slots j = elim (Bool-cases (j == n)) [
    | inl e ↦
        (let p : j ≡ n = ground (arith, e) in
          rw (e, p)
            (get_or-set_self (set fds n none) n (some f)
              (omega (arith, c.sized, emptied-IsCounted.sized))))
    | inr e ↦
        (let p : n ≢ j = ground (arith, e) in
          rw e (get_or-set_ne (set fds n none) n j (some f) p ∙ get_or-set_ne fds n j none p))
  ]

  pub dup_to-lem : dup_to s fds (some f) (pos n) ≡ record {
    refs = file_get emptied f;
    table = set (set fds n none) n (some f);
    result = value (pos n);
  }
  unfolding emptied files_free_fd
  dup_to-lem = let e : leb open_max n ≡ false = ground arith in rw e refl

-- `dup2` of a descriptor that is open, onto another number below OPEN_MAX: it returns that number,
-- whose slot alone changes and now holds the same file; what was in it has lost a reference, the
-- file has one more, and every reference count is still the number of the references.
pub sys_dup2-Dups :
    (s : Refs) (fds : Table) (other : FileId → ℕ) (a n : ℕ) (f : FileId)
    → IsCounted s fds other
    → HasRoom s
    → get_or fds a none ≡ some f
    → n ≢ a
    → n < open_max
    → (let o = sys_dup2 s fds (pos a) (pos n) in
        (o.result ≡ value (pos n))
        × ((j : ℕ) → get_or o.table j none ≡ (if j == n then some f else get_or fds j none))
        × IsCounted o.refs o.table other)
unfolding sys_dup2
sys_dup2-Dups s fds other a n f c room here ne lt =
    let e : (a == n) ≡ false = ground (arith, ne) in
    rw (sys_dup2, e, here, dup_to-lem s fds other a n f c room here ne lt)
      (
        refl,
        dup_to-slots s fds other a n f c room here ne lt,
        dup_to-IsCounted s fds other a n f c room here ne lt,
      )
