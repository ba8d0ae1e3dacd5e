-- ===== src/Fs/Files/Clone.antt =====
-- kernel/process.c: `files_clone` and `files_destroy`.
use ore_unix.Common.{
  ℕ, ◌+◌, ◌<◌, ◌^◌, ◌≡◌, ◌≢◌, refl, ap, ◌∙◌, true, false, none, some, [], ◌∷◌, ◌==◌, arith, sub32,
}
use ore_unix.Fs.Files.Counts.{IsCounted, count_file}
use ore_unix.Fs.Files.{
  FileId, Refs, Table, clone_slots, file_get, file_put, files_clone, files_destroy,
}

-- A clone of the table fits the counts.
abbrev pub FitsTwice : Refs → Table → Type 0
FitsTwice s fds = (f : FileId) → s.refcount f + count_file f fds < 2 ^ 32

get_slot_fits :
    (s : Refs) (f : FileId) (fds : Table)
    → FitsTwice s (some f ∷ fds)
    → FitsTwice (file_get s f) fds
unfolding file_get
get_slot_fits s f fds fit g = ground (arith, fit g, fit f)

file_get-counts :
    (s : Refs) (f : FileId) (fds : Table) (g : FileId)
    → FitsTwice s (some f ∷ fds)
    → (file_get s f).refcount g + count_file g fds ≡ s.refcount g + count_file g (some f ∷ fds)
unfolding file_get
file_get-counts s f fds g fit = ground (arith, fit g, fit f)

clone_slots-counts :
    (s : Refs) (fds : Table) (g : FileId)
    → FitsTwice s fds
    → (clone_slots s fds).0.refcount g ≡ s.refcount g + count_file g fds
unfolding clone_slots
clone_slots-counts s [] g fit = omega arith
clone_slots-counts s (none ∷ fds) g fit =
    clone_slots-counts s fds g (λ f. omega (arith, fit f)) ∙ omega arith
clone_slots-counts s (some f ∷ fds) g fit =
    clone_slots-counts (file_get s f) fds g (get_slot_fits s f fds fit)
    ∙ file_get-counts s f fds g fit

clone_slots-table : (s : Refs) (fds : Table) → (clone_slots s fds).1 ≡ fds
unfolding clone_slots
clone_slots-table s [] = refl
clone_slots-table s (none ∷ fds) = ap (none ∷◌) (clone_slots-table s fds)
clone_slots-table s (some f ∷ fds) = ap (some f ∷◌) (clone_slots-table (file_get s f) fds)

clone_slots-freed : (s : Refs) (fds : Table) → (clone_slots s fds).0.freed ≡ s.freed
unfolding clone_slots file_get
clone_slots-freed s [] = refl
clone_slots-freed s (none ∷ fds) = clone_slots-freed s fds
clone_slots-freed s (some f ∷ fds) = clone_slots-freed (file_get s f) fds

-- The counts are those of the table and the rest, and fit their 32 bits.
record Covers (s : Refs) (fds : Table) (rest : FileId → ℕ) : Type 0 where
  covered : (f : FileId) → s.refcount f ≡ count_file f fds + rest f
  fits : (f : FileId) → s.refcount f < 2 ^ 32

skip_empty :
    (s : Refs) (fds : Table) (rest : FileId → ℕ) → Covers s (none ∷ fds) rest → Covers s fds rest
skip_empty s fds rest c = record { covered = λ f. omega (arith, c.covered f); fits = c.fits }

file_put-Covers :
    (s : Refs) (f : FileId) (fds : Table) (rest : FileId → ℕ)
    → Covers s (some f ∷ fds) rest
    → Covers (file_put s f) fds rest
unfolding file_put
file_put-Covers s f fds rest c = record {
  covered = λ h. ground (arith, c.covered h, c.covered f, c.fits f);
  fits = λ h. ground (arith, c.fits h);
}

files_destroy-counts :
    (s : Refs) (fds : Table) (rest : FileId → ℕ)
    → Covers s fds rest
    → (g : FileId) → (files_destroy s fds).refcount g ≡ rest g
unfolding files_destroy
files_destroy-counts s [] rest c g = omega (arith, c.covered g)
files_destroy-counts s (none ∷ fds) rest c g =
    files_destroy-counts s fds rest (skip_empty s fds rest c) g
files_destroy-counts s (some f ∷ fds) rest c g =
    files_destroy-counts (file_put s f) fds rest (file_put-Covers s f fds rest c) g

-- A file with another reference stays.
file_put-stays :
    (s : Refs) (f : FileId) (fds : Table) (rest : FileId → ℕ)
    → Covers s (some f ∷ fds) rest
    → rest f ≢ 0
    → (file_put s f).freed ≡ s.freed
unfolding file_put
file_put-stays s f fds rest c ne =
    let left : (sub32 (s.refcount f) 1 == 0) ≡ false = ground (arith, c.covered f, c.fits f, ne) in
    rw left refl

files_destroy-freed :
    (s : Refs) (fds : Table) (rest : FileId → ℕ)
    → Covers s fds rest
    → ((f : FileId) → count_file f fds ≢ 0 → rest f ≢ 0)
    → (files_destroy s fds).freed ≡ s.freed
unfolding files_destroy
files_destroy-freed s [] rest c kept = refl
files_destroy-freed s (none ∷ fds) rest c kept =
    files_destroy-freed s fds rest (skip_empty s fds rest c)
      (λ h ne. kept h (λ z. ne (omega (arith, z))))
files_destroy-freed s (some f ∷ fds) rest c kept =
    files_destroy-freed (file_put s f) fds rest (file_put-Covers s f fds rest c)
      (λ h ne. kept h (λ z. ne (ground (arith, z))))
    ∙ file_put-stays s f fds rest c (kept f (λ z. ground (arith, z)))

clone_slots-Covers :
    (s : Refs) (fds : Table) → FitsTwice s fds → Covers (clone_slots s fds).0 fds s.refcount
clone_slots-Covers s fds fit = record {
  covered = λ g. omega (arith, clone_slots-counts s fds g fit);
  fits = λ g. omega (arith, clone_slots-counts s fds g fit, fit g);
}

-- `files_clone` of a process's table, where memory is found and the counts have room: the new table
-- has the same files and each count grows by the number of slots that hold the file; when
-- `files_destroy` then takes the new table apart, every count is back at what it was, and no file
-- has been given back.
pub files_clone-files_destroy :
    (s : Refs) (fds : Table) (other : FileId → ℕ)
    → IsCounted s fds other
    → FitsTwice s fds
    → (let r = files_clone true s fds in
        (r.1 ≡ some fds)
        × ((f : FileId) → r.0.refcount f ≡ s.refcount f + count_file f fds)
        × ((f : FileId) → (files_destroy r.0 fds).refcount f ≡ s.refcount f)
        × ((files_destroy r.0 fds).freed ≡ s.freed))
unfolding files_clone
files_clone-files_destroy s fds other c fit =
    let covers = clone_slots-Covers s fds fit in
    (
      ap some (clone_slots-table s fds),
      λ f. clone_slots-counts s fds f fit,
      files_destroy-counts (clone_slots s fds).0 fds s.refcount covers,
      files_destroy-freed (clone_slots s fds).0 fds s.refcount covers
            (λ f ne z. ground (arith, c.counted f, z, ne))
          ∙ clone_slots-freed s fds,
    )
