-- ===== src/Fs/Files/Counts.antt =====
-- The reference count of a file is the number of its references: one for each slot of a table that
-- holds it, and those held elsewhere.
use ore_unix.Common.{
  ℕ, zero, suc, ◌+◌, ◌-◌, ◌≤◌, ◌<◌, ◌^◌, ◌≡◌, ◌≢◌, refl, sym, ap, ◌∙◌, Bool, true, false, inl, inr,
  Option, none, some, List, [], ◌∷◌, ◌==◌, if◌then◌else◌, set, get_or, length, length-set, arith,
  Bool-cases, Option-cases, All, add32, sub32,
}
use ore_unix.Fs.Files.{
  FileId, Refs, Table, alloc_from, file_get, file_put, files_alloc_fd, open_max, put_slot, update,
}

-- 1 if the slot holds the file.
abbrev pub holds : FileId → Option FileId → ℕ
holds f none = 0
holds f (some g) = if f == g then 1 else 0

abbrev pub count_file : FileId → Table → ℕ
count_file f [] = 0
count_file f (o ∷ fds) = holds f o + count_file f fds

-- One more reference to `f` held elsewhere.
abbrev pub bump : (FileId → ℕ) → FileId → FileId → ℕ
bump other f g = if g == f then other g + 1 else other g

-- `other` counts the references that are not in the table. No file that has been given back has
-- one.
pub record IsCounted (s : Refs) (fds : Table) (other : FileId → ℕ) : Type 0 where
  pub sized : length fds ≡ open_max
  pub counted : (f : FileId) → s.refcount f ≡ count_file f fds + other f
  pub small : (f : FileId) → s.refcount f < 2 ^ 32
  pub gone : All (λ f. s.refcount f ≡ 0) s.freed

count_file-set :
    (fds : Table) (i : ℕ) (f : FileId) (o : Option FileId)
    → i < length fds
    → count_file f (set fds i o) + holds f (get_or fds i none) ≡ count_file f fds + holds f o
count_file-set [] i f o h = absurd (omega arith)
count_file-set (x ∷ fds) zero f o h = omega arith
count_file-set (x ∷ fds) (suc i) f o h = omega (arith, count_file-set fds i f o)

All-update :
    (r : FileId → ℕ) (f : FileId) (n : ℕ) (gs : List FileId)
    → r f ≢ 0
    → All (λ g. r g ≡ 0) gs
    → All (λ g. update r f n g ≡ 0) gs
All-update r f n [] ne all = tt
All-update r f n (g ∷ gs) ne all = elim (Bool-cases (g == f)) [
  | inl e ↦ (let same : g ≡ f = ground (arith, e) in absurd (ne (ap r (sym same) ∙ all.0)))
  | inr e ↦ (rw e all.0, All-update r f n gs ne all.1)
]

-- The reference to `f` that was held elsewhere goes into an empty slot.
pub install-IsCounted :
    (s : Refs) (fds : Table) (other : FileId → ℕ) (f : FileId) (i : ℕ)
    → IsCounted s fds (bump other f)
    → i < open_max
    → get_or fds i none ≡ none
    → IsCounted s (set fds i (some f)) other
install-IsCounted s fds other f i c lt empty = record {
  sized = length-set fds i (some f) ∙ c.sized;
  counted = λ g.
      ground
        (arith, c.counted g, count_file-set fds i g (some f), empty, ap (holds g) empty, c.sized);
  small = c.small;
  gone = c.gone;
}

-- The reference of a slot is taken out of the table.
pub remove-IsCounted :
    (s : Refs) (fds : Table) (other : FileId → ℕ) (f : FileId) (i : ℕ)
    → IsCounted s fds other
    → i < open_max
    → get_or fds i none ≡ some f
    → IsCounted s (set fds i none) (bump other f)
remove-IsCounted s fds other f i c lt full = record {
  sized = length-set fds i none ∙ c.sized;
  counted = λ g.
      ground (arith, c.counted g, count_file-set fds i g none, full, ap (holds g) full, c.sized);
  small = c.small;
  gone = c.gone;
}

pub file_get-IsCounted :
    (s : Refs) (fds : Table) (other : FileId → ℕ) (f : FileId)
    → IsCounted s fds other
    → s.refcount f ≢ 0
    → s.refcount f + 1 < 2 ^ 32
    → IsCounted (file_get s f) fds (bump other f)
unfolding file_get
file_get-IsCounted s fds other f c ne low = record {
  sized = c.sized;
  counted = λ g. ground (arith, c.counted g, c.counted f);
  small = λ g. ground (arith, c.small g);
  gone = All-update s.refcount f (add32 (s.refcount f) 1) s.freed ne c.gone;
}

given_back :
    (P : FileId → Type 0) (b : Bool) (f : FileId) (gs : List FileId)
    → (b ≡ true → P f)
    → All P gs
    → All P (if b then f ∷ gs else gs)
given_back P true f gs p all = (p refl, all)
given_back P false f gs p all = all

bumped-ne :
    (s : Refs) (fds : Table) (other : FileId → ℕ) (f : FileId)
    → IsCounted s fds (bump other f)
    → s.refcount f ≢ 0
bumped-ne s fds other f c z = ground (arith, c.counted f, z)

pub file_put-IsCounted :
    (s : Refs) (fds : Table) (other : FileId → ℕ) (f : FileId)
    → IsCounted s fds (bump other f)
    → IsCounted (file_put s f) fds other
unfolding file_put
file_put-IsCounted s fds other f c = record {
  sized = c.sized;
  counted = λ g. ground (arith, c.counted g, c.counted f, c.small f);
  small = λ g. ground (arith, c.small g);
  gone =
      given_back (λ g. update s.refcount f (sub32 (s.refcount f) 1) g ≡ 0)
        (sub32 (s.refcount f) 1 == 0) f s.freed (λ z. ground (arith, c.small f, c.counted f, z))
        (All-update s.refcount f (sub32 (s.refcount f) 1) s.freed (bumped-ne s fds other f c)
          c.gone);
}

-- Emptying a slot and putting what was in it.
pub put_slot-IsCounted :
    (s : Refs) (fds : Table) (other : FileId → ℕ) (i : ℕ)
    → IsCounted s fds other
    → i < open_max
    → IsCounted (put_slot s (get_or fds i none)) (set fds i none) other
put_slot-IsCounted s fds other i c lt = elim (Option-cases (get_or fds i none)) [
  | inl e ↦ rw e (record {
    sized = length-set fds i none ∙ c.sized;
    counted =
        λ g. ground (arith, c.counted g, count_file-set fds i g none, ap (holds g) e, c.sized);
    small = c.small;
    gone = c.gone;
  })
  | inr (f, e) ↦
      rw e (file_put-IsCounted s (set fds i none) other f (remove-IsCounted s fds other f i c lt e))
]

alloc_from-empty :
    (j : ℕ) (fds : Table) (i : ℕ)
    → alloc_from j fds ≡ some i
    → (j ≤ i) × (i < j + length fds) × (get_or fds (i - j) none ≡ none)
unfolding alloc_from
alloc_from-empty j [] i e = absurd (cc)
alloc_from-empty j (none ∷ fds) i e =
    let same : i ≡ j = ground (arith, e) in
    let zero_place : i - j ≡ 0 = omega arith in (omega arith, omega arith, rw zero_place refl)
alloc_from-empty j (some f ∷ fds) i e =
    let ih = alloc_from-empty (j + 1) fds i e in
    let place : i - j ≡ suc (i - (j + 1)) = omega (arith, ih.0) in
    (omega (arith, ih.0), omega (arith, ih.1), rw place ih.2)

pub files_alloc_fd-empty :
    (fds : Table) (i : ℕ)
    → files_alloc_fd fds ≡ some i
    → (i < length fds) × (get_or fds i none ≡ none)
unfolding files_alloc_fd
files_alloc_fd-empty fds i e =
    let r = alloc_from-empty 0 fds i e in
    let place : i - 0 ≡ i = omega arith in
    (omega (arith, r.1), ap (λ k. get_or fds k none) (sym place) ∙ r.2)

-- A file in a slot has a reference.
pub held-ne :
    (s : Refs) (fds : Table) (other : FileId → ℕ) (f : FileId) (i : ℕ)
    → IsCounted s fds other
    → get_or fds i none ≡ some f
    → s.refcount f ≢ 0
held-ne s fds other f i c e z = omega (arith, c.counted f, count_file-pos fds i f e)
  where
    count_file-pos :
        (fds : Table) (i : ℕ) (f : FileId) → get_or fds i none ≡ some f → 1 ≤ count_file f fds
    count_file-pos [] i f e = absurd (cc)
    count_file-pos (o ∷ fds) zero f e = ground (arith, e, ap (holds f) e)
    count_file-pos (o ∷ fds) (suc i) f e = omega (arith, count_file-pos fds i f e)
