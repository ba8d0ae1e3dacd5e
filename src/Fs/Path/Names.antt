-- ===== src/Fs/Path/Names.antt =====
-- fs/vfs.c: the names of a path.
use ore_unix.Common.{
  ℕ, zero, suc, ◌≤◌, ◌<◌, ◌≡◌, refl, sym, ap, ◌∙◌, true, false, ◌⊎◌, inl, inr, some, List, [], ◌∷◌,
  ◌==◌, if◌then◌else◌, length, Bool-cases, arith,
}
use ore_unix.Fs.Path.{
  Text, components, skip_slashes, slash, take_component, then_step, add_step, Step,
}

-- The text before the first slash, and the texts between and behind the slashes.
abbrev pub segments : Text → Text × List Text
segments [] = ([], [])
segments (c ∷ cs) = let r = segments cs in if c == slash then ([], r.0 ∷ r.1) else (c ∷ r.0, r.1)

abbrev pub keep : Text → List Text → List Text
keep [] rest = rest
keep (c ∷ cs) rest = (c ∷ cs) ∷ rest

abbrev pub nonempty : List Text → List Text
nonempty [] = []
nonempty (t ∷ ts) = keep t (nonempty ts)

-- The texts between the slashes that are not empty.
abbrev pub names : Text → List Text
names path = nonempty ((segments path).0 ∷ (segments path).1)

-- The steps for a list of names.
abbrev pub steps : List Text → List Step
steps [] = []
steps (name ∷ names) = add_step name (steps names)

names-slash : (c : ℕ) (cs : Text) → (c == slash) ≡ true → names (c ∷ cs) ≡ names cs
names-slash c cs e = rw (to_eq c e) refl
  where
    to_eq : (c : ℕ) → (c == slash) ≡ true → c ≡ slash
    to_eq c e = ground (arith, e)

skip_slash : (c : ℕ) (cs : Text) → (c == slash) ≡ true → skip_slashes (c ∷ cs) ≡ skip_slashes cs
skip_slash c cs e = rw e refl

skip_char : (c : ℕ) (cs : Text) → (c == slash) ≡ false → skip_slashes (c ∷ cs) ≡ c ∷ cs
skip_char c cs e = rw e refl

names-skip_slashes : (cs : Text) → names (skip_slashes cs) ≡ names cs
names-skip_slashes [] = refl
names-skip_slashes (c ∷ cs) = elim (Bool-cases (c == slash)) [
  | inl e ↦ ap names (skip_slash c cs e) ∙ names-skip_slashes cs ∙ sym (names-slash c cs e)
  | inr e ↦ ap names (skip_char c cs e)
]

-- One component, with what the reference definition has for it.
Cuts : Text → Type 0
Cuts p =
    ((take_component p).0 ≡ (segments p).0) × (names (take_component p).1 ≡ nonempty (segments p).1)

front_at : (c : ℕ) (cs : Text) → c ≡ slash → Cuts (c ∷ cs)
unfolding Cuts
front_at c cs e = rw e (refl, refl)

take_component-segments : (p : Text) → Cuts p
unfolding Cuts
take_component-segments [] = (refl, refl)
take_component-segments (c ∷ cs) = elim (Bool-cases (c == slash)) [
  | inl e ↦ front_at c cs (ground (arith, e))
  | inr e ↦ (let ih = take_component-segments cs in rw e (ap (c ∷◌) ih.0, ih.1))
]

take_component-shorter : (p : Text) → length (take_component p).1 ≤ length p
take_component-shorter [] = omega arith
take_component-shorter (c ∷ cs) = elim (Bool-cases (c == slash)) [
  | inl e ↦ rw e (omega arith)
  | inr e ↦ rw e (omega (arith, take_component-shorter cs))
]

skip_slashes-shorter : (p : Text) → length (skip_slashes p) ≤ length p
skip_slashes-shorter [] = omega arith
skip_slashes-shorter (c ∷ cs) = elim (Bool-cases (c == slash)) [
  | inl e ↦ rw e (omega (arith, skip_slashes-shorter cs))
  | inr e ↦ rw e (omega arith)
]

skip_slashes-head : (p : Text) (c : ℕ) (cs : Text) → skip_slashes p ≡ c ∷ cs → (c == slash) ≡ false
skip_slashes-head [] c cs e = absurd (cc)
skip_slashes-head (x ∷ xs) c cs e = elim (Bool-cases (x == slash)) [
  | inl h ↦ skip_slashes-head xs c cs (sym (skip_slash x xs h) ∙ e)
  | inr h ↦
      (let same : x ≡ c = heads x c xs cs (sym (skip_char x xs h) ∙ e) in
        ap (λ y. y == slash) (sym same) ∙ h)
]
  where
    heads : (x c : ℕ) (xs cs : Text) → x ∷ xs ≡ c ∷ cs → x ≡ c
    heads x c xs cs e = cc (e)

names_cons :
    (c : ℕ) (cs : Text)
    → (c == slash) ≡ false
    → (let r = take_component (c ∷ cs) in names (c ∷ cs) ≡ r.0 ∷ names r.1)
unfolding Cuts
names_cons c cs e =
    let t = take_component-segments cs in
    rw e (
      ap (λ x. (c ∷ x) ∷ nonempty (segments cs).1) (sym t.0)
      ∙ ap (((c ∷ (take_component cs).0)) ∷◌) (sym t.1))

Text-cases : (p : Text) → (p ≡ []) ⊎ ((c : ℕ) × (cs : Text) × (p ≡ c ∷ cs))
Text-cases [] = inl refl
Text-cases (c ∷ cs) = inr (c, cs, refl)

take_shorter :
    (c : ℕ) (cs : Text)
    → (c == slash) ≡ false
    → length (take_component (c ∷ cs)).1 < length (c ∷ cs)
take_shorter c cs e = rw e (omega (arith, take_component-shorter cs))

-- The loop of `vfs_lookup` ends, in at most one round more than the path has characters, and
-- takes the steps for the texts between the slashes that are not empty, in their order.
pub components-names :
    (rounds : ℕ) (path : Text)
    → length path < rounds
    → components rounds path ≡ some (steps (names path))
unfolding components
components-names zero path lt = absurd (omega arith)
components-names (suc n) path lt = elim (Text-cases (skip_slashes path)) [
  | inl e ↦ rw (components, e) (ap some (ap steps (ap names (sym e) ∙ names-skip_slashes path)))
  | inr (c, cs, e) ↦
      let r = take_component (c ∷ cs) in
      let h = skip_slashes-head path c cs e in
      let short : length r.1 < n =
        omega (arith, lt, take_shorter c cs h, skip_slashes-shorter path, ap length e) in
      rw (components, e)
        (ap (then_step r.0) (components-names n r.1 short)
          ∙ ap (λ ns. some (steps ns))
              (sym (names_cons c cs h) ∙ ap names (sym e) ∙ names-skip_slashes path))
]
