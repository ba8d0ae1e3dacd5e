-- ===== src/Fs/Path/Parent.antt =====
-- fs/vfs.c: `vfs_lookup_parent` against `vfs_lookup`.
use ore_unix.Common.{
  Bool, if◌then◌else◌, ℕ, zero, suc, ◌+◌, ◌<◌, ◌≡◌, refl, sym, ap, ◌∙◌, true, false, inl, inr,
  Option, none, some, List, [], ◌∷◌, ◌++◌, leb, ◌==◌, length, take, Bool-cases, Option-cases, arith,
}
use ore_unix.Fs.Path.{
  Step, up, child, add_step, is_dot, is_dot_dot, Text, components, cut_at, in_dir, last_slash,
  name_max, parent_at, slash, too_long, vfs_lookup_parent,
}
use ore_unix.Fs.Path.Names.{components-names, keep, names, nonempty, segments, steps}

-- The path is cut at its last slash.
Cut : Text → Text → Text → Type 0
Cut path dir name = (path ≡ dir ++ (slash ∷ name)) × (last_slash name ≡ none)

last_here :
    (c : ℕ) (cs dir name : Text)
    → last_slash cs ≡ none
    → cut_at c cs none ≡ some (dir, name)
    → Cut (c ∷ cs) dir name
unfolding Cut
last_here c cs dir name e h = elim (Bool-cases (c == slash)) [
  | inl s ↦
      let same : c ≡ slash = ground (arith, s) in
      let r = parts cs dir name (step c cs dir name s h) in
      (
        ap (λ x. x ∷ cs) same ∙ ap (slash ∷◌) r.1 ∙ ap (λ d. d ++ (slash ∷ name)) r.0,
        ap last_slash (sym r.1) ∙ e,
      )
  | inr s ↦ (let no_path = none_some c cs dir name s h in absurd (cc))
]
  where
    step :
        (c : ℕ) (cs dir name : Text)
        → (c == slash) ≡ true
        → cut_at c cs none ≡ some (dir, name)
        → ◌≡◌ {A = Option (Text × Text)} (some ([], cs)) (some (dir, name))
    step c cs dir name s h = sym (rw s refl) ∙ h

    parts :
        (cs dir name : Text)
        → ◌≡◌ {A = Option (Text × Text)} (some ([], cs)) (some (dir, name))
        → ([] ≡ dir) × (cs ≡ name)
    parts cs dir name e = (cc, cc)

    none_some :
        (c : ℕ) (cs dir name : Text)
        → (c == slash) ≡ false
        → cut_at c cs none ≡ some (dir, name)
        → ◌≡◌ {A = Option (Text × Text)} none (some (dir, name))
    none_some c cs dir name s h = sym (rw s refl) ∙ h

last_on :
    (c : ℕ) (cs dir name dir' name' : Text)
    → last_slash cs ≡ some (dir', name')
    → cut_at c cs (some (dir', name')) ≡ some (dir, name)
    → Cut cs dir' name'
    → Cut (c ∷ cs) dir name
unfolding Cut
last_on c cs dir name dir' name' l h cut =
    let d : c ∷ dir' ≡ dir = cc in
    let n : name' ≡ name = cc in rw (sym d, sym n) (ap (c ∷◌) cut.0, cut.1)

last_slash-Cut : (path dir name : Text) → last_slash path ≡ some (dir, name) → Cut path dir name
unfolding last_slash
last_slash-Cut [] dir name e = absurd (cc)
last_slash-Cut (c ∷ cs) dir name e = elim (Option-cases (last_slash cs)) [
  | inl l ↦ last_here c cs dir name l (sym (ap (cut_at c cs) l) ∙ e)
  | inr (r, l) ↦
      last_on c cs dir name r.0 r.1 l (sym (ap (cut_at c cs) l) ∙ e) (last_slash-Cut cs r.0 r.1 l)
]

cut_found : (c : ℕ) (cs : Text) → (c == slash) ≡ true → cut_at c cs none ≡ some ([], cs)
cut_found c cs s = rw s refl

cut_at_some :
    (c : ℕ) (cs : Text) (o : Option (Text × Text))
    → cut_at c cs o ≡ none
    → ((c == slash) ≡ false) × (o ≡ none)
cut_at_some c cs none e = elim (Bool-cases (c == slash)) [
  | inl s ↦ (let found = cut_found c cs s in absurd (cc))
  | inr s ↦ (s, refl)
]
cut_at_some c cs (some r) e = absurd (cc)

no_slash : (p : Text) → last_slash p ≡ none → segments p ≡ (p, [])
unfolding last_slash
no_slash [] e = refl
no_slash (c ∷ cs) e = let h = cut_at_some c cs (last_slash cs) e in rw (h.0, no_slash cs h.1) refl

segments-append :
    (dir name : Text)
    → segments (dir ++ (slash ∷ name))
      ≡ ((segments dir).0, (segments dir).1 ++ ((segments name).0 ∷ (segments name).1))
segments-append [] name = refl
segments-append (c ∷ cs) name = elim (Bool-cases (c == slash)) [
  | inl e ↦ rw (e, segments-append cs name) refl
  | inr e ↦ rw (e, segments-append cs name) refl
]

nonempty-append : (xs ys : List Text) → nonempty (xs ++ ys) ≡ nonempty xs ++ nonempty ys
nonempty-append [] ys = refl
nonempty-append ([] ∷ xs) ys = nonempty-append xs ys
nonempty-append ((c ∷ cs) ∷ xs) ys = ap ((c ∷ cs) ∷◌) (nonempty-append xs ys)

names-append : (dir name : Text) → names (dir ++ (slash ∷ name)) ≡ names dir ++ names name
names-append dir name =
    rw (segments-append dir name) (
      nonempty-append ((segments dir).0 ∷ (segments dir).1) ((segments name).0 ∷ (segments name).1))

names-no_slash : (p : Text) → last_slash p ≡ none → names p ≡ keep p []
names-no_slash p e = rw (no_slash p e) refl

take_all : (n : ℕ) (t name : Text) → take n t ≡ name → length name < n → t ≡ name
take_all zero t name e lt = absurd (omega arith)
take_all (suc n) [] name e lt = e
take_all (suc n) (c ∷ cs) [] e lt = absurd (cc)
take_all (suc n) (c ∷ cs) (x ∷ xs) e lt =
    let h : c ≡ x = cc in
    let t : take n cs ≡ xs = cc in
    ap (λ y. y ∷ cs) h ∙ ap (x ∷◌) (take_all n cs xs t (omega (arith, lt)))

parent_cut :
    (path dir name : Text) (o : Option (Text × Text))
    → parent_at path o ≡ in_dir dir name
    → (name' : Text) × (o ≡ some (dir, name')) × (take name_max name' ≡ name)
parent_cut path dir name none e = absurd (cc)
parent_cut path dir name (some ([], n)) e = absurd (cc)
parent_cut path dir name (some (c ∷ cs, n)) e = elim (Bool-cases (leb 4096 (length (c ∷ cs)))) [
  | inl b ↦ (let long = too_long_at path c cs n b in absurd (cc))
  | inr b ↦
      let found = in_dir_at path c cs n b in
      let d : c ∷ cs ≡ dir = cc in
      let m : take name_max n ≡ name = cc in (n, ap (λ x. some (x, n)) d, m)
]
  where
    too_long_at :
        (path : Text) (c : ℕ) (cs n : Text)
        → leb 4096 (length (c ∷ cs)) ≡ true
        → parent_at path (some (c ∷ cs, n)) ≡ too_long
    too_long_at path c cs n b = rw b refl

    in_dir_at :
        (path : Text) (c : ℕ) (cs n : Text)
        → leb 4096 (length (c ∷ cs)) ≡ false
        → parent_at path (some (c ∷ cs, n)) ≡ in_dir (c ∷ cs) (take name_max n)
    in_dir_at path c cs n b = rw b refl

steps-append : (xs ys : List Text) → steps (xs ++ ys) ≡ steps xs ++ steps ys
steps-append [] ys = refl
steps-append (x ∷ xs) ys = ap (add_step x) (steps-append xs ys) ∙ pushed (is_dot x) (is_dot_dot x)
  where
    pushed :
        (dot dots : Bool)
        → (if dot
            then steps xs ++ steps ys
            else if dots
            then up ∷ (steps xs ++ steps ys)
            else child x ∷ (steps xs ++ steps ys))
          ≡ (if dot then steps xs else if dots then up ∷ steps xs else child x ∷ steps xs)
            ++ steps ys
    pushed true dots = refl
    pushed false true = refl
    pushed false false = refl

-- Where `vfs_lookup_parent` resolves a directory and leaves a name that is not empty and shorter
-- than NAME_MAX, `vfs_lookup` of the whole path takes the steps of that directory's path, and last
-- the step for this name: none for ".", to the parent for "..", and else to the child of this name.
-- No symbolic link is met.
pub vfs_lookup_parent-components :
    (path dir name : Text) (c : ℕ) (rounds : ℕ)
    → vfs_lookup_parent path ≡ in_dir dir (c ∷ name)
    → length (c ∷ name) < name_max
    → length path < rounds
    → (found : List Step) × (components (length dir + 1) dir ≡ some found)
      × (components rounds path ≡ some (found ++ add_step (c ∷ name) []))
unfolding vfs_lookup_parent Cut
vfs_lookup_parent-components path dir name c rounds e short lt =
    let p = parent_cut path dir (c ∷ name) (last_slash path) e in
    let whole = take_all name_max p.0 (c ∷ name) p.2 short in
    let cut = last_slash-Cut path dir p.0 p.1 in
    let bare : last_slash (c ∷ name) ≡ none = ap last_slash (sym whole) ∙ cut.1 in
    let here : path ≡ dir ++ (slash ∷ c ∷ name) = cut.0 ∙ ap (λ x. dir ++ (slash ∷ x)) whole in
    (
      steps (names dir),
      components-names (length dir + 1) dir (omega arith),
      components-names rounds path lt
          ∙ ap (λ ns. some (steps ns))
              (ap names here
                ∙ names-append dir (c ∷ name)
                ∙ ap (names dir ++◌) (names-no_slash (c ∷ name) bare))
          ∙ ap some (steps-append (names dir) ((c ∷ name) ∷ [])),
    )
