-- ===== src/Fs/Tree/Names.antt =====
-- fs/vfs.c: a directory as the list of its names, and what the calls do to it.
use ore_unix.Common.Queue.{linked, list_del}
use ore_unix.Common.{
  ℕ, suc, ◌-◌, true, false, Option, none, some, List, [], ◌∷◌, ◌++◌, ◌==◌, ◌≡◌, refl, ap, ◌∙◌,
  if◌then◌else◌, take, arith, Bool-cases, ==_iff, sym, inl, inr,
}
use ore_unix.Fs.Path.{name_max}
use ore_unix.Fs.Tree.{
  Vfs, Dentry, update, same_name, find_child, unlink_sibling, set_dentry, dentry_alloc, dentry_put,
  dentry_lookup_child,
}

unfoldable pub entries : (ℕ → Dentry) → List ℕ → List (List ℕ × ℕ)
entries f [] = []
entries f (d ∷ ds) = ((f d).d_name, d) ∷ entries f ds

-- The names of a directory with the dentries they stand for.
abbrev pub listing : Vfs → ℕ → List (List ℕ × ℕ)
listing v p = entries v.dentries (v.dentries p).d_children

unfoldable pub find_name : List ℕ → List (List ℕ × ℕ) → Option ℕ
unfolding same_name
find_name name [] = none
find_name name ((n, d) ∷ es) =
    let rest = find_name name es in if same_name n name then some d else rest

unfoldable pub remove : ℕ → List (List ℕ × ℕ) → List (List ℕ × ℕ)
remove d [] = []
remove d ((n, e) ∷ es) = if e == d then es else (n, e) ∷ remove d es

find_child-entries :
    (v : Vfs) (name : List ℕ) (ds : List ℕ)
    → find_child v name ds ≡ find_name name (entries v.dentries ds)
unfolding find_child find_name entries
find_child-entries v name [] = refl
find_child-entries v name (d ∷ ds) =
    ap (λ r. if same_name (v.dentries d).d_name name then some d else r)
      (find_child-entries v name ds)

pub dentry_lookup_child-listing :
    (v : Vfs) (p : ℕ) (name : List ℕ) → dentry_lookup_child v p name ≡ find_name name (listing v p)
unfolding dentry_lookup_child
dentry_lookup_child-listing v p name = find_child-entries v name (v.dentries p).d_children

pub entries_same :
    (f g : ℕ → Dentry) (ds : List ℕ) (d : ℕ)
    → linked d ds ≡ false
    → ((x : ℕ) → (x == d) ≡ false → (f x).d_name ≡ (g x).d_name)
    → entries f ds ≡ entries g ds
unfolding entries linked
entries_same f g [] d h e = refl
entries_same f g (x ∷ ds) d h e =
    let ne : (x == d) ≡ false = ground (arith, h) in
    rw (entries, e x ne, entries_same f g ds d (ground (arith, h)) e) refl

entries_all :
    (f g : ℕ → Dentry) (ds : List ℕ)
    → ((x : ℕ) → (f x).d_name ≡ (g x).d_name)
    → entries f ds ≡ entries g ds
unfolding entries
entries_all f g [] e = refl
entries_all f g (x ∷ ds) e = rw (entries, e x, entries_all f g ds e) refl

pub entries-append :
    (f : ℕ → Dentry) (ds es : List ℕ) → entries f (ds ++ es) ≡ entries f ds ++ entries f es
unfolding entries
entries-append f [] es = refl
entries-append f (d ∷ ds) es = ap (λ r. ((f d).d_name, d) ∷ r) (entries-append f ds es)

pub entries-list_del :
    (f : ℕ → Dentry) (d : ℕ) (ds : List ℕ) → entries f (list_del d ds) ≡ remove d (entries f ds)
unfolding entries list_del remove
entries-list_del f d [] = refl
entries-list_del f d (x ∷ ds) = elim (Bool-cases (x == d)) [
  | inl e ↦ rw (list_del, remove, e) refl
  | inr e ↦ rw (list_del, remove, e) (ap (λ r. ((f x).d_name, x) ∷ r) (entries-list_del f d ds))
]

pub same_number : (d : ℕ) → (d == d) ≡ true
same_number d = ground arith

pub other_number : (p d : ℕ) → (p == d) ≡ false → (d == p) ≡ false
other_number p d e = ground (arith, e)

pub update_keeps {ℓ κ} :
    {A : Type ℓ} {B : Type κ} (π : A → B) (f : ℕ → A) (d : ℕ) (x : A) (y : ℕ)
    → π x ≡ π (f d)
    → π (update f d x y) ≡ π (f y)
update_keeps π f d x y e = elim (Bool-cases (y == d)) [
  | inl h ↦ rw h (e ∙ ap (λ z. π (f z)) (sym ((==_iff y d).0 h)))
  | inr h ↦ rw h refl
]

-- A change of a dentry that keeps its name and its children keeps the names of every directory.
pub listing_keeps :
    (v : Vfs) (d q : ℕ) (x : Dentry)
    → x.d_name ≡ (v.dentries d).d_name
    → x.d_children ≡ (v.dentries d).d_children
    → listing (set_dentry v d x) q ≡ listing v q
listing_keeps v d q x name children =
    let same = update_keeps (λ z. z.d_children) v.dentries d x q children in
    let all = λ (y : ℕ). update_keeps (λ z. z.d_name) v.dentries d x y name in
    entries_all (update v.dentries d x) v.dentries ((update v.dentries d x q).d_children) all
    ∙ ap (entries v.dentries) same

pub dentry_put-held :
    (v : Vfs) (p n : ℕ)
    → (v.dentries p).d_refcount ≡ suc (suc n)
    → dentry_put v p ≡ set_dentry v p (record (v.dentries p) { d_refcount = suc n })
unfolding dentry_put
dentry_put-held v p n held =
    let many : (suc (suc n) == 1) ≡ false = ground arith in
    let less : suc (suc n) - 1 ≡ suc n = omega arith in rw (dentry_put, held, many, less) refl

pub listing-dentry_put :
    (v : Vfs) (p q n : ℕ)
    → (v.dentries p).d_refcount ≡ suc (suc n)
    → listing (dentry_put v p) q ≡ listing v q
listing-dentry_put v p q n held =
    ap (λ w. listing w q) (dentry_put-held v p n held)
    ∙ listing_keeps v p q (record (v.dentries p) { d_refcount = suc n }) refl refl

dentry_alloc-children :
    (v : Vfs) (d p : ℕ) (name : List ℕ)
    → ((dentry_alloc v d name p).dentries p).d_children ≡ (v.dentries p).d_children ++ (d ∷ [])
unfolding dentry_alloc
dentry_alloc-children v d p name = rw (dentry_alloc, same_number p) refl

dentry_alloc-name :
    (v : Vfs) (d p : ℕ) (name : List ℕ)
    → (d == p) ≡ false
    → ((dentry_alloc v d name p).dentries d).d_name ≡ take name_max name
unfolding dentry_alloc
dentry_alloc-name v d p name back = rw (dentry_alloc, same_number d, back) refl

dentry_alloc-names :
    (v : Vfs) (d p : ℕ) (name : List ℕ) (x : ℕ)
    → (x == d) ≡ false
    → ((dentry_alloc v d name p).dentries x).d_name ≡ (v.dentries x).d_name
unfolding dentry_alloc
dentry_alloc-names v d p name x ne = elim (Bool-cases (x == p)) [
  | inl h ↦ rw (dentry_alloc, h) (ap (λ y. (v.dentries y).d_name) (sym ((==_iff x p).0 h)))
  | inr h ↦ rw (dentry_alloc, h, ne) refl
]

pub listing-dentry_alloc :
    (v : Vfs) (d p : ℕ) (name : List ℕ)
    → (p == d) ≡ false
    → linked d (v.dentries p).d_children ≡ false
    → listing (dentry_alloc v d name p) p ≡ listing v p ++ ((take name_max name, d) ∷ [])
unfolding dentry_alloc entries
listing-dentry_alloc v d p name other fresh =
    let f = (dentry_alloc v d name p).dentries in
    let ds = (v.dentries p).d_children in
    let back = other_number p d other in
    ap (entries f) (dentry_alloc-children v d p name)
    ∙ entries-append f ds (d ∷ [])
    ∙ ap (λ es. es ++ entries f (d ∷ []))
        (entries_same f v.dentries ds d fresh (dentry_alloc-names v d p name))
    ∙ ap (λ n. listing v p ++ ((n, d) ∷ [])) (dentry_alloc-name v d p name back)

-- Taking a child off a directory takes its first entry off the names.
pub listing-unlink_sibling :
    (v : Vfs) (d p : ℕ) → listing (unlink_sibling v d (some p)) p ≡ remove d (listing v p)
listing-unlink_sibling v d p =
    let x = record (v.dentries p) { d_children = list_del d (v.dentries p).d_children } in
    let all = λ (y : ℕ). update_keeps (λ z. z.d_name) v.dentries p x y refl in
    let here : (update v.dentries p x p).d_children ≡ x.d_children = rw (same_number p) refl in
    entries_all (update v.dentries p x) v.dentries ((update v.dentries p x p).d_children) all
    ∙ ap (entries v.dentries) here
    ∙ entries-list_del v.dentries d (v.dentries p).d_children

pub find_name-append :
    (name : List ℕ) (es fs : List (List ℕ × ℕ)) (t : ℕ)
    → find_name name es ≡ some t
    → find_name name (es ++ fs) ≡ some t
unfolding find_name
find_name-append name [] fs t e = ground (arith, e)
find_name-append name ((n, d) ∷ es) fs t e = ground (arith, e, find_name-append name es fs t)

-- Another dentry that is found is found without that one too.
pub find_name-remove :
    (name : List ℕ) (es : List (List ℕ × ℕ)) (d t : ℕ)
    → (t == d) ≡ false
    → find_name name es ≡ some t
    → find_name name (remove d es) ≡ some t
unfolding find_name remove
find_name-remove name [] d t ne e = ground (arith, e)
find_name-remove name ((n, x) ∷ es) d t ne e =
    ground (arith, ne, e, find_name-remove name es d t ne)

pub unlink_sibling_refs :
    (v : Vfs) (d p : ℕ)
    → ((unlink_sibling v d (some p)).dentries p).d_refcount ≡ (v.dentries p).d_refcount
unlink_sibling_refs v d p =
    let x = record (v.dentries p) { d_children = list_del d (v.dentries p).d_children } in
    update_keeps (λ z. z.d_refcount) v.dentries p x p refl
