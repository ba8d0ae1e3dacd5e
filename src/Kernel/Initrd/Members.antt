-- ===== src/Kernel/Initrd/Members.antt =====
-- kernel/kmain.c: the entries of an archive and what is to be made of them.
use ore_unix.Common.{
  ℕ, suc, ◌+◌, ◌*◌, ◌%◌, ◌≤◌, ◌<◌, ◌^◌, ◌≡◌, ◌≢◌, refl, ap, ◌∙◌, sym, Bool, true, false, ◌||◌,
  Option, none, some, List, [], ◌∷◌, ◌++◌, length, ◌==◌, if◌then◌else◌, min, All, arith, add32,
}
use ore_unix.Kernel.Initrd.Text.{Holds, differ, is_bytes-differ, tail_eq, head_eq}
use ore_unix.Kernel.Initrd.{
  Action, Memory, bytes_at, is_bytes, leaf_action, make_dir, make_file, make_link, skip_dot,
  split_path, text_at, trailer, type_of,
}

pub data Kind : Type 0 where
  directory link regular : Kind
  other : ℕ → Kind

-- The four bits of the mode above the permissions, as <sys/stat.h> has them.
abbrev pub format : Kind → ℕ
format directory = 4
format link = 10
format regular = 8
format (other n) = n

-- An entry of an archive. Its name is the directories on its way and the leaf, with slashes between
-- them; `dotted` is whether "./" stands before them.
pub record Member : Type 0 where
  pub kind : Kind
  pub permissions : ℕ
  pub filesize : ℕ
  pub dirs : List (List ℕ)
  pub leaf : List ℕ
  pub dotted : Bool

abbrev pub path_of : List (List ℕ) → List ℕ → List ℕ
path_of [] leaf = leaf
path_of (d ∷ ds) leaf = d ++ (47 ∷ path_of ds leaf)

abbrev pub plain : Member → List ℕ
plain e = path_of e.dirs e.leaf

abbrev pub dots : Bool → List ℕ → List ℕ
dots true name = 46 ∷ 47 ∷ name
dots false name = name

abbrev pub mode_of : Member → ℕ
mode_of e = format e.kind * 4096 + e.permissions

abbrev pub name_of : Member → List ℕ
name_of e = dots e.dotted (plain e)

-- The name with its end.
abbrev pub name_text : Member → List ℕ
name_text e = name_of e ++ (0 ∷ [])

abbrev pub IsKind : Kind → Type 0
IsKind (other n) = (n < 16) × (n ≢ 4) × (n ≢ 8) × (n ≢ 10)
IsKind directory = Unit {0}
IsKind link = Unit {0}
IsKind regular = Unit {0}

-- The entry can be stored, and is not the trailer.
pub record IsMember (e : Member) : Type 0 where
  pub kind_known : IsKind e.kind
  pub permissions_small : e.permissions < 4096
  pub filesize_small : e.filesize < 2 ^ 32
  pub name_short : length (plain e) ≤ 510
  pub name_bytes : All (λ c. c ≢ 0) (plain e)
  pub dirs_cut : All (λ d. All (λ c. c ≢ 47) d) e.dirs
  pub leaf_cut : All (λ c. c ≢ 47) e.leaf
  pub no_trailer : differ trailer (name_text e) ≡ true
  pub undotted : e.dotted ≡ false → differ (46 ∷ 47 ∷ []) (plain e ++ (0 ∷ [])) ≡ true

-- The name "." of the archive's root.
abbrev pub is_root : List ℕ → Bool
is_root [] = false
is_root (c ∷ []) = c == 46
is_root (c ∷ d ∷ cs) = false

abbrev pub is_empty : List ℕ → Bool
is_empty [] = true
is_empty (c ∷ cs) = false

-- What is to be made of an entry whose data stand at an address. A link gets the first 255 bytes,
-- up to a zero, as its target, and is named from the root.
abbrev pub made_of : Memory → ℕ → Member → Kind → Option Action
made_of mem file e directory = some (make_dir e.dirs e.leaf e.permissions)
made_of mem file e link = some (make_link (text_at mem (min e.filesize 255) file) (47 ∷ plain e))
made_of mem file e regular = some (make_file e.dirs e.leaf file e.filesize e.permissions)
made_of mem file e (other n) = none

-- Nothing is made of the root, nor of a name that ends in a slash.
abbrev pub wanted_at : Memory → ℕ → Member → Option Action
wanted_at mem file e =
    if is_root (name_of e) || is_empty e.leaf then none else made_of mem file e e.kind

split_leaf : (leaf : List ℕ) → All (λ c. c ≢ 47) leaf → split_path leaf ≡ ([], leaf)
split_leaf [] h = refl
split_leaf (c ∷ cs) h =
    let ne : (c == 47) ≡ false = ground (arith, h.0) in rw (ne, split_leaf cs h.1) refl

split_dir :
    (d rest : List ℕ)
    → All (λ c. c ≢ 47) d
    → split_path (d ++ (47 ∷ rest)) ≡ (d ∷ (split_path rest).0, (split_path rest).1)
split_dir [] rest h = refl
split_dir (c ∷ cs) rest h =
    let ne : (c == 47) ≡ false = ground (arith, h.0) in rw (ne, split_dir cs rest h.1) refl

pub split_path-path_of :
    (dirs : List (List ℕ)) (leaf : List ℕ)
    → All (λ d. All (λ c. c ≢ 47) d) dirs
    → All (λ c. c ≢ 47) leaf
    → split_path (path_of dirs leaf) ≡ (dirs, leaf)
split_path-path_of [] leaf h l = split_leaf leaf l
split_path-path_of (d ∷ ds) leaf h l =
    let e = split_path-path_of ds leaf h.1 l in
    split_dir d (path_of ds leaf) h.0 ∙ ap (λ r. (d ∷ r.0, r.1)) e

-- The test for ".".
pub is_bytes-root :
    (mem : Memory) (a : ℕ) (name : List ℕ)
    → All (λ c. c ≢ 0) name
    → Holds mem a (name ++ (0 ∷ []))
    → is_bytes mem a (46 ∷ 0 ∷ []) ≡ is_root name
is_bytes-root mem a [] nz h =
    let first = head_eq (mem a) 0 [] [] h in
    let off : (mem a == 46) ≡ false = ground (arith, first) in rw off refl
is_bytes-root mem a (x ∷ []) nz h =
    let first = head_eq (mem a) x (bytes_at mem (add32 a 1) 1) (0 ∷ []) h in
    let rest = tail_eq (mem a) x (bytes_at mem (add32 a 1) 1) (0 ∷ []) h in
    let second = head_eq (mem (add32 a 1)) 0 [] [] rest in ground (arith, first, second)
is_bytes-root mem a (x ∷ y ∷ zs) nz h =
    let tail = zs ++ (0 ∷ []) in
    let n = length tail in
    let rest = tail_eq (mem a) x (bytes_at mem (add32 a 1) (suc n)) (y ∷ tail) h in
    let second = head_eq (mem (add32 a 1)) y (bytes_at mem (add32 (add32 a 1) 1) n) tail rest in
    ground (arith, second, nz.1.0)

-- The name without "./" stands where `skip_dot` leads.
pub skip_dot-dots :
    (mem : Memory) (a : ℕ) (dotted : Bool) (name : List ℕ)
    → Holds mem a (dots dotted name ++ (0 ∷ []))
    → (dotted ≡ false → differ (46 ∷ 47 ∷ []) (name ++ (0 ∷ [])) ≡ true)
    → Holds mem (skip_dot mem a) (name ++ (0 ∷ []))
skip_dot-dots mem a false name h d =
    rw (is_bytes-differ mem a (46 ∷ 47 ∷ []) (name ++ (0 ∷ [])) h (d refl)) h
skip_dot-dots mem a true name h d =
    let tail = name ++ (0 ∷ []) in
    let n = length tail in
    let first = head_eq (mem a) 46 (bytes_at mem (add32 a 1) (suc n)) (47 ∷ tail) h in
    let rest = tail_eq (mem a) 46 (bytes_at mem (add32 a 1) (suc n)) (47 ∷ tail) h in
    let second = head_eq (mem (add32 a 1)) 47 (bytes_at mem (add32 (add32 a 1) 1) n) tail rest in
    let third = tail_eq (mem (add32 a 1)) 47 (bytes_at mem (add32 (add32 a 1) 1) n) tail rest in
    let one : (mem a == 46) ≡ true = ground (arith, first) in
    let two : (mem (add32 a 1) == 47) ≡ true = ground (arith, second) in
    let place : add32 (add32 a 1) 1 ≡ add32 a 2 = omega arith in
    rw (one, two) (ap (λ b. bytes_at mem b n) (sym place) ∙ third)

type_of-mode :
    (n permissions : ℕ) → n < 16 → permissions < 4096 → type_of (n * 4096 + permissions) ≡ n
type_of-mode n permissions small low = omega arith

made_by :
    (mem : Memory) (file : ℕ) (e : Member) (mode n : ℕ) (c : ℕ) (cs : List ℕ)
    → leaf_action mem
        (record { mode = mode; filesize = e.filesize; namesize = n })
        file
        (plain e)
        (e.dirs, c ∷ cs)
      ≡ (if type_of mode == 4
          then some (make_dir e.dirs (c ∷ cs) (mode % 4096))
          else if type_of mode == 10
          then some (make_link (text_at mem (min e.filesize 255) file) (47 ∷ plain e))
          else if type_of mode == 8
          then some (make_file e.dirs (c ∷ cs) file e.filesize (mode % 4096))
          else none)
made_by mem file e mode n c cs = refl

made_kind :
    (mem : Memory) (file : ℕ) (e : Member) (k : Kind)
    → IsKind k
    → e.permissions < 4096
    → (let mode = format k * 4096 + e.permissions in
        if type_of mode == 4
        then some (make_dir e.dirs e.leaf (mode % 4096))
        else if type_of mode == 10
        then some (make_link (text_at mem (min e.filesize 255) file) (47 ∷ plain e))
        else if type_of mode == 8
        then some (make_file e.dirs e.leaf file e.filesize (mode % 4096))
        else none)
      ≡ made_of mem file e k
made_kind mem file e directory known low =
    let t = type_of-mode 4 e.permissions (omega arith) low in
    let r : (4 * 4096 + e.permissions) % 4096 ≡ e.permissions = omega arith in rw (t, r) refl
made_kind mem file e link known low =
    let t = type_of-mode 10 e.permissions (omega arith) low in rw t refl
made_kind mem file e regular known low =
    let t = type_of-mode 8 e.permissions (omega arith) low in
    let r : (8 * 4096 + e.permissions) % 4096 ≡ e.permissions = omega arith in rw (t, r) refl
made_kind mem file e (other n) known low =
    let t = type_of-mode n e.permissions known.0 low in
    let a : (n == 4) ≡ false = ground (arith, known.1) in
    let b : (n == 8) ≡ false = ground (arith, known.2) in
    let c : (n == 10) ≡ false = ground (arith, known.3) in rw (t, a, b, c) refl

leaf_action-leaf :
    (mem : Memory) (file : ℕ) (e : Member) (n : ℕ) (leaf : List ℕ)
    → leaf ≡ e.leaf
    → IsKind e.kind
    → e.permissions < 4096
    → leaf_action mem
        (record { mode = mode_of e; filesize = e.filesize; namesize = n })
        file
        (plain e)
        (e.dirs, leaf)
      ≡ (if is_empty leaf then none else made_of mem file e e.kind)
leaf_action-leaf mem file e n [] same known low = refl
leaf_action-leaf mem file e n (c ∷ cs) same known low =
    made_by mem file e (mode_of e) n c cs ∙ rw same (made_kind mem file e e.kind known low)

pub leaf_action-made :
    (mem : Memory) (file : ℕ) (e : Member) (n : ℕ)
    → IsKind e.kind
    → e.permissions < 4096
    → leaf_action mem
        (record { mode = mode_of e; filesize = e.filesize; namesize = n })
        file
        (plain e)
        (e.dirs, e.leaf)
      ≡ (if is_empty e.leaf then none else made_of mem file e e.kind)
leaf_action-made mem file e n known low = leaf_action-leaf mem file e n e.leaf refl known low
