-- ===== src/Fs/Path.antt =====
-- fs/vfs.c: how `vfs_lookup` cuts a path into names and steps, and `vfs_lookup_parent`. The walk
-- through the dentries is not here. A path is the list of its characters, without its end.
pub mod Names
pub mod Parent
mod Tests
use ore_unix.Common.{
  ℕ, zero, suc, ◌+◌, Bool, true, false, ◌&&◌, Option, none, some, List, [], ◌∷◌, leb, ◌==◌,
  if◌then◌else◌, length, take,
}

abbrev pub Text : Type 0
Text = List ℕ

-- '/'
abbrev pub slash : ℕ
slash = 47

abbrev pub skip_slashes : Text → Text
skip_slashes [] = []
skip_slashes (c ∷ cs) = let rest = skip_slashes cs in if c == slash then rest else c ∷ cs

-- The component at the front, and the path behind it.
abbrev pub take_component : Text → Text × Text
take_component [] = ([], [])
take_component (c ∷ cs) =
    let r = take_component cs in if c == slash then ([], c ∷ cs) else (c ∷ r.0, r.1)

-- What a component makes of the walk: to the parent, or to the child of that name.
pub data Step : Type 0 where
  up : Step
  child : Text → Step

-- The comparisons with "." and "..".
abbrev pub is_dot : Text → Bool
is_dot [] = false
is_dot (a ∷ []) = a == 46
is_dot (a ∷ b ∷ cs) = false

abbrev pub is_dot_dot : Text → Bool
is_dot_dot [] = false
is_dot_dot (a ∷ []) = false
is_dot_dot (a ∷ b ∷ []) = a == 46 && b == 46
is_dot_dot (a ∷ b ∷ c ∷ cs) = false

abbrev pub add_step : Text → List Step → List Step
add_step name rest =
    if is_dot name then rest else if is_dot_dot name then up ∷ rest else child name ∷ rest

abbrev pub then_step : Text → Option (List Step) → Option (List Step)
then_step name none = none
then_step name (some rest) = some (add_step name rest)

-- The loop of `vfs_lookup`: the steps in their order, in at most as many rounds, for a walk that
-- meets no symbolic link. The last round finds the end of the path.
unfoldable pub components : ℕ → Text → Option (List Step)
components zero path = none
components (suc rounds) path = elim (skip_slashes path) [
  | [] ↦ some []
  | c ∷ cs ↦ let r = take_component (c ∷ cs) in then_step r.0 (components rounds r.1)
]

-- `strrchr` of a slash: the path before it, and behind it.
abbrev pub cut_at : ℕ → Text → Option (Text × Text) → Option (Text × Text)
cut_at c cs none = if c == slash then some ([], cs) else none
cut_at c cs (some (dir, name)) = some (c ∷ dir, name)

unfoldable pub last_slash : Text → Option (Text × Text)
last_slash [] = none
last_slash (c ∷ cs) = cut_at c cs (last_slash cs)

-- Where `vfs_lookup_parent` looks for the parent, and the name in it.
pub data ParentOf : Type 0 where
  in_cwd : Text → ParentOf
  in_root : Text → ParentOf
  in_dir : Text → Text → ParentOf
  too_long : ParentOf

abbrev pub name_max : ℕ
name_max = 255

abbrev pub parent_at : Text → Option (Text × Text) → ParentOf
parent_at path none = in_cwd (take name_max path)
parent_at path (some ([], name)) = in_root (take name_max name)
parent_at path (some (c ∷ cs, name)) =
    if leb 4096 (length (c ∷ cs)) then too_long else in_dir (c ∷ cs) (take name_max name)

unfoldable pub vfs_lookup_parent : Text → ParentOf
vfs_lookup_parent path = parent_at path (last_slash path)
