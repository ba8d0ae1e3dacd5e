-- ===== src/Fs/Path/Tests.antt =====
-- The theorems on paths at "/a//b", and runs of the code.
use ore_unix.Common.{◌≡◌, refl, some, List, [], ◌∷◌, ◌++◌, arith}
use ore_unix.Fs.Path.Names.{components-names, names, steps}
use ore_unix.Fs.Path.Parent.{vfs_lookup_parent-components}
use ore_unix.Fs.Path.{
  Step, up, child, add_step, Text, components, in_dir, last_slash, vfs_lookup_parent,
}

-- "/a/"
abbrev a_dir : Text
a_dir = 47 ∷ 97 ∷ 47 ∷ []

-- "/a//b"
abbrev a_b : Text
a_b = 47 ∷ 97 ∷ 47 ∷ 47 ∷ 98 ∷ []

components-names_example : components 6 a_b ≡ some (steps (names a_b))
components-names_example = components-names 6 a_b (omega arith)

two_components : names a_b ≡ (97 ∷ []) ∷ (98 ∷ []) ∷ []
two_components = refl

parent_a_b : vfs_lookup_parent a_b ≡ in_dir (47 ∷ 97 ∷ 47 ∷ []) (98 ∷ [])
unfolding vfs_lookup_parent last_slash
parent_a_b = refl

vfs_lookup_parent-components_example :
    (found : List Step) × (components 4 a_dir ≡ some found)
    × (components 6 a_b ≡ some (found ++ add_step (98 ∷ []) []))
vfs_lookup_parent-components_example =
    vfs_lookup_parent-components a_b a_dir [] 98 6 parent_a_b (omega arith) (omega arith)

-- A slash at the end leaves an empty name.
parent_end : vfs_lookup_parent (47 ∷ 97 ∷ 47 ∷ []) ≡ in_dir (47 ∷ 97 ∷ []) []
unfolding vfs_lookup_parent last_slash
parent_end = refl

-- "/a/./.." goes up, where `vfs_lookup_parent` leaves ".." as the name.
up_last : components 8 (47 ∷ 97 ∷ 47 ∷ 46 ∷ 47 ∷ 46 ∷ 46 ∷ []) ≡ some (child (97 ∷ []) ∷ up ∷ [])
unfolding components
up_last = refl
