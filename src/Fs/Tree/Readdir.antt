-- ===== src/Fs/Tree/Readdir.antt =====
-- fs/ramfs.c, `ramfs_readdir`. `d_reclen` is always the size of the record; the position is not so
-- large that its conversion to `int` changes it.
use ore_unix.Common.{
  ℕ, zero, suc, ◌+◌, ◌/◌, ◌%◌, ◌^◌, Option, none, some, List, [], ◌∷◌, ◌==◌, ltb, leb,
  if◌then◌else◌, take, drop, length, ◌≡◌, refl,
}
use ore_unix.Fs.Path.{name_max}
use ore_unix.Fs.Tree.{Vfs, is_dir}

-- `d_type` stays as it was in the caller's memory for a child without an inode.
pub record Dirent : Type 0 where
  pub d_ino : ℕ
  pub d_off : ℕ
  pub d_name : List ℕ
  pub d_type : Option ℕ

-- `i_mode & S_IFMT`, in units of `S_IFIFO`.
unfoldable pub file_type : ℕ → ℕ
file_type mode =
    let format = mode / 2 ^ 12 % 16 in
    if is_dir mode
    then 4
    else if format == 10
    then 10
    else if format == 2
    then 2
    else if format == 6
    then 6
    else if format == 1
    then 1
    else 8

abbrev pub child_entry : Vfs → ℕ → Option ℕ → List ℕ → Dirent
child_entry v off none name = record {
  d_ino = 0;
  d_off = off;
  d_name = take name_max name;
  d_type = none;
}
child_entry v off (some i) name = record {
  d_ino = (v.inodes i).i_ino;
  d_off = off;
  d_name = take name_max name;
  d_type = some (file_type (v.inodes i).i_mode);
}

-- The entry of a child at a position.
abbrev pub dirent_of : Vfs → ℕ → ℕ → Dirent
dirent_of v off d = child_entry v off (v.dentries d).d_inode (v.dentries d).d_name

abbrev pub filled_one : Dirent → List Dirent × ℕ → List Dirent × ℕ
filled_one e (es, pos) = (e ∷ es, pos)

-- The entries that are filled in, and `f_pos` after them.
unfoldable pub readdir_from : Vfs → ℕ → ℕ → ℕ → ℕ → List ℕ → List Dirent × ℕ
readdir_from v count idx pos filled [] = ([], pos)
readdir_from v count idx pos filled (d ∷ ds) =
    let skipped = readdir_from v count (idx + 1) pos filled ds in
    let rest = readdir_from v count (idx + 1) (pos + 1) (filled + 1) ds in
    if ltb idx pos
    then skipped
    else if leb count filled
    then ([], pos)
    else filled_one (dirent_of v pos d) rest

unfoldable pub ramfs_readdir : Vfs → ℕ → ℕ → ℕ → List Dirent × ℕ
unfolding readdir_from
ramfs_readdir v dir pos count = readdir_from v count 0 pos 0 (v.dentries dir).d_children

-- Children as entries, at the positions from one on.
unfoldable pub dirents : Vfs → ℕ → List ℕ → List Dirent
dirents v pos [] = []
dirents v pos (d ∷ ds) = dirent_of v pos d ∷ dirents v (pos + 1) ds

drop_none : (n : ℕ) → drop {A = ℕ} n [] ≡ []
drop_none zero = refl
drop_none (suc n) = refl

-- What `ramfs_readdir` gives from the position on.
entries_from : Vfs → ℕ → List ℕ → List Dirent × ℕ
entries_from v pos ds = (dirents v pos ds, pos + length ds)
