-- ===== src/Fs/Tree.antt =====
-- fs/vfs.c and fs/ramfs.c: the tree of dentries with their inodes, and the calls that change a
-- directory, from where `vfs_lookup_parent` has found it. Dentries and inodes are known by numbers
-- in place of addresses; what the caches return is an argument. An inode has ramfs's operations,
-- which has all that the calls test for, or none. Times and owners are not followed; reference
-- counts stay below 2 ^ 32.
pub mod Calls
pub mod Names
pub mod Change
pub mod Unlink
pub mod Inodes
pub mod Readdir
pub mod Rename
mod Tests
use ore_unix.Common.Errno.{Errno, enoent, enomem, eisdir, enotempty}
use ore_unix.Common.Queue.{list_del}
use ore_unix.Common.{
  add32, ℕ, zero, suc, ◌+◌, ◌-◌, ◌/◌, ◌%◌, ◌^◌, Bool, true, false, ◌&&◌, Option, none, some, List,
  [], ◌∷◌, ◌++◌, ◌==◌, if◌then◌else◌, take, length,
}
use ore_unix.Fs.Path.{name_max}

-- `struct dentry` and `struct inode`, with the target of a symbolic link.
pub record Dentry : Type 0 where
  pub d_name : List ℕ
  pub d_parent : Option ℕ
  pub d_inode : Option ℕ
  pub d_refcount : ℕ
  pub d_children : List ℕ

pub record Inode : Type 0 where
  pub i_ino : ℕ
  pub i_mode : ℕ
  pub i_nlink : ℕ
  pub i_refcount : ℕ
  pub i_rdev : ℕ
  -- Whether `i_ops` is `ramfs_inode_ops`; `false` is a null pointer.
  pub i_ops : Bool
  pub target : Option (List ℕ)

pub data Freed : Type 0 where
  dentry_at inode_at data_at : ℕ → Freed

pub record Vfs : Type 0 where
  pub dentries : ℕ → Dentry
  pub inodes : ℕ → Inode
  pub next_ino : ℕ
  pub freed : List Freed

abbrev pub update {ℓ} : {A : Type ℓ} → (ℕ → A) → ℕ → A → ℕ → A
update f a x b = if b == a then x else f b

abbrev pub set_dentry : Vfs → ℕ → Dentry → Vfs
set_dentry v d x = record v { dentries = update v.dentries d x }

abbrev pub set_inode : Vfs → ℕ → Inode → Vfs
set_inode v i x = record v { inodes = update v.inodes i x }

-- `strcmp(a, b) == 0`
unfoldable pub same_name : List ℕ → List ℕ → Bool
same_name [] [] = true
same_name [] (c ∷ b) = false
same_name (c ∷ a) [] = false
same_name (c ∷ a) (d ∷ b) = c == d && same_name a b

-- `list_del` of `d_sibling`.
abbrev pub unlink_sibling : Vfs → ℕ → Option ℕ → Vfs
unlink_sibling v d none = v
unlink_sibling v d (some p) =
    let x = v.dentries p in set_dentry v p (record x { d_children = list_del d x.d_children })

unfoldable pub inode_get : Vfs → ℕ → Vfs
inode_get v i = let x = v.inodes i in set_inode v i (record x { i_refcount = x.i_refcount + 1 })

unfoldable pub inode_put : Vfs → ℕ → Vfs
inode_put v i =
    let x = v.inodes i in
    if x.i_refcount == 1
    then record v { freed = inode_at i ∷ v.freed }
    else set_inode v i (record x { i_refcount = x.i_refcount - 1 })

unfoldable pub dentry_alloc : Vfs → ℕ → List ℕ → ℕ → Vfs
dentry_alloc v d name p =
    let x = v.dentries p in
    set_dentry
      (set_dentry v d (record {
        d_name = take name_max name;
        d_parent = some p;
        d_inode = none;
        d_refcount = 1;
        d_children = [];
      }))
      p (record x { d_children = x.d_children ++ (d ∷ []) })

abbrev pub put_of : Vfs → Option ℕ → Vfs
put_of v none = v
put_of v (some i) = inode_put v i

unfoldable pub dentry_free : Vfs → ℕ → Vfs
unfolding inode_put
dentry_free v d =
    let x = v.dentries d in
    let v' = put_of (unlink_sibling v d x.d_parent) x.d_inode in
    record v' { freed = dentry_at d ∷ v'.freed }

unfoldable pub dentry_get : Vfs → ℕ → Vfs
dentry_get v d = let x = v.dentries d in set_dentry v d (record x { d_refcount = x.d_refcount + 1 })

unfoldable pub dentry_put : Vfs → ℕ → Vfs
unfolding dentry_free
dentry_put v d =
    let x = v.dentries d in
    if x.d_refcount == 1
    then dentry_free v d
    else set_dentry v d (record x { d_refcount = x.d_refcount - 1 })

-- The first child of that name.
unfoldable pub find_child : Vfs → List ℕ → List ℕ → Option ℕ
find_child v name [] = none
find_child v name (d ∷ ds) =
    let rest = find_child v name ds in if same_name (v.dentries d).d_name name then some d else rest

unfoldable pub dentry_lookup_child : Vfs → ℕ → List ℕ → Option ℕ
dentry_lookup_child v p name = find_child v name (v.dentries p).d_children

abbrev pub is_dir : ℕ → Bool
is_dir mode = mode / 2 ^ 12 % 16 == 4

-- A call succeeds, fails, or reads through a null `d_inode`.
pub data Result : Type 0 where
  done : Vfs → Result
  fails : Errno → Vfs → Result
  null_inode : Result

-- `ramfs_new_inode` at an address, with the target, the device number and the operations that its
-- callers set.
unfoldable pub ramfs_new_inode : Vfs → ℕ → ℕ → Option (List ℕ) → ℕ → Bool → Vfs
ramfs_new_inode v i mode target rdev i_ops =
    record (set_inode v i (record {
      i_ino = v.next_ino;
      i_mode = mode;
      i_nlink = 1;
      i_refcount = 1;
      i_rdev = rdev;
      i_ops = i_ops;
      target = target;
    })) { next_ino = v.next_ino + 1 }

-- `de->d_inode = inode_get(i)`
abbrev pub attach : Vfs → ℕ → ℕ → Vfs
attach v d i = let w = inode_get v i in set_dentry w d (record (w.dentries d) { d_inode = some i })

-- `none` is no memory for the inode; `strdup` of a link's target finds memory.
unfoldable pub ramfs_create : Option ℕ → Vfs → ℕ → ℕ → Result
unfolding ramfs_new_inode inode_get
ramfs_create none v d mode = fails enomem v
ramfs_create (some i) v d mode =
    done (attach (ramfs_new_inode v i (2 ^ 15 + mode % 512) none 0 true) d i)

unfoldable pub ramfs_mkdir : Option ℕ → Vfs → ℕ → ℕ → ℕ → Result
unfolding ramfs_new_inode inode_get
ramfs_mkdir none v dir d mode = fails enomem v
ramfs_mkdir (some i) v dir d mode =
    let w = attach (ramfs_new_inode v i (2 ^ 14 + mode % 512) none 0 true) d i in
    let x = w.inodes dir in done (set_inode w dir (record x { i_nlink = add32 x.i_nlink 1 }))

unfoldable pub ramfs_symlink : Option ℕ → Vfs → ℕ → List ℕ → Result
unfolding ramfs_new_inode inode_get
ramfs_symlink none v d target = fails enomem v
ramfs_symlink (some i) v d target =
    done (attach (ramfs_new_inode v i (2 ^ 15 + 2 ^ 13 + 511) (some target) 0 true) d i)

-- `i_nlink` is a `u32`.
abbrev pub dec32 : ℕ → ℕ
dec32 n = (n + 2 ^ 32 - 1) % 2 ^ 32

abbrev pub unlink_inode : Vfs → ℕ → ℕ → Vfs
unlink_inode v d i =
    let x = v.inodes i in
    let w = set_inode v i (record x { i_nlink = dec32 x.i_nlink }) in
    let gone = inode_put (record w { freed = data_at i ∷ w.freed }) i in
    if dec32 x.i_nlink == 0
    then set_dentry gone d (record (gone.dentries d) { d_inode = none })
    else w

abbrev pub unlink_with : Vfs → ℕ → Option ℕ → Result
unlink_with v d none = fails enoent v
unlink_with v d (some i) =
    let w = unlink_inode v d i in done (unlink_sibling w d (v.dentries d).d_parent)

unfoldable pub ramfs_unlink : Vfs → ℕ → Result
unfolding inode_put
ramfs_unlink v d = unlink_with v d (v.dentries d).d_inode

abbrev pub is_empty : List ℕ → Bool
is_empty [] = true
is_empty (d ∷ ds) = false

unfoldable pub ramfs_rmdir : Vfs → ℕ → ℕ → Result
unfolding ramfs_unlink
ramfs_rmdir v dir d =
    let x = v.inodes dir in
    let w = set_inode v dir (record x { i_nlink = dec32 x.i_nlink }) in
    if is_empty (v.dentries d).d_children then ramfs_unlink w d else fails enotempty v

unfoldable pub ramfs_rename : Vfs → ℕ → ℕ → Vfs
ramfs_rename v od nd =
    let o = v.dentries od in
    let v1 = set_dentry v nd (record (v.dentries nd) { d_inode = o.d_inode }) in
    let v2 = set_dentry v1 od (record (v1.dentries od) { d_inode = none }) in
    unlink_sibling v2 od o.d_parent
