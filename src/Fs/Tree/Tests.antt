-- ===== src/Fs/Tree/Tests.antt =====
-- fs/vfs.c and fs/ramfs.c: a root with a file `a` and a directory `b`, in which there is a file
-- `c`.
use ore_unix.Common.{
  true, inl, inr, false, ℕ, Option, none, some, List, [], ◌∷◌, ◌++◌, ◌^◌, ◌+◌, ◌%◌, ◌≡◌, refl, take,
}
use ore_unix.Fs.Tree.Inodes.{ramfs_readlink, ramfs_chmod, ramfs_mknod, ramfs_readlink-ramfs_symlink}
use ore_unix.Fs.Tree.Readdir.{ramfs_readdir, readdir_from, file_type}
use ore_unix.Common.Errno.{eperm, einval, enoent, enotempty, eisdir}
use ore_unix.Common.Queue.{linked, list_del}
use ore_unix.Fs.Path.{name_max}
use ore_unix.Fs.Tree.{
  attach, find_child, same_name, dentry_free, dentry_alloc, inode_get, inode_put, ramfs_new_inode,
  ramfs_mkdir, ramfs_rmdir, ramfs_unlink, ramfs_symlink, Vfs, Dentry, Inode, data_at, Result, done,
  fails, null_inode, update, dentry_lookup_child, dentry_put,
}
use ore_unix.Fs.Tree.Calls.{vfs_mkdir, vfs_unlink, vfs_rmdir, vfs_rename, vfs_symlink}
use ore_unix.Fs.Tree.Names.{entries, listing, remove, dentry_lookup_child-listing, find_name}
use ore_unix.Fs.Tree.Change.{vfs_mkdir-appends}
use ore_unix.Fs.Tree.Unlink.{vfs_unlink-removes, vfs_unlink-leaks}
use ore_unix.Fs.Tree.Rename.{vfs_rename-moves, vfs_rename-shadowed}

abbrev dentry : List ℕ → Option ℕ → ℕ → ℕ → List ℕ → Dentry
dentry name parent inode refs children = record {
  d_name = name;
  d_parent = parent;
  d_inode = some inode;
  d_refcount = refs;
  d_children = children;
}

abbrev inode : ℕ → ℕ → Inode
inode number mode = record {
  i_ino = number;
  i_mode = mode;
  i_nlink = 1;
  i_refcount = 2;
  i_rdev = 0;
  i_ops = true;
  target = none;
}

abbrev dir_mode : ℕ
dir_mode = 2 ^ 14 + 493

abbrev file_mode : ℕ
file_mode = 2 ^ 15 + 420

abbrev a : List ℕ
a = 97 ∷ []

abbrev b : List ℕ
b = 98 ∷ []

abbrev c : List ℕ
c = 99 ∷ []

-- The root has a reference of its own and those of the parents that a call has looked up.
abbrev with_refs : ℕ → Vfs
with_refs refs = record {
  dentries =
      update
        (update
          (update (λ d. dentry c (some 2) 13 1 []) 0 (dentry (47 ∷ []) none 10 refs (1 ∷ 2 ∷ []))) 1
          (dentry a (some 0) 11 1 []))
        2 (dentry b (some 0) 12 1 (3 ∷ []));
  inodes = update (update (λ i. inode i file_mode) 10 (inode 10 dir_mode)) 12 (inode 12 dir_mode);
  next_ino = 14;
  freed = [];
}

abbrev called : Vfs
called = with_refs 2

abbrev renaming : Vfs
renaming = with_refs 3

abbrev names_after : Result → List (List ℕ × ℕ)
names_after (done v) = listing v 0
names_after (fails e v) = []
names_after null_inode = []

-- Below a node whose inode has no operations.
mkdir_refused :
    (w : Vfs) × (vfs_mkdir
        (record called { inodes = λ i. record (called.inodes i) { i_ops = false } })
        0
        b
        493
        (some 9)
        (some 19)
      ≡ fails eperm w)
unfolding vfs_mkdir ramfs_mkdir dentry_put dentry_free dentry_alloc inode_get inode_put
mkdir_refused = (_, refl)

mkdir_twice :
    names_after (vfs_mkdir called 0 b 493 (some 9) (some 19)) ≡ (a, 1) ∷ (b, 2) ∷ (b, 9) ∷ []
unfolding vfs_mkdir ramfs_mkdir dentry_put dentry_free dentry_alloc inode_get inode_put
    ramfs_new_inode entries list_del dentry_lookup_child find_child same_name
mkdir_twice = refl

-- `vfs_rmdir` does not look whether the name is that of a directory.
rmdir_of_a_file : names_after (vfs_rmdir called 0 a) ≡ (b, 2) ∷ []
unfolding vfs_rmdir ramfs_rmdir ramfs_unlink dentry_put dentry_free dentry_alloc inode_get inode_put
    ramfs_new_inode entries list_del dentry_lookup_child find_child same_name
rmdir_of_a_file = refl

rmdir_full : vfs_rmdir called 0 b ≡ fails enotempty (dentry_put called 0)
unfolding vfs_rmdir ramfs_rmdir ramfs_unlink dentry_put dentry_free dentry_alloc inode_get inode_put
    ramfs_new_inode entries list_del dentry_lookup_child find_child same_name
rmdir_full = refl

unlink_of_a_directory : vfs_unlink called 0 b ≡ fails eisdir (dentry_put called 0)
unfolding vfs_unlink ramfs_unlink dentry_put dentry_free dentry_alloc inode_get inode_put
    ramfs_new_inode entries list_del dentry_lookup_child find_child same_name
unlink_of_a_directory = refl

unlink_missing : vfs_unlink called 0 c ≡ fails enoent (dentry_put called 0)
unfolding vfs_unlink ramfs_unlink dentry_put dentry_free dentry_alloc inode_get inode_put
    ramfs_new_inode entries list_del dentry_lookup_child find_child same_name
unlink_missing = refl

symlink_named :
    names_after (vfs_symlink called a 0 c (some 9) (some 19)) ≡ (a, 1) ∷ (b, 2) ∷ (c, 9) ∷ []
unfolding vfs_symlink ramfs_symlink dentry_put dentry_free dentry_alloc inode_get inode_put
    ramfs_new_inode entries list_del dentry_lookup_child find_child same_name
symlink_named = refl

found_a : dentry_lookup_child called 0 a ≡ some 1
unfolding dentry_lookup_child find_child same_name
found_a = refl

found_old : dentry_lookup_child renaming 0 b ≡ some 2
unfolding dentry_lookup_child find_child same_name
found_old = refl

found_target : dentry_lookup_child renaming 0 a ≡ some 1
unfolding dentry_lookup_child find_child same_name
found_target = refl

abbrev root_children : List ℕ
root_children = 1 ∷ 2 ∷ []

nine_is_new : linked 9 (1 ∷ 2 ∷ []) ≡ false
unfolding linked
nine_is_new = refl

dentry_lookup_child-listing_example :
    dentry_lookup_child called 0 b ≡ find_name b (listing called 0)
dentry_lookup_child-listing_example = dentry_lookup_child-listing called 0 b

vfs_mkdir-appends_example :
    (w : Vfs) × (vfs_mkdir called 0 c 493 (some 9) (some 19) ≡ done w)
    × (listing w 0 ≡ listing called 0 ++ ((take name_max c, 9) ∷ []))
    × ((w.dentries 0).d_refcount ≡ 1)
    × ((w.dentries 9).d_inode ≡ some 19)
    × ((w.inodes 19).i_refcount ≡ 2)
    × ((w.inodes 19).i_mode ≡ 2 ^ 14 + 493 % 512)
vfs_mkdir-appends_example =
    vfs_mkdir-appends called 0 9 19 493 10 0 c refl refl refl refl nine_is_new

vfs_unlink-removes_example :
    (w : Vfs) × (vfs_unlink called 0 a ≡ done w) × (listing w 0 ≡ remove 1 (listing called 0))
vfs_unlink-removes_example =
    vfs_unlink-removes called 0 1 11 10 0 a found_a refl refl refl refl refl refl

vfs_unlink-leaks_example :
    (w : Vfs) × (vfs_unlink called 0 a ≡ done w) × (w.freed ≡ data_at 11 ∷ [])
vfs_unlink-leaks_example =
    vfs_unlink-leaks called 0 1 11 10 0 a found_a refl refl refl refl refl refl refl refl

vfs_rename-moves_example :
    (w : Vfs) × (vfs_rename renaming 0 b 0 c (some 9) ≡ done w)
    × (listing w 0 ≡ remove 2 (listing renaming 0 ++ ((take name_max c, 9) ∷ [])))
    × ((w.dentries 9).d_inode ≡ some 12)
    × ((w.dentries 9).d_children ≡ [])
vfs_rename-moves_example =
    vfs_rename-moves renaming 0 2 9 10 0 b c found_old refl refl refl refl refl refl nine_is_new

vfs_rename-shadowed_example :
    (w : Vfs) × (vfs_rename renaming 0 b 0 a (some 9) ≡ done w)
    × (dentry_lookup_child w 0 a ≡ some 1)
vfs_rename-shadowed_example =
    vfs_rename-shadowed renaming 0 2 9 10 0 1 b a found_old refl refl refl refl refl refl
      nine_is_new found_target refl

readdir_types :
    (ramfs_readdir called 0 0 2).0
    ≡ record { d_ino = 11; d_off = 0; d_name = a; d_type = some 8 }
      ∷ record { d_ino = 12; d_off = 1; d_name = b; d_type = some 4 }
      ∷ []
unfolding ramfs_readdir readdir_from file_type
readdir_types = refl

ramfs_readlink-ramfs_symlink_example :
    (w : Vfs) × (ramfs_symlink (some 19) called 9 (a ++ b) ≡ done w)
    × (ramfs_readlink w 19 8 ≡ inr (2, a ++ b))
ramfs_readlink-ramfs_symlink_example = ramfs_readlink-ramfs_symlink called 19 9 8 (a ++ b) refl

link_of_a_file : ramfs_readlink called 11 8 ≡ inl einval
unfolding ramfs_readlink
link_of_a_file = refl

chmod_keeps_type : ((ramfs_chmod called 12 511).inodes 12).i_mode ≡ 2 ^ 14 + 511
unfolding ramfs_chmod
chmod_keeps_type = refl

mknod_has_number :
    ramfs_mknod (some 19) called 9 (2 ^ 13 + 438) 1283
    ≡ done (attach (ramfs_new_inode called 19 (2 ^ 13 + 438) none 1283 false) 9 19)
unfolding ramfs_mknod inode_get
mknod_has_number = refl
