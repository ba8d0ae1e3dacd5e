-- ===== src/Fs/Tree/Inodes.antt =====
-- fs/ramfs.c: the operations on one inode. Owners are not followed, so neither is `ramfs_chown`.
use ore_unix.Common.Errno.{Errno, enoent, enomem, einval}
use ore_unix.Common.{
  true, false, ℕ, ◌+◌, ◌-◌, ◌%◌, ◌/◌, ◌*◌, ◌^◌, Option, none, some, List, ◌⊎◌, inl, inr, leb, false,
  if◌then◌else◌, take, length, ◌≡◌, refl, ◌∷◌, ap, [],
}
use ore_unix.Fs.Tree.{
  Vfs, Result, done, fails, set_inode, ramfs_new_inode, attach, ramfs_symlink, inode_get,
}
use ore_unix.Fs.Tree.Names.{same_number}

-- `de` is a dentry that `vfs_lookup` has just made.
unfoldable pub ramfs_lookup : Option ℕ → Option Errno
ramfs_lookup none = some enoent
ramfs_lookup (some i) = none

-- The bytes before the final zero, with the call's result. A size of 0 makes the copy's length 2 ^
-- 32 - 1, past the end of both.
abbrev pub readlink_of : Option (List ℕ) → ℕ → Errno ⊎ (ℕ × List ℕ)
readlink_of none size = inl einval
readlink_of (some target) size =
    let n = if leb size (length target) then (size + 2 ^ 32 - 1) % 2 ^ 32 else length target in
    inr (n, take n target)

unfoldable pub ramfs_readlink : Vfs → ℕ → ℕ → Errno ⊎ (ℕ × List ℕ)
ramfs_readlink v i size = readlink_of (v.inodes i).target size

-- The type of the file stays.
unfoldable pub ramfs_chmod : Vfs → ℕ → ℕ → Vfs
ramfs_chmod v i mode =
    let x = v.inodes i in
    set_inode v i (record x { i_mode = x.i_mode / 2 ^ 12 % 16 * 2 ^ 12 + mode % 2 ^ 12 })

-- `dev_setup_inode` sets the inode's functions alone.
unfoldable pub ramfs_mknod : Option ℕ → Vfs → ℕ → ℕ → ℕ → Result
unfolding ramfs_new_inode inode_get
ramfs_mknod none v d mode dev = fails enomem v
ramfs_mknod (some i) v d mode dev = done (attach (ramfs_new_inode v i mode none dev false) d i)

take_all : (bs : List ℕ) → take (length bs) bs ≡ bs
take_all [] = refl
take_all (b ∷ bs) = ap (λ cs. b ∷ cs) (take_all bs)

-- A link that is read with room for its target and the zero gives the target it was made with.
pub ramfs_readlink-ramfs_symlink :
    (v : Vfs) (i d size : ℕ) (target : List ℕ)
    → leb size (length target) ≡ false
    → (w : Vfs) × (ramfs_symlink (some i) v d target ≡ done w)
      × (ramfs_readlink w i size ≡ inr (length target, target))
unfolding ramfs_symlink ramfs_readlink ramfs_new_inode inode_get
ramfs_readlink-ramfs_symlink v i d size target room = (
  attach (ramfs_new_inode v i (2 ^ 15 + 2 ^ 13 + 511) (some target) 0 true) d i,
  refl,
  rw (same_number i, room) (ap (λ (ts : List ℕ). inr (length target, ts)) (take_all target)),
)
