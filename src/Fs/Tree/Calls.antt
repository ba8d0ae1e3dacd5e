-- ===== src/Fs/Tree/Calls.antt =====
-- fs/vfs.c: the calls that change a directory, from where `vfs_lookup_parent` has found the parent
-- (and holds a reference to it) and has copied the last name out of the path. What the caches
-- return is an argument, `none` for no memory.
use ore_unix.Common.Errno.{Errno, eperm, enoent, enomem, eisdir, enotempty}
use ore_unix.Common.{ℕ, Option, none, some, List, if◌then◌else◌}
use ore_unix.Fs.Tree.{
  Vfs, Result, done, fails, null_inode, dentry_alloc, dentry_put, dentry_lookup_child, ramfs_mkdir,
  ramfs_symlink, ramfs_unlink, ramfs_rmdir, ramfs_rename, is_dir, is_empty,
}

-- `dentry_put(parent)` after the file system's operation.
abbrev pub put_parent : ℕ → Result → Result
put_parent p (done v) = done (dentry_put v p)
put_parent p (fails e v) = fails e (dentry_put v p)
put_parent p null_inode = null_inode

-- `if (r) dentry_put(de)`
abbrev pub put_failed : ℕ → Result → Result
put_failed d (done v) = done v
put_failed d (fails e v) = fails e (dentry_put v d)
put_failed d null_inode = null_inode

-- An operation of the inode, `null_inode` when there is none.
abbrev pub with_inode : Option ℕ → (ℕ → Result) → Result
with_inode none k = null_inode
with_inode (some i) k = k i

-- The test of the directory's operations before the one that is called.
abbrev pub with_ops : Vfs → ℕ → Vfs → Result → Result
with_ops v dir refused r = if (v.inodes dir).i_ops then r else fails eperm refused

abbrev pub with_new : Option ℕ → Errno → Vfs → (ℕ → Result) → Result
with_new none e v k = fails e v
with_new (some d) e v k = k d

unfoldable pub vfs_mkdir : Vfs → ℕ → List ℕ → ℕ → Option ℕ → Option ℕ → Result
unfolding dentry_put dentry_alloc ramfs_mkdir
vfs_mkdir v p name mode de inode = with_new de enomem (dentry_put v p) (λ d.
    let w = dentry_alloc v d name p in
    with_inode (w.dentries p).d_inode (λ dir.
      with_ops w dir (dentry_put (dentry_put w d) p)
        (put_failed d (put_parent p (ramfs_mkdir inode w dir d mode)))))

unfoldable pub vfs_symlink : Vfs → List ℕ → ℕ → List ℕ → Option ℕ → Option ℕ → Result
unfolding dentry_put dentry_alloc ramfs_symlink
vfs_symlink v target p name de inode = with_new de enomem (dentry_put v p) (λ d.
    let w = dentry_alloc v d name p in
    with_inode (w.dentries p).d_inode (λ dir.
      with_ops w dir (dentry_put (dentry_put w d) p)
        (put_parent p (ramfs_symlink inode w d target))))

unfoldable pub vfs_unlink : Vfs → ℕ → List ℕ → Result
unfolding dentry_put dentry_lookup_child ramfs_unlink
vfs_unlink v p name = with_new (dentry_lookup_child v p name) enoent (dentry_put v p) (λ d.
    with_inode (v.dentries d).d_inode (λ i.
      if is_dir (v.inodes i).i_mode
      then fails eisdir (dentry_put v p)
      else with_inode (v.dentries p).d_inode
          (λ dir. with_ops v dir (dentry_put v p) (put_parent p (ramfs_unlink v d)))))

unfoldable pub vfs_rmdir : Vfs → ℕ → List ℕ → Result
unfolding dentry_put dentry_lookup_child ramfs_rmdir
vfs_rmdir v p name = with_new (dentry_lookup_child v p name) enoent (dentry_put v p) (λ d.
    if is_empty (v.dentries d).d_children
    then with_inode (v.dentries p).d_inode
        (λ dir. with_ops v dir (dentry_put v p) (put_parent p (ramfs_rmdir v dir d)))
    else fails enotempty (dentry_put v p))

abbrev pub put_both : ℕ → ℕ → Vfs → Vfs
put_both op np v = dentry_put (dentry_put v op) np

unfoldable pub vfs_rename : Vfs → ℕ → List ℕ → ℕ → List ℕ → Option ℕ → Result
unfolding dentry_put dentry_alloc dentry_lookup_child ramfs_rename
vfs_rename v op oname np nname de =
    with_new (dentry_lookup_child v op oname) enoent (put_both op np v) (λ od.
      with_new de enomem (put_both op np v) (λ nd.
        let w = dentry_alloc v nd nname np in
        with_inode (w.dentries op).d_inode (λ dir.
          with_ops w dir (put_both op np (dentry_put w nd))
            (done (put_both op np (ramfs_rename w od nd))))))
