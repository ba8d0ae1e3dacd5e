-- ===== src/Fs/Tree/Change.antt =====
-- fs/vfs.c, `vfs_mkdir`: what it does to the names of the directory.
use ore_unix.Common.Queue.{linked}
use ore_unix.Common.Errno.{eperm}
use ore_unix.Common.{
  if◌then◌else◌, true, add32, ℕ, suc, ◌+◌, ◌%◌, ◌^◌, false, some, none, List, [], ◌∷◌, ◌++◌, ◌==◌,
  ◌≡◌, refl, ap, ◌∙◌, take,
}
use ore_unix.Fs.Path.{name_max}
use ore_unix.Fs.Tree.{
  Vfs, done, fails, dentry_alloc, dentry_put, ramfs_mkdir, inode_get, ramfs_new_inode, attach,
  set_inode,
}
use ore_unix.Fs.Tree.Calls.{vfs_mkdir, with_inode, with_ops, put_failed, put_parent}
use ore_unix.Fs.Tree.Names.{
  listing, listing_keeps, listing-dentry_put, listing-dentry_alloc, dentry_put-held, same_number,
  update_keeps,
}

-- `dir->i_nlink++`
added : Vfs → ℕ → Vfs
added v dir = let x = v.inodes dir in set_inode v dir (record x { i_nlink = add32 x.i_nlink 1 })

dentry_alloc_node :
    (v : Vfs) (d p : ℕ) (name : List ℕ)
    → (p == d) ≡ false
    → ((dentry_alloc v d name p).dentries p).d_inode ≡ (v.dentries p).d_inode
unfolding dentry_alloc
dentry_alloc_node v d p name other = rw (dentry_alloc, same_number p) refl

dentry_alloc_refs :
    (v : Vfs) (d p : ℕ) (name : List ℕ)
    → (p == d) ≡ false
    → ((dentry_alloc v d name p).dentries p).d_refcount ≡ (v.dentries p).d_refcount
unfolding dentry_alloc
dentry_alloc_refs v d p name other = rw (dentry_alloc, same_number p) refl

pub listing-attach : (v : Vfs) (d i q : ℕ) → listing (attach v d i) q ≡ listing v q
unfolding inode_get
listing-attach v d i q =
    listing_keeps (inode_get v i) d q (record (v.dentries d) { d_inode = some i }) refl refl

attach_refs :
    (v : Vfs) (d i q : ℕ) → ((attach v d i).dentries q).d_refcount ≡ (v.dentries q).d_refcount
unfolding inode_get
attach_refs v d i q =
    update_keeps (λ z. z.d_refcount) v.dentries d (record (v.dentries d) { d_inode = some i }) q
      refl

-- The state after the operation of the file system.
made : Vfs → ℕ → List ℕ → ℕ → ℕ → ℕ → ℕ → Vfs
made v p name mode d i dir =
    added
      (attach (ramfs_new_inode (dentry_alloc v d name p) i (2 ^ 14 + mode % 512) none 0 true) d i)
      dir

listing-made :
    (v : Vfs) (p d i mode dir : ℕ) (name : List ℕ)
    → (p == d) ≡ false
    → linked d (v.dentries p).d_children ≡ false
    → listing (made v p name mode d i dir) p ≡ listing v p ++ ((take name_max name, d) ∷ [])
unfolding made added ramfs_new_inode
listing-made v p d i mode dir name other fresh =
    listing-attach (ramfs_new_inode (dentry_alloc v d name p) i (2 ^ 14 + mode % 512) none 0 true) d
      i p
    ∙ listing-dentry_alloc v d p name other fresh

made_refs :
    (v : Vfs) (p d i mode dir : ℕ) (name : List ℕ)
    → (p == d) ≡ false
    → ((made v p name mode d i dir).dentries p).d_refcount ≡ (v.dentries p).d_refcount
unfolding made added ramfs_new_inode
made_refs v p d i mode dir name other =
    attach_refs (ramfs_new_inode (dentry_alloc v d name p) i (2 ^ 14 + mode % 512) none 0 true) d i
      p
    ∙ dentry_alloc_refs v d p name other

vfs_mkdir-made :
    (v : Vfs) (p d i mode dir : ℕ) (name : List ℕ)
    → (v.dentries p).d_inode ≡ some dir
    → (v.inodes dir).i_ops ≡ true
    → (p == d) ≡ false
    → vfs_mkdir v p name mode (some d) (some i) ≡ done (dentry_put (made v p name mode d i dir) p)
unfolding vfs_mkdir made added
vfs_mkdir-made v p d i mode dir name node ops other =
    let w = dentry_alloc v d name p in
    let made_by = λ (e : ℕ). put_failed d (put_parent p (ramfs_mkdir (some i) w e d mode)) in
    let refused = dentry_put (dentry_put w d) p in
    ap (λ o. with_inode o (λ e. with_ops w e refused (made_by e)))
      (dentry_alloc_node v d p name other ∙ node)
    ∙ ap (λ b. if b then made_by dir else fails eperm refused) ops

made_inode :
    (v : Vfs) (p d i mode dir : ℕ) (name : List ℕ)
    → let w = made v p name mode d i dir in
      ((w.dentries d).d_inode ≡ some i)
      × ((w.inodes i).i_refcount ≡ 2)
      × ((w.inodes i).i_mode ≡ 2 ^ 14 + mode % 512)
unfolding made added ramfs_new_inode inode_get
made_inode v p d i mode dir name =
    let u =
      attach (ramfs_new_inode (dentry_alloc v d name p) i (2 ^ 14 + mode % 512) none 0 true) d i in
    let x = u.inodes dir in
    let y = record x { i_nlink = add32 x.i_nlink 1 } in
    (
      rw (same_number d) refl,
      update_keeps (λ z. z.i_refcount) u.inodes dir y i refl ∙ rw (same_number i) refl,
      update_keeps (λ z. z.i_mode) u.inodes dir y i refl ∙ rw (same_number i) refl,
    )

-- If there is memory, `vfs_mkdir` succeeds: the parent's names are the old ones with the new name,
-- cut to 255 bytes, at the end, whether or not it was there before. The name stands for a directory
-- of the mode asked for, whose inode has two references, and one reference to the parent is given
-- back. The parent has an inode with operations and two references at least, and the new dentry is
-- in no list.
pub vfs_mkdir-appends :
    (v : Vfs) (p d i mode dir n : ℕ) (name : List ℕ)
    → (v.dentries p).d_refcount ≡ suc (suc n)
    → (v.dentries p).d_inode ≡ some dir
    → (v.inodes dir).i_ops ≡ true
    → (p == d) ≡ false
    → linked d (v.dentries p).d_children ≡ false
    → (w : Vfs) × (vfs_mkdir v p name mode (some d) (some i) ≡ done w)
      × (listing w p ≡ listing v p ++ ((take name_max name, d) ∷ []))
      × ((w.dentries p).d_refcount ≡ suc n)
      × ((w.dentries d).d_inode ≡ some i)
      × ((w.inodes i).i_refcount ≡ 2)
      × ((w.inodes i).i_mode ≡ 2 ^ 14 + mode % 512)
vfs_mkdir-appends v p d i mode dir n name held node ops other fresh =
    let u = made v p name mode d i dir in
    let refs = made_refs v p d i mode dir name other ∙ held in
    let put = dentry_put-held u p n refs in
    let y = record (u.dentries p) { d_refcount = suc n } in
    let new = made_inode v p d i mode dir name in
    (
      dentry_put u p,
      vfs_mkdir-made v p d i mode dir name node ops other,
      listing-dentry_put u p p n refs ∙ listing-made v p d i mode dir name other fresh,
      ap (λ w. (w.dentries p).d_refcount) put ∙ rw (same_number p) refl,
      ap (λ w. (w.dentries d).d_inode) put
          ∙ update_keeps (λ z. z.d_inode) u.dentries p y d refl
          ∙ new.0,
      ap (λ w. (w.inodes i).i_refcount) put ∙ new.1,
      ap (λ w. (w.inodes i).i_mode) put ∙ new.2,
    )
