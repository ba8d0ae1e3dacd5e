-- ===== src/Fs/Tree/Unlink.antt =====
-- fs/vfs.c, `vfs_unlink`: what it does to the names of the directory.
use ore_unix.Common.{
  true, ℕ, suc, false, none, some, List, ◌∷◌, ◌==◌, ◌≡◌, refl, ap, ◌∙◌, Bool-cases, inl, inr,
}
use ore_unix.Fs.Tree.{
  Vfs, done, unlink_inode, dec32, dentry_put, dentry_lookup_child, ramfs_unlink, is_dir, inode_put,
  set_inode, unlink_sibling, data_at,
}
use ore_unix.Fs.Tree.Calls.{vfs_unlink}
use ore_unix.Fs.Tree.Names.{
  listing, entries, listing_keeps, listing-dentry_put, dentry_put-held, same_number, update_keeps,
  listing-unlink_sibling, remove, unlink_sibling_refs,
}

inode_put_dentries : (v : Vfs) (i : ℕ) → (inode_put v i).dentries ≡ v.dentries
unfolding inode_put
inode_put_dentries v i = elim (Bool-cases ((v.inodes i).i_refcount == 1)) [
  | inl e ↦ rw (inode_put, e) refl
  | inr e ↦ rw (inode_put, e) refl
]

-- `ramfs_unlink` changes of the dentries only `d_inode`, before it takes the dentry off the list.
unlink_inode_keeps :
    (v : Vfs) (d i p : ℕ)
    → (listing (unlink_inode v d i) p ≡ listing v p)
      × (((unlink_inode v d i).dentries p).d_refcount ≡ (v.dentries p).d_refcount)
unlink_inode_keeps v d i p =
    let x = v.inodes i in
    let w = set_inode v i (record x { i_nlink = dec32 x.i_nlink }) in
    let freed = record w { freed = data_at i ∷ w.freed } in
    let gone = inode_put freed i in
    let y = record (gone.dentries d) { d_inode = none } in
    let same = inode_put_dentries freed i in
    elim (Bool-cases (dec32 x.i_nlink == 0)) [
      | inl e ↦ rw e (
        listing_keeps gone d p y refl refl ∙ ap (λ f. entries f (f p).d_children) same,
        update_keeps (λ z. z.d_refcount) gone.dentries d y p refl ∙ ap (λ f. (f p).d_refcount) same,
      )
      | inr e ↦ rw e (refl, refl)
    ]

-- The last link of an inode with two references frees its data, and not the inode.
unlink_inode_frees :
    (v : Vfs) (d i : ℕ)
    → (v.inodes i).i_nlink ≡ 1
    → (v.inodes i).i_refcount ≡ 2
    → (unlink_inode v d i).freed ≡ data_at i ∷ v.freed
unfolding inode_put
unlink_inode_frees v d i link two = rw (link, inode_put, same_number i, two) refl

vfs_unlink_effect :
    (v : Vfs) (p d i dir n : ℕ) (name : List ℕ)
    → dentry_lookup_child v p name ≡ some d
    → (v.dentries d).d_inode ≡ some i
    → is_dir (v.inodes i).i_mode ≡ false
    → (v.dentries p).d_inode ≡ some dir
    → (v.inodes dir).i_ops ≡ true
    → (v.dentries d).d_parent ≡ some p
    → (v.dentries p).d_refcount ≡ suc (suc n)
    → (w : Vfs) × (vfs_unlink v p name ≡ done w)
      × (listing w p ≡ remove d (listing v p))
      × ((v.inodes i).i_nlink ≡ 1 → (v.inodes i).i_refcount ≡ 2 → w.freed ≡ data_at i ∷ v.freed)
unfolding vfs_unlink ramfs_unlink dentry_put
vfs_unlink_effect v p d i dir n name found node file parent_node ops parent held =
    let u = unlink_sibling (unlink_inode v d i) d (some p) in
    let refs =
      unlink_sibling_refs (unlink_inode v d i) d p ∙ (unlink_inode_keeps v d i p).1 ∙ held in
    (
      dentry_put u p,
      rw (vfs_unlink, found, node, file, parent_node, ops, ramfs_unlink, parent) refl,
      listing-dentry_put u p p n refs
          ∙ listing-unlink_sibling (unlink_inode v d i) d p
          ∙ ap (remove d) (unlink_inode_keeps v d i p).0,
      λ link two.
          ap (λ w. w.freed) (dentry_put-held u p n refs) ∙ unlink_inode_frees v d i link two,
    )

-- If the name is that of a child that is no directory, `vfs_unlink` succeeds and takes the first
-- entry of that dentry off the parent's names. The parent has an inode with operations and two
-- references at least.
pub vfs_unlink-removes :
    (v : Vfs) (p d i dir n : ℕ) (name : List ℕ)
    → dentry_lookup_child v p name ≡ some d
    → (v.dentries d).d_inode ≡ some i
    → is_dir (v.inodes i).i_mode ≡ false
    → (v.dentries p).d_inode ≡ some dir
    → (v.inodes dir).i_ops ≡ true
    → (v.dentries d).d_parent ≡ some p
    → (v.dentries p).d_refcount ≡ suc (suc n)
    → (w : Vfs) × (vfs_unlink v p name ≡ done w) × (listing w p ≡ remove d (listing v p))
vfs_unlink-removes v p d i dir n name found node file parent_node ops parent held =
    let (w, runs, names, _) =
      vfs_unlink_effect v p d i dir n name found node file parent_node ops parent held in
    (w, runs, names)

-- If the name is that of a child that is no directory, whose inode has one link and two references,
-- as when it is made, `vfs_unlink` frees the inode's data and nothing else: neither the inode nor
-- the dentry. The parent has an inode with operations and two references at least.
pub vfs_unlink-leaks :
    (v : Vfs) (p d i dir n : ℕ) (name : List ℕ)
    → dentry_lookup_child v p name ≡ some d
    → (v.dentries d).d_inode ≡ some i
    → is_dir (v.inodes i).i_mode ≡ false
    → (v.dentries p).d_inode ≡ some dir
    → (v.inodes dir).i_ops ≡ true
    → (v.dentries d).d_parent ≡ some p
    → (v.dentries p).d_refcount ≡ suc (suc n)
    → (v.inodes i).i_nlink ≡ 1
    → (v.inodes i).i_refcount ≡ 2
    → (w : Vfs) × (vfs_unlink v p name ≡ done w) × (w.freed ≡ data_at i ∷ v.freed)
vfs_unlink-leaks v p d i dir n name found node file parent_node ops parent held link two =
    let (w, runs, _, frees) =
      vfs_unlink_effect v p d i dir n name found node file parent_node ops parent held in
    (w, runs, frees link two)
