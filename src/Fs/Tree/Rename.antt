-- ===== src/Fs/Tree/Rename.antt =====
-- fs/vfs.c, `vfs_rename`: what it does to the names of the directory.
use ore_unix.Common.Queue.{linked}
use ore_unix.Common.Errno.{eperm}
use ore_unix.Common.{
  if◌then◌else◌, true, ℕ, suc, false, none, some, List, [], ◌∷◌, ◌++◌, ◌==◌, ◌≡◌, refl, ap, ◌∙◌,
  take, Bool-cases, inl, inr, ==_iff, sym,
}
use ore_unix.Fs.Path.{name_max}
use ore_unix.Fs.Tree.{
  Vfs, fails, done, dentry_alloc, dentry_put, dentry_lookup_child, ramfs_rename, set_dentry,
  unlink_sibling,
}
use ore_unix.Fs.Tree.Calls.{with_ops, vfs_rename, put_both, with_inode}
use ore_unix.Fs.Tree.Names.{
  listing, listing_keeps, listing-dentry_put, listing-dentry_alloc, dentry_put-held, same_number,
  other_number, update_keeps, listing-unlink_sibling, remove, unlink_sibling_refs, find_name,
  find_name-append, find_name-remove, dentry_lookup_child-listing,
}

-- The dentries after the inode has moved from `od` to `nd`.
swapped : Vfs → ℕ → ℕ → Vfs
swapped v od nd =
    let w = set_dentry v nd (record (v.dentries nd) { d_inode = (v.dentries od).d_inode }) in
    set_dentry w od (record (w.dentries od) { d_inode = none })

swapped_keeps :
    (v : Vfs) (od nd p : ℕ)
    → (listing (swapped v od nd) p ≡ listing v p)
      × (((swapped v od nd).dentries p).d_refcount ≡ (v.dentries p).d_refcount)
unfolding swapped
swapped_keeps v od nd p =
    let x = record (v.dentries nd) { d_inode = (v.dentries od).d_inode } in
    let w = set_dentry v nd x in
    let y = record (w.dentries od) { d_inode = none } in
    (
      listing_keeps w od p y refl refl ∙ listing_keeps v nd p x refl refl,
      update_keeps (λ z. z.d_refcount) w.dentries od y p refl
          ∙ update_keeps (λ z. z.d_refcount) v.dentries nd x p refl,
    )

ramfs_rename-swapped :
    (v : Vfs) (od nd p : ℕ)
    → (v.dentries od).d_parent ≡ some p
    → ramfs_rename v od nd ≡ unlink_sibling (swapped v od nd) od (some p)
unfolding ramfs_rename swapped
ramfs_rename-swapped v od nd p parent = ap (unlink_sibling (swapped v od nd) od) parent

dentry_alloc_at :
    (v : Vfs) (d p q : ℕ) (name : List ℕ)
    → (q == d) ≡ false
    → let w = dentry_alloc v d name p in
      ((w.dentries q).d_inode ≡ (v.dentries q).d_inode)
      × ((w.dentries q).d_parent ≡ (v.dentries q).d_parent)
      × ((w.dentries q).d_refcount ≡ (v.dentries q).d_refcount)
unfolding dentry_alloc
dentry_alloc_at v d p q name other = elim (Bool-cases (q == p)) [
  | inl e ↦
      (let s = sym ((==_iff q p).0 e) in
        rw (dentry_alloc, e)
          (
            ap (λ y. (v.dentries y).d_inode) s,
            ap (λ y. (v.dentries y).d_parent) s,
            ap (λ y. (v.dentries y).d_refcount) s,
          ))
  | inr e ↦ rw (dentry_alloc, e, other) (refl, refl, refl)
]

dentry_put_at :
    (v : Vfs) (p q n : ℕ)
    → (v.dentries p).d_refcount ≡ suc (suc n)
    → (((dentry_put v p).dentries q).d_inode ≡ (v.dentries q).d_inode)
      × (((dentry_put v p).dentries q).d_children ≡ (v.dentries q).d_children)
dentry_put_at v p q n held =
    let x = record (v.dentries p) { d_refcount = suc n } in
    let put = dentry_put-held v p n held in
    (
      ap (λ w. (w.dentries q).d_inode) put ∙ update_keeps (λ z. z.d_inode) v.dentries p x q refl,
      ap (λ w. (w.dentries q).d_children) put
          ∙ update_keeps (λ z. z.d_children) v.dentries p x q refl,
    )

-- The dentry of the new name after the move: it has the inode and no children.
renamed_new :
    (v : Vfs) (p od nd : ℕ) (nname : List ℕ)
    → (p == nd) ≡ false
    → (od == nd) ≡ false
    → let u = unlink_sibling (swapped (dentry_alloc v nd nname p) od nd) od (some p) in
      ((u.dentries nd).d_inode ≡ (v.dentries od).d_inode) × ((u.dentries nd).d_children ≡ [])
unfolding swapped dentry_alloc
renamed_new v p od nd nname other diff =
    let at = dentry_alloc_at v nd p od nname diff in
    let back = other_number p nd other in
    let apart = other_number od nd diff in
    (rw (back, apart, same_number nd) at.0, rw (back, apart, same_number nd) refl)

dentry_alloc_inodes :
    (v : Vfs) (d p : ℕ) (name : List ℕ) → (dentry_alloc v d name p).inodes ≡ v.inodes
unfolding dentry_alloc
dentry_alloc_inodes v d p name = refl

-- `vfs_rename` within a directory succeeds: the new name, cut to 255 bytes, comes last in the
-- directory, the first entry of the old dentry is gone, and the new dentry has the inode of the old
-- one and no children, whatever children the old one had. The parent has an inode with operations
-- and three references at least, there is memory, and the new dentry is in no list.
pub vfs_rename-moves :
    (v : Vfs) (p od nd dir n : ℕ) (oname nname : List ℕ)
    → dentry_lookup_child v p oname ≡ some od
    → (v.dentries p).d_inode ≡ some dir
    → (v.inodes dir).i_ops ≡ true
    → (v.dentries od).d_parent ≡ some p
    → (v.dentries p).d_refcount ≡ suc (suc (suc n))
    → (p == nd) ≡ false
    → (od == nd) ≡ false
    → linked nd (v.dentries p).d_children ≡ false
    → (w : Vfs) × (vfs_rename v p oname p nname (some nd) ≡ done w)
      × (listing w p ≡ remove od (listing v p ++ ((take name_max nname, nd) ∷ [])))
      × ((w.dentries nd).d_inode ≡ (v.dentries od).d_inode)
      × ((w.dentries nd).d_children ≡ [])
unfolding vfs_rename
vfs_rename-moves v p od nd dir n oname nname found node ops parent held other diff fresh =
    let w = dentry_alloc v nd nname p in
    let u = unlink_sibling (swapped w od nd) od (some p) in
    let moved = done (put_both p p (ramfs_rename w od nd)) in
    let refused = put_both p p (dentry_put w nd) in
    let kept_ops = ap (λ is. (is dir).i_ops) (dentry_alloc_inodes v nd p nname) in
    let at_p = dentry_alloc_at v nd p p nname other in
    let up = (dentry_alloc_at v nd p od nname diff).1 ∙ parent in
    let keeps = swapped_keeps w od nd p in
    let refs = unlink_sibling_refs (swapped w od nd) od p ∙ keeps.1 ∙ at_p.2 ∙ held in
    let put = dentry_put-held u p (suc n) refs in
    let refs' = ap (λ z. (z.dentries p).d_refcount) put ∙ rw (same_number p) refl in
    let new = renamed_new v p od nd nname other diff in
    let first = dentry_put_at u p nd (suc n) refs in
    let second = dentry_put_at (dentry_put u p) p nd n refs' in
    (
      put_both p p u,
      rw (vfs_rename, found)
            (ap (λ o. with_inode o (λ e. with_ops w e refused moved)) (at_p.0 ∙ node)
              ∙ ap (λ b. if b then moved else fails eperm refused) (kept_ops ∙ ops))
          ∙ ap (λ z. done (put_both p p z)) (ramfs_rename-swapped w od nd p up),
      listing-dentry_put (dentry_put u p) p p n refs'
          ∙ listing-dentry_put u p p (suc n) refs
          ∙ listing-unlink_sibling (swapped w od nd) od p
          ∙ ap (remove od) (keeps.0 ∙ listing-dentry_alloc v nd p nname other fresh),
      second.0 ∙ first.0 ∙ new.0,
      second.1 ∙ first.1 ∙ new.1,
    )

-- If the new name is the name of another child, `vfs_rename` within a directory succeeds and the name
-- still stands for that child. The parent has an inode with operations and three references at
-- least, there is memory, and the new dentry is in no list.
pub vfs_rename-shadowed :
    (v : Vfs) (p od nd dir n t : ℕ) (oname nname : List ℕ)
    → dentry_lookup_child v p oname ≡ some od
    → (v.dentries p).d_inode ≡ some dir
    → (v.inodes dir).i_ops ≡ true
    → (v.dentries od).d_parent ≡ some p
    → (v.dentries p).d_refcount ≡ suc (suc (suc n))
    → (p == nd) ≡ false
    → (od == nd) ≡ false
    → linked nd (v.dentries p).d_children ≡ false
    → dentry_lookup_child v p nname ≡ some t
    → (t == od) ≡ false
    → (w : Vfs) × (vfs_rename v p oname p nname (some nd) ≡ done w)
      × (dentry_lookup_child w p nname ≡ some t)
vfs_rename-shadowed v p od nd dir n t oname nname found node ops parent held other diff fresh there
      ne =
    let (w, runs, names, _, _) =
      vfs_rename-moves v p od nd dir n oname nname found node ops parent held other diff fresh in
    let old = sym (dentry_lookup_child-listing v p nname) ∙ there in
    let added = find_name-append nname (listing v p) ((take name_max nname, nd) ∷ []) t old in
    (
      w,
      runs,
      dentry_lookup_child-listing w p nname
          ∙ ap (find_name nname) names
          ∙ find_name-remove nname (listing v p ++ ((take name_max nname, nd) ∷ [])) od t ne added,
    )
