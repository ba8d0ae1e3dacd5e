-- ===== src/Fs/Access.antt =====
-- fs/vfs.c, `vfs_read`, `vfs_write` and `vfs_lseek`: the tests before the file system's functions,
-- and the position where the file has no `lseek` of its own.
mod Tests
use ore_unix.Common.Errno.{Errno, ebadf, einval}
use ore_unix.Common.Int.{ℤ, pos, pos_part, ◌+ℤ◌, ◌-ℤ◌}
use ore_unix.Common.{
  ℕ, suc, ◌+◌, ◌/◌, ◌%◌, ◌==◌, Bool, true, false, not, ◌||◌, Option, none, some, ◌⊎◌, inl, inr,
  if◌then◌else◌, ◌≡◌, refl, arith,
}

-- The error, or `none` where the file system's function is called. `found` is whether there is one.
unfoldable pub vfs_read : Bool → ℕ → Option Errno
vfs_read found flags =
    if not found then some einval else if flags == 0 || flags / 2 % 2 == 1 then none else some ebadf

unfoldable pub vfs_write : Bool → ℕ → Option Errno
vfs_write found flags = if not found then some einval else if flags == 0 then some ebadf else none

-- The new position, for a file of that size at that position; none of the sums passes 2 ^ 63.
unfoldable pub vfs_lseek : ℕ → ℕ → ℤ → ℕ → Errno ⊎ ℕ
unfolding ◌+ℤ◌
vfs_lseek size at offset whence =
    if whence == 0
    then inr (pos_part offset)
    else if whence == 1
    then inr (pos_part (pos at +ℤ offset))
    else if whence == 2
    then inr (pos_part (pos size +ℤ offset))
    else inl einval

-- A file that is opened for reading alone, but with a further flag such as O_NONBLOCK, cannot be
-- read, and can be written.
pub vfs_read-vfs_write :
    (flags : ℕ)
    → flags % 4 ≡ 0
    → (flags == 0) ≡ false
    → (vfs_read true flags ≡ some ebadf) × (vfs_write true flags ≡ none)
unfolding vfs_read vfs_write
vfs_read-vfs_write flags mode more =
    let bit : (flags / 2 % 2 == 1) ≡ false = ground (arith, mode) in
    (rw (vfs_read, more, bit) refl, rw (vfs_write, more) refl)

-- A seek from the position by what is left of the file ends where a seek to its end does.
pub vfs_lseek_to_end :
    (size at : ℕ) → vfs_lseek size at (pos size -ℤ pos at) 1 ≡ vfs_lseek size at (pos 0) 2
unfolding vfs_lseek ◌+ℤ◌ ◌-ℤ◌
vfs_lseek_to_end size at = ground arith
