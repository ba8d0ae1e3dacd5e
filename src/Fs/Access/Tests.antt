-- ===== src/Fs/Access/Tests.antt =====
-- fs/vfs.c: reading, writing and seeking at concrete flags and positions.
use ore_unix.Common.Errno.{ebadf, einval}
use ore_unix.Common.Int.{pos, negsuc, ◌+ℤ◌}
use ore_unix.Common.{true, none, some, inl, inr, ◌≡◌, refl}
use ore_unix.Fs.Access.{vfs_read, vfs_write, vfs_lseek}

read_nonblocking : vfs_read true 2048 ≡ some ebadf
unfolding vfs_read
read_nonblocking = refl

write_nonblocking : vfs_write true 2048 ≡ none
unfolding vfs_write
write_nonblocking = refl

read_of_write_only : vfs_read true 1 ≡ some ebadf
unfolding vfs_read
read_of_write_only = refl

seek_before_start : vfs_lseek 10 4 (negsuc 6) 1 ≡ inr 0
unfolding vfs_lseek ◌+ℤ◌
seek_before_start = refl

seek_past_end : vfs_lseek 10 4 (pos 5) 2 ≡ inr 15
unfolding vfs_lseek ◌+ℤ◌
seek_past_end = refl

seek_nowhere : vfs_lseek 10 4 (pos 5) 3 ≡ inl einval
unfolding vfs_lseek
seek_nowhere = refl
