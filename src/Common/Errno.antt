-- ===== src/Common/Errno.antt =====
-- The error codes of kernel/kernel.h that the modelled functions return, as `-E…`.
pub data Errno : Type 0 where
  eperm enoent esrch eintr ebadf enomem enotdir eisdir einval emfile enospc enotty epipe enotempty :
      Errno
