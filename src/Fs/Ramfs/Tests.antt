-- ===== src/Fs/Ramfs/Tests.antt =====
-- Tests of a file's calls on a file of three bytes.
use ore_unix.Common.{◌≡◌, true, [], ◌∷◌, arith}
use ore_unix.Fs.Ramfs.Bytes.{IsValid, ramfs_read-ramfs_write, ramfs_truncate-stale}
use ore_unix.Fs.Ramfs.{File, ramfs_read, ramfs_truncate, ramfs_write}

abbrev log : File
log = record { data_ = 1 ∷ 2 ∷ 3 ∷ []; size = 3; pos = 0; append = true }

log-IsValid : IsValid log
log-IsValid = record { in_memory = omega arith; small = omega arith }

ramfs_read-ramfs_write_example :
    (let r = ramfs_write true log (4 ∷ 5 ∷ []) in
      (r.0 ≡ true) × ((ramfs_read (record r.1 { pos = 3 }) 2).0 ≡ 4 ∷ 5 ∷ []))
ramfs_read-ramfs_write_example =
    ramfs_read-ramfs_write log (4 ∷ 5 ∷ []) log-IsValid (omega arith) (omega arith)

ramfs_truncate-stale_example :
    (let g = (ramfs_truncate true (ramfs_truncate true log 1).1 3).1 in
      (ramfs_read (record g { pos = 0 }) 3).0 ≡ 1 ∷ 2 ∷ 3 ∷ [])
ramfs_truncate-stale_example =
    ramfs_truncate-stale log 1 3 (omega arith) (omega arith) (omega arith) (omega arith)
