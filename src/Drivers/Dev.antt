-- ===== src/Drivers/Dev.antt =====
-- drivers/dev.c: the registry of device numbers, the memory devices, and the devices that
-- `devfs_init` registers. The nodes in /dev belong to the VFS.
pub mod Random
use ore_unix.Common.Errno.{Errno, einval, enospc}
use ore_unix.Common.{
  ℕ, zero, suc, ◌+◌, ◌-◌, ◌*◌, ◌/◌, ◌%◌, ◌^◌, ◌<◌, ◌≡◌, Bool, true, false, refl, ap, ◌∙◌, Option,
  none, some, List, [], ◌∷◌, ◌++◌, leb, ltb, ◌==◌, if◌then◌else◌, set, get_elem?, replicate, take,
  arith,
}

-- The tables of functions, as the source names them.
pub data FileOps : Type 0 where
  null_ops zero_ops full_ops random_ops console_ops tty_ops kmsg_ops ata_ops : FileOps

abbrev pub Registry : Type 0
Registry = List (Option FileOps)

-- `chrdevs` and `blkdevs`.
pub record Devices : Type 0 where
  pub chrdevs : Registry
  pub blkdevs : Registry

-- `none` is -EINVAL.
unfoldable pub register_chrdev : Devices → ℕ → FileOps → Option Devices
register_chrdev d major ops =
    if leb 256 major then none else some (record d { chrdevs = set d.chrdevs major (some ops) })

unfoldable pub register_blkdev : Devices → ℕ → FileOps → Option Devices
register_blkdev d major ops =
    if leb 256 major then none else some (record d { blkdevs = set d.blkdevs major (some ops) })

abbrev pub or_ops : Option (Option FileOps) → FileOps → FileOps
or_ops none old = old
or_ops (some none) old = old
or_ops (some (some ops)) old = ops

abbrev pub makedev : ℕ → ℕ → ℕ
makedev major minor = major * 256 + minor % 256

-- The functions of an inode with the mode and the number; `old` are those that it has.
unfoldable pub dev_setup_inode : Devices → ℕ → ℕ → FileOps → FileOps
dev_setup_inode d mode dev old =
    let major = dev / 256 in
    if mode / 2 ^ 12 % 16 == 2
    then if ltb major 256 then or_ops (get_elem? d.chrdevs major) old else old
    else if mode / 2 ^ 12 % 16 == 6
    then if ltb major 256 then or_ops (get_elem? d.blkdevs major) old else old
    else old

-- The generator behind /dev/random.
unfoldable pub lcg_rand : ℕ → ℕ
lcg_rand s = (s * 1664525 + 1013904223) % 2 ^ 32

-- The four bytes of a word in memory.
abbrev pub word_bytes : ℕ → List ℕ
word_bytes r = (r % 256) ∷ (r / 2 ^ 8 % 256) ∷ (r / 2 ^ 16 % 256) ∷ (r / 2 ^ 24 % 256) ∷ []

-- The loop of `random_read` with `words` calls of the generator to go and `left` bytes to fill.
unfoldable pub random_from : ℕ → ℕ → ℕ → List ℕ × ℕ
random_from zero left s = ([], s)
random_from (suc words) left s =
    let r = lcg_rand s in
    let rest = random_from words (left - 4) r in (take left (word_bytes r) ++ rest.0, rest.1)

unfoldable pub random_read : ℕ → ℕ → List ℕ × ℕ
unfolding random_from
random_read count s = random_from ((count + 3) / 4) count s

-- The bytes that a read of `count` bytes fills, and the count that a write returns, of the devices
-- that are neither the console nor a generator.
unfoldable pub null_read : ℕ → List ℕ
null_read count = []

unfoldable pub zero_read : ℕ → List ℕ
zero_read count = replicate count 0

pub data WriteResult : Type 0 where
  written : ℕ → WriteResult
  fails : Errno → WriteResult

unfoldable pub null_write : ℕ → WriteResult
null_write count = written count

unfoldable pub full_write : ℕ → WriteResult
full_write count = fails enospc

-- The calls of `devfs_init` and `ata_register`.
unfoldable pub devfs_register : Devices → Option Devices
unfolding register_chrdev register_blkdev
devfs_register d = elim (register_chrdev d 1 null_ops) [
  | none ↦ none
  | some d1 ↦ elim (register_chrdev d1 4 tty_ops) [
    | none ↦ none
    | some d2 ↦ register_blkdev d2 8 ata_ops
  ]
]

abbrev pub no_devices : Devices
no_devices = record { chrdevs = replicate 256 none; blkdevs = replicate 256 none }

abbrev pub registered : Devices
registered = record {
  chrdevs = set (set (replicate 256 none) 1 (some null_ops)) 4 (some tty_ops);
  blkdevs = set (replicate 256 none) 8 (some ata_ops);
}

devfs_register-registered : devfs_register no_devices ≡ some registered
unfolding devfs_register
devfs_register-registered = refl

-- A character device of major number 1 that is made by number gets the functions of /dev/null,
-- whatever its minor number is: the one of /dev/zero reads nothing.
pub dev_setup_inode-memory :
    (mode minor : ℕ) (old : FileOps)
    → mode / 2 ^ 12 % 16 ≡ 2
    → dev_setup_inode registered mode (makedev 1 minor) old ≡ null_ops
unfolding dev_setup_inode
dev_setup_inode-memory mode minor old h =
    let major : (1 * 256 + minor % 256) / 256 ≡ 1 = omega arith in
    let chr : (mode / 2 ^ 12 % 16 == 2) ≡ true = ground arith in
    rw (dev_setup_inode, chr, major) refl
