-- ===== src/Drivers/Ata.antt =====
-- drivers/ata.c: the disk driver. The drive behind the ports is a parameter, `Disk`: what it
-- answers to the registers that a command writes. The 256 words of a sector stand as its 512 bytes.
-- The loop of `ata_wait_bsy` waits for the drive and is not followed; the spinlock makes a sector's
-- transfer one step.
pub mod Ports
pub mod Patch
pub mod Read
pub mod Write
mod Tests
use ore_unix.Common.{
  ℕ, zero, suc, ◌+◌, ◌-◌, ◌*◌, ◌/◌, ◌%◌, ◌^◌, min, Bool, true, false, not, ◌||◌, ◌&&◌, Option, none,
  some, List, [], ◌∷◌, ◌++◌, ltb, leb, ◌==◌, if◌then◌else◌, take, drop, length, get_or,
}

-- The register's offset and the value, in the order of the writes.
abbrev pub Registers : Type 0
Registers = List (ℕ × ℕ)

pub record Disk : Type 1 where
  pub Media : Type 0
  -- The successive values of the status register after a command.
  pub status : Media → Registers → ℕ → ℕ
  pub data_in : Media → Registers → List ℕ
  pub data_out : Media → Registers → List ℕ → Media

abbrev pub ata_cmd_read_pio : ℕ
ata_cmd_read_pio = 32

abbrev pub ata_cmd_write_pio : ℕ
ata_cmd_write_pio = 48

-- `s & ATA_SR_ERR` and `s & ATA_SR_DRQ`
abbrev pub has_error : ℕ → Bool
has_error s = s % 2 == 1

abbrev pub has_data : ℕ → Bool
has_data s = s / 8 % 2 == 1

-- The loop of `ata_wait_drq` with `n` polls left, from poll `i` on: whether data is ready; `false`
-- is -EIO, after an error or without an answer.
unfoldable pub wait_from : ℕ → (ℕ → ℕ) → ℕ → Bool
wait_from zero status i = false
wait_from (suc n) status i =
    let rest = wait_from n status (i + 1) in
    if has_error (status i) then false else if has_data (status i) then true else rest

-- `--timeout` from a million on.
unfoldable pub ata_wait_drq : (ℕ → ℕ) → Bool
unfolding wait_from
ata_wait_drq status = wait_from 999999 status 0

-- `drv | ((lba >> 24) & 0x0F)`: the low four bits of `drv` are 0.
abbrev pub drive_register : Bool → ℕ → ℕ
drive_register slave lba = (if slave then 240 else 224) + lba / 2 ^ 24 % 16

-- What both sector functions write before they wait. A register is a byte.
unfoldable pub sector_command : Bool → ℕ → ℕ → Registers
sector_command slave lba cmd =
    (6, drive_register slave lba)
    ∷ (2, 1)
    ∷ (3, lba % 256)
    ∷ (4, lba / 2 ^ 8 % 256)
    ∷ (5, lba / 2 ^ 16 % 256)
    ∷ (7, cmd)
    ∷ []

-- What `ata_identify` reads: the status after the command, the two registers that are not 0 for a
-- drive of another kind, whether data came, and the 256 words.
pub record Answer : Type 0 where
  pub first_status : ℕ
  pub lba_mid : ℕ
  pub lba_hi : ℕ
  pub drq : Bool
  pub ident : List ℕ

-- `struct ata_drive` without the ports.
pub record Drive : Type 0 where
  pub exists : Bool
  pub lba48 : Bool
  pub slave : Bool
  pub sectors : ℕ
  pub model : List ℕ

abbrev pub model_from : List ℕ → ℕ → ℕ → List ℕ
model_from ident i zero = 0 ∷ []
model_from ident i (suc n) =
    (get_or ident i 0 / 256) ∷ (get_or ident i 0 % 256) ∷ model_from ident (i + 1) n

-- The words are 16 bits, so `|` of the shifted words is their sum.
unfoldable pub ata_identify : Answer → Drive → Drive × Bool
ata_identify a d =
    let word = λ (i : ℕ). get_or a.ident i 0 in
    let sectors28 = word 61 * 2 ^ 16 + word 60 in
    let sectors48 = word 103 * 2 ^ 48 + word 102 * 2 ^ 32 + word 101 * 2 ^ 16 + word 100 in
    let large = word 83 / 2 ^ 10 % 2 == 1 in
    if a.first_status == 0 || not (a.lba_mid == 0 && a.lba_hi == 0) || not a.drq
    then (d, false)
    else (
      record d {
        exists = true;
        lba48 = large || d.lba48;
        sectors = if large then sectors48 else sectors28;
        model = model_from a.ident 27 20;
      },
      true,
    )

-- `MIN(512 - off, count - n)`
abbrev pub chunk_of : ℕ → ℕ → ℕ
chunk_of pos left = min (512 - pos % 512) left

-- The sector that a pass writes: `old` is what `sector` holds before the `memcpy`.
abbrev pub patch : List ℕ → ℕ → List ℕ → List ℕ
patch old off new = take off old ++ (new ++ drop (off + length new) old)

abbrev pub or_junk : Option (List ℕ) → List ℕ → List ℕ
or_junk none junk = junk
or_junk (some sector) junk = sector

module _ (k : Disk) (slave : Bool) where
  -- `none` is an error.
  unfoldable pub ata_read_sector : k.Media → ℕ → Option (List ℕ)
  ata_read_sector m lba =
      let c = sector_command slave lba ata_cmd_read_pio in
      if ata_wait_drq (k.status m c) then some (k.data_in m c) else none

  unfoldable pub ata_write_sector : k.Media → ℕ → List ℕ → Option k.Media
  ata_write_sector m lba sector =
      let c = sector_command slave lba ata_cmd_write_pio in
      if ata_wait_drq (k.status m c) then some (k.data_out m c sector) else none

  -- The loop of `ata_file_read` with `left` bytes to go: the bytes, and whether no sector failed.
  -- Each pass reads a byte at least, so as many rounds as bytes are enough.
  unfoldable pub read_from : ℕ → k.Media → ℕ → ℕ → List ℕ × Bool
  read_from zero m pos left = ([], true)
  read_from (suc f) m pos left =
      let n = chunk_of pos left in
      let rest = read_from f m (pos + n) (left - n) in
      if left == 0 then ([], true) else elim (ata_read_sector m (pos / 512)) [
        | none ↦ ([], false)
        | some sector ↦ (take n (drop (pos % 512) sector) ++ rest.0, rest.1)
      ]

  -- The bytes in `buf`, the result (`none` is an error), and the position, which an error leaves as
  -- it was, although bytes may have been read.
  unfoldable pub ata_file_read : k.Media → ℕ → ℕ → List ℕ × Option ℕ × ℕ
  unfolding read_from
  ata_file_read m pos count =
      let (bytes, ok) = read_from count m pos count in
      let n = length bytes in
      if ok then (bytes, some n, pos + n) else (bytes, if n == 0 then none else some n, pos)

  -- The array `sector`, whose content is `junk` when it is not read; whether the read fails is not
  -- looked at.
  abbrev pub fetched : List ℕ → k.Media → ℕ → ℕ → List ℕ
  fetched junk m pos n =
      if not (pos % 512 == 0) || ltb n 512
      then or_junk (ata_read_sector m (pos / 512)) junk
      else junk

  -- The loop of `ata_file_write`: the media, the number of bytes written, and whether no sector
  -- failed.
  unfoldable pub write_from : ℕ → List ℕ → k.Media → ℕ → List ℕ → k.Media × ℕ × Bool
  write_from zero junk m pos bytes = (m, 0, true)
  write_from (suc f) junk m pos bytes =
      let n = chunk_of pos (length bytes) in
      let sector = patch (fetched junk m pos n) (pos % 512) (take n bytes) in
      if length bytes == 0 then (m, 0, true) else elim (ata_write_sector m (pos / 512) sector) [
        | none ↦ (m, 0, false)
        | some m' ↦
            let (m'', more, ok) = write_from f junk m' (pos + n) (drop n bytes) in
            (m'', n + more, ok)
      ]

  unfoldable pub ata_file_write : List ℕ → k.Media → ℕ → List ℕ → k.Media × Option ℕ × ℕ
  unfolding write_from
  ata_file_write junk m pos bytes =
      let (m', n, ok) = write_from (length bytes) junk m pos bytes in
      if ok then (m', some n, pos + n) else (m', if n == 0 then none else some n, pos)
