-- ===== src/Drivers/Ata/Ports.antt =====
-- drivers/ata.c: the address in the registers, and what the driver relies on of the drive.
use ore_unix.Common.{
  ℕ, zero, suc, ◌+◌, ◌*◌, ◌/◌, ◌%◌, ◌^◌, Bool, true, false, ◌≡◌, refl, ap, ◌∙◌, ◌<◌, ◌&&◌, List, [],
  ◌∷◌, some, ◌==◌, if◌then◌else◌, length, get_or, arith,
}
use ore_unix.Drivers.Ata.{
  Disk, Registers, ata_cmd_read_pio, ata_cmd_write_pio, ata_read_sector, ata_wait_drq,
  ata_write_sector, has_data, has_error, sector_command, wait_from,
}

-- The last value written to a register.
abbrev pub register : Registers → ℕ → ℕ → ℕ
register [] r value = value
register ((o, v) ∷ c) r value = register c r (if o == r then v else value)

-- The 28-bit address that the registers hold, as the ATA standard lays it out.
abbrev pub lba_of : Registers → ℕ
lba_of c =
    register c 3 0 + register c 4 0 * 2 ^ 8 + register c 5 0 * 2 ^ 16 + register c 6 0 % 16 * 2 ^ 24

-- The registers hold the low 28 bits of the sector's number.
pub lba_of-sector_command :
    (slave : Bool) (lba cmd : ℕ) → lba_of (sector_command slave lba cmd) ≡ lba % 2 ^ 28
unfolding sector_command
lba_of-sector_command true lba cmd = omega arith
lba_of-sector_command false lba cmd = omega arith

-- The registers ask for that command on one sector, by its number (LBA), of that drive of the two.
abbrev pub asks_for : Bool → ℕ → Registers → Bool
asks_for slave cmd c =
    register c 7 0 == cmd
    && register c 2 0 == 1
    && register c 6 0 / 64 % 2 == 1
    && register c 6 0 / 16 % 2 == (if slave then 1 else 0)

pub asks_for-sector_command :
    (slave : Bool) (lba cmd : ℕ) → asks_for slave cmd (sector_command slave lba cmd) ≡ true
unfolding sector_command
asks_for-sector_command true lba cmd = ground arith
asks_for-sector_command false lba cmd = ground arith

-- A drive without errors, the first or the second: it answers a command with data at once.
-- `content` is what it holds in a sector, of 512 bytes; a command to read (0x20) gives the content
-- of the sector whose 28-bit number is in the registers, and a command to write (0x30) replaces it
-- alone.
pub record Works (k : Disk) (slave : Bool) : Type 0 where
  pub no_error : (m : k.Media) (c : Registers) → has_error (k.status m c 0) ≡ false
  pub ready : (m : k.Media) (c : Registers) → has_data (k.status m c 0) ≡ true
  pub content : k.Media → ℕ → List ℕ
  pub sized : (m : k.Media) (q : ℕ) → length (content m q) ≡ 512
  pub gives :
      (m : k.Media) (c : Registers)
      → asks_for slave 0x20 c ≡ true
      → k.data_in m c ≡ content m (lba_of c)
  pub stores :
      (m : k.Media) (c : Registers) (sector : List ℕ) (q : ℕ)
      → asks_for slave 0x30 c ≡ true
      → length sector ≡ 512
      → content (k.data_out m c sector) q ≡ (if q == lba_of c then sector else content m q)

module _ {k : Disk} {slave : Bool} (works : Works k slave) where
  -- The bytes of the disk: byte `a` stands in sector `a / 512`.
  abbrev pub byte : k.Media → ℕ → ℕ
  byte m a = get_or (works.content m (a / 512)) (a % 512) 0

  abbrev pub disk_bytes : k.Media → ℕ → ℕ → List ℕ
  disk_bytes m a zero = []
  disk_bytes m a (suc n) = byte m a ∷ disk_bytes m (a + 1) n

wait_from-ready :
    (n : ℕ) (status : ℕ → ℕ) (i : ℕ)
    → has_error (status i) ≡ false
    → has_data (status i) ≡ true
    → wait_from (suc n) status i ≡ true
unfolding wait_from
wait_from-ready n status i e d = rw (wait_from, e, d) refl

module _ (k : Disk) (slave : Bool) (works : Works k slave) where
  waits : (m : k.Media) (c : Registers) → ata_wait_drq (k.status m c) ≡ true
  unfolding ata_wait_drq
  waits m c =
      let e = works.no_error m c in
      let d = works.ready m c in wait_from-ready 999998 (k.status m c) 0 e d

  -- A sector below 2^28 is read as the drive holds it.
  pub reads :
      (m : k.Media) (lba : ℕ)
      → lba < 2 ^ 28
      → ata_read_sector k slave m lba ≡ some (works.content m lba)
  unfolding ata_read_sector
  reads m lba low =
      let c = sector_command slave lba ata_cmd_read_pio in
      let e : lba_of c ≡ lba = lba_of-sector_command slave lba ata_cmd_read_pio ∙ omega arith in
      let given = works.gives m c (asks_for-sector_command slave lba ata_cmd_read_pio) in
      rw (waits m c) (ap (λ s. some s) (given ∙ ap (works.content m) e))

  pub writes :
      (m : k.Media) (lba : ℕ) (sector : List ℕ)
      → ata_write_sector k slave m lba sector
        ≡ some (k.data_out m (sector_command slave lba ata_cmd_write_pio) sector)
  unfolding ata_write_sector
  writes m lba sector = rw (waits m (sector_command slave lba ata_cmd_write_pio)) refl
