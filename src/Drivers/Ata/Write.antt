-- ===== src/Drivers/Ata/Write.antt =====
-- drivers/ata.c, `ata_file_write`: what the disk, seen as one array of bytes, holds after it.
use ore_unix.Common.{
  ℕ, zero, suc, ◌+◌, ◌-◌, ◌*◌, ◌/◌, ◌%◌, ◌^◌, ◌<◌, ◌≤◌, Bool, true, false, not, ◌&&◌, ◌||◌, ◌≡◌,
  refl, ap, ◌∙◌, List, [], ◌∷◌, some, ltb, leb, ◌==◌, if◌then◌else◌, length, get_or, take, drop,
  arith, ◌⊎◌, Bool-cases, inl, inr, length-take, length-drop,
}
use ore_unix.Drivers.Ata.{
  Disk, ata_cmd_write_pio, ata_file_write, ata_write_sector, chunk_of, fetched, patch,
  sector_command, write_from,
}
use ore_unix.Drivers.Ata.Ports.{
  byte, lba_of, lba_of-sector_command, asks_for-sector_command, reads, writes, Works,
}
use ore_unix.Drivers.Ata.Patch.{
  get_or-patch, length-patch, replaced, same_window, full_window, other_window, if_get, if_outside,
  replaced-nil, replaced-twice,
}

module _ (k : Disk) (slave : Bool) (works : Works k slave) where
  sector : k.Media → ℕ → List ℕ
  sector m q = works.content m q

  stored : k.Media → ℕ → List ℕ → k.Media
  stored m q s = k.data_out m (sector_command slave q ata_cmd_write_pio) s

  -- A sector below 2^28 that is written changes its own bytes.
  byte-stored :
      (m : k.Media) (q a : ℕ) (s : List ℕ)
      → length s ≡ 512
      → q < 2 ^ 28
      → a / 512 < 2 ^ 28
      → byte works (stored m q s) a
        ≡ (if a / 512 == q then get_or s (a % 512) 0 else byte works m a)
  unfolding stored
  byte-stored m q a s len low low' =
      let c = sector_command slave q ata_cmd_write_pio in
      let e : lba_of c ≡ q = lba_of-sector_command slave q ata_cmd_write_pio ∙ omega arith in
      let asked = asks_for-sector_command slave q ata_cmd_write_pio in
      rw (works.stores m c s (a / 512) asked len, e)
        (if_get (a / 512 == q) s (works.content m (a / 512)) (a % 512))

  -- The array before the `memcpy`.
  fetched-cases :
      (junk : List ℕ) (m : k.Media) (pos n : ℕ)
      → pos / 512 < 2 ^ 28
      → (fetched k slave junk m pos n ≡ sector m (pos / 512))
        ⊎ ((fetched k slave junk m pos n ≡ junk) × (pos % 512 ≡ 0) × (512 ≤ n))
  unfolding sector
  fetched-cases junk m pos n low = elim (Bool-cases (not (pos % 512 == 0) || ltb n 512)) [
    | inl e ↦ inl (rw (e, reads k slave works m (pos / 512) low) refl)
    | inr e ↦ inr (rw e refl, ground (arith, e), ground (arith, e))
  ]

  length-fetched :
      (junk : List ℕ) (m : k.Media) (pos n : ℕ)
      → pos / 512 < 2 ^ 28
      → length junk ≡ 512
      → length (fetched k slave junk m pos n) ≡ 512
  unfolding sector
  length-fetched junk m pos n low len = elim (fetched-cases junk m pos n low) [
    | inl e ↦ rw e (works.sized m (pos / 512))
    | inr e ↦ rw (e.0) len
  ]

  -- A byte that the pass keeps.
  fetched-byte :
      (junk : List ℕ) (m : k.Media) (pos n a : ℕ)
      → pos / 512 < 2 ^ 28
      → a / 512 ≡ pos / 512
      → ¬ ((pos % 512 ≡ 0) × (512 ≤ n))
      → get_or (fetched k slave junk m pos n) (a % 512) 0 ≡ byte works m a
  unfolding sector
  fetched-byte junk m pos n a low same part = elim (fetched-cases junk m pos n low) [
    | inl e ↦ rw (e, same) refl
    | inr e ↦ absurd (part (e.1, e.2))
  ]

  -- One pass.
  pass-byte :
      (junk : List ℕ) (m : k.Media) (pos a : ℕ) (bytes : List ℕ)
      → length junk ≡ 512
      → pos / 512 < 2 ^ 28
      → a / 512 < 2 ^ 28
      → (let n = chunk_of pos (length bytes) in
          let s = patch (fetched k slave junk m pos n) (pos % 512) (take n bytes) in
          byte works (stored m (pos / 512) s) a ≡ replaced pos (take n bytes) a (byte works m a))
  unfolding sector
  pass-byte junk m pos a bytes len low low' =
      let n = chunk_of pos (length bytes) in
      let old = fetched k slave junk m pos n in
      let s = patch old (pos % 512) (take n bytes) in
      let old_len = length-fetched junk m pos n low len in
      let part = length-take n bytes in
      let s_len : length s ≡ 512 =
        length-patch old (pos % 512) (take n bytes) (omega (arith, part, old_len)) ∙ old_len in
      let there = byte-stored m (pos / 512) a s s_len low low' in
      let inner = get_or-patch old (pos % 512) (take n bytes) (a % 512) (omega (arith, old_len)) in
      elim (Bool-cases (a / 512 == pos / 512)) [
        | inl same ↦
            (let e : a / 512 ≡ pos / 512 = ground (arith, same) in
              let w = same_window pos a (length (take n bytes)) e in
              let d : a % 512 - pos % 512 ≡ a - pos = omega arith in
              there
              ∙ rw same (
                  inner
                  ∙ rw (w, d)
                      (if_outside (leb pos a && ltb a (pos + length (take n bytes)))
                        (get_or (take n bytes) (a - pos) 0)
                        (λ out. fetched-byte junk m pos n a low e (λ full.
                          let all =
                            full_window pos a (length (take n bytes)) e (full.0)
                              (omega (arith, part, full.1)) in
                          cc (all, out))))))
        | inr other ↦
            there
            ∙ rw
                (
                  other,
                  other_window pos a (length (take n bytes)) (ground (arith, other))
                      (omega (arith, part)),
                )
                refl
      ]

  -- The loop writes the bytes in place of the old ones.
  record Wrote (m : k.Media) (pos : ℕ) (bytes : List ℕ) (r : k.Media × ℕ × Bool) : Type 0 where
    all_written : r.1 ≡ length bytes
    no_failure : r.2 ≡ true
    holds : (a : ℕ) → a / 512 < 2 ^ 28 → byte works (r.0) a ≡ replaced pos bytes a (byte works m a)

  nothing-Wrote : (m : k.Media) (pos : ℕ) → Wrote m pos [] (m, 0, true)
  nothing-Wrote m pos = record {
    all_written = refl;
    no_failure = refl;
    holds = λ a in_disk. replaced-nil pos a (byte works m a);
  }

  write_from-Wrote :
      (f : ℕ) (junk : List ℕ) (m : k.Media) (pos : ℕ) (bytes : List ℕ)
      → length junk ≡ 512
      → length bytes ≤ f
      → pos + length bytes ≤ 2 ^ 37
      → Wrote m pos bytes (write_from k slave f junk m pos bytes)
  unfolding write_from stored
  write_from-Wrote zero junk m pos [] len h low = nothing-Wrote m pos
  write_from-Wrote zero junk m pos (b ∷ bytes) len h low = absurd (omega arith)
  write_from-Wrote (suc f) junk m pos [] len h low = nothing-Wrote m pos
  write_from-Wrote (suc f) junk m pos (b ∷ bytes) len h low =
      let all = b ∷ bytes in
      let n = chunk_of pos (length all) in
      let s = patch (fetched k slave junk m pos n) (pos % 512) (take n all) in
      let m' = stored m (pos / 512) s in
      let dropped = length-drop n all in
      let r =
        write_from-Wrote f junk m' (pos + n) (drop n all) len (omega (arith, dropped))
          (omega (arith, dropped)) in
      let some_bytes : (length all == 0) ≡ false = ground arith in
      rw (write_from, some_bytes, writes k slave works m (pos / 512) s)
        (record {
          all_written = omega (arith, r.all_written, dropped);
          no_failure = r.no_failure;
          holds = λ a in_disk.
              r.holds a in_disk
              ∙ ap (replaced (pos + n) (drop n all) a)
                  (pass-byte junk m pos a all len (omega arith) in_disk)
              ∙ replaced-twice pos n all a (byte works m a) (omega arith);
        })

  -- On a drive that works and below its 2^28 sectors, `ata_file_write` writes all bytes and moves
  -- the position behind them; the disk, seen as one array, then holds them from that position on,
  -- and the bytes it held everywhere else.
  pub ata_file_write-replaces :
      (junk : List ℕ) (m : k.Media) (pos : ℕ) (bytes : List ℕ)
      → length junk ≡ 512
      → pos + length bytes ≤ 2 ^ 37
      → (m' : k.Media) × (ata_file_write k slave junk m pos bytes
          ≡ (m', some (length bytes), pos + length bytes))
        × ((a : ℕ)
            → a < 2 ^ 37
            → byte works m' a ≡ (
                if leb pos a && ltb a (pos + length bytes)
                then get_or bytes (a - pos) 0
                else byte works m a))
  unfolding ata_file_write
  ata_file_write-replaces junk m pos bytes len low =
      let w = write_from-Wrote (length bytes) junk m pos bytes len (omega arith) low in
      (
        (write_from k slave (length bytes) junk m pos bytes).0,
        rw (ata_file_write, w.no_failure, w.all_written) refl,
        λ a h. w.holds a (omega arith),
      )

-- Sectors 2^28 apart have the same registers: the driver writes and reads the lower one for both,
-- though `ata_identify` takes over the size of a larger drive.
pub ata_write_sector-wraps :
    (k : Disk) (slave : Bool) (m : k.Media) (lba n : ℕ) (s : List ℕ)
    → ata_write_sector k slave m (lba + n * 2 ^ 28) s ≡ ata_write_sector k slave m lba s
unfolding ata_write_sector sector_command
ata_write_sector-wraps k slave m lba n s =
    let a : (lba + n * 2 ^ 28) % 256 ≡ lba % 256 = omega arith in
    let b : (lba + n * 2 ^ 28) / 2 ^ 8 % 256 ≡ lba / 2 ^ 8 % 256 = omega arith in
    let c : (lba + n * 2 ^ 28) / 2 ^ 16 % 256 ≡ lba / 2 ^ 16 % 256 = omega arith in
    let d : (lba + n * 2 ^ 28) / 2 ^ 24 % 16 ≡ lba / 2 ^ 24 % 16 = omega arith in
    rw (ata_write_sector, sector_command, a, b, c, d) refl
