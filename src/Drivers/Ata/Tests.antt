-- ===== src/Drivers/Ata/Tests.antt =====
-- Tests of drivers/ata.c on a drive that answers at once and keeps its sectors in a function.
use ore_unix.Common.{
  ℕ, zero, suc, ◌+◌, ◌-◌, ◌^◌, ◌<◌, true, false, Bool, ◌&&◌, ◌≡◌, refl, ap, subst, List, [], ◌∷◌,
  some, leb, ltb, ◌==◌, if◌then◌else◌, length, get_or, replicate, length-replicate, arith,
}
use ore_unix.Drivers.Ata.{Disk, Drive, ata_file_read, ata_file_write, ata_identify}
use ore_unix.Drivers.Ata.Ports.{byte, disk_bytes, lba_of, Works}
use ore_unix.Drivers.Ata.Read.{ata_file_read-bytes}
use ore_unix.Drivers.Ata.Write.{ata_file_write-replaces}

tabulate : ℕ → (ℕ → ℕ) → List ℕ
tabulate zero f = []
tabulate (suc n) f = f 0 ∷ tabulate n (λ i. f (suc i))

length-tabulate : (n : ℕ) (f : ℕ → ℕ) → length (tabulate n f) ≡ n
unfolding tabulate
length-tabulate zero f = refl
length-tabulate (suc n) f = ap suc (length-tabulate n (λ i. f (suc i)))

tabulate-get_or : (xs : List ℕ) → tabulate (length xs) (λ i. get_or xs i 0) ≡ xs
unfolding tabulate
tabulate-get_or [] = refl
tabulate-get_or (x ∷ xs) = ap (λ ys. x ∷ ys) (tabulate-get_or xs)

abbrev disk : Disk
disk = record {
  Media = ℕ → ℕ → ℕ;
  status = λ m c i. 8;
  data_in = λ m c. tabulate 512 (m (lba_of c));
  data_out = λ m c s q. if q == lba_of c then (λ i. get_or s i 0) else m q;
}

-- The only drive there is.
disk-Works : (slave : Bool) → Works disk slave
disk-Works slave = record {
  no_error = λ m c. refl;
  ready = λ m c. refl;
  content = λ m q. tabulate 512 (m q);
  sized = λ m q. length-tabulate 512 (m q);
  gives = λ m c asked. refl;
  stores = λ m c s q asked len. stored (q == lba_of c) (m q) s len;
}
  where
    stored :
        (here : Bool) (old : ℕ → ℕ) (s : List ℕ)
        → length s ≡ 512
        → tabulate 512 (if here then (λ i. get_or s i 0) else old)
          ≡ (if here then s else tabulate 512 old)
    stored true old s len = subst (λ n. tabulate n (λ i. get_or s i 0) ≡ s) len (tabulate-get_or s)
    stored false old s len = refl

-- Byte `i` of sector `q` is `q + i`.
abbrev media : ℕ → ℕ → ℕ
media q i = q + i

ata_file_read-bytes_example :
    ata_file_read disk false media 510 4 ≡ (disk_bytes (disk-Works false) media 510 4, some 4, 514)
ata_file_read-bytes_example =
    ata_file_read-bytes disk false (disk-Works false) media 510 4 (omega arith)

ata_file_write-replaces_example :
    (m' : ℕ → ℕ → ℕ) × (ata_file_write disk true (replicate 512 0) media 510 (7 ∷ 8 ∷ 9 ∷ [])
      ≡ (m', some 3, 513))
    × ((a : ℕ)
        → a < 2 ^ 37
        → byte (disk-Works true) m' a ≡ (
            if leb 510 a && ltb a 513
            then get_or (7 ∷ 8 ∷ 9 ∷ []) (a - 510) 0
            else byte (disk-Works true) media a))
ata_file_write-replaces_example =
    ata_file_write-replaces disk true (disk-Works true) (replicate 512 0) media 510 (7 ∷ 8 ∷ 9 ∷ [])
      (length-replicate {A = ℕ} 512 0) (omega arith)

abbrev blank : Drive
blank = record { exists = false; lba48 = false; slave = false; sectors = 0; model = [] }

-- Without a status there is no drive.
no_drive :
    ata_identify
      (record { first_status = 0; lba_mid = 0; lba_hi = 0; drq = true; ident = [] })
      blank
    ≡ (blank, false)
unfolding ata_identify
no_drive = refl
