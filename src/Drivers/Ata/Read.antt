-- ===== src/Drivers/Ata/Read.antt =====
-- drivers/ata.c, `ata_file_read`: the sectors of the disk seen as one array of bytes.
use ore_unix.Common.{
  ℕ, zero, suc, ◌+◌, ◌-◌, ◌*◌, ◌/◌, ◌%◌, ◌^◌, ◌<◌, ◌≤◌, Bool, true, ◌≡◌, refl, sym, ap, ◌∙◌, List,
  [], ◌∷◌, ◌++◌, some, ◌==◌, length, get_or, take, drop, arith, Bool-cases, inl, inr,
}
use ore_unix.Drivers.Ata.{Disk, ata_file_read, chunk_of, read_from}
use ore_unix.Drivers.Ata.Ports.{byte, disk_bytes, reads, Works}

take-drop-next :
    (xs : List ℕ) (i n : ℕ)
    → i < length xs
    → take (suc n) (drop i xs) ≡ get_or xs i 0 ∷ take n (drop (i + 1) xs)
take-drop-next [] i n h = absurd (omega arith)
take-drop-next (x ∷ xs) zero n h = refl
take-drop-next (x ∷ xs) (suc i) n h =
    let e : suc i + 1 ≡ suc (i + 1) = omega arith in rw e (take-drop-next xs i n (omega arith))

module _ (k : Disk) (slave : Bool) (works : Works k slave) where
  sector : k.Media → ℕ → List ℕ
  sector m q = works.content m q

  -- A part of a sector.
  sector-bytes :
      (m : k.Media) (q i n : ℕ)
      → i + n ≤ 512
      → take n (drop i (sector m q)) ≡ disk_bytes works m (q * 512 + i) n
  unfolding sector
  sector-bytes m q i zero h = refl
  sector-bytes m q i (suc n) h =
      let len = works.sized m q in
      let quot : (q * 512 + i) / 512 ≡ q = omega arith in
      let off : (q * 512 + i) % 512 ≡ i = omega arith in
      let next : q * 512 + (i + 1) ≡ q * 512 + i + 1 = omega arith in
      take-drop-next (sector m q) i n (omega (arith, len))
      ∙ rw (quot, off)
          (ap (◌∷◌ (get_or (sector m q) i 0))
            (sector-bytes m q (i + 1) n (omega arith) ∙ ap (λ a. disk_bytes works m a n) next))

  disk_bytes-add :
      (m : k.Media) (a i n : ℕ)
      → disk_bytes works m a (i + n) ≡ disk_bytes works m a i ++ disk_bytes works m (a + i) n
  disk_bytes-add m a zero n =
      let e : 0 + n ≡ n = omega arith in let f : a + 0 ≡ a = omega arith in rw (e, f) refl
  disk_bytes-add m a (suc i) n =
      let e : suc i + n ≡ suc (i + n) = omega arith in
      let f : a + suc i ≡ a + 1 + i = omega arith in
      rw (e, f) (ap (◌∷◌ (byte works m a)) (disk_bytes-add m (a + 1) i n))

  read_from-bytes :
      (f : ℕ) (m : k.Media) (pos left : ℕ)
      → left ≤ f
      → pos + left ≤ 2 ^ 37
      → read_from k slave f m pos left ≡ (disk_bytes works m pos left, true)
  unfolding read_from sector
  read_from-bytes zero m pos left h low = let e : left ≡ 0 = omega arith in rw e refl
  read_from-bytes (suc f) m pos left h low = elim (Bool-cases (left == 0)) [
    | inl e ↦ (let z : left ≡ 0 = ground (arith, e) in rw (read_from, z) refl)
    | inr ne ↦
        (let n = chunk_of pos left in
          let pos_left : 0 < left = ground (arith, ne) in
          let ih = read_from-bytes f m (pos + n) (left - n) (omega arith) (omega arith) in
          let part = sector-bytes m (pos / 512) (pos % 512) n (omega arith) in
          let place : pos / 512 * 512 + pos % 512 ≡ pos = omega arith in
          let sum : n + (left - n) ≡ left = omega arith in
          rw (read_from, ne, reads k slave works m (pos / 512) (omega (arith, pos_left)), ih)
            (ap (λ bs. (bs, true))
              (ap (λ bs. bs ++ disk_bytes works m (pos + n) (left - n))
                  (part ∙ ap (λ a. disk_bytes works m a n) place)
                ∙ sym (disk_bytes-add m pos n (left - n))
                ∙ ap (disk_bytes works m pos) sum)))
  ]

  length-disk_bytes : (m : k.Media) (a n : ℕ) → length (disk_bytes works m a n) ≡ n
  length-disk_bytes m a zero = refl
  length-disk_bytes m a (suc n) = ap suc (length-disk_bytes m (a + 1) n)

  -- On a drive that works and below its 2^28 sectors, `ata_file_read` of any number of bytes at any
  -- position returns those bytes of the disk, seen as one array, and moves the position behind
  -- them.
  pub ata_file_read-bytes :
      (m : k.Media) (pos count : ℕ)
      → pos + count ≤ 2 ^ 37
      → ata_file_read k slave m pos count ≡ (disk_bytes works m pos count, some count, pos + count)
  unfolding ata_file_read
  ata_file_read-bytes m pos count low =
      rw
        (
          ata_file_read,
          read_from-bytes count m pos count (omega arith) low,
          length-disk_bytes m pos count,
        )
        refl
