-- ===== src/Kernel/Elf/Copies.antt =====
-- kernel/elf.c: what the copies of a segment write.
use ore_unix.Common.{
  refl, ◌≢◌, false, true, ap, ◌∙◌, align_down, Bool, none, some, sym, ℕ, zero, suc, ◌+◌, ◌-◌, ◌%◌,
  ◌^◌, ◌≤◌, ◌<◌, ◌&&◌, List, [], ◌∷◌, ◌==◌, ltb, leb, if◌then◌else◌, add32, page_size, min, Option,
  none, some, ◌≡◌, arith, Bool-cases, inl, inr, All,
}
use ore_unix.Mm.Vmm.Entry.{entry, frame, virt_to_phys_pd-entry}
use ore_unix.Mm.Vmm.Translate.{same_page-entry}
use ore_unix.Mm.Vmm.{Machine, virt_to_phys_pd, window_size, pte_addr, is_present}
use ore_unix.Kernel.Elf.{written_at, and_copy, Copy, Phdr, copies, segment_copies}

-- The position in the file of the byte that the copies write at an address.
unfoldable pub source_of : List Copy → ℕ → Option ℕ
source_of [] a = none
source_of (c ∷ cs) a =
    let rest = source_of cs a in
    if leb c.to a && ltb a (c.to + c.count) then some (c.from + (a - c.to)) else rest

-- A block of bytes at an address, from a position in the file.
abbrev pub block_source : ℕ → ℕ → ℕ → ℕ → Option ℕ
block_source left to from a = if leb to a && ltb a (to + left) then some (from + (a - to)) else none

-- The copy stays inside one page, and each of its bytes is written where its address translates to.
abbrev pub InPlace : Machine → ℕ → Copy → Type 0
InPlace m pd c =
    (c.to % page_size + c.count ≤ page_size)
    × ((i : ℕ) → i < c.count → virt_to_phys_pd m pd (c.to + i) ≡ c.pa + i)

-- The addresses are mapped, to pages below 4 MB.
abbrev pub IsMapped : Machine → ℕ → ℕ → ℕ → Type 0
IsMapped m pd to left =
    (a : ℕ)
    → to ≤ a
    → a < to + left
    → (virt_to_phys_pd m pd a ≢ 0) × (virt_to_phys_pd m pd a < window_size)

translated :
    (b : Bool) (e to i : ℕ)
    → to % page_size + i < page_size
    → (if b then pte_addr e + to % page_size else 0) ≢ 0
    → (if b then pte_addr e + (to + i) % page_size else 0)
      ≡ align_down (if b then pte_addr e + to % page_size else 0) page_size + to % page_size + i
translated false e to i inside ne = absurd (ne refl)
translated true e to i inside ne = omega arith

-- Within a page the translation goes on from byte to byte.
translated-page :
    (m : Machine) (pd to i : ℕ)
    → to % page_size + i < page_size
    → virt_to_phys_pd m pd to ≢ 0
    → virt_to_phys_pd m pd (to + i) ≡ written_at m pd to + i
translated-page m pd to i inside ne =
    let x = entry m pd to in
    let here = virt_to_phys_pd-entry m pd to in
    let one_frame : frame (to + i) ≡ frame to = omega arith in
    let same = same_page-entry m pd to (to + i) one_frame in
    virt_to_phys_pd-entry m pd (to + i)
    ∙ ap (λ e. if is_present e then pte_addr e + (to + i) % page_size else 0) same
    ∙ translated (is_present x) x to i inside (λ z. ne (here ∙ z))
    ∙ ap (λ t. align_down t page_size + to % page_size + i) (sym here)

pub chunk_bounds :
    (left to : ℕ)
    → 0 < left
    → let chunk = min left (page_size - to % page_size) in
      (0 < chunk) × (chunk ≤ left) × (to % page_size + chunk ≤ page_size)
chunk_bounds left to some_left =
    let inside : to % page_size < page_size = omega arith in (omega arith, omega arith, omega arith)

join_blocks :
    (left chunk to from a : ℕ)
    → 0 < chunk
    → chunk ≤ left
    → (if leb to a && ltb a (to + chunk)
        then some (from + (a - to))
        else block_source (left - chunk) (to + chunk) (from + chunk) a)
      ≡ block_source left to from a
join_blocks left chunk to from a more fits = ground arith

empty_block : (left to from a : ℕ) → left ≡ 0 → none ≡ block_source left to from a
empty_block left to from a none_left = ground (arith, none_left)

-- Copies of a block of bytes.
abbrev Copied : Machine → ℕ → ℕ → ℕ → ℕ → Option (List Copy) → Type 0
Copied m pd left to from r =
    (cs : List Copy) × (r ≡ some cs)
    × ((a : ℕ) → source_of cs a ≡ block_source left to from a)
    × All (InPlace m pd) cs

copy_step :
    (m : Machine) (pd left chunk to from : ℕ) (r : Option (List Copy))
    → 0 < chunk
    → chunk ≤ left
    → to % page_size + chunk ≤ page_size
    → virt_to_phys_pd m pd to ≢ 0
    → Copied m pd (left - chunk) (to + chunk) (from + chunk) r
    → Copied m pd left to from
        (and_copy (record { to = to; pa = written_at m pd to; from = from; count = chunk }) r)
unfolding source_of
copy_step m pd left chunk to from r more fits inside ne (cs, runs, sources, places) =
    let c : Copy = record { to = to; pa = written_at m pd to; from = from; count = chunk } in
    (
      c ∷ cs,
      ap (and_copy c) runs,
      (λ a. rw (source_of, sources a) (join_blocks left chunk to from a more fits)),
      ((inside, λ i lt. translated-page m pd to i (omega (arith, inside)) ne), places),
    )

copies-block :
    (n : ℕ) (m : Machine) (pd left to from : ℕ)
    → left ≤ n
    → to + left < 2 ^ 32
    → IsMapped m pd to left
    → Copied m pd left to from (copies n m pd left to from)
unfolding copies source_of
copies-block zero m pd left to from enough low mapped =
    ([], refl, (λ a. empty_block left to from a (omega arith)), tt)
copies-block (suc n) m pd left to from enough low mapped =
    let chunk = min left (page_size - to % page_size) in
    elim (Bool-cases (left == 0)) [
      | inl e ↦ ([], rw (copies, e) refl, (λ a. empty_block left to from a (ground (arith, e))), tt)
      | inr e ↦
          (let b = chunk_bounds left to (ground (arith, e)) in
            let next : add32 to chunk ≡ to + chunk = omega (arith, b.0, b.1, b.2) in
            let here = mapped to (omega arith) (omega (arith, b.0, b.1)) in
            let place = translated-page m pd to 0 (omega arith) here.0 in
            let zero_on : to + 0 ≡ to = omega arith in
            let pa = ap (virt_to_phys_pd m pd) (sym zero_on) ∙ place in
            let near : leb window_size (written_at m pd to) ≡ false = ground (arith, pa, here.1) in
            let ih =
              copies-block n m pd (left - chunk) (to + chunk) (from + chunk)
                (omega (arith, b.0, b.1)) (omega (arith, b.0, b.1))
                (λ a lo hi. mapped a (omega arith) (omega (arith, b.0, b.1))) in
            let r = copies n m pd (left - chunk) (to + chunk) (from + chunk) in
            rw (copies, e, near, next) (copy_step m pd left chunk to from r b.0 b.1 b.2 here.0 ih))
    ]

-- For a segment that ends below 2 ^ 32 and whose part in the file goes to addresses that are
-- mapped, to pages below 4 MB: the copies do not fault; they write each byte of that part at its
-- address, `p_filesz` bytes from `p_offset` on, and no other address; each stays in one page, and
-- is written where its addresses translate to.
pub segment_copies-bytes :
    (m : Machine) (pd : ℕ) (p : Phdr)
    → p.p_vaddr + p.p_filesz < 2 ^ 32
    → IsMapped m pd p.p_vaddr p.p_filesz
    → (cs : List Copy) × (segment_copies m pd p ≡ some cs)
      × ((a : ℕ) → source_of cs a ≡ block_source p.p_filesz p.p_vaddr p.p_offset a)
      × All (InPlace m pd) cs
unfolding segment_copies
segment_copies-bytes m pd p low mapped =
    copies-block p.p_filesz m pd p.p_filesz p.p_vaddr p.p_offset (omega arith) low mapped

-- Where an address is not mapped, the physical page 0 is written.
pub written_at-unmapped :
    (m : Machine) (pd to : ℕ) → virt_to_phys_pd m pd to ≡ 0 → written_at m pd to < page_size
written_at-unmapped m pd to hole = rw hole (omega arith)
