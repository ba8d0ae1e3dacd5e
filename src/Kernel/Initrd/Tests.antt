-- ===== src/Kernel/Initrd/Tests.antt =====
-- The theorems on kernel/kmain.c's archive parser at small archives, and runs of the code.
use ore_unix.Common.{
  ℕ, ◌+◌, ◌-◌, ◌*◌, ◌/◌, ◌%◌, ◌≤◌, ◌<◌, ◌^◌, ◌≡◌, ◌≢◌, refl, true, false, ◌&&◌, inl, inr, none,
  some, List, [], ◌∷◌, ◌++◌, replicate, get_or, leb, if◌then◌else◌, ◌==◌, arith, Bool-cases,
}
use ore_unix.Kernel.Initrd.Archive.{Archive, all_wanted}
use ore_unix.Kernel.Initrd.Members.{Member, regular}
use ore_unix.Kernel.Initrd.Loop.{IsForward, is_entry, populate_from_hangs, populate_from_total}
use ore_unix.Kernel.Initrd.Text.{hex_text}
use ore_unix.Kernel.Initrd.{
  Memory, cpio_parse_hex, hex_digit, make_file, next_hdr, populate_from, read_hdr, trailer,
}

-- The header of an entry.
abbrev header : ℕ → ℕ → ℕ → List ℕ
header mode filesize namesize =
    (48 ∷ 55 ∷ 48 ∷ 55 ∷ 48 ∷ 49 ∷ [])
    ++ replicate 8 48
    ++ hex_text mode
    ++ replicate 32 48
    ++ hex_text filesize
    ++ replicate 32 48
    ++ hex_text namesize
    ++ replicate 8 48

-- The file "a" with the bytes "hi", and the trailer.
abbrev archive : List ℕ
archive = header 33188 2 2 ++ (97 ∷ 0 ∷ []) ++ (104 ∷ 105 ∷ 0 ∷ 0 ∷ []) ++ header 0 0 11 ++ trailer

abbrev loaded : List ℕ → Memory
loaded bytes a = if leb 4096 a && leb a 4500 then get_or bytes (a - 4096) 0 else 0

abbrev file_a : Member
file_a = record {
  kind = regular;
  permissions = 420;
  filesize = 2;
  dirs = [];
  leaf = 97 ∷ [];
  dotted = false;
}

one_file :
    all_wanted (loaded archive) 4096 (file_a ∷ []) ≡ some (make_file [] (97 ∷ []) 4208 2 420 ∷ [])
one_file = refl

-- A header whose data would end where the header begins, 4 GB later.
abbrev looping : Memory
looping = loaded (header 33188 4294967184 0)

looping_on : is_entry looping 4340 4096 ≡ true
looping_on = refl

looping_stays : next_hdr 4096 (read_hdr looping 4096) ≡ 4096
unfolding next_hdr read_hdr cpio_parse_hex hex_digit
looping_stays = refl

populate_from_hangs_example : populate_from 1000 looping 4340 4096 ≡ none
populate_from_hangs_example = populate_from_hangs 1000 looping 4340 4096 looping_on looping_stays

-- One empty directory, and nothing behind it.
abbrev lone : Memory
lone = loaded (header 16877 0 2 ++ (97 ∷ 0 ∷ []))

no_entry : (mem : Memory) (end p : ℕ) → mem p ≡ 0 → is_entry mem end p ≡ false
no_entry mem end p e =
    rw e
      (elim (Bool-cases (leb ((p + 110) % 2 ^ 32) end)) [ inl h ↦ rw h refl | inr h ↦ rw h refl ])

too_far : (mem : Memory) (p : ℕ) → 4099 ≤ p → p ≤ 4500 → is_entry mem 4208 p ≡ false
too_far mem p lo hi = let e : leb ((p + 110) % 2 ^ 32) 4208 ≡ false = ground arith in rw e refl

forward_at :
    (p : ℕ)
    → p ≡ 4096
    → let h = read_hdr lone p in p + (113 + h.namesize) / 4 * 4 + (h.filesize + 3) / 4 * 4 < 2 ^ 32
unfolding read_hdr cpio_parse_hex hex_digit
forward_at p e = rw e (omega arith)

not_at : (p q : ℕ) → p ≡ q → is_entry lone 4208 q ≡ false → is_entry lone 4208 p ≡ false
not_at p q e off = rw e off

outside : (p : ℕ) → (leb 4096 p && leb p 4500) ≡ false → is_entry lone 4208 p ≡ false
outside p e = no_entry lone 4208 p (rw e refl)

far_bounds : (p : ℕ) → (leb 4096 p && leb p 4500) ≡ true → p ≤ 4500
far_bounds p w = ground (arith, w)

first_byte :
    (p : ℕ)
    → (leb 4096 p && leb p 4500) ≡ true
    → leb 4099 p ≡ false
    → (p == 4097) ≡ false
    → (p == 4098) ≡ false
    → p ≡ 4096
first_byte p w near a b = ground (arith, w, near, a, b)

leb_le : (a b : ℕ) → leb a b ≡ true → a ≤ b
leb_le a b e = ground (arith, e)

eq_of : (a b : ℕ) → (a == b) ≡ true → a ≡ b
eq_of a b e = ground (arith, e)

-- The entry at 4096 is the only one.
only_entry : (p : ℕ) → is_entry lone 4208 p ≡ true → p ≡ 4096
only_entry p on = elim (Bool-cases (leb 4096 p && leb p 4500)) [
  | inr out ↦ (let off = outside p out in absurd (cc))
  | inl within ↦ elim (Bool-cases (leb 4099 p)) [
    | inl far ↦ let off = too_far lone p (leb_le 4099 p far) (far_bounds p within) in absurd (cc)
    | inr near ↦ elim (Bool-cases (p == 4097)) [
      | inl e ↦ (let off = not_at p 4097 (eq_of p 4097 e) refl in absurd (cc))
      | inr ne ↦ elim (Bool-cases (p == 4098)) [
        | inl e ↦ (let off = not_at p 4098 (eq_of p 4098 e) refl in absurd (cc))
        | inr ne' ↦ first_byte p within near ne ne'
      ]
    ]
  ]
]

lone-IsForward : IsForward lone 4208
lone-IsForward p small on = forward_at p (only_entry p on)

populate_from_total_example : populate_from 4294963200 lone 4208 4096 ≢ none
populate_from_total_example =
    populate_from_total 4294963200 lone 4208 4096 lone-IsForward (omega arith) (omega arith)
