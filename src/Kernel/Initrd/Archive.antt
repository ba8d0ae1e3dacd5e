-- ===== src/Kernel/Initrd/Archive.antt =====
-- kernel/kmain.c: what `initrd_populate` makes of an archive in the newc format.
use ore_unix.Common.{
  ℕ, ◌+◌, ◌*◌, ◌/◌, ◌≤◌, ◌<◌, ◌^◌, ◌≡◌, refl, Option, some, List, [], ◌∷◌, ◌++◌, length, arith,
}
use ore_unix.Kernel.Initrd.Members.{Member, IsMember, mode_of, name_of, name_text, wanted_at}
use ore_unix.Kernel.Initrd.Text.{Holds, hex_text}
use ore_unix.Kernel.Initrd.{Action, Hdr, Memory, and_then, trailer}

abbrev pub whole_words : ℕ → ℕ
whole_words n = (n + 3) / 4 * 4

-- Where the data of an entry at `p` begins, and where the next entry does.
abbrev pub contents_at : ℕ → Member → ℕ
contents_at p e = p + whole_words (111 + length (name_of e))

abbrev pub after : ℕ → Member → ℕ
after p e = contents_at p e + whole_words e.filesize

-- "070701", and the fields that are read; the other fields are free.
pub record Stored (mem : Memory) (end p : ℕ) (e : Member) : Type 0 where
  pub inside : p + 110 ≤ end
  pub low : after p e < 2 ^ 32
  pub magic : Holds mem p (48 ∷ 55 ∷ 48 ∷ 55 ∷ 48 ∷ 49 ∷ [])
  pub mode_field : Holds mem (p + 14) (hex_text (mode_of e))
  pub filesize_field : Holds mem (p + 54) (hex_text e.filesize)
  pub namesize_field : Holds mem (p + 94) (hex_text (length (name_of e) + 1))
  pub name_field : Holds mem (p + 110) (name_text e)

-- An archive at an address: entries, and "TRAILER!!!".
pub data Archive (mem : Memory) (end : ℕ) : ℕ → List Member → Type 0 where
  closing : (p : ℕ) → p + 110 ≤ end → Holds mem (p + 110) trailer → Archive mem end p []
  member :
      (p : ℕ) (e : Member) (es : List Member)
      → IsMember e
      → Stored mem end p e
      → Archive mem end (after p e) es
      → Archive mem end p (e ∷ es)

-- What is to be made of an entry.
abbrev pub wanted : Memory → ℕ → Member → Option Action
wanted mem p e = wanted_at mem (contents_at p e) e

abbrev pub all_wanted : Memory → ℕ → List Member → Option (List Action)
all_wanted mem p [] = some []
all_wanted mem p (e ∷ es) = and_then (wanted mem p e) (all_wanted mem (after p e) es)

module _ (mem : Memory) (end p : ℕ) (e : Member) (small : end < 2 ^ 32) (good : IsMember e)
    (s : Stored mem end p e) where
  name_pos : length (name_text e) ≡ length (name_of e) + 1
  name_pos = length_end (name_of e)
    where
      length_end : (xs : List ℕ) → length (xs ++ (0 ∷ [])) ≡ length xs + 1
      length_end [] = refl
      length_end (x ∷ xs) = omega (arith, length_end xs)

  abbrev hdr : Hdr
  hdr = record { mode = mode_of e; filesize = e.filesize; namesize = length (name_of e) + 1 }
