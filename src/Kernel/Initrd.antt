-- ===== src/Kernel/Initrd.antt =====
-- kernel/kmain.c: the parser of the initial RAM disk, an archive in cpio's newc format. What
-- `initrd_populate` asks of the file system for an entry is an `Action`; a directory that is
-- missing on the way to an entry is made there, so an action names the directories on its way.
pub mod Loop
pub mod Text
pub mod Members
pub mod Archive
mod Tests
use ore_unix.Common.{
  ℕ, zero, suc, ◌+◌, ◌-◌, ◌*◌, ◌/◌, ◌%◌, ◌^◌, Bool, true, false, ◌&&◌, ◌||◌, not, Option, none,
  some, List, [], ◌∷◌, leb, ltb, ◌==◌, if◌then◌else◌, add32, sub32, align_up, min,
}

-- The bytes of memory, by their addresses.
abbrev pub Memory : Type 0
Memory = ℕ → ℕ

-- The `n` bytes from address `a` on.
abbrev pub bytes_at : Memory → ℕ → ℕ → List ℕ
bytes_at mem a zero = []
bytes_at mem a (suc n) = mem a ∷ bytes_at mem (add32 a 1) n

-- `memcmp` with these bytes is 0; `strcmp` is, for a text with its end.
abbrev pub is_bytes : Memory → ℕ → List ℕ → Bool
is_bytes mem a [] = true
is_bytes mem a (c ∷ cs) = (mem a == c) && is_bytes mem (add32 a 1) cs

-- The text at address `a`, at most `n` characters of it.
abbrev pub text_at : Memory → ℕ → ℕ → List ℕ
text_at mem zero a = []
text_at mem (suc n) a =
    let rest = text_at mem n (add32 a 1) in if mem a == 0 then [] else mem a ∷ rest

-- A `char` is signed; the digit is an `int` that is added to a `u32`.
unfoldable pub hex_digit : ℕ → ℕ
hex_digit c =
    if leb 48 c && leb c 57
    then c - 48
    else if leb 97 c && leb c 102
    then c - 97 + 10
    else if ltb c 128
    then sub32 (c + 10) 65
    else sub32 (c + 10) (65 + 256)

abbrev pub parse_from : ℕ → List ℕ → ℕ
parse_from v [] = v
parse_from v (c ∷ cs) = parse_from ((v * 16 + hex_digit c) % 2 ^ 32) cs

unfoldable pub cpio_parse_hex : Memory → ℕ → ℕ → ℕ
cpio_parse_hex mem s n = parse_from 0 (bytes_at mem s n)

abbrev pub cpio_align4 : ℕ → ℕ
cpio_align4 x = align_up x 4

-- `sizeof(struct cpio_newc_hdr)`, and where its fields stand.
abbrev pub hdr_len : ℕ
hdr_len = 110

pub record Hdr : Type 0 where
  pub mode : ℕ
  pub filesize : ℕ
  pub namesize : ℕ

unfoldable pub read_hdr : Memory → ℕ → Hdr
read_hdr mem p = record {
  mode = cpio_parse_hex mem (add32 p 14) 8;
  filesize = cpio_parse_hex mem (add32 p 54) 8;
  namesize = cpio_parse_hex mem (add32 p 94) 8;
}

-- "070701" and "070702".
abbrev pub is_magic : Memory → ℕ → Bool
is_magic mem p =
    is_bytes mem p (48 ∷ 55 ∷ 48 ∷ 55 ∷ 48 ∷ 49 ∷ [])
    || is_bytes mem p (48 ∷ 55 ∷ 48 ∷ 55 ∷ 48 ∷ 50 ∷ [])

-- "TRAILER!!!"
abbrev pub trailer : List ℕ
trailer = 84 ∷ 82 ∷ 65 ∷ 73 ∷ 76 ∷ 69 ∷ 82 ∷ 33 ∷ 33 ∷ 33 ∷ 0 ∷ []

abbrev pub data_at : ℕ → Hdr → ℕ
data_at p h = add32 p (cpio_align4 (add32 hdr_len h.namesize))

unfoldable pub next_hdr : ℕ → Hdr → ℕ
next_hdr p h = add32 p (add32 (cpio_align4 (add32 hdr_len h.namesize)) (cpio_align4 h.filesize))

-- The names between slashes: those of the directories, and the leaf.
abbrev pub in_first : ℕ → List (List ℕ) × List ℕ → List (List ℕ) × List ℕ
in_first c ([], leaf) = ([], c ∷ leaf)
in_first c (dir ∷ dirs, leaf) = ((c ∷ dir) ∷ dirs, leaf)

abbrev pub split_path : List ℕ → List (List ℕ) × List ℕ
split_path [] = ([], [])
split_path (c ∷ cs) =
    let rest = split_path cs in if c == 47 then ([] ∷ rest.0, rest.1) else in_first c rest

pub data Action : Type 0 where
  make_dir : List (List ℕ) → List ℕ → ℕ → Action
  make_link : List ℕ → List ℕ → Action
  make_file : List (List ℕ) → List ℕ → ℕ → ℕ → ℕ → Action

abbrev pub type_of : ℕ → ℕ
type_of mode = mode / 4096 % 16

-- What is made of the leaf: `file` is the address of the entry's data. A link gets the name
-- that was made of the entry's, with its slash in front.
abbrev pub leaf_action : Memory → Hdr → ℕ → List ℕ → List (List ℕ) × List ℕ → Option Action
leaf_action mem h file name (dirs, []) = none
leaf_action mem h file name (dirs, c ∷ cs) =
    if type_of h.mode == 4
    then some (make_dir dirs (c ∷ cs) (h.mode % 4096))
    else if type_of h.mode == 10
    then some (make_link (text_at mem (min h.filesize 255) file) (47 ∷ name))
    else if type_of h.mode == 8
    then some (make_file dirs (c ∷ cs) file h.filesize (h.mode % 4096))
    else none

-- The name without a leading "./".
abbrev pub skip_dot : Memory → ℕ → ℕ
skip_dot mem name = if is_bytes mem name (46 ∷ 47 ∷ []) then add32 name 2 else name

-- `fullpath` has 512 bytes: a slash, at most 510 characters and the end.
unfoldable pub entry_action : Memory → ℕ → Hdr → Option Action
entry_action mem p h =
    let name = add32 p hdr_len in
    let text = text_at mem 510 (skip_dot mem name) in
    if is_bytes mem name (46 ∷ 0 ∷ []) || (h.namesize == 0)
    then none
    else leaf_action mem h (data_at p h) text (split_path text)

-- One pass of the loop of `initrd_populate`: it ends, or goes on at an address.
pub data Pass : Type 0 where
  ended : Pass
  goes_on : Option Action → ℕ → Pass

unfoldable pub read_entry : Memory → ℕ → ℕ → Pass
read_entry mem end p =
    let h = read_hdr mem p in
    if leb (add32 p hdr_len) end && (is_magic mem p && not (is_bytes mem (add32 p hdr_len) trailer))
    then goes_on (entry_action mem p h) (next_hdr p h)
    else ended

abbrev pub and_then : Option Action → Option (List Action) → Option (List Action)
and_then a none = none
and_then none (some rest) = some rest
and_then (some a) (some rest) = some (a ∷ rest)

abbrev pub go_on : Pass → (ℕ → Option (List Action)) → Option (List Action)
go_on ended rest = some []
go_on (goes_on a p) rest = and_then a (rest p)

-- The loop, for a number of passes; `none` if it has not ended by then.
unfoldable pub populate_from : ℕ → Memory → ℕ → ℕ → Option (List Action)
populate_from zero mem end p = none
populate_from (suc passes) mem end p =
    go_on (read_entry mem end p) (λ q. populate_from passes mem end q)

-- `phys_to_virt` adds 0xC0000000.
unfoldable pub initrd_populate : ℕ → Memory → ℕ → ℕ → Option (List Action)
initrd_populate passes mem phys size =
    let start = add32 phys 3221225472 in
    if (phys == 0) || (size == 0)
    then some []
    else populate_from passes mem (add32 start size) start
