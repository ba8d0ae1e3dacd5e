-- ===== src/Kernel/Initrd/Text.antt =====
-- kernel/kmain.c: hexadecimal numbers and names in the bytes of an archive.
use ore_unix.Common.{
  ℕ, zero, suc, ◌+◌, ◌/◌, ◌%◌, ◌≤◌, ◌<◌, ◌^◌, ◌≡◌, ◌≢◌, refl, ap, ◌∙◌, Bool, true, false, ◌||◌, not,
  inl, inr, List, [], ◌∷◌, ◌++◌, map, length, leb, ◌==◌, if◌then◌else◌, All, Bool-cases, arith,
  add32,
}
use ore_unix.Kernel.Initrd.{
  Memory, bytes_at, cpio_parse_hex, hex_digit, is_bytes, parse_from, text_at,
}

-- These bytes stand at the address.
abbrev pub Holds : Memory → ℕ → List ℕ → Type 0
Holds mem a cs = bytes_at mem a (length cs) ≡ cs

abbrev pub hex_char : ℕ → ℕ
hex_char d = if leb d 9 then 48 + d else 87 + d

-- The eight digits of a 32-bit number.
abbrev pub hex_text : ℕ → List ℕ
hex_text v = map hex_char (
    v / 268435456 % 16
    ∷ v / 16777216 % 16
    ∷ v / 1048576 % 16
    ∷ v / 65536 % 16
    ∷ v / 4096 % 16
    ∷ v / 256 % 16
    ∷ v / 16 % 16
    ∷ v % 16
    ∷ [])

hex_digit-hex_char : (d : ℕ) → d < 16 → hex_digit (hex_char d) ≡ d
unfolding hex_digit
hex_digit-hex_char d lt = ground arith

parse_from-hex_text : (v : ℕ) → v < 2 ^ 32 → parse_from 0 (hex_text v) ≡ v
parse_from-hex_text v lt =
    rw
      (
        hex_digit-hex_char (v / 268435456 % 16) (omega arith),
        hex_digit-hex_char (v / 16777216 % 16) (omega arith),
        hex_digit-hex_char (v / 1048576 % 16) (omega arith),
        hex_digit-hex_char (v / 65536 % 16) (omega arith),
        hex_digit-hex_char (v / 4096 % 16) (omega arith),
        hex_digit-hex_char (v / 256 % 16) (omega arith),
        hex_digit-hex_char (v / 16 % 16) (omega arith),
        hex_digit-hex_char (v % 16) (omega arith),
      )
      (omega arith)

pub cpio_parse_hex-hex_text :
    (mem : Memory) (a v : ℕ) → v < 2 ^ 32 → Holds mem a (hex_text v) → cpio_parse_hex mem a 8 ≡ v
unfolding cpio_parse_hex
cpio_parse_hex-hex_text mem a v lt h = ap (parse_from 0) h ∙ parse_from-hex_text v lt

pub head_eq : (x y : ℕ) (xs ys : List ℕ) → x ∷ xs ≡ y ∷ ys → x ≡ y
head_eq x y xs ys e = cc (e)

pub tail_eq : (x y : ℕ) (xs ys : List ℕ) → x ∷ xs ≡ y ∷ ys → xs ≡ ys
tail_eq x y xs ys e = cc (e)

pub is_bytes-Holds :
    (mem : Memory) (a : ℕ) (cs : List ℕ) → Holds mem a cs → is_bytes mem a cs ≡ true
is_bytes-Holds mem a [] h = refl
is_bytes-Holds mem a (c ∷ cs) h =
    let first = head_eq (mem a) c (bytes_at mem (add32 a 1) (length cs)) cs h in
    let rest = tail_eq (mem a) c (bytes_at mem (add32 a 1) (length cs)) cs h in
    let same : (mem a == c) ≡ true = ground (arith, first) in
    rw (same, is_bytes-Holds mem (add32 a 1) cs rest) refl

-- The texts differ where both have a character.
abbrev pub differ : List ℕ → List ℕ → Bool
differ [] ys = false
differ (x ∷ xs) [] = false
differ (x ∷ xs) (y ∷ ys) = not (x == y) || differ xs ys

pub is_bytes-differ :
    (mem : Memory) (a : ℕ) (cs xs : List ℕ)
    → Holds mem a xs
    → differ cs xs ≡ true
    → is_bytes mem a cs ≡ false
is_bytes-differ mem a [] xs h d = absurd (cc)
is_bytes-differ mem a (c ∷ cs) [] h d = absurd (cc)
is_bytes-differ mem a (c ∷ cs) (x ∷ xs) h d =
    let first = head_eq (mem a) x (bytes_at mem (add32 a 1) (length xs)) xs h in
    let rest = tail_eq (mem a) x (bytes_at mem (add32 a 1) (length xs)) xs h in
    elim (Bool-cases (c == x)) [
      | inl e ↦
          (let later : differ cs xs ≡ true = ground (arith, d, e) in
            ground (arith, is_bytes-differ mem (add32 a 1) cs xs rest later))
      | inr e ↦ ground (arith, first, e)
    ]

pub text_at-Holds :
    (mem : Memory) (n a : ℕ) (cs : List ℕ)
    → length cs ≤ n
    → All (λ c. c ≢ 0) cs
    → Holds mem a (cs ++ (0 ∷ []))
    → text_at mem n a ≡ cs
text_at-Holds mem zero a [] le nz h = refl
text_at-Holds mem zero a (c ∷ cs) le nz h = absurd (omega arith)
text_at-Holds mem (suc n) a [] le nz h =
    let first = head_eq (mem a) 0 [] [] h in
    let e : (mem a == 0) ≡ true = ground (arith, first) in rw e refl
text_at-Holds mem (suc n) a (c ∷ cs) le nz h =
    let m = length (cs ++ (0 ∷ [])) in
    let first = head_eq (mem a) c (bytes_at mem (add32 a 1) m) (cs ++ (0 ∷ [])) h in
    let rest = tail_eq (mem a) c (bytes_at mem (add32 a 1) m) (cs ++ (0 ∷ [])) h in
    let e : (mem a == 0) ≡ false = ground (arith, first, nz.0) in
    rw (e, first, text_at-Holds mem n (add32 a 1) cs (omega arith) nz.1 rest) refl
