-- ===== src/Kernel/Initrd/Loop.antt =====
-- kernel/kmain.c: when the loop of `initrd_populate` ends.
use ore_unix.Common.{
  ℕ, zero, suc, ◌+◌, ◌*◌, ◌/◌, ◌≤◌, ◌<◌, ◌^◌, ◌≡◌, ◌≢◌, refl, Bool, true, false, ◌&&◌, not, inl,
  inr, Option, none, some, List, leb, Bool-cases, arith, add32,
}
use ore_unix.Kernel.Initrd.{
  Action, Hdr, Memory, Pass, and_then, ended, go_on, goes_on, hdr_len, is_magic, next_hdr,
  entry_action, populate_from, read_entry, read_hdr, is_bytes, trailer,
}

-- The loop body reads an entry at this address.
abbrev pub is_entry : Memory → ℕ → ℕ → Bool
is_entry mem end p =
    leb (add32 p hdr_len) end && (is_magic mem p && not (is_bytes mem (add32 p hdr_len) trailer))

-- The header of every entry and what follows it by the lengths in the header, in whole words, ends
-- within the address space.
abbrev pub IsForward : Memory → ℕ → Type 0
IsForward mem end =
    (p : ℕ)
    → p < 2 ^ 32
    → is_entry mem end p ≡ true
    → let h = read_hdr mem p in p + (113 + h.namesize) / 4 * 4 + (h.filesize + 3) / 4 * 4 < 2 ^ 32

next_hdr-forward :
    (p : ℕ) (h : Hdr)
    → p + (113 + h.namesize) / 4 * 4 + (h.filesize + 3) / 4 * 4 < 2 ^ 32
    → p < next_hdr p h
unfolding next_hdr
next_hdr-forward p h fits = omega (arith, fits)

next_hdr_small : (p : ℕ) (mem : Memory) → next_hdr p (read_hdr mem p) < 2 ^ 32
unfolding next_hdr
next_hdr_small p mem = omega arith

and_then_some : (a : Option Action) (r : Option (List Action)) → r ≢ none → and_then a r ≢ none
and_then_some none none ne e = ne e
and_then_some (some a) none ne e = ne e
and_then_some none (some r) ne e = absurd (cc)
and_then_some (some a) (some r) ne e = absurd (cc)

pub read_entry-on :
    (mem : Memory) (end p : ℕ)
    → is_entry mem end p ≡ true
    → read_entry mem end p
      ≡ goes_on (entry_action mem p (read_hdr mem p)) (next_hdr p (read_hdr mem p))
unfolding read_entry
read_entry-on mem end p e = rw e refl

pub read_entry-off :
    (mem : Memory) (end p : ℕ) → is_entry mem end p ≡ false → read_entry mem end p ≡ ended
unfolding read_entry
read_entry-off mem end p e = rw e refl

go_on_ne :
    (r : Pass) (rest : ℕ → Option (List Action))
    → ((a : Option Action) (q : ℕ) → r ≡ goes_on a q → rest q ≢ none)
    → go_on r rest ≢ none
go_on_ne ended rest h e = absurd (cc)
go_on_ne (goes_on a q) rest h e = and_then_some a (rest q) (h a q refl) e

forward_next :
    (mem : Memory) (end p : ℕ) (a : Option Action) (q : ℕ)
    → IsForward mem end
    → p < 2 ^ 32
    → read_entry mem end p ≡ goes_on a q
    → (p < q) × (q < 2 ^ 32)
forward_next mem end p a q f small e = elim (Bool-cases (is_entry mem end p)) [
  | inl on ↦
      let same : next_hdr p (read_hdr mem p) ≡ q = cc (read_entry-on mem end p on, e) in
      (
        omega (arith, same, next_hdr-forward p (read_hdr mem p) (f p small on)),
        omega (arith, same, next_hdr_small p mem),
      )
  | inr off ↦ (let stop = read_entry-off mem end p off in absurd (cc))
]

-- If every entry, by the lengths in its header, ends within the address space, the loop of
-- `initrd_populate` ends, within as many passes as there are addresses from its start to the end of
-- the address space.
pub populate_from_total :
    (passes : ℕ) (mem : Memory) (end p : ℕ)
    → IsForward mem end
    → p < 2 ^ 32
    → 2 ^ 32 ≤ p + passes
    → populate_from passes mem end p ≢ none
unfolding populate_from
populate_from_total zero mem end p f small enough = absurd (omega arith)
populate_from_total (suc passes) mem end p f small enough =
    go_on_ne (read_entry mem end p) (λ q. populate_from passes mem end q)
      (λ a q e.
        let step = forward_next mem end p a q f small e in
        populate_from_total passes mem end q f step.1 (omega (arith, step.0)))

-- An entry from which the lengths in its header lead, in 32 bits, back to the entry itself:
-- `initrd_populate` reads it over and over, however many passes it is given.
pub populate_from_hangs :
    (passes : ℕ) (mem : Memory) (end p : ℕ)
    → is_entry mem end p ≡ true
    → next_hdr p (read_hdr mem p) ≡ p
    → populate_from passes mem end p ≡ none
unfolding populate_from
populate_from_hangs zero mem end p on stays = refl
populate_from_hangs (suc passes) mem end p on stays =
    rw (read_entry-on mem end p on, stays, populate_from_hangs passes mem end p on stays) refl
