-- ===== src/Mm/Heap/Split.antt =====
-- mm/kmalloc.c: the search of `kmalloc` and `split_block`.
use ore_unix.Common.{
  ℕ, ◌+◌, ◌-◌, ◌%◌, ◌^◌, ◌≤◌, ◌<◌, ◌≡◌, refl, sym, ap, ◌∙◌, true, false, inl, inr, Option, some,
  Option-cases, List, [], ◌∷◌, ◌++◌, arith, Bool-cases, add32, sub32, leb, ltb, ◌&&◌,
}
use ore_unix.Mm.Heap.{
  Block, free, used, is_free, hdr_size, payload, split_block, use_first, take_first, min_alloc,
}
use ore_unix.Mm.Heap.Inv.{Tiles, used_of, Tiles-le}

-- What the search does to the list: one block, of `n` bytes or more, goes into use, and the blocks
-- in use before stay as they were.
pub record Takes (bs cs : List Block) (n p : ℕ) : Type 0 where
  pub before : List Block
  pub block : Block
  pub behind : List Block
  pub was : used_of bs ≡ before ++ behind
  pub now : used_of cs ≡ before ++ (block ∷ behind)
  pub at_payload : p ≡ block.addr + hdr_size
  pub enough : n ≤ block.size

-- The list when its first block is taken.
abbrev head_taken : Block → List Block → ℕ → List Block
head_taken b bs n = use_first (split_block b n) ++ bs

whole_block :
    (b : Block) (bs : List Block) (n : ℕ)
    → ltb b.size (add32 (add32 n hdr_size) min_alloc) ≡ true
    → head_taken b bs n ≡ record b { magic = used } ∷ bs
unfolding split_block
whole_block b bs n e = rw e

cut_block :
    (b : Block) (bs : List Block) (n : ℕ)
    → ltb b.size (add32 (add32 n hdr_size) min_alloc) ≡ false
    → head_taken b bs n
      ≡ record b { size = n; magic = used }
        ∷ record {
          addr = add32 (add32 b.addr hdr_size) n;
          magic = free;
          size = sub32 (sub32 b.size n) hdr_size;
        }
        ∷ bs
unfolding split_block
cut_block b bs n e = rw e

-- What `kmalloc`'s request is: whole units, inside the address space.
record IsRequest (n e : ℕ) : Type 0 where
  aligned : n % 8 ≡ 0
  small : n ≤ 2 ^ 30
  top : e < 2 ^ 32

head_taken-Takes :
    (b : Block) (bs : List Block) (n a e : ℕ)
    → Tiles (b ∷ bs) a e
    → is_free b.magic ≡ true
    → n ≤ b.size
    → IsRequest n e
    → Tiles (head_taken b bs n) a e × Takes (b ∷ bs) (head_taken b bs n) n (payload b)
head_taken-Takes b bs n a e (at_a, whole, t) fr le r =
    let le_e : a + hdr_size + b.size ≤ e = Tiles-le bs (a + hdr_size + b.size) e t in
    let was : used_of (b ∷ bs) ≡ used_of bs = (rw fr refl) in
    let at_payload : payload b ≡ b.addr + hdr_size = omega (arith, r.top) in
    elim (Bool-cases (ltb b.size (add32 (add32 n hdr_size) min_alloc))) [
      | inl all ↦ rw (whole_block b bs n all) (
        (at_a, whole, t),
        record {
          before = [];
          block = record b { magic = used };
          behind = used_of bs;
          was = was;
          now = refl;
          at_payload = at_payload;
          enough = le;
        },
      )
      | inr cut ↦
          (let room : n + hdr_size + min_alloc ≤ b.size = ground (arith, r.small) in
            let next : add32 (add32 b.addr hdr_size) n ≡ a + hdr_size + n = omega (arith, r.top) in
            let left : sub32 (sub32 b.size n) hdr_size ≡ b.size - n - hdr_size =
              omega (arith, r.top) in
            let covers : a + hdr_size + n + hdr_size + (b.size - n - hdr_size)
                ≡ a + hdr_size + b.size =
              omega arith in
            rw (cut_block b bs n cut, next, left)
              (
                (at_a, r.aligned, (refl, omega (arith, r.aligned), rw covers t)),
                record {
                  before = [];
                  block = record b { size = n; magic = used };
                  behind = used_of bs;
                  was = was;
                  now = refl;
                  at_payload = at_payload;
                  enough = omega arith;
                },
              ))
    ]

-- A block that stays in front of the one taken.
Takes-behind :
    (b : Block) (bs cs : List Block) (n p : ℕ) → Takes bs cs n p → Takes (b ∷ bs) (b ∷ cs) n p
Takes-behind b bs cs n p k = elim (Bool-cases (is_free b.magic)) [
  | inl f ↦ record {
    before = k.before;
    block = k.block;
    behind = k.behind;
    was = (rw f k.was);
    now = (rw f k.now);
    at_payload = k.at_payload;
    enough = k.enough;
  }
  | inr f ↦ record {
    before = b ∷ k.before;
    block = k.block;
    behind = k.behind;
    was = (rw f (ap (◌∷◌ b) k.was));
    now = (rw f (ap (◌∷◌ b) k.now));
    at_payload = k.at_payload;
    enough = k.enough;
  }
]

take_first_hit :
    (b : Block) (bs : List Block) (n : ℕ)
    → (is_free b.magic && leb n b.size) ≡ true
    → take_first (b ∷ bs) n ≡ some (payload b, head_taken b bs n)
unfolding take_first
take_first_hit b bs n e = rw e

take_first_miss :
    (b : Block) (bs : List Block) (n p : ℕ) (cs : List Block)
    → (is_free b.magic && leb n b.size) ≡ false
    → take_first (b ∷ bs) n ≡ some (p, cs)
    → (ds : List Block) × (take_first bs n ≡ some (p, ds)) × (cs ≡ b ∷ ds)
unfolding take_first
take_first_miss b bs n p cs e h = elim (Option-cases (take_first bs n)) [
  | inl f ↦ absurd (ground arith)
  | inr ((q, ds), f) ↦ (ds, ground arith, ground arith)
]

take_first_nil : (n p : ℕ) (cs : List Block) → ¬ (take_first [] n ≡ some (p, cs))
unfolding take_first
take_first_nil n p cs h = cc

some_pair :
    {p q : ℕ} {bs cs : List Block}
    → ◌≡◌ {A = Option (ℕ × List Block)} (some (p, bs)) (some (q, cs))
    → (p ≡ q) × (bs ≡ cs)
some_pair h = (ground arith, ground arith)

-- A successful search leaves tiles, and takes one block of the size or more.
pub take_first-Takes :
    (bs : List Block) (n a e p : ℕ) (cs : List Block)
    → Tiles bs a e
    → n % 8 ≡ 0
    → n ≤ 2 ^ 30
    → e < 2 ^ 32
    → take_first bs n ≡ some (p, cs)
    → Tiles cs a e × Takes bs cs n p
take_first-Takes [] n a e p cs t al sm top h = absurd (take_first_nil n p cs h)
take_first-Takes (b ∷ bs) n a e p cs t al sm top h =
    elim (Bool-cases (is_free b.magic && leb n b.size)) [
      | inl hit ↦
          (let (at_p, at_cs) = some_pair (sym (take_first_hit b bs n hit) ∙ h) in
            rw (← at_cs, ← at_p)
              (head_taken-Takes b bs n a e t (ground arith) (ground arith)
                (record { aligned = al; small = sm; top = top })))
      | inr miss ↦
          (let (ds, f, g) = take_first_miss b bs n p cs miss h in
            let (u, k) = take_first-Takes bs n (a + hdr_size + b.size) e p ds t.2 al sm top f in
            rw g ((t.0, t.1, u), Takes-behind b bs ds n p k))
    ]
