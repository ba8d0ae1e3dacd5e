-- ===== src/Mm/Heap/Free.antt =====
-- mm/kmalloc.c: `kfree` and its coalescing.
use ore_unix.Common.{
  ℕ, ◌+◌, ◌^◌, ◌≤◌, ◌<◌, ◌≡◌, refl, sym, ap, ◌∙◌, Bool, true, false, inl, inr, Option, some, List,
  [], ◌∷◌, ◌++◌, arith, Bool-cases, add32, sub32, ◌==◌, ◌≢◌,
}
use ore_unix.Mm.Heap.{
  Block, Heap, free, is_free, hdr_size, join_next, join_prev, joined, begins_at, free_at, kfree,
  kernel_heap_start, kmalloc,
}
use ore_unix.Mm.Heap.Inv.{Tiles, Tiles-le, used_of, IsValid}
use ore_unix.Mm.Heap.Split.{Takes}
use ore_unix.Mm.Heap.Alloc.{Kmalloced, takes, no_room, kmalloc-Kmalloced}

-- The list begins with a free block.
abbrev HeadFree : List Block → Type 0
HeadFree [] = ⊥
HeadFree (b ∷ bs) = is_free b.magic ≡ true

-- A joined block covers both.
joined-Tiles :
    (b c : Block) (cs : List Block) (a e : ℕ)
    → Tiles (b ∷ c ∷ cs) a e
    → e < 2 ^ 32
    → Tiles (joined b c ∷ cs) a e
joined-Tiles b c cs a e (at_a, whole, (at_c, whole_c, t)) top =
    let le = Tiles-le cs (a + hdr_size + b.size + hdr_size + c.size) e t in
    let size : add32 b.size (add32 hdr_size c.size) ≡ b.size + (hdr_size + c.size) = omega arith in
    let covers : a + hdr_size + (b.size + (hdr_size + c.size))
        ≡ a + hdr_size + b.size + hdr_size + c.size =
      omega arith in
    rw size (at_a, omega arith, rw covers t)

join_next-Tiles :
    (b : Block) (bs : List Block) (a e : ℕ)
    → Tiles (b ∷ bs) a e
    → e < 2 ^ 32
    → Tiles (join_next b bs) a e
unfolding join_next
join_next-Tiles b [] a e t top = t
join_next-Tiles b (c ∷ cs) a e t top = elim (Bool-cases (is_free c.magic)) [
  | inl f ↦ rw f (joined-Tiles b c cs a e t top)
  | inr f ↦ rw f t
]

join_prev-Tiles :
    (b : Block) (bs : List Block) (a e : ℕ)
    → Tiles (b ∷ bs) a e
    → e < 2 ^ 32
    → Tiles (join_prev b bs) a e
unfolding join_prev
join_prev-Tiles b [] a e t top = t
join_prev-Tiles b (c ∷ cs) a e t top = elim (Bool-cases (is_free b.magic)) [
  | inl f ↦ rw f (joined-Tiles b c cs a e t top)
  | inr f ↦ rw f t
]

used_of-join_next :
    (b : Block) (bs : List Block) → is_free b.magic ≡ true → used_of (join_next b bs) ≡ used_of bs
unfolding join_next
used_of-join_next b [] e = rw e
used_of-join_next b (c ∷ cs) e = ground arith

used_of-join_prev :
    (b : Block) (bs : List Block) → HeadFree bs → used_of (join_prev b bs) ≡ used_of (b ∷ bs)
unfolding join_prev
used_of-join_prev b [] h = absurd h
used_of-join_prev b (c ∷ cs) h = ground arith

join_next-HeadFree :
    (b : Block) (bs : List Block) → is_free b.magic ≡ true → HeadFree (join_next b bs)
unfolding join_next
join_next-HeadFree b [] e = e
join_next-HeadFree b (c ∷ cs) e = elim (Bool-cases (is_free c.magic)) [
  | inl f ↦ rw f e
  | inr f ↦ rw f e
]

-- A used block of a tiled list lies inside it.
used_place :
    (bs l r : List Block) (b : Block) (a e : ℕ)
    → Tiles bs a e
    → used_of bs ≡ l ++ (b ∷ r)
    → (a ≤ b.addr) × (b.addr + hdr_size + b.size ≤ e)
used_place [] [] r b a e t u = absurd (cc)
used_place [] (d ∷ l) r b a e t u = absurd (cc)
used_place (c ∷ cs) [] r b a e t u = elim (Bool-cases (is_free c.magic)) [
  | inl f ↦
      (let rest = used_place cs [] r b (a + hdr_size + c.size) e t.2 (rw f at u) in
        (omega (arith, rest.0), rest.1))
  | inr f ↦
      (let same : c ≡ b = ground arith in
        rw (← same) (omega (arith, t.0), omega (arith, t.0, Tiles-le cs _ e t.2)))
]
used_place (c ∷ cs) (d ∷ l) r b a e t u = elim (Bool-cases (is_free c.magic)) [
  | inl f ↦
      (let rest = used_place cs (d ∷ l) r b (a + hdr_size + c.size) e t.2 (rw f at u) in
        (omega (arith, rest.0), rest.1))
  | inr f ↦
      (let u' : used_of cs ≡ l ++ (b ∷ r) = ground arith in
        let rest = used_place cs l r b (a + hdr_size + c.size) e t.2 u' in
        (omega (arith, rest.0), rest.1))
]

-- What freeing block `b` does to a tiled list.
record Gives (bs : List Block) (b : Block) (l r : List Block) (a e : ℕ) : Type 0 where
  list : List Block
  found : free_at bs b.addr ≡ some list
  tiled : Tiles list a e
  used_left : used_of list ≡ l ++ r
  head : begins_at bs b.addr ≡ true → HeadFree list

Gives-here :
    (c : Block) (cs : List Block) (a e : ℕ)
    → Tiles (c ∷ cs) a e
    → e < 2 ^ 32
    → is_free c.magic ≡ false
    → Gives (c ∷ cs) c [] (used_of cs) a e
unfolding free_at
Gives-here c cs a e t top f =
    let here : (c.addr == c.addr) ≡ true = ground arith in
    let c' = record c { magic = free } in
    record {
      list = join_next c' cs;
      found = (rw (here, f));
      tiled = join_next-Tiles c' cs a e t top;
      used_left = used_of-join_next c' cs refl;
      head = λ _. join_next-HeadFree c' cs refl;
    }

Gives-behind :
    (c b : Block) (cs l l' r : List Block) (a e : ℕ)
    → Tiles (c ∷ cs) a e
    → e < 2 ^ 32
    → (c.addr == b.addr) ≡ false
    → ((ds : List Block) → used_of ds ≡ l ++ r → used_of (c ∷ ds) ≡ l' ++ r)
    → Gives cs b l r (a + hdr_size + c.size) e
    → Gives (c ∷ cs) b l' r a e
unfolding free_at
Gives-behind c b cs l l' r a e t top ne grow g = elim (Bool-cases (begins_at cs b.addr)) [
  | inl next ↦ record {
    list = join_prev c g.list;
    found = (rw (ne, g.found, next));
    tiled = join_prev-Tiles c g.list a e (t.0, t.1, g.tiled) top;
    used_left = used_of-join_prev c g.list (g.head next) ∙ grow g.list g.used_left;
    head = λ h. absurd (ground arith);
  }
  | inr far ↦ record {
    list = c ∷ g.list;
    found = (rw (ne, g.found, far));
    tiled = (t.0, t.1, g.tiled);
    used_left = grow g.list g.used_left;
    head = λ h. absurd (ground arith);
  }
]

Gives-free :
    (c b : Block) (cs l r : List Block) (a e : ℕ)
    → Tiles (c ∷ cs) a e
    → e < 2 ^ 32
    → is_free c.magic ≡ true
    → used_of (c ∷ cs) ≡ l ++ (b ∷ r)
    → (used_of cs ≡ l ++ (b ∷ r) → Gives cs b l r (a + hdr_size + c.size) e)
    → Gives (c ∷ cs) b l r a e
Gives-free c b cs l r a e t top f u rest =
    let u' : used_of cs ≡ l ++ (b ∷ r) = (rw f at u) in
    let le = used_place cs l r b (a + hdr_size + c.size) e t.2 u' in
    let ne : (c.addr == b.addr) ≡ false = ground (arith, t.0, le) in
    Gives-behind c b cs l l r a e t top ne (λ ds h. rw f h) (rest u')

free_at-Gives :
    (bs l r : List Block) (b : Block) (a e : ℕ)
    → Tiles bs a e
    → e < 2 ^ 32
    → used_of bs ≡ l ++ (b ∷ r)
    → Gives bs b l r a e
free_at-Gives [] [] r b a e t top u = absurd (cc)
free_at-Gives [] (d ∷ l) r b a e t top u = absurd (cc)
free_at-Gives (c ∷ cs) [] r b a e t top u = elim (Bool-cases (is_free c.magic)) [
  | inl f ↦ Gives-free c b cs [] r a e t top f u (free_at-Gives cs [] r b _ e t.2 top)
  | inr f ↦
      (let same : c ≡ b = ground arith in
        let rest : used_of cs ≡ r = ground arith in
        rw (← same, ← rest) (Gives-here c cs a e t top f))
]
free_at-Gives (c ∷ cs) (d ∷ l) r b a e t top u = elim (Bool-cases (is_free c.magic)) [
  | inl f ↦ Gives-free c b cs (d ∷ l) r a e t top f u (free_at-Gives cs (d ∷ l) r b _ e t.2 top)
  | inr f ↦
      (let same : c ≡ d = ground arith in
        let u' : used_of cs ≡ l ++ (b ∷ r) = ground arith in
        let le = used_place cs l r b (a + hdr_size + c.size) e t.2 u' in
        let ne : (c.addr == b.addr) ≡ false = ground (arith, t.0, le) in
        Gives-behind c b cs l (d ∷ l) r a e t top ne (λ ds h. rw f (rw same (ap (◌∷◌ d) h)))
          (free_at-Gives cs l r b (a + hdr_size + c.size) e t.2 top u'))
]

-- `kfree` of the payload of a block in use, on a valid heap, takes exactly that block out of use
-- and keeps the heap valid: the blocks, joined with their free neighbours, still tile it.
pub kfree-IsValid :
    (stray : ℕ → Bool) (h : Heap) (l r : List Block) (b : Block)
    → IsValid h
    → used_of h.blocks ≡ l ++ (b ∷ r)
    → (h' : Heap) × (kfree stray h (b.addr + hdr_size) ≡ some h')
      × IsValid h'
      × (used_of h'.blocks ≡ l ++ r)
unfolding kfree
kfree-IsValid stray h l r b v u =
    let top : h.heap_cur < 2 ^ 32 = omega (arith, v.below, v.end_at) in
    let g = free_at-Gives h.blocks l r b kernel_heap_start h.heap_cur v.tiled top u in
    let bound : b.addr + hdr_size < 2 ^ 32 = omega (
      arith,
      used_place h.blocks l r b kernel_heap_start h.heap_cur v.tiled u,
      v.below,
      v.end_at,
    ) in
    let back : sub32 (b.addr + hdr_size) hdr_size ≡ b.addr = omega arith in
    let not_null : (b.addr + hdr_size == 0) ≡ false = ground arith in
    (
      record h { blocks = g.list },
      rw (kfree, not_null, back, g.found),
      record { tiled = g.tiled; below = v.below; pages = v.pages; end_at = v.end_at },
      g.used_left,
    )

took_block :
    (h h' : Heap) (size p : ℕ) {o : Option (ℕ × Heap)}
    → Kmalloced h size o
    → o ≡ some (p, h')
    → p ≢ 0
    → IsValid h' × Takes h.blocks h'.blocks size p
took_block h h' size p (takes {p = q} {h' = g} v _ k) e nn =
    let at_p : q ≡ p = ground arith in
    let at_h : g ≡ h' = ground arith in rw (← at_p, ← at_h) (v, k)
took_block h h' size p (no_room _) e nn = absurd (nn (ground arith))

-- What `kmalloc` hands out, `kfree` takes back: the blocks in use are then those from before, and
-- the heap is valid.
pub kfree-kmalloc :
    (stray : ℕ → Bool) (h h' : Heap) (size p : ℕ)
    → IsValid h
    → 0 < size
    → size ≤ 2 ^ 29
    → kmalloc h size ≡ some (p, h')
    → p ≢ 0
    → (h'' : Heap) × (kfree stray h' p ≡ some h'')
      × IsValid h''
      × (used_of h''.blocks ≡ used_of h.blocks)
kfree-kmalloc stray h h' size p v pos small e nn =
    let (valid, k) = took_block h h' size p (kmalloc-Kmalloced h size v pos small) e nn in
    let (g, freed, keeps, left) = kfree-IsValid stray h' k.before k.behind k.block valid k.now in
    (g, ap (kfree stray h') k.at_payload ∙ freed, keeps, left ∙ sym k.was)
