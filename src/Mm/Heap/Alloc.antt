-- ===== src/Mm/Heap/Alloc.antt =====
-- mm/kmalloc.c: `kmalloc`, with the extension of the heap and the second attempt.
use ore_unix.Common.{
  ℕ, suc, ◌+◌, ◌-◌, ◌*◌, ◌%◌, ◌^◌, ◌≤◌, ◌<◌, ◌≡◌, refl, sym, ap, ◌∙◌, false, inl, inr, ◌⊎◌, Option,
  none, some, Option-cases, List, [], ◌∷◌, ◌++◌, arith, Bool-cases, add32, sub32, ltb, ◌==◌,
  align_up, page_size, ◌≢◌,
}
use ore_unix.Mm.Heap.{
  Block, Heap, free, hdr_size, take_first, heap_sbrk, extend, kmalloc_on, kmalloc,
  kernel_heap_start, kernel_heap_size,
}
use ore_unix.Mm.Heap.Inv.{Tiles-append, used_of, IsValid}
use ore_unix.Mm.Heap.Split.{Takes, take_first-Takes}

-- The block that an extension by `ext` bytes appends.
abbrev new_block : Heap → ℕ → Block
new_block h ext = record { addr = h.heap_cur; magic = free; size = ext - hdr_size }

abbrev extended : Heap → ℕ → Heap
extended h ext = record h {
  blocks = h.blocks ++ (new_block h ext ∷ []);
  heap_cur = h.heap_cur + ext;
}

-- The bytes that `kmalloc` asks for: whole groups of four pages, enough for the block.
abbrev ext_of : ℕ → ℕ
ext_of n = align_up (add32 n hdr_size) (page_size * 4)

ext_bounds :
    (n : ℕ)
    → n ≤ 2 ^ 29
    → (n + hdr_size ≤ ext_of n)
      × (ext_of n ≤ 2 ^ 29 + 2 ^ 15)
      × (ext_of n % 4096 ≡ 0)
      × (align_up (ext_of n) page_size ≡ ext_of n)
ext_bounds n h = (omega arith, omega arith, omega arith, omega arith)

heap_cur-le : (h : Heap) → IsValid h → h.heap_cur ≤ kernel_heap_start + kernel_heap_size
heap_cur-le h v = omega (arith, v.below, v.end_at)

-- The extension succeeds exactly when it stays inside the heap's region.
extend_cases :
    (h : Heap) (n : ℕ)
    → IsValid h
    → n ≤ 2 ^ 29
    → ((extend h n ≡ none) × (h.heap_end < h.heap_cur + ext_of n))
      ⊎ ((extend h n ≡ some (extended h (ext_of n))) × (h.heap_cur + ext_of n ≤ h.heap_end))
unfolding extend heap_sbrk
extend_cases h n v small =
    let (lo, hi, pages, same) = ext_bounds n small in
    let sum : add32 h.heap_cur (ext_of n) ≡ h.heap_cur + ext_of n =
      omega (arith, heap_cur-le h v) in
    let left : sub32 (ext_of n) hdr_size ≡ ext_of n - hdr_size = omega arith in
    elim (Bool-cases (ltb h.heap_end (h.heap_cur + ext_of n))) [
      | inl over ↦ inl (rw (extend, heap_sbrk, same, sum, over) refl, ground arith)
      | inr fits ↦ inr (rw (extend, heap_sbrk, same, sum, fits, left) refl, ground arith)
    ]

used_of-snoc :
    (bs : List Block) (b : Block) → b.magic ≡ free → used_of (bs ++ (b ∷ [])) ≡ used_of bs
used_of-snoc [] b e = rw e
used_of-snoc (c ∷ bs) b e = ground (arith, used_of-snoc bs b e)

extended-IsValid :
    (h : Heap) (ext : ℕ)
    → IsValid h
    → hdr_size ≤ ext
    → ext % 4096 ≡ 0
    → h.heap_cur + ext ≤ h.heap_end
    → IsValid (extended h ext)
extended-IsValid h ext v lo pages fits = record {
  tiled =
      Tiles-append h.blocks (new_block h ext ∷ []) kernel_heap_start h.heap_cur (h.heap_cur + ext)
        v.tiled (refl, omega arith, omega arith);
  below = fits;
  pages = omega (arith, v.pages);
  end_at = v.end_at;
}

-- The search finds the appended block, if none before it.
take_first-snoc :
    (bs : List Block) (b : Block) (n : ℕ)
    → b.magic ≡ free
    → n ≤ b.size
    → take_first (bs ++ (b ∷ [])) n ≢ none
unfolding take_first
take_first-snoc [] b n e le = λ h. ground arith
take_first-snoc (c ∷ bs) b n e le = λ h. ground (arith, take_first-snoc bs b n e le)

kmalloc_hit :
    (fuel : ℕ) (h : Heap) (size p : ℕ) (bs : List Block)
    → size ≢ 0
    → take_first h.blocks (align_up size 8) ≡ some (p, bs)
    → kmalloc_on (suc fuel) h size ≡ some (p, record h { blocks = bs })
unfolding kmalloc_on
kmalloc_hit fuel h size p bs nz e =
    let q : (size == 0) ≡ false = ground arith in rw (kmalloc_on, q, e)

kmalloc_extends :
    (fuel : ℕ) (h h' : Heap) (size : ℕ)
    → size ≢ 0
    → take_first h.blocks (align_up size 8) ≡ none
    → extend h (align_up size 8) ≡ some h'
    → kmalloc_on (suc fuel) h size ≡ kmalloc_on fuel h' (align_up size 8)
unfolding kmalloc_on
kmalloc_extends fuel h h' size nz e f =
    let q : (size == 0) ≡ false = ground arith in rw (kmalloc_on, q, e, f)

kmalloc_fails :
    (fuel : ℕ) (h : Heap) (size : ℕ)
    → size ≢ 0
    → take_first h.blocks (align_up size 8) ≡ none
    → extend h (align_up size 8) ≡ none
    → kmalloc_on (suc fuel) h size ≡ some (0, h)
unfolding kmalloc_on
kmalloc_fails fuel h size nz e f =
    let q : (size == 0) ≡ false = ground arith in rw (kmalloc_on, q, e, f)

-- What `kmalloc` of `size` bytes does to a valid heap: it takes one block, or it fails and changes
-- nothing, for want of room behind the heap's end.
pub data Kmalloced (h : Heap) (size : ℕ) : Option (ℕ × Heap) → Type 0 where
  takes :
      {p : ℕ} {h' : Heap}
      → IsValid h'
      → p ≢ 0
      → Takes h.blocks h'.blocks size p
      → Kmalloced h size (some (p, h'))
  no_room : h.heap_end < h.heap_cur + ext_of (align_up size 8) → Kmalloced h size (some (0, h))

found-Kmalloced :
    (h g : Heap) (size p : ℕ) (bs : List Block)
    → IsValid g
    → size ≤ 2 ^ 29
    → used_of g.blocks ≡ used_of h.blocks
    → take_first g.blocks (align_up size 8) ≡ some (p, bs)
    → Kmalloced h size (some (p, record g { blocks = bs }))
found-Kmalloced h g size p bs v small same e =
    let (t, k) =
      take_first-Takes g.blocks (align_up size 8) kernel_heap_start g.heap_cur p bs v.tiled
        (omega arith) (omega arith) (omega (arith, heap_cur-le g v)) e in
    takes (record { tiled = t; below = v.below; pages = v.pages; end_at = v.end_at })
      (omega (arith, k.at_payload))
      (record {
        before = k.before;
        block = k.block;
        behind = k.behind;
        was = sym same ∙ k.was;
        now = k.now;
        at_payload = k.at_payload;
        enough = omega (arith, k.enough);
      })

second_round :
    (h : Heap) (size : ℕ)
    → IsValid h
    → 0 < size
    → size ≤ 2 ^ 29
    → h.heap_cur + ext_of (align_up size 8) ≤ h.heap_end
    → Kmalloced h size (kmalloc_on 1 (extended h (ext_of (align_up size 8))) (align_up size 8))
second_round h size v pos small fits =
    let n = align_up size 8 in
    let (lo, hi, pages, _) = ext_bounds n (omega arith) in
    let g = extended h (ext_of n) in
    let twice : align_up n 8 ≡ n = omega arith in
    let valid = extended-IsValid h (ext_of n) v (omega arith) pages fits in
    elim (Option-cases (take_first g.blocks n)) [
      | inl e ↦ absurd (take_first-snoc h.blocks (new_block h (ext_of n)) n refl (omega arith) e)
      | inr ((p, bs), e) ↦
          rw (kmalloc_hit 0 g n p bs (omega arith) (ap (take_first g.blocks) twice ∙ e)) (
            found-Kmalloced h g size p bs valid small
              (used_of-snoc h.blocks (new_block h (ext_of n)) refl) e)
    ]

-- `kmalloc` of 1 to 2 ^ 29 bytes on a valid heap ends within its two rounds. Either it returns the
-- payload of a block of `size` bytes or more that was not in use, all blocks in use before stay
-- where they were with their sizes, and the blocks still tile the heap; or it returns NULL and
-- changes nothing, and the extension would pass the heap's end.
pub kmalloc-Kmalloced :
    (h : Heap) (size : ℕ) → IsValid h → 0 < size → size ≤ 2 ^ 29 → Kmalloced h size (kmalloc h size)
unfolding kmalloc
kmalloc-Kmalloced h size v pos small =
    let n = align_up size 8 in
    elim (Option-cases (take_first h.blocks n)) [
      | inr ((p, bs), e) ↦
          rw (kmalloc_hit 1 h size p bs (omega arith) e)
            (found-Kmalloced h h size p bs v small refl e)
      | inl e ↦ elim (extend_cases h n v (omega arith)) [
        | inl (f, over) ↦ rw (kmalloc_fails 1 h size (omega arith) e f) (no_room over)
        | inr (f, fits) ↦
            rw (kmalloc_extends 1 h (extended h (ext_of n)) size (omega arith) e f)
              (second_round h size v pos small fits)
      ]
    ]

-- A request that carries `heap_cur` past the top of the address space wraps round: `heap_sbrk`
-- accepts it, and moves `heap_cur` down instead of failing.
pub heap_sbrk_wraps :
    (h : Heap) (bytes : ℕ)
    → IsValid h
    → bytes % 4096 ≡ 0
    → bytes < 2 ^ 32
    → 2 ^ 32 ≤ h.heap_cur + bytes
    → heap_sbrk h bytes ≡ some (h.heap_cur, record h { heap_cur = h.heap_cur + bytes - 2 ^ 32 })
unfolding heap_sbrk
heap_sbrk_wraps h bytes v pages top over =
    let same : align_up bytes page_size ≡ bytes = omega arith in
    let sum : add32 h.heap_cur bytes ≡ h.heap_cur + bytes - 2 ^ 32 =
      omega (arith, heap_cur-le h v) in
    let fits : ltb h.heap_end (h.heap_cur + bytes - 2 ^ 32) ≡ false =
      ground (arith, heap_cur-le h v, v.below) in
    rw (heap_sbrk, same, sum, fits)
