-- ===== src/Mm/Heap/Inv.antt =====
-- mm/kmalloc.c: the blocks tile the heap.
use ore_unix.Common.{ℕ, ◌+◌, ◌%◌, ◌≤◌, ◌≡◌, refl, List, [], ◌∷◌, ◌++◌, arith, if◌then◌else◌}
use ore_unix.Mm.Heap.{
  Block, Heap, is_free, hdr_size, kernel_heap_start, kernel_heap_size, kmalloc_init,
}

-- The blocks lie end to end from `a` to `e`, each a header and a payload of whole 8-byte units.
abbrev pub Tiles : List Block → ℕ → ℕ → Type 0
Tiles [] a e = a ≡ e
Tiles (b ∷ bs) a e = (b.addr ≡ a) × (b.size % 8 ≡ 0) × Tiles bs (a + hdr_size + b.size) e

pub record IsValid (h : Heap) : Type 0 where
  pub tiled : Tiles h.blocks kernel_heap_start h.heap_cur
  pub below : h.heap_cur ≤ h.heap_end
  pub pages : h.heap_cur % 4096 ≡ 0
  pub end_at : h.heap_end ≡ kernel_heap_start + kernel_heap_size

-- The blocks in use, in the order of their addresses.
abbrev pub used_of : List Block → List Block
used_of [] = []
used_of (b ∷ bs) = if is_free b.magic then used_of bs else b ∷ used_of bs

pub Tiles-le : (bs : List Block) (a e : ℕ) → Tiles bs a e → a ≤ e
Tiles-le [] a e t = omega arith
Tiles-le (b ∷ bs) a e (at_a, _, t) = omega (arith, Tiles-le bs (a + hdr_size + b.size) e t)

pub Tiles-append :
    (bs cs : List Block) (a m e : ℕ) → Tiles bs a m → Tiles cs m e → Tiles (bs ++ cs) a e
Tiles-append [] cs a m e t u = rw t u
Tiles-append (b ∷ bs) cs a m e (p, q, t) u =
    (p, q, Tiles-append bs cs (a + hdr_size + b.size) m e t u)

pub kmalloc_init-IsValid : IsValid kmalloc_init
unfolding kmalloc_init
kmalloc_init-IsValid = record {
  tiled = (refl, refl, refl);
  below = omega arith;
  pages = refl;
  end_at = refl;
}
