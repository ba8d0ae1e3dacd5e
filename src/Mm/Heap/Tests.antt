-- ===== src/Mm/Heap/Tests.antt =====
-- The theorems on mm/kmalloc.c at the heap after `kmalloc_init`, and runs of the code.
use ore_unix.Common.{ℕ, ◌≡◌, refl, Bool, false, some, [], ◌∷◌, arith}
use ore_unix.Mm.Heap.{Heap, free, used, heap_sbrk, kmalloc_on, kmalloc, kfree, kmalloc_init}
use ore_unix.Mm.Heap.Inv.{IsValid, used_of}
use ore_unix.Mm.Heap.Alloc.{Kmalloced, kmalloc-Kmalloced, heap_sbrk_wraps}
use ore_unix.Mm.Heap.Free.{kfree-IsValid, kfree-kmalloc}

-- Three blocks: free, in use, free.
abbrev three : Heap
three = record {
  blocks =
      record { addr = 0xd000_0000; magic = free; size = 48 }
      ∷ record { addr = 0xd000_0040; magic = used; size = 48 }
      ∷ record { addr = 0xd000_0080; magic = free; size = 0x3f70 }
      ∷ [];
  heap_cur = 0xd000_4000;
  heap_end = 0xd400_0000;
}

three-IsValid : IsValid three
three-IsValid = record {
  tiled = (refl, refl, (refl, refl, (refl, refl, refl)));
  below = omega arith;
  pages = refl;
  end_at = refl;
}

abbrev no_stray : ℕ → Bool
no_stray _ = false

kmalloc-Kmalloced_example : Kmalloced three 100 (kmalloc three 100)
kmalloc-Kmalloced_example = kmalloc-Kmalloced three 100 three-IsValid (omega arith) (omega arith)

heap_sbrk_wraps_example :
    heap_sbrk three 0x3000_0000 ≡ some (0xd000_4000, record three { heap_cur = 0x4000 })
heap_sbrk_wraps_example =
    heap_sbrk_wraps three 0x3000_0000 three-IsValid refl (omega arith) (omega arith)

kfree-IsValid_example :
    (h' : Heap) × (kfree no_stray three 0xd000_0050 ≡ some h')
    × IsValid h'
    × (used_of h'.blocks ≡ [])
kfree-IsValid_example =
    kfree-IsValid no_stray three [] [] (record { addr = 0xd000_0040; magic = used; size = 48 })
      three-IsValid refl

-- The first block is too small for 100 bytes; the third is cut.
abbrev four : Heap
four = record three {
  blocks =
      record { addr = 0xd000_0000; magic = free; size = 48 }
      ∷ record { addr = 0xd000_0040; magic = used; size = 48 }
      ∷ record { addr = 0xd000_0080; magic = used; size = 104 }
      ∷ record { addr = 0xd000_00f8; magic = free; size = 0x3ef8 }
      ∷ [];
}

kmalloc_runs : kmalloc three 100 ≡ some (0xd000_0090, four)
unfolding kmalloc kmalloc_on
kmalloc_runs = refl

kfree-kmalloc_example :
    (h'' : Heap) × (kfree no_stray four 0xd000_0090 ≡ some h'')
    × IsValid h''
    × (used_of h''.blocks ≡ used_of three.blocks)
kfree-kmalloc_example =
    kfree-kmalloc no_stray three four 100 0xd000_0090 three-IsValid (omega arith) (omega arith)
      kmalloc_runs (omega arith)

-- A block takes in its neighbours on both sides.
kfree_runs :
    kfree no_stray three 0xd000_0050
    ≡ some
        (record three { blocks = record { addr = 0xd000_0000; magic = free; size = 0x3ff0 } ∷ [] })
unfolding kfree
kfree_runs = refl

-- A second `kfree` finds MAGIC_FREE and changes nothing.
kfree_twice_runs : kfree no_stray three 0xd000_0010 ≡ some three
unfolding kfree
kfree_twice_runs = refl

-- A request just below 2 ^ 32 is rounded up to 0, and gets a block of no bytes.
kmalloc_wraps_runs :
    (kmalloc kmalloc_init 0xffff_ffff
      ≡ some (
        0xd000_0010,
        record kmalloc_init {
          blocks =
              record { addr = 0xd000_0000; magic = used; size = 0 }
              ∷ record { addr = 0xd000_0010; magic = free; size = 0x3fe0 }
              ∷ [];
        },
      ))
unfolding kmalloc kmalloc_on kmalloc_init
kmalloc_wraps_runs = refl
