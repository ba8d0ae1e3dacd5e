-- ===== src/Mm/Heap.antt =====
-- mm/kmalloc.c: the kernel heap, a list of blocks that `next` and `prev` join both ways. The list
-- is kept in the order of `next`; a block's header lies at `addr`, its payload behind it. The
-- functions run under `heap_lock` with interrupts off, so each is one step.
pub mod Inv
pub mod Split
pub mod Alloc
pub mod Free
mod Tests
use ore_unix.Common.{
  ℕ, zero, suc, ◌+◌, ◌-◌, ◌*◌, ◌%◌, ◌^◌, Bool, true, false, not, ◌&&◌, ◌||◌, Option, none, some,
  List, [], ◌∷◌, ◌++◌, ltb, leb, ◌==◌, if◌then◌else◌, add32, sub32, page_size, align_up,
}

abbrev pub hdr_size : ℕ
hdr_size = 16

abbrev pub min_alloc : ℕ
min_alloc = 16

abbrev pub kernel_heap_start : ℕ
kernel_heap_start = 0xd000_0000

abbrev pub kernel_heap_size : ℕ
kernel_heap_size = 64 * 1024 * 1024

-- `magic`: MAGIC_FREE or MAGIC_USED.
pub data Magic : Type 0 where
  free used : Magic

abbrev pub is_free : Magic → Bool
is_free free = true
is_free used = false

pub record Block : Type 0 where
  pub addr : ℕ
  pub magic : Magic
  pub size : ℕ

-- `heap_start`'s list, `heap_cur` and `heap_end`.
pub record Heap : Type 0 where
  pub blocks : List Block
  pub heap_cur : ℕ
  pub heap_end : ℕ

-- `heap_sbrk`: `none` is NULL.
pub heap_sbrk : Heap → ℕ → Option (ℕ × Heap)
heap_sbrk h bytes =
    let n = align_up bytes page_size in
    if ltb h.heap_end (add32 h.heap_cur n)
    then none
    else some (h.heap_cur, record h { heap_cur = add32 h.heap_cur n })

-- The payload's address of a block.
abbrev pub payload : Block → ℕ
payload b = add32 b.addr hdr_size

-- `split_block`: the block, and the new free block behind it if there is room for one.
pub split_block : Block → ℕ → List Block
split_block b need =
    if ltb b.size (add32 (add32 need hdr_size) min_alloc)
    then b ∷ []
    else record b { size = need }
      ∷ record {
        addr = add32 (add32 b.addr hdr_size) need;
        magic = free;
        size = sub32 (sub32 b.size need) hdr_size;
      }
      ∷ []

-- The search of `kmalloc` for the first free block of `size` bytes or more, and what it does to it:
-- the payload's address and the new list.
abbrev pub use_first : List Block → List Block
use_first [] = []
use_first (b ∷ bs) = record b { magic = used } ∷ bs

pub take_first : List Block → ℕ → Option (ℕ × List Block)
unfolding split_block
take_first [] size = none
take_first (b ∷ bs) size =
    if is_free b.magic && leb size b.size
    then some (payload b, use_first (split_block b size) ++ bs)
    else elim (take_first bs size) [ none ↦ none | some (p, cs) ↦ some (p, b ∷ cs) ]

-- The part of `kmalloc` that extends the heap and appends the new block. `none`: no memory.
pub extend : Heap → ℕ → Option Heap
unfolding heap_sbrk
extend h size =
    let ext = align_up (add32 size hdr_size) (page_size * 4) in
    elim (heap_sbrk h ext) [
      | none ↦ none
      | some (mem, h') ↦ some (record h' {
        blocks = h'.blocks ++ (record { addr = mem; magic = free; size = sub32 ext hdr_size } ∷ []);
      })
    ]

-- `kmalloc` on fuel: it calls itself after each extension. The outer `none` means that the fuel
-- ran out; address 0 is NULL.
pub kmalloc_on : ℕ → Heap → ℕ → Option (ℕ × Heap)
unfolding take_first extend
kmalloc_on zero h size = none
kmalloc_on (suc fuel) h size =
    let n = align_up size 8 in
    if size == 0 then some (0, h) else elim (take_first h.blocks n) [
      | some (p, bs) ↦ some (p, record h { blocks = bs })
      | none ↦ elim (extend h n) [ none ↦ some (0, h) | some h' ↦ kmalloc_on fuel h' n ]
    ]

-- Two rounds are enough, since the block of an extension is large enough.
pub kmalloc : Heap → ℕ → Option (ℕ × Heap)
kmalloc h size = kmalloc_on 2 h size

-- Coalescing in `kfree`: a free block takes in the free block behind it.
abbrev pub joined : Block → Block → Block
joined b c = record b { size = add32 b.size (add32 hdr_size c.size) }

pub join_next : Block → List Block → List Block
join_next b [] = b ∷ []
join_next b (c ∷ cs) = if is_free c.magic then joined b c ∷ cs else b ∷ c ∷ cs

-- The list behind `a` begins with the block that was freed.
pub join_prev : Block → List Block → List Block
join_prev a [] = a ∷ []
join_prev a (b ∷ bs) = if is_free a.magic then joined a b ∷ bs else a ∷ b ∷ bs

-- Does a list begin with the block at `addr`, and is there such a block?
abbrev pub begins_at : List Block → ℕ → Bool
begins_at [] addr = false
begins_at (b ∷ bs) addr = b.addr == addr

pub has_block : List Block → ℕ → Bool
has_block [] addr = false
has_block (b ∷ bs) addr = b.addr == addr || has_block bs addr

-- What `kfree` does to the list for the used block whose header is at `addr`; `none` if there is
-- no such block, or if it is free.
pub free_at : List Block → ℕ → Option (List Block)
unfolding join_next join_prev
free_at [] addr = none
free_at (b ∷ bs) addr =
    let rest = free_at bs addr in
    if b.addr == addr
    then (if is_free b.magic then none else some (join_next (record b { magic = free }) bs))
    else elim rest [
      | none ↦ none
      | some cs ↦ some (if begins_at bs addr then join_prev b cs else b ∷ cs)
    ]

-- `kfree`. A pointer that is no block's payload makes it read a stray word for the header's magic:
-- `stray` says where that word happens to be MAGIC_USED, and the outcome is then undefined
-- (`none`). Any other bad magic is reported, and nothing changes.
pub kfree : (ℕ → Bool) → Heap → ℕ → Option Heap
unfolding free_at has_block
kfree stray h ptr =
    let addr = sub32 ptr hdr_size in
    if ptr == 0 then some h else elim (free_at h.blocks addr) [
      | some bs ↦ some (record h { blocks = bs })
      | none ↦ if has_block h.blocks addr then some h else if stray addr then none else some h
    ]

-- `kmalloc_init`: the heap after its first chunk.
pub kmalloc_init : Heap
kmalloc_init = record {
  blocks = record { addr = kernel_heap_start; magic = free; size = page_size * 4 - hdr_size } ∷ [];
  heap_cur = kernel_heap_start + page_size * 4;
  heap_end = kernel_heap_start + kernel_heap_size;
}
