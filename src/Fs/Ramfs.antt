-- ===== src/Fs/Ramfs.antt =====
-- fs/ramfs.c: reading, writing and truncating a regular file. Whether `krealloc` finds memory is
-- an argument; what it returns then holds the old bytes.
pub mod Bytes
mod Tests
use ore_unix.Common.{
  ℕ, ◌+◌, ◌-◌, ◌*◌, ◌%◌, ◌^◌, max, Bool, true, false, List, [], ◌∷◌, ◌++◌, ltb, leb, ◌==◌,
  if◌then◌else◌, take, drop, replicate, length,
}

-- An open file: `struct ramfs_inode`'s data, whose length is its capacity (none for a null
-- pointer), the inode's size, the file's position and its O_APPEND.
pub record File : Type 0 where
  pub data_ : List ℕ
  pub size : ℕ
  pub pos : ℕ
  pub append : Bool

abbrev pub is_null : List ℕ → Bool
is_null [] = true
is_null (b ∷ bs) = false

-- The bytes read; their number is the call's result.
unfoldable pub ramfs_read : File → ℕ → List ℕ × File
ramfs_read f count =
    let n = if ltb f.size (f.pos + count) then f.size - f.pos else count in
    if leb f.size f.pos
    then ([], f)
    else if is_null f.data_
    then ([], f)
    else (take n (drop f.pos f.data_), record f { pos = f.pos + n })

-- `memcpy` into the data at a position inside it. Sizes and positions are 64-bit, capacities
-- 32-bit; no position is negative.
abbrev pub overwrite : List ℕ → ℕ → List ℕ → List ℕ
overwrite bytes i new = take i bytes ++ (new ++ drop (i + length new) bytes)

-- After `krealloc` and `memset`, for a capacity that has grown.
abbrev pub grow : List ℕ → ℕ → List ℕ
grow bytes capacity = bytes ++ replicate (capacity - length bytes) 0

abbrev pub new_capacity : ℕ → ℕ → ℕ
new_capacity end capacity = max end ((capacity * 2 + 4096) % 2 ^ 32) % 2 ^ 32

-- `memcpy` and what follows it in `ramfs_write`.
abbrev pub store_bytes : File → List ℕ → File
store_bytes f bytes =
    let end = f.pos + length bytes in
    record f {
      data_ = overwrite f.data_ f.pos bytes;
      size = if ltb f.size end then end else f.size;
      pos = end;
    }

-- The result is the count for `true` and -ENOMEM for `false`.
unfoldable pub ramfs_write : Bool → File → List ℕ → Bool × File
ramfs_write found f bytes =
    let g = if f.append then record f { pos = f.size } else f in
    let end = g.pos + length bytes in
    if ltb (length g.data_) (end % 2 ^ 32)
    then if found
      then (
        true,
        store_bytes (record g { data_ = grow g.data_ (new_capacity end (length g.data_)) }) bytes,
      )
      else (false, g)
    else (true, store_bytes g bytes)

unfoldable pub ramfs_truncate : Bool → File → ℕ → Bool × File
ramfs_truncate found f size =
    if size == 0
    then (true, record f { data_ = []; size = 0 })
    else if ltb (length f.data_) (size % 2 ^ 32)
    then if found
      then (true, record f { data_ = grow f.data_ (size % 2 ^ 32); size = size })
      else (false, f)
    else (true, record f { size = size })
