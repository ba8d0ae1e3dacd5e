-- ===== src/Drivers/Vga.antt =====
-- drivers/keyboard.c: the VGA text console. The cursor's ports are not modelled.
pub mod Screen
use ore_unix.Common.{
  ℕ, zero, suc, ◌+◌, ◌-◌, ◌*◌, ◌/◌, List, [], ◌∷◌, ◌++◌, ltb, leb, ◌==◌, if◌then◌else◌, set, take,
  drop, replicate,
}

abbrev pub vga_cols : ℕ
vga_cols = 80

abbrev pub vga_rows : ℕ
vga_rows = 25

-- `buf` is the video memory, a list of 16-bit entries. The rows and columns are `int`s in the
-- source, which never become negative.
pub record Vga : Type 0 where
  pub buf : List ℕ
  pub row : ℕ
  pub col : ℕ
  pub attr : ℕ

-- VGA_ENTRY of a `char`, given as a byte: the cast to `u16` extends its sign, so that a byte from
-- 128 on sets all bits of the attribute.
abbrev pub vga_entry : ℕ → ℕ → ℕ
vga_entry ch attr = if ltb ch 128 then ch + attr * 256 else 65280 + ch

-- `memcpy` of a row of entries inside the video memory.
abbrev pub copy_row : List ℕ → ℕ → List ℕ
copy_row buf r =
    let to = (r - 1) * vga_cols in
    take to buf ++ (take vga_cols (drop (r * vga_cols) buf) ++ drop (to + vga_cols) buf)

-- `n` rows from row `r` on, each moved up by one.
unfoldable pub copy_rows : ℕ → ℕ → List ℕ → List ℕ
copy_rows zero r buf = buf
copy_rows (suc n) r buf = copy_rows n (r + 1) (copy_row buf r)

-- `n` entries from `i` on become blank.
unfoldable pub blank_from : ℕ → ℕ → ℕ → List ℕ → List ℕ
blank_from zero i attr buf = buf
blank_from (suc n) i attr buf = blank_from n (i + 1) attr (set buf i (vga_entry 32 attr))

unfoldable pub vga_scroll : Vga → Vga
vga_scroll v =
    let moved = copy_rows (vga_rows - 1) 1 v.buf in
    record v {
      buf = blank_from vga_cols ((vga_rows - 1) * vga_cols) v.attr moved;
      row = vga_rows - 1;
    }

-- The cases of `vga_putchar`, up to the tests of the cursor.
unfoldable pub put_cell : Vga → ℕ → Vga
put_cell v c =
    let left = v.col - 1 in
    if c == 10
    then record v { row = v.row + 1; col = 0 }
    else if c == 13
    then record v { col = 0 }
    else if c == 8
    then record v { buf = set v.buf (v.row * vga_cols + left) (vga_entry 32 v.attr); col = left }
    else if c == 9
    then record v { col = (v.col + 8) / 8 * 8 }
    else record v {
      buf = set v.buf (v.row * vga_cols + v.col) (vga_entry c v.attr);
      col = v.col + 1;
    }

abbrev pub wrap_line : Vga → Vga
wrap_line v = if leb vga_cols v.col then record v { row = v.row + 1; col = 0 } else v

abbrev pub wrap_screen : Vga → Vga
wrap_screen v = if leb vga_rows v.row then vga_scroll v else v

unfoldable pub vga_putchar : Vga → ℕ → Vga
vga_putchar v c = wrap_screen (wrap_line (put_cell v c))

unfoldable pub vga_puts : Vga → List ℕ → Vga
vga_puts v [] = v
vga_puts v (c ∷ s) = vga_puts (vga_putchar v c) s

unfoldable pub vga_clear : Vga → Vga
vga_clear v = record v { buf = blank_from (vga_rows * vga_cols) 0 v.attr v.buf; row = 0; col = 0 }
