-- ===== src/Drivers/Vga/Screen.antt =====
-- drivers/keyboard.c, `vga_putchar` and `vga_puts`: the cursor stays on the screen.
use ore_unix.Common.{
  ℕ, zero, suc, ◌+◌, ◌-◌, ◌*◌, ◌≤◌, ◌<◌, false, ◌≡◌, ◌≢◌, refl, ◌∙◌, List, [], ◌∷◌, ◌++◌, leb, ◌==◌,
  set, take, drop, length, length-set, length-append, length-take, length-drop, arith, Bool-cases,
  if_both, inl, inr, get_elem?, get_elem?-set_self, get_elem?-set_ne, some,
}
use ore_unix.Drivers.Vga.{
  Vga, blank_from, copy_row, copy_rows, put_cell, vga_cols, vga_entry, vga_putchar, vga_puts,
  vga_rows, vga_scroll, wrap_line, wrap_screen,
}

-- The memory is one screen and the cursor is on it.
pub record OnScreen (v : Vga) : Type 0 where
  pub memory : length v.buf ≡ vga_rows * vga_cols
  pub row_in : v.row < vga_rows
  pub col_in : v.col < vga_cols

length-copy_row :
    (buf : List ℕ) (r : ℕ)
    → 1 ≤ r
    → (r + 1) * vga_cols ≤ length buf
    → length (copy_row buf r) ≡ length buf
length-copy_row buf r lo hi =
    let to = (r - 1) * vga_cols in
    let row = take vga_cols (drop (r * vga_cols) buf) in
    let rest = drop (to + vga_cols) buf in
    let a = length-append (take to buf) (row ++ rest) in
    let b = length-append row rest in
    let c = length-take to buf in
    let d = length-take vga_cols (drop (r * vga_cols) buf) in
    let e = length-drop (r * vga_cols) buf in
    let f = length-drop (to + vga_cols) buf in omega (arith, a, b, c, d, e, f)

length-copy_rows :
    (n r : ℕ) (buf : List ℕ)
    → 1 ≤ r
    → (r + n) * vga_cols ≤ length buf
    → length (copy_rows n r buf) ≡ length buf
unfolding copy_rows
length-copy_rows zero r buf lo hi = refl
length-copy_rows (suc n) r buf lo hi =
    let one = length-copy_row buf r lo (omega arith) in
    length-copy_rows n (r + 1) (copy_row buf r) (omega arith) (omega (arith, one)) ∙ one

length-blank_from : (n i attr : ℕ) (buf : List ℕ) → length (blank_from n i attr buf) ≡ length buf
unfolding blank_from
length-blank_from zero i attr buf = refl
length-blank_from (suc n) i attr buf =
    length-blank_from n (i + 1) attr (set buf i (vga_entry 32 attr))
    ∙ length-set buf i (vga_entry 32 attr)

vga_scroll-OnScreen :
    (v : Vga) → length v.buf ≡ vga_rows * vga_cols → v.col < vga_cols → OnScreen (vga_scroll v)
unfolding vga_scroll
vga_scroll-OnScreen v size inside = record {
  memory =
      length-blank_from vga_cols ((vga_rows - 1) * vga_cols) v.attr (copy_rows 24 1 v.buf)
      ∙ length-copy_rows 24 1 v.buf (omega arith) (omega arith)
      ∙ size;
  row_in = omega arith;
  col_in = inside;
}

-- What `put_cell` leaves to the tests of the cursor.
record NearScreen (v : Vga) : Type 0 where
  memory : length v.buf ≡ vga_rows * vga_cols
  row_near : v.row ≤ vga_rows
  col_near : v.col ≤ vga_cols
  one_past : vga_cols ≤ v.col → v.row < vga_rows

put_cell-NearScreen : (v : Vga) (c : ℕ) → OnScreen v → NearScreen (put_cell v c)
unfolding put_cell
put_cell-NearScreen v c s =
    let written : (i x : ℕ) → length (set v.buf i x) ≡ vga_rows * vga_cols =
      λ i x. length-set v.buf i x ∙ s.memory in
    if_both NearScreen (c == 10)
      (record {
        memory = s.memory;
        row_near = omega arith;
        col_near = omega arith;
        one_past = λ h. absurd (omega arith);
      })
      (if_both NearScreen (c == 13)
        (record {
          memory = s.memory;
          row_near = omega arith;
          col_near = omega arith;
          one_past = λ h. s.row_in;
        })
        (if_both NearScreen (c == 8)
          (record {
            memory = written (v.row * vga_cols + (v.col - 1)) (vga_entry 32 v.attr);
            row_near = omega arith;
            col_near = omega arith;
            one_past = λ h. s.row_in;
          })
          (if_both NearScreen (c == 9)
            (record {
              memory = s.memory;
              row_near = omega arith;
              col_near = omega arith;
              one_past = λ h. s.row_in;
            })
            (record {
              memory = written (v.row * vga_cols + v.col) (vga_entry c v.attr);
              row_near = omega arith;
              col_near = omega arith;
              one_past = λ h. s.row_in;
            }))))

wrap_screen-OnScreen :
    (v : Vga) → length v.buf ≡ vga_rows * vga_cols → v.col < vga_cols → OnScreen (wrap_screen v)
wrap_screen-OnScreen v size inside = elim (Bool-cases (leb vga_rows v.row)) [
  | inl low ↦ rw (wrap_screen, low) (vga_scroll-OnScreen v size inside)
  | inr fits ↦
      rw (wrap_screen, fits)
        (record { memory = size; row_in = ground (arith, fits); col_in = inside })
]

-- On a screen of 25 rows of 80 entries, with the cursor on it, `vga_putchar` of any byte leaves
-- such a screen.
pub vga_putchar-OnScreen : (v : Vga) (c : ℕ) → OnScreen v → OnScreen (vga_putchar v c)
unfolding vga_putchar
vga_putchar-OnScreen v c s =
    let near = put_cell-NearScreen v c s in
    let w = put_cell v c in
    elim (Bool-cases (leb vga_cols w.col)) [
      | inl full ↦
          rw (vga_putchar, wrap_line, full)
            (wrap_screen-OnScreen (record w { row = w.row + 1; col = 0 }) near.memory (omega arith))
      | inr room ↦
          rw (vga_putchar, wrap_line, room)
            (wrap_screen-OnScreen w near.memory (ground (arith, room)))
    ]

-- On a screen of 25 rows of 80 entries, with the cursor on it, `vga_puts` of any text leaves such a
-- screen.
pub vga_puts-OnScreen : (text : List ℕ) (v : Vga) → OnScreen v → OnScreen (vga_puts v text)
unfolding vga_puts
vga_puts-OnScreen [] v s = s
vga_puts-OnScreen (c ∷ text) v s =
    vga_puts-OnScreen text (vga_putchar v c) (vga_putchar-OnScreen v c s)

put_cell-prints :
    (v : Vga) (c : ℕ)
    → 32 ≤ c
    → put_cell v c ≡ record v {
      buf = set v.buf (v.row * vga_cols + v.col) (vga_entry c v.attr);
      col = v.col + 1;
    }
unfolding put_cell
put_cell-prints v c h =
    let a : (c == 10) ≡ false = ground arith in
    let b : (c == 13) ≡ false = ground arith in
    let d : (c == 8) ≡ false = ground arith in
    let e : (c == 9) ≡ false = ground arith in rw (put_cell, a, b, d, e) refl

-- With the cursor on the screen and not in the last column, `vga_putchar` of a byte from 32 on
-- writes its entry at the cursor and no other entry, and moves the cursor one column on.
pub vga_putchar-prints :
    (v : Vga) (c : ℕ)
    → OnScreen v
    → 32 ≤ c
    → v.col + 1 < vga_cols
    → (let v' = vga_putchar v c in
        let i = v.row * vga_cols + v.col in
        (get_elem? v'.buf i ≡ some (vga_entry c v.attr))
        × ((j : ℕ) → i ≢ j → get_elem? v'.buf j ≡ get_elem? v.buf j)
        × (v'.row ≡ v.row)
        × (v'.col ≡ v.col + 1))
unfolding vga_putchar
vga_putchar-prints v c s printable room =
    let i = v.row * vga_cols + v.col in
    let x = vga_entry c v.attr in
    let a : leb vga_cols (v.col + 1) ≡ false = ground arith in
    let b : leb vga_rows v.row ≡ false = ground (arith, s.row_in) in
    rw (vga_putchar, put_cell-prints v c printable, wrap_line, a, wrap_screen, b)
      (
        get_elem?-set_self v.buf i x (omega (arith, s.row_in, s.memory)),
        λ j ne. get_elem?-set_ne v.buf x ne,
        refl,
        refl,
      )
