-- ===== src/Drivers/Keyboard.antt =====
-- drivers/keyboard.c: the keyboard's interrupt handler and its buffer.
pub mod Buffer
use ore_unix.Common.{
  ℕ, ◌+◌, ◌-◌, ◌%◌, ◌/◌, Bool, true, false, not, ◌||◌, ◌&&◌, List, [], ◌∷◌, ltb, leb, ◌==◌,
  if◌then◌else◌, set, get_or, add32,
}

abbrev pub kbd_buf : ℕ
kbd_buf = 256

-- The modifiers' static variables and `kbd_buf`.
pub record Keyboard : Type 0 where
  pub shift_pressed : Bool
  pub ctrl_pressed : Bool
  pub alt_pressed : Bool
  pub caps_lock : Bool
  pub buf : List ℕ
  pub head : ℕ
  pub tail : ℕ
  pub size : ℕ

-- The characters of the scancodes; the rest of the tables is 0.
abbrev pub scancode_lower : List ℕ
scancode_lower =
    0 ∷ 27 ∷ 49 ∷ 50 ∷ 51 ∷ 52 ∷ 53 ∷ 54 ∷ 55 ∷ 56 ∷ 57 ∷ 48 ∷ 45 ∷ 61 ∷ 8 ∷ 9 ∷ 113 ∷ 119 ∷ 101
    ∷ 114 ∷ 116 ∷ 121 ∷ 117 ∷ 105 ∷ 111 ∷ 112 ∷ 91 ∷ 93 ∷ 10 ∷ 0 ∷ 97 ∷ 115 ∷ 100 ∷ 102 ∷ 103 ∷ 104
    ∷ 106 ∷ 107 ∷ 108 ∷ 59 ∷ 39 ∷ 96 ∷ 0 ∷ 92 ∷ 122 ∷ 120 ∷ 99 ∷ 118 ∷ 98 ∷ 110 ∷ 109 ∷ 44 ∷ 46 ∷ 47
    ∷ 0 ∷ 42 ∷ 0 ∷ 32 ∷ 0 ∷ 0 ∷ 0 ∷ 0 ∷ 0 ∷ 0 ∷ 0 ∷ 0 ∷ 0 ∷ 0 ∷ 0 ∷ 0 ∷ 0 ∷ 55 ∷ 56 ∷ 57 ∷ 45 ∷ 52
    ∷ 53 ∷ 54 ∷ 43 ∷ 49 ∷ 50 ∷ 51 ∷ 48 ∷ 46 ∷ 0 ∷ 0 ∷ 0 ∷ 0 ∷ 0 ∷ []

abbrev pub scancode_upper : List ℕ
scancode_upper =
    0 ∷ 27 ∷ 33 ∷ 64 ∷ 35 ∷ 36 ∷ 37 ∷ 94 ∷ 38 ∷ 42 ∷ 40 ∷ 41 ∷ 95 ∷ 43 ∷ 8 ∷ 9 ∷ 81 ∷ 87 ∷ 69 ∷ 82
    ∷ 84 ∷ 89 ∷ 85 ∷ 73 ∷ 79 ∷ 80 ∷ 123 ∷ 125 ∷ 10 ∷ 0 ∷ 65 ∷ 83 ∷ 68 ∷ 70 ∷ 71 ∷ 72 ∷ 74 ∷ 75 ∷ 76
    ∷ 58 ∷ 34 ∷ 126 ∷ 0 ∷ 124 ∷ 90 ∷ 88 ∷ 67 ∷ 86 ∷ 66 ∷ 78 ∷ 77 ∷ 60 ∷ 62 ∷ 63 ∷ 0 ∷ 42 ∷ 0 ∷ 32
    ∷ 0 ∷ []

-- What the handler asks of the rest of the kernel.
pub data Effect : Type 0 where
  nothing : Effect
  interrupts : Effect
  wakes : Effect

-- `sc & 0x80` and `sc & 0x7F`
abbrev pub is_release : ℕ → Bool
is_release sc = leb 128 sc

abbrev pub key : ℕ → ℕ
key sc = sc % 128

abbrev pub is_modifier : ℕ → Bool
is_modifier k = k == 42 || k == 54 || k == 29 || k == 56 || k == 58

abbrev pub xor : Bool → Bool → Bool
xor true b = not b
xor false b = b

-- The switch on a modifier's scancode.
unfoldable pub set_modifier : Keyboard → ℕ → Bool → Keyboard
set_modifier q k released =
    if k == 42 || k == 54
    then record q { shift_pressed = not released }
    else if k == 29
    then record q { ctrl_pressed = not released }
    else if k == 56
    then record q { alt_pressed = not released }
    else if released
    then q
    else record q { caps_lock = not q.caps_lock }

abbrev pub translate : Keyboard → ℕ → ℕ
translate q k =
    if xor q.shift_pressed q.caps_lock then get_or scancode_upper k 0 else get_or scancode_lower k 0

unfoldable pub push : Keyboard → ℕ → Keyboard
push q c =
    if ltb q.size kbd_buf
    then record q {
      buf = set q.buf q.head c;
      head = add32 q.head 1 % kbd_buf;
      size = add32 q.size 1;
    }
    else q

-- `kbd_irq` for the byte read from the keyboard. Control-C is a signal for the process group of
-- the current task.
unfoldable pub kbd_irq : Keyboard → ℕ → Keyboard × Effect
kbd_irq q sc =
    let k = key sc in
    let c = translate q k in
    if is_modifier k
    then (set_modifier q k (is_release sc), nothing)
    else if is_release sc
    then (q, nothing)
    else if q.ctrl_pressed && k == 46
    then (q, interrupts)
    else if c == 0
    then (q, nothing)
    else (push q c, wakes)
