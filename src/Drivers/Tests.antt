-- ===== src/Drivers/Tests.antt =====
-- Tests of the console and the keyboard on a blank screen and an empty buffer.
use ore_unix.Common.{
  ℕ, ◌≡◌, refl, [], ◌∷◌, ◌++◌, take, replicate, length-replicate, arith, false, true,
}
use ore_unix.Drivers.Keyboard.{Keyboard, kbd_buf, kbd_irq}
use ore_unix.Drivers.Keyboard.Buffer.{contents, typed, kbd_irq-held}
use ore_unix.Drivers.Keyboard.Buffer
use ore_unix.Drivers.Vga.{Vga, vga_puts}
use ore_unix.Drivers.Vga.Screen.{OnScreen, vga_puts-OnScreen}

abbrev screen : Vga
screen = record { buf = replicate 2000 1824; row = 24; col = 3; attr = 7 }

screen-OnScreen : OnScreen screen
screen-OnScreen = record {
  memory = length-replicate {A = ℕ} 2000 1824;
  row_in = omega arith;
  col_in = omega arith;
}

vga_puts-OnScreen_example : OnScreen (vga_puts screen (72 ∷ 105 ∷ 10 ∷ []))
vga_puts-OnScreen_example = vga_puts-OnScreen (72 ∷ 105 ∷ 10 ∷ []) screen screen-OnScreen

abbrev keyboard : Keyboard
keyboard = record {
  shift_pressed = true;
  ctrl_pressed = false;
  alt_pressed = false;
  caps_lock = false;
  buf = replicate 256 0;
  head = 0;
  tail = 0;
  size = 0;
}

keyboard-IsValid : Buffer.IsValid keyboard
keyboard-IsValid = record {
  buffered = length-replicate {A = ℕ} 256 0;
  tail_in = omega arith;
  fits = omega arith;
  head_at = refl;
}

-- A with the shift key.
typed-shift : typed keyboard 30 ≡ 65 ∷ []
unfolding typed
typed-shift = refl

kbd_irq-held_example :
    Buffer.IsValid (kbd_irq keyboard 30).0
    × (contents (kbd_irq keyboard 30).0 ≡ take kbd_buf (contents keyboard ++ typed keyboard 30))
kbd_irq-held_example = kbd_irq-held keyboard 30 keyboard-IsValid
