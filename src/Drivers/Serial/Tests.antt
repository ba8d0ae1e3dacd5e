-- ===== src/Drivers/Serial/Tests.antt =====
-- Tests of the serial console, the clock and the devices.
use ore_unix.Common.{
  List, ℕ, ◌+◌, ◌%◌, ◌≡◌, refl, arith, false, [], ◌∷◌, ◌++◌, get_or, take, replicate,
  length-replicate,
}
use ore_unix.Drivers.Dev.Random.{random_read-alternates}
use ore_unix.Drivers.Dev.{random_read}
use ore_unix.Drivers.Serial.Line.{contents, IsValid, line, serial_read_file-line}
use ore_unix.Drivers.Serial.{
  accepted, reads, RxBuf, serial_buf, serial_ioctl, serial_puts, serial_putchar, serial_read_file,
  serial_write_file, uart_init,
}
use ore_unix.Drivers.Timer.{timer_init}

abbrev empty : RxBuf
empty = record { buf = replicate 256 0; head = 255; tail = 255; size = 0 }

empty-IsValid : IsValid empty
empty-IsValid = record {
  buffered = length-replicate {A = ℕ} 256 0;
  tail_in = omega arith;
  fits = omega arith;
  head_at = refl;
}

-- "a", the end of a line, "b"
serial_read_file-line_example :
    (let kept : List ℕ = take serial_buf (97 ∷ 10 ∷ 98 ∷ []) in
      (q' : RxBuf) × (serial_read_file
          (record { received = 97 ∷ 10 ∷ 98 ∷ []; signalled = false } ∷ [])
          []
          9
          empty
        ≡ reads (line 9 kept) (serial_puts (line 9 kept)) q')
      × (kept ≡ line 9 kept ++ contents q')
      × IsValid q')
serial_read_file-line_example =
    serial_read_file-line empty 9 97 (10 ∷ 98 ∷ []) empty-IsValid refl (omega arith)

written : (serial_write_file (97 ∷ 10 ∷ [])).0 ≡ 97 ∷ 13 ∷ 10 ∷ []
unfolding serial_write_file serial_puts serial_putchar
written = refl

full_speed :
    uart_init 115200
    ≡ (1, 0) ∷ (3, 128) ∷ (0, 1) ∷ (1, 0) ∷ (3, 3) ∷ (2, 199) ∷ (4, 11) ∷ (1, 1) ∷ []
unfolding uart_init
full_speed = refl

window_set : serial_ioctl 0x5414 ≡ accepted
unfolding serial_ioctl
window_set = refl

hundred_hertz : timer_init 100 ≡ (67, 54) ∷ (64, 155) ∷ (64, 46) ∷ []
unfolding timer_init
hundred_hertz = refl

random_read-alternates_example :
    get_or (random_read 8 3735928559).0 4 0 % 2 ≡ (3735928559 + 1 + 1) % 2
random_read-alternates_example = random_read-alternates 2 1 3735928559 (omega arith)
