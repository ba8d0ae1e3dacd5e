-- ===== src/Drivers/Serial.antt =====
-- drivers/serial.c: the serial console. What the chip has received, and what other tasks and the
-- interrupt do while a reader sleeps, are arguments; a port's writes are a list. The loop that
-- waits for the transmitter is not followed.
pub mod Line
mod Tests
use ore_unix.Common.Errno.{Errno, enotty, eintr}
use ore_unix.Common.{
  ℕ, zero, suc, ◌+◌, ◌-◌, ◌/◌, ◌%◌, Bool, true, false, ◌||◌, Option, none, some, List, [], ◌∷◌,
  ◌++◌, ltb, ◌==◌, if◌then◌else◌, set, get_or, length, add32,
}

abbrev pub serial_buf : ℕ
serial_buf = 256

-- `rx_buf` without its lock and its wait queue.
pub record RxBuf : Type 0 where
  pub buf : List ℕ
  pub head : ℕ
  pub tail : ℕ
  pub size : ℕ

-- The registers' offsets and the bytes that `uart_init` writes; a `u16` is kept of the divisor.
unfoldable pub uart_init : ℕ → List (ℕ × ℕ)
uart_init baud =
    let divisor = 115200 / baud % 65536 in
    (1, 0)
    ∷ (3, 128)
    ∷ (0, divisor % 256)
    ∷ (1, divisor / 256 % 256)
    ∷ (3, 3)
    ∷ (2, 199)
    ∷ (4, 11)
    ∷ (1, 1)
    ∷ []

-- The bytes sent to COM1.
unfoldable pub serial_putchar : ℕ → List ℕ
serial_putchar c = if c == 10 then 13 ∷ 10 ∷ [] else c ∷ []

unfoldable pub serial_puts : List ℕ → List ℕ
serial_puts [] = []
serial_puts (c ∷ s) = serial_putchar c ++ serial_puts s

unfoldable pub rx_push : RxBuf → ℕ → RxBuf
rx_push q c =
    if ltb q.size serial_buf
    then record q {
      buf = set q.buf q.head c;
      head = add32 q.head 1 % serial_buf;
      size = add32 q.size 1;
    }
    else q

-- `serial_irq_handler` for the bytes that the chip has; it then wakes a reader.
unfoldable pub serial_irq_handler : RxBuf → List ℕ → RxBuf
serial_irq_handler q [] = q
serial_irq_handler q (c ∷ cs) = serial_irq_handler (rx_push q c) cs

abbrev pub ends_line : ℕ → Bool
ends_line c = c == 10 || c == 13

abbrev pub pop : RxBuf → RxBuf
pop q = record q { tail = add32 q.tail 1 % serial_buf; size = q.size - 1 }

-- The bytes that the interrupt takes in after a character, before the lock is taken again.
abbrev pub after_char : List (List ℕ) → RxBuf → RxBuf
after_char [] q = q
after_char (bytes ∷ later) q = serial_irq_handler q bytes

abbrev pub later_chars : List (List ℕ) → List (List ℕ)
later_chars [] = []
later_chars (bytes ∷ later) = later

-- The loop of `serial_read_file` from the first character on, with `left` characters to go: the
-- characters, what is echoed, and the buffer. A buffer that is found empty then ends it. `between`
-- has what comes after each character, and nothing comes after its end.
unfoldable pub read_line : ℕ → List (List ℕ) → RxBuf → List ℕ × List ℕ × RxBuf
unfolding serial_irq_handler
read_line zero between q = ([], [], q)
read_line (suc left) between q =
    let c = get_or q.buf q.tail 0 in
    let rest = read_line left (later_chars between) (after_char between (pop q)) in
    if q.size == 0
    then ([], [], q)
    else if ends_line c
    then (c ∷ [], serial_putchar c, pop q)
    else (c ∷ rest.0, serial_putchar c ++ rest.1, rest.2)

-- While a reader sleeps: the bytes that come, and whether it is woken by a signal.
pub record WaitTurn : Type 0 where
  pub received : List ℕ
  pub signalled : Bool

pub data ReadResult : Type 0 where
  reads : List ℕ → List ℕ → RxBuf → ReadResult
  fails : Errno → RxBuf → ReadResult
  sleeps : RxBuf → ReadResult

-- A call with the turns that it may sleep through, after which it still sleeps, and with what comes
-- while it reads.
unfoldable pub serial_read_file : List WaitTurn → List (List ℕ) → ℕ → RxBuf → ReadResult
unfolding read_line serial_irq_handler
serial_read_file [] between count q =
    let (cs, echo, q') = read_line count between q in
    if count == 0 then reads [] [] q else if q.size == 0 then sleeps q else reads cs echo q'
serial_read_file (t ∷ turns) between count q =
    let (cs, echo, q') = read_line count between q in
    let woken = serial_irq_handler q t.received in
    let again = serial_read_file turns between count woken in
    if count == 0
    then reads [] [] q
    else if q.size == 0
    then if t.signalled then fails eintr woken else again
    else reads cs echo q'

-- The bytes sent; the result is the count.
unfoldable pub serial_write_file : List ℕ → List ℕ × ℕ
serial_write_file bytes = (serial_puts bytes, length bytes)

-- The window size that TIOCGWINSZ writes, or a success, or -ENOTTY.
pub data IoctlResult : Type 0 where
  winsize : ℕ → ℕ → IoctlResult
  accepted : IoctlResult
  refused : Errno → IoctlResult

unfoldable pub serial_ioctl : ℕ → IoctlResult
serial_ioctl cmd =
    if cmd == 0x5413
    then winsize 24 80
    else if cmd == 0x5414 || (cmd == 0x5401 || cmd == 0x5402)
    then accepted
    else refused enotty
