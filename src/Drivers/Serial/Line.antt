-- ===== src/Drivers/Serial/Line.antt =====
-- drivers/serial.c: what a reader gets of the characters that the interrupt stored.
use mathlib.Core.List.{append-nil, append_assoc}
use ore_unix.Common.Ring.{window, window-put, length-window}
use ore_unix.Common.{
  ℕ, zero, suc, ◌+◌, ◌-◌, ◌%◌, ◌≤◌, ◌<◌, true, false, ◌≡◌, ◌≢◌, refl, sym, ap, ◌∙◌, List, [], ◌∷◌,
  ◌++◌, ltb, ◌==◌, if◌then◌else◌, set, take, length, length-set, get_or, add32, arith, Bool-cases,
  inl, inr,
}
use ore_unix.Drivers.Serial.{
  ends_line, pop, rx_push, read_line, reads, RxBuf, serial_buf, serial_irq_handler, serial_puts,
  serial_putchar, serial_read_file,
}

-- The characters in the buffer, oldest first.
abbrev pub contents : RxBuf → List ℕ
contents q = window q.buf serial_buf q.tail q.size

pub record IsValid (q : RxBuf) : Type 0 where
  pub buffered : length q.buf ≡ serial_buf
  pub tail_in : q.tail < serial_buf
  pub fits : q.size ≤ serial_buf
  pub head_at : q.head ≡ (q.tail + q.size) % serial_buf

-- At most `n` characters, up to the first end of a line.
unfoldable pub line : ℕ → List ℕ → List ℕ
line zero cs = []
line (suc n) [] = []
line (suc n) (c ∷ cs) = if ends_line c then c ∷ [] else c ∷ line n cs

-- The characters that find room.
abbrev pub room : ℕ → List ℕ → List ℕ
room used cs = take (serial_buf - used) cs

record Holds (q q' : RxBuf) (cs : List ℕ) : Type 0 where
  valid : IsValid q'
  held : contents q' ≡ contents q ++ room q.size cs

push-room :
    (q : RxBuf) (c : ℕ)
    → IsValid q
    → q.size < serial_buf
    → (rx_push q c ≡ record q {
      buf = set q.buf q.head c;
      head = (q.head + 1) % serial_buf;
      size = q.size + 1;
    })
unfolding rx_push
push-room q c v room =
    let a : ltb q.size serial_buf ≡ true = ground arith in
    let head_in : q.head < serial_buf = omega (arith, v.head_at) in
    let step : add32 q.head 1 ≡ q.head + 1 = omega arith in
    let grown : add32 q.size 1 ≡ q.size + 1 = omega arith in rw (rx_push, a, step, grown) refl

push-full : (q : RxBuf) (c : ℕ) → q.size ≡ serial_buf → rx_push q c ≡ q
unfolding rx_push
push-full q c full = let a : ltb q.size serial_buf ≡ false = ground arith in rw (rx_push, a) refl

pushed : RxBuf → ℕ → RxBuf
pushed q c = record q {
  buf = set q.buf q.head c;
  head = (q.head + 1) % serial_buf;
  size = q.size + 1;
}

pushed-IsValid : (q : RxBuf) (c : ℕ) → IsValid q → q.size < serial_buf → IsValid (pushed q c)
unfolding pushed
pushed-IsValid q c v room = record {
  buffered = length-set q.buf q.head c ∙ v.buffered;
  tail_in = v.tail_in;
  fits = omega arith;
  head_at = omega (arith, v.head_at);
}

pushed-contents :
    (q : RxBuf) (c : ℕ)
    → IsValid q
    → q.size < serial_buf
    → contents (pushed q c) ≡ contents q ++ (c ∷ [])
unfolding pushed
pushed-contents q c v room =
    rw (v.head_at) (window-put q.buf serial_buf q.tail q.size c v.buffered v.tail_in room)

push-same : (q : RxBuf) (c : ℕ) → IsValid q → q.size < serial_buf → rx_push q c ≡ pushed q c
unfolding pushed
push-same q c v room = push-room q c v room

take-none : (n : ℕ) (cs : List ℕ) → n ≡ 0 → take n cs ≡ []
take-none zero cs e = refl
take-none (suc n) cs e = absurd (omega arith)

room-full : (used : ℕ) (cs : List ℕ) → used ≡ serial_buf → room used cs ≡ []
room-full used cs full = take-none (serial_buf - used) cs (omega arith)

room-next :
    (used c : ℕ) (cs : List ℕ) → used < serial_buf → room used (c ∷ cs) ≡ c ∷ room (used + 1) cs
room-next used c cs free =
    let e : serial_buf - used ≡ suc (serial_buf - (used + 1)) = omega arith in rw e refl

pushed-room :
    (q : RxBuf) (c : ℕ) (cs : List ℕ)
    → IsValid q
    → q.size < serial_buf
    → contents (pushed q c) ++ room (pushed q c).size cs ≡ contents q ++ room q.size (c ∷ cs)
unfolding pushed
pushed-room q c cs v free =
    ap (λ w. w ++ room (q.size + 1) cs) (pushed-contents q c v free)
    ∙ append_assoc (contents q) (c ∷ []) (room (q.size + 1) cs)
    ∙ ap (λ w. contents q ++ w) (sym (room-next q.size c cs free))

room-nil : (used : ℕ) → room used [] ≡ []
room-nil used = elim (Bool-cases (ltb used serial_buf)) [
  | inl e ↦
      (let f : serial_buf - used ≡ suc (serial_buf - used - 1) = ground (arith, e) in rw f refl)
  | inr e ↦ take-none (serial_buf - used) [] (ground (arith, e))
]

irq-Holds : (q : RxBuf) (cs : List ℕ) → IsValid q → Holds q (serial_irq_handler q cs) cs
unfolding serial_irq_handler
irq-Holds q [] v = record {
  valid = v;
  held = sym (append-nil (contents q)) ∙ ap (λ w. contents q ++ w) (sym (room-nil q.size));
}
irq-Holds q (c ∷ cs) v = elim (Bool-cases (ltb q.size serial_buf)) [
  | inl e ↦
      (let free : q.size < serial_buf = ground (arith, e) in
        let r = irq-Holds (pushed q c) cs (pushed-IsValid q c v free) in
        rw (push-same q c v free)
          (record { valid = r.valid; held = r.held ∙ pushed-room q c cs v free }))
  | inr e ↦
      (let full : q.size ≡ serial_buf = ground (arith, e, v.fits) in
        let r = irq-Holds q cs v in
        rw (push-full q c full) (record {
          valid = r.valid;
          held =
              r.held
              ∙ ap (λ w. contents q ++ w)
                  (room-full q.size cs full ∙ sym (room-full q.size (c ∷ cs) full));
        }))
]

-- The first character, and what follows it.
contents-pop :
    (q : RxBuf)
    → IsValid q
    → (q.size == 0) ≡ false
    → contents q ≡ get_or q.buf q.tail 0 ∷ contents (pop q)
contents-pop q v some_left =
    let n : q.size ≡ suc (q.size - 1) = ground (arith, some_left) in
    let t : add32 q.tail 1 % serial_buf ≡ (q.tail + 1) % serial_buf = omega (arith, v.tail_in) in
    ap (window q.buf serial_buf q.tail) n ∙ rw t refl

pop-IsValid : (q : RxBuf) → IsValid q → (q.size == 0) ≡ false → IsValid (pop q)
pop-IsValid q v some_left =
    let some_size : 0 < q.size = ground (arith, some_left) in
    record {
      buffered = v.buffered;
      tail_in = omega arith;
      fits = omega (arith, v.fits);
      head_at = omega (arith, v.head_at, v.tail_in, some_size);
    }

record ReadsLine (n : ℕ) (q : RxBuf) (r : List ℕ × List ℕ × RxBuf) : Type 0 where
  got : r.0 ≡ line n (contents q)
  echoed : r.1 ≡ serial_puts (line n (contents q))
  left_over : contents q ≡ r.0 ++ contents (r.2)
  still_valid : IsValid (r.2)

read_line-ReadsLine : (n : ℕ) (q : RxBuf) → IsValid q → ReadsLine n q (read_line n [] q)
unfolding read_line line serial_puts
read_line-ReadsLine zero q v = record {
  got = refl;
  echoed = refl;
  left_over = refl;
  still_valid = v;
}
read_line-ReadsLine (suc n) q v = elim (Bool-cases (q.size == 0)) [
  | inl e ↦
      (let z : q.size ≡ 0 = ground (arith, e) in
        let nil : contents q ≡ [] = rw z refl in
        rw (read_line, e)
          (record {
            got = ap (line (suc n)) (sym nil);
            echoed = ap (λ cs. serial_puts (line (suc n) cs)) (sym nil);
            left_over = refl;
            still_valid = v;
          }))
  | inr e ↦
      (let c = get_or q.buf q.tail 0 in
        let split = contents-pop q v e in
        let r = read_line-ReadsLine n (pop q) (pop-IsValid q v e) in
        elim (Bool-cases (ends_line c)) [
          | inl f ↦
              (let l : line (suc n) (contents q) ≡ c ∷ [] =
                  (ap (line (suc n)) split ∙ rw (line, f) refl) in
                rw (read_line, e, f)
                  (record {
                    got = sym l;
                    echoed = sym (ap serial_puts l ∙ append-nil (serial_putchar c));
                    left_over = split;
                    still_valid = pop-IsValid q v e;
                  }))
          | inr f ↦
              (let l : line (suc n) (contents q) ≡ c ∷ line n (contents (pop q)) =
                  (ap (line (suc n)) split ∙ rw (line, f) refl) in
                rw (read_line, e, f)
                  (record {
                    got = ap (λ cs. c ∷ cs) r.got ∙ sym l;
                    echoed = ap (λ cs. serial_putchar c ++ cs) r.echoed ∙ sym (ap serial_puts l);
                    left_over = split ∙ ap (λ cs. c ∷ cs) r.left_over;
                    still_valid = r.still_valid;
                  }))
        ])
]

nonempty : (q : RxBuf) (c : ℕ) (cs : List ℕ) → contents q ≡ c ∷ cs → (q.size == 0) ≡ false
nonempty q c cs e =
    let n = length-window q.buf serial_buf q.tail q.size in
    let m : length (contents q) ≡ suc (length cs) = ap length e in ground (arith, n, m)

-- A reader that sleeps on an empty valid buffer, is woken without a signal after characters came,
-- and reads while no more come, returns from the first 256 of them up to as many as it asked for,
-- at most up to the first end of a line; these are echoed, and the rest of the 256 stays in the
-- buffer, which is valid.
pub serial_read_file-line :
    (q : RxBuf) (count c : ℕ) (cs : List ℕ)
    → IsValid q
    → q.size ≡ 0
    → count ≢ 0
    → (let kept = take serial_buf (c ∷ cs) in
        (q' : RxBuf) × (serial_read_file
            (record { received = c ∷ cs; signalled = false } ∷ [])
            []
            count
            q
          ≡ reads (line count kept) (serial_puts (line count kept)) q')
        × (kept ≡ line count kept ++ contents q')
        × IsValid q')
unfolding serial_read_file
serial_read_file-line q count c cs v empty ne =
    let kept = take serial_buf (c ∷ cs) in
    let woken = serial_irq_handler q (c ∷ cs) in
    let h = irq-Holds q (c ∷ cs) v in
    let start : contents q ++ room q.size (c ∷ cs) ≡ kept = rw empty refl in
    let held : contents woken ≡ kept = h.held ∙ start in
    let r = read_line-ReadsLine count woken h.valid in
    let a : (count == 0) ≡ false = ground (arith, ne) in
    let b : (q.size == 0) ≡ true = ground (arith, empty) in
    let d = nonempty woken c (take 255 cs) held in
    let got : (read_line count [] woken).0 ≡ line count kept = r.got ∙ ap (line count) held in
    let echoed : (read_line count [] woken).1 ≡ serial_puts (line count kept) =
      r.echoed ∙ ap (λ w. serial_puts (line count w)) held in
    (
      (read_line count [] woken).2,
      rw (serial_read_file, a, b, d, got, echoed) refl,
      sym held ∙ r.left_over ∙ ap (λ w. w ++ contents ((read_line count [] woken).2)) got,
      r.still_valid,
    )
