-- ===== src/Drivers/Keyboard/Buffer.antt =====
-- drivers/keyboard.c: what the handler does to the characters in `kbd_buf`.
use mathlib.Core.List.{append-nil}
use ore_unix.Common.Ring.{window, window-put, length-window}
use ore_unix.Common.{
  ℕ, zero, suc, ◌+◌, ◌%◌, ◌≤◌, ◌<◌, Bool, ◌||◌, ◌&&◌, ◌≡◌, refl, sym, ap, ◌∙◌, List, [], ◌∷◌, ◌++◌,
  ltb, ◌==◌, if◌then◌else◌, set, take, length, length-set, length-append, add32, arith, Bool-cases,
  if_both, not, inl, inr,
}
use ore_unix.Drivers.Keyboard.{
  Keyboard, kbd_buf, kbd_irq, is_modifier, is_release, key, push, set_modifier, translate,
}

-- The characters in the buffer, oldest first.
abbrev pub contents : Keyboard → List ℕ
contents q = window q.buf kbd_buf q.tail q.size

pub record IsValid (q : Keyboard) : Type 0 where
  pub buffered : length q.buf ≡ kbd_buf
  pub tail_in : q.tail < kbd_buf
  pub fits : q.size ≤ kbd_buf
  pub head_at : q.head ≡ (q.tail + q.size) % kbd_buf

-- The character of a scancode, if it is pressed, is no modifier, and is not the C of Control-C.
unfoldable pub typed : Keyboard → ℕ → List ℕ
typed q sc =
    let k = key sc in
    let c = translate q k in
    if is_modifier k || is_release sc || (q.ctrl_pressed && k == 46) || c == 0 then [] else c ∷ []

take-all : (n : ℕ) (w v : List ℕ) → length w ≤ n → length (w ++ v) ≤ n → take n (w ++ v) ≡ w ++ v
take-all zero [] [] h g = refl
take-all zero [] (x ∷ v) h g = absurd (omega arith)
take-all zero (x ∷ w) v h g = absurd (omega arith)
take-all (suc n) [] [] h g = refl
take-all (suc n) [] (x ∷ v) h g = ap (λ u. x ∷ u) (take-all n [] v (omega arith) (omega arith))
take-all (suc n) (x ∷ w) v h g = ap (λ u. x ∷ u) (take-all n w v (omega arith) (omega arith))

take-front : (w v : List ℕ) → take (length w) (w ++ v) ≡ w
take-front [] v = refl
take-front (x ∷ w) v = ap (λ u. x ∷ u) (take-front w v)

-- The outcome of a character, or of none.
record Holds (q q' : Keyboard) (cs : List ℕ) : Type 0 where
  valid : IsValid q'
  held : contents q' ≡ take kbd_buf (contents q ++ cs)

length-contents : (q : Keyboard) → length (contents q) ≡ q.size
length-contents q = length-window q.buf kbd_buf q.tail q.size

room-Holds :
    (q : Keyboard) (c : ℕ)
    → IsValid q
    → q.size < kbd_buf
    → Holds q
        (record q {
          buf = set q.buf q.head c;
          head = add32 q.head 1 % kbd_buf;
          size = add32 q.size 1;
        })
        (c ∷ [])
room-Holds q c v room =
    let head_in : q.head < kbd_buf = omega (arith, v.head_at) in
    let step : add32 q.head 1 ≡ q.head + 1 = omega arith in
    let grown : add32 q.size 1 ≡ q.size + 1 = omega arith in
    let put : window (set q.buf q.head c) kbd_buf q.tail (q.size + 1) ≡ contents q ++ (c ∷ []) =
      (rw v.head_at (window-put q.buf kbd_buf q.tail q.size c v.buffered v.tail_in room)) in
    let len = length-contents q in
    let longer = length-append (contents q) (c ∷ []) in
    record {
      valid = record {
        buffered = length-set q.buf q.head c ∙ v.buffered;
        tail_in = v.tail_in;
        fits = omega arith;
        head_at = omega (arith, v.head_at, step, grown);
      };
      held =
          ap (window (set q.buf q.head c) kbd_buf q.tail) grown
          ∙ put
          ∙ sym (
              take-all kbd_buf (contents q) (c ∷ []) (omega (arith, len))
                (omega (arith, len, longer)));
    }

full-Holds : (q : Keyboard) (cs : List ℕ) → IsValid q → q.size ≡ kbd_buf → Holds q q cs
full-Holds q cs v full = record {
  valid = v;
  held =
      sym (take-front (contents q) cs)
      ∙ ap (λ n. take n (contents q ++ cs)) (length-contents q ∙ full);
}

push-Holds : (q : Keyboard) (c : ℕ) → IsValid q → Holds q (push q c) (c ∷ [])
unfolding push
push-Holds q c v = elim (Bool-cases (ltb q.size kbd_buf)) [
  | inl room ↦ rw (push, room) (room-Holds q c v (ground (arith, room)))
  | inr full ↦ rw (push, full) (full-Holds q (c ∷ []) v (ground (arith, full, v.fits)))
]

same-Holds : (q q' : Keyboard) → IsValid q' → contents q' ≡ contents q → Holds q q' []
same-Holds q q' v e =
    let fits : length (contents q' ++ []) ≤ kbd_buf =
      omega (arith, length-append (contents q') [], length-contents q', v.fits) in
    record {
      valid = v;
      held =
          sym (append-nil (contents q'))
          ∙ sym (take-all kbd_buf (contents q') [] (omega (arith, length-contents q', v.fits)) fits)
          ∙ ap (λ w. take kbd_buf (w ++ [])) e;
    }

modified-Holds :
    (q : Keyboard) (s c a l : Bool)
    → IsValid q
    → Holds q (record q { shift_pressed = s; ctrl_pressed = c; alt_pressed = a; caps_lock = l }) []
modified-Holds q s c a l v =
    same-Holds q (record q { shift_pressed = s; ctrl_pressed = c; alt_pressed = a; caps_lock = l })
      (record { buffered = v.buffered; tail_in = v.tail_in; fits = v.fits; head_at = v.head_at })
      refl

modifier-Holds : (q : Keyboard) (k : ℕ) (r : Bool) → IsValid q → Holds q (set_modifier q k r) []
unfolding set_modifier
modifier-Holds q k r v =
    let P : Keyboard → Type 0 = λ q'. Holds q q' [] in
    let s = q.shift_pressed in
    let c = q.ctrl_pressed in
    let a = q.alt_pressed in
    let l = q.caps_lock in
    if_both P (k == 42 || k == 54) (modified-Holds q (not r) c a l v) (
      if_both P (k == 29) (modified-Holds q s (not r) a l v) (
        if_both P (k == 56) (modified-Holds q s c (not r) l v)
          (if_both P r (modified-Holds q s c a l v) (modified-Holds q s c a (not l) v))))

irq-Holds : (q : Keyboard) (sc : ℕ) → IsValid q → Holds q (kbd_irq q sc).0 (typed q sc)
unfolding kbd_irq typed
irq-Holds q sc v =
    let k = key sc in
    let same = same-Holds q q v refl in
    elim (Bool-cases (is_modifier k)) [
      | inl e ↦ rw (kbd_irq, typed, e) (modifier-Holds q k (is_release sc) v)
      | inr e ↦ elim (Bool-cases (is_release sc)) [
        | inl f ↦ rw (kbd_irq, typed, e, f) same
        | inr f ↦ elim (Bool-cases (q.ctrl_pressed && k == 46)) [
          | inl g ↦ rw (kbd_irq, typed, e, f, g) same
          | inr g ↦ elim (Bool-cases (translate q k == 0)) [
            | inl h ↦ rw (kbd_irq, typed, e, f, g, h) same
            | inr h ↦ rw (kbd_irq, typed, e, f, g, h) (push-Holds q (translate q k) v)
          ]
        ]
      ]
    ]

-- On a valid buffer, `kbd_irq` of any scancode leaves a valid buffer, which holds the first 256 of
-- the characters that were in it and, behind them, the scancode's character if it types one.
pub kbd_irq-held :
    (q : Keyboard) (sc : ℕ)
    → IsValid q
    → IsValid (kbd_irq q sc).0
      × (contents (kbd_irq q sc).0 ≡ take kbd_buf (contents q ++ typed q sc))
kbd_irq-held q sc v = let h = irq-Holds q sc v in (h.valid, h.held)
