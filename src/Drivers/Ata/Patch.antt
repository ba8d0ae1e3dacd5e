-- ===== src/Drivers/Ata/Patch.antt =====
-- The bytes of a list in which a part is replaced, as `ata_file_write` of drivers/ata.c does with a
-- sector and with the disk.
use ore_unix.Common.{
  ℕ, zero, suc, ◌+◌, ◌-◌, ◌*◌, ◌/◌, ◌%◌, ◌<◌, ◌≤◌, Bool, true, false, ◌&&◌, ◌≡◌, ◌≢◌, refl, ap,
  List, [], ◌∷◌, ◌++◌, ltb, leb, if◌then◌else◌, length, get_or, take, drop, arith, Bool-cases, inl,
  inr, length-append, length-take, length-drop,
}
use ore_unix.Drivers.Ata.{patch}

pub get_or-append :
    (xs ys : List ℕ) (i : ℕ)
    → get_or (xs ++ ys) i 0
      ≡ (if ltb i (length xs) then get_or xs i 0 else get_or ys (i - length xs) 0)
get_or-append [] ys i = ground arith
get_or-append (x ∷ xs) ys zero = ground arith
get_or-append (x ∷ xs) ys (suc i) = ground (arith, get_or-append xs ys i)

pub get_or-take : (xs : List ℕ) (n i : ℕ) → i < n → get_or (take n xs) i 0 ≡ get_or xs i 0
get_or-take xs zero i h = absurd (omega arith)
get_or-take [] (suc n) i h = refl
get_or-take (x ∷ xs) (suc n) zero h = refl
get_or-take (x ∷ xs) (suc n) (suc i) h = get_or-take xs n i (omega arith)

pub get_or-drop : (xs : List ℕ) (n i : ℕ) → get_or (drop n xs) i 0 ≡ get_or xs (n + i) 0
get_or-drop xs zero i = let e : 0 + i ≡ i = omega arith in rw e refl
get_or-drop [] (suc n) i = refl
get_or-drop (x ∷ xs) (suc n) i =
    let e : suc n + i ≡ suc (n + i) = omega arith in rw e (get_or-drop xs n i)

-- The sector that a pass writes, byte by byte.
pub get_or-patch :
    (old : List ℕ) (off : ℕ) (new : List ℕ) (i : ℕ)
    → off ≤ length old
    → get_or (patch old off new) i 0
      ≡ (if leb off i && ltb i (off + length new) then get_or new (i - off) 0 else get_or old i 0)
get_or-patch old off new i h =
    let a = get_or-append (take off old) (new ++ drop (off + length new) old) i in
    let b = get_or-append new (drop (off + length new) old) (i - off) in
    let c = length-take off old in
    let d = get_or-drop old (off + length new) (i - off - length new) in
    elim (Bool-cases (ltb i off)) [
      | inl lt ↦ ground (arith, a, c, get_or-take old off i (ground (arith, lt)))
      | inr ge ↦
          (let e : length (take off old) ≡ off = omega (arith, c) in
            elim (Bool-cases (ltb i (off + length new))) [
              | inl inside ↦ ground (arith, a, b, e, ge, inside)
              | inr beyond ↦
                  (let j : off + length new + (i - off - length new) ≡ i =
                      ground (arith, beyond, ge) in
                    ground (arith, a, b, e, ge, beyond, d, ap (λ n. get_or old n 0) j))
            ])
    ]

pub length-patch :
    (old : List ℕ) (off : ℕ) (new : List ℕ)
    → off + length new ≤ length old
    → length (patch old off new) ≡ length old
length-patch old off new h = omega (
  arith,
  length-append (take off old) (new ++ drop (off + length new) old),
  length-append new (drop (off + length new) old),
  length-take off old,
  length-drop (off + length new) old,
)

-- `bytes` in place of the old ones from `pos` on.
abbrev pub replaced : ℕ → List ℕ → ℕ → ℕ → ℕ
replaced pos bytes a old =
    if leb pos a && ltb a (pos + length bytes) then get_or bytes (a - pos) 0 else old

-- Places in one sector.
pub same_window :
    (pos a l : ℕ)
    → a / 512 ≡ pos / 512
    → (leb (pos % 512) (a % 512) && ltb (a % 512) (pos % 512 + l)) ≡ (leb pos a && ltb a (pos + l))
same_window pos a l e =
    let p : pos ≡ pos / 512 * 512 + pos % 512 = omega arith in
    let q : a ≡ a / 512 * 512 + a % 512 = omega arith in ground (arith, p, q, e)

pub full_window :
    (pos a l : ℕ)
    → a / 512 ≡ pos / 512
    → pos % 512 ≡ 0
    → 512 ≤ l
    → (leb pos a && ltb a (pos + l)) ≡ true
full_window pos a l e z h =
    let b : pos ≤ a = omega arith in let c : a < pos + l = omega arith in ground arith

pub other_window :
    (pos a l : ℕ)
    → a / 512 ≢ pos / 512
    → pos % 512 + l ≤ 512
    → (leb pos a && ltb a (pos + l)) ≡ false
other_window pos a l ne h = elim (Bool-cases (leb pos a && ltb a (pos + l))) [
  | inl e ↦ absurd (
      let b : pos ≤ a = ground (arith, e) in
      let c : a < pos + l = ground (arith, e) in ne (omega arith))
  | inr e ↦ e
]

pub if_get :
    (b : Bool) (s t : List ℕ) (i : ℕ)
    → get_or (if b then s else t) i 0 ≡ (if b then get_or s i 0 else get_or t i 0)
if_get true s t i = refl
if_get false s t i = refl

pub if_outside :
    (b : Bool) (x : ℕ) {y z : ℕ} → (b ≡ false → y ≡ z) → (if b then x else y) ≡ (if b then x else z)
if_outside true x h = refl
if_outside false x h = h refl

pub replaced-nil : (pos a old : ℕ) → old ≡ replaced pos [] a old
replaced-nil pos a old = ground arith

pub replaced-twice :
    (pos n : ℕ) (bytes : List ℕ) (a old : ℕ)
    → n ≤ length bytes
    → replaced (pos + n) (drop n bytes) a (replaced pos (take n bytes) a old)
      ≡ replaced pos bytes a old
replaced-twice pos n bytes a old h =
    let d = length-drop n bytes in
    let t = length-take n bytes in
    elim (Bool-cases (ltb a (pos + n))) [
      | inl lt ↦ elim (Bool-cases (leb pos a)) [
        | inl le ↦
            ground (arith, d, t, lt, le, get_or-take bytes n (a - pos) (ground (arith, lt, le)))
        | inr gt ↦ ground (arith, d, t, lt, gt)
      ]
      | inr ge ↦
          (let e : n + (a - (pos + n)) ≡ a - pos = ground (arith, ge) in
            ground
              (arith, d, t, ge, get_or-drop bytes n (a - (pos + n)), ap (λ i. get_or bytes i 0) e))
    ]
