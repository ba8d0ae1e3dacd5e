-- ===== src/Boot/Irq.antt =====
-- boot/gdt_idt.c: the handlers of the interrupt lines, the masks of the two controllers, and what
-- an exception leads to. A mask register is the list of its 8 bits; a handler is known by its
-- address.
use ore_unix.Common.Int.{ℤ, pos, negsuc, sub_ℕ}
use ore_unix.Common.{
  ℕ, ◌+◌, ◌-◌, ◌%◌, ◌<◌, ◌≡◌, ◌≢◌, ◌↔◌, ◌∙◌, refl, sym, List, ◌∷◌, [], Option, none, some, Bool,
  true, false, not, ◌==◌, ltb, leb, if◌then◌else◌, set, get_elem?, get_elem?-set_self,
  get_elem?-set_ne, length, arith, Bool-cases, inl, inr, ◌⊎◌,
}

pub record Pic : Type 0 where
  pub mask1 : List Bool
  pub mask2 : List Bool

-- A write of one bit of the mask register of the line's controller.
abbrev pub write_mask : Pic → ℕ → Bool → Pic
write_mask p irq b =
    if ltb irq 8
    then record p { mask1 = set p.mask1 irq b }
    else record p { mask2 = set p.mask2 (irq - 8) b }

unfoldable pub pic_mask_irq : Pic → ℕ → Pic
pic_mask_irq p irq = write_mask p irq true

unfoldable pub pic_unmask_irq : Pic → ℕ → Pic
pic_unmask_irq p irq = write_mask p irq false

-- The command ports that get an end of interrupt.
unfoldable pub pic_send_eoi : ℤ → List ℕ
pic_send_eoi (pos irq) = if leb 8 irq then 160 ∷ 32 ∷ [] else 32 ∷ []
pic_send_eoi (negsuc n) = 32 ∷ []

pub record Lines : Type 0 where
  pub irq_handlers : List (Option ℕ)
  pub pic : Pic

unfoldable pub irq_register : Lines → ℤ → ℕ → Lines
unfolding pic_unmask_irq
irq_register l (negsuc n) h = l
irq_register l (pos irq) h =
    if leb 16 irq
    then l
    else record { irq_handlers = set l.irq_handlers irq (some h); pic = pic_unmask_irq l.pic irq }

unfoldable pub irq_unregister : Lines → ℤ → Lines
unfolding pic_mask_irq
irq_unregister l (negsuc n) = l
irq_unregister l (pos irq) =
    if leb 16 irq
    then l
    else record { irq_handlers = set l.irq_handlers irq none; pic = pic_mask_irq l.pic irq }

abbrev pub flatten : Option (Option ℕ) → Option ℕ
flatten none = none
flatten (some h) = h

abbrev pub handler_of : Lines → ℤ → Option ℕ
handler_of l (negsuc n) = none
handler_of l (pos irq) = if ltb irq 16 then flatten (get_elem? l.irq_handlers irq) else none

-- For the vector `int_no`: the handler that is called, and the ports that get the end of interrupt.
unfoldable pub irq_handler_dispatch : Lines → ℕ → Option ℕ × List ℕ
unfolding pic_send_eoi
irq_handler_dispatch l int_no = let irq = sub_ℕ int_no 32 in (handler_of l irq, pic_send_eoi irq)

-- Whether a line is masked at its controller.
abbrev pub masked : Pic → ℕ → Option Bool
masked p irq = if ltb irq 8 then get_elem? p.mask1 irq else get_elem? p.mask2 (irq - 8)

-- `exception_handler`: the page fault handler, SIGSEGV for the current task, or a panic. `current`
-- is the current task's pid, if there is a task.
pub data Exception : Type 0 where
  page_fault : Exception
  segv : ℕ → Exception
  panics : Exception

abbrev pub user_exception : Option ℕ → Exception
user_exception none = panics
user_exception (some pid) = if pid == 0 then panics else segv pid

unfoldable pub exception_handler : ℕ → ℕ → Option ℕ → Exception
exception_handler int_no cs current =
    if int_no == 14
    then page_fault
    else if not (cs % 4 == 0)
    then user_exception current
    else panics

pub record IsWhole (l : Lines) : Type 0 where
  pub sixteen : length l.irq_handlers ≡ 16
  pub eight1 : length l.pic.mask1 ≡ 8
  pub eight2 : length l.pic.mask2 ≡ 8

masked_self :
    (p : Pic) (irq : ℕ) (b : Bool)
    → irq < 16
    → length p.mask1 ≡ 8
    → length p.mask2 ≡ 8
    → masked (write_mask p irq b) irq ≡ some b
masked_self p irq b h l1 l2 = elim (Bool-cases (ltb irq 8)) [
  | inl lt ↦ rw lt (get_elem?-set_self p.mask1 irq b (ground (arith, lt, l1)))
  | inr ge ↦ rw ge (get_elem?-set_self p.mask2 (irq - 8) b (ground (arith, ge, l2)))
]

masked_other :
    (p : Pic) (irq other : ℕ) (b : Bool)
    → other ≢ irq
    → masked (write_mask p irq b) other ≡ masked p other
masked_other p irq other b ne = elim (Bool-cases (ltb irq 8)) [
  | inl lt ↦ elim (Bool-cases (ltb other 8)) [
    | inl lt' ↦ rw (lt, lt') (get_elem?-set_ne p.mask1 {i = irq} {j = other} b (λ e. ne (sym e)))
    | inr ge' ↦ rw (lt, ge') refl
  ]
  | inr ge ↦ elim (Bool-cases (ltb other 8)) [
    | inl lt' ↦ rw (ge, lt') refl
    | inr ge' ↦
        rw (ge, ge')
          (get_elem?-set_ne p.mask2 {i = irq - 8} {j = other - 8} b
            (λ e. ne (ground (arith, e, ge, ge'))))
  ]
]

-- The line's vector.
abbrev pub vector : ℕ → ℕ
vector irq = 32 + irq

vector-line : (irq : ℕ) → sub_ℕ (vector irq) 32 ≡ pos irq
vector-line irq = ground arith

dispatch-line :
    (l : Lines) (irq : ℕ)
    → irq_handler_dispatch l (vector irq) ≡ (handler_of l (pos irq), pic_send_eoi (pos irq))
unfolding irq_handler_dispatch
dispatch-line l irq = rw (irq_handler_dispatch, vector-line irq) refl

-- For a line below 16: after `irq_register` the line's vector calls that handler and the interrupt
-- ends at the second controller too if the line is its own; the line is not masked; the handlers
-- and the masks of the other lines are as they were.
pub irq_register-dispatch :
    (l : Lines) (irq h other : ℕ)
    → IsWhole l
    → irq < 16
    → other ≢ irq
    → (let l' = irq_register l (pos irq) h in
        (irq_handler_dispatch l' (vector irq)
          ≡ (some h, if leb 8 irq then 160 ∷ 32 ∷ [] else 32 ∷ []))
        × (masked l'.pic irq ≡ some false)
        × (irq_handler_dispatch l' (vector other) ≡ irq_handler_dispatch l (vector other))
        × (masked l'.pic other ≡ masked l.pic other))
unfolding irq_register pic_unmask_irq pic_send_eoi
irq_register-dispatch l irq h other w low ne =
    let small : leb 16 irq ≡ false = ground arith in
    let below : ltb irq 16 ≡ true = ground arith in
    let pic = write_mask l.pic irq false in
    let here = get_elem?-set_self l.irq_handlers irq (some h) (omega (arith, w.sixteen)) in
    let there = get_elem?-set_ne l.irq_handlers {i = irq} {j = other} (some h) (λ e. ne (sym e)) in
    rw small (
      dispatch-line (record { irq_handlers = set l.irq_handlers irq (some h); pic = pic }) irq
          ∙ rw (below, here) refl,
      masked_self l.pic irq false low w.eight1 w.eight2,
      dispatch-line (record { irq_handlers = set l.irq_handlers irq (some h); pic = pic }) other
          ∙ rw there refl
          ∙ sym (dispatch-line l other),
      masked_other l.pic irq other false ne,
    )

-- An exception ends in a panic exactly if it is no page fault and comes from the kernel, or there
-- is no current task, or the current task is the kernel's.
pub exception_handler-panics :
    (int_no cs : ℕ) (current : Option ℕ)
    → (exception_handler int_no cs current ≡ panics)
      ↔ ((int_no ≢ 14) × ((cs % 4 ≡ 0) ⊎ ((current ≡ none) ⊎ (current ≡ some 0))))
unfolding exception_handler
exception_handler-panics int_no cs none = (λ h. ground arith, λ h. ground arith)
exception_handler-panics int_no cs (some pid) = (λ h. ground arith, λ h. ground arith)
