-- ===== src/Common/Queue.antt =====
-- The intrusive lists of kernel/kernel.h as lists of the nodes' owners, in the order of `next`.
-- `list_add_tail` of a node that is linked already corrupts both lists: its outcome is `none`.
use Prim.Native.Nat.{ℕ}
use mathlib.Core.Path.{◌≡◌, refl}
use mathlib.Core.Bool.{Bool, false, ◌||◌}
use mathlib.Core.Option.{Option, none, some}
use mathlib.Core.List.{List, [], ◌∷◌, ◌++◌}
use native.Mathlib.Omega.{arith}
use ore_unix.Common.Tests.{◌==◌, if◌then◌else◌}

unfoldable pub linked : ℕ → List ℕ → Bool
linked t [] = false
linked t (u ∷ us) = u == t || linked t us

unfoldable pub list_add_tail : ℕ → List ℕ → Option (List ℕ)
unfolding linked
list_add_tail t us = if linked t us then none else some (us ++ (t ∷ []))

-- `list_del` links the node to itself, so it changes nothing for a node that is in no list.
unfoldable pub list_del : ℕ → List ℕ → List ℕ
list_del t [] = []
list_del t (u ∷ us) = if u == t then us else u ∷ list_del t us

-- No node is in the list twice.
abbrev pub IsOnce : List ℕ → Type 0
IsOnce [] = Unit {0}
IsOnce (u ∷ us) = (linked u us ≡ false) × IsOnce us

pub linked-append : (t : ℕ) (us vs : List ℕ) → linked t (us ++ vs) ≡ (linked t us || linked t vs)
unfolding linked
linked-append t [] vs = refl
linked-append t (u ∷ us) vs = ground (arith, linked-append t us vs)

pub linked-list_del :
    (t u : ℕ) (us : List ℕ) → linked u us ≡ false → linked u (list_del t us) ≡ false
unfolding linked list_del
linked-list_del t u [] h = refl
linked-list_del t u (v ∷ us) h = ground (arith, linked-list_del t u us)

pub list_del-gone : (t : ℕ) (us : List ℕ) → IsOnce us → linked t (list_del t us) ≡ false
unfolding linked list_del
list_del-gone t [] h = refl
list_del-gone t (u ∷ us) h = ground (arith, list_del-gone t us)

pub list_del-IsOnce : (t : ℕ) (us : List ℕ) → IsOnce us → IsOnce (list_del t us)
unfolding linked list_del
list_del-IsOnce t [] h = tt
list_del-IsOnce t (u ∷ us) h = ground (arith, list_del-IsOnce t us, linked-list_del t u us)

pub snoc-IsOnce : (t : ℕ) (us : List ℕ) → IsOnce us → linked t us ≡ false → IsOnce (us ++ (t ∷ []))
unfolding linked
snoc-IsOnce t [] h e = (refl, tt)
snoc-IsOnce t (u ∷ us) h e = ground (arith, snoc-IsOnce t us, linked-append u us (t ∷ []))
