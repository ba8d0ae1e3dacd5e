-- ===== src/Kernel/Signal/Deliver.antt =====
-- kernel/process.c, `signal_deliver`: the loop over the pending signals.
use ore_unix.Common.{
  ℕ, zero, suc, ◌<◌, Bool, false, ◌≡◌, refl, List, [], ◌∷◌, map, arith, if◌then◌else◌, set, get_or,
  Bool-cases, inl, inr,
}
use ore_unix.Kernel.Signal.{
  Action, action_of, deliver_from, is_pending, signal_deliver, then_unless_exit,
}
use ore_unix.Kernel.Task.{Signal, Handler, sig_dfl}

-- The `n` signals from `sig` on that are pending, in ascending order.
unfoldable pub pending_from : ℕ → ℕ → List Bool → List ℕ
pending_from zero sig pending = []
pending_from (suc n) sig pending =
    let rest = pending_from n (suc sig) pending in
    if get_or pending sig false then sig ∷ rest else rest

-- The actions for the signals one after the other, up to the first that ends the task.
unfoldable pub actions_for : List Handler → List ℕ → List Action
actions_for actions [] = []
actions_for actions (sig ∷ sigs) =
    then_unless_exit (action_of sig (get_or actions sig sig_dfl)) (actions_for actions sigs)

get_or-set :
    (bs : List Bool) (i j : ℕ) → i < j → get_or (set bs i false) j false ≡ get_or bs j false
get_or-set [] i j h = refl
get_or-set (b ∷ bs) zero zero h = ground arith
get_or-set (b ∷ bs) zero (suc j) h = refl
get_or-set (b ∷ bs) (suc i) zero h = ground arith
get_or-set (b ∷ bs) (suc i) (suc j) h = get_or-set bs i j (omega arith)

get_or-none : (bs : List Bool) (j : ℕ) → is_pending bs ≡ false → get_or bs j false ≡ false
get_or-none [] j h = refl
get_or-none (b ∷ bs) zero h = ground arith
get_or-none (b ∷ bs) (suc j) h = get_or-none bs j (ground arith)

is_pending-cleared : (bs : List Bool) → is_pending (map (λ b. false) bs) ≡ false
is_pending-cleared [] = refl
is_pending-cleared (b ∷ bs) = is_pending-cleared bs

pending_from-set :
    (n i sig : ℕ) (bs : List Bool)
    → i < sig
    → pending_from n sig (set bs i false) ≡ pending_from n sig bs
unfolding pending_from
pending_from-set zero i sig bs h = refl
pending_from-set (suc n) i sig bs h =
    rw (pending_from, get_or-set bs i sig h, pending_from-set n i (suc sig) bs (omega arith)) refl

pending_from-none :
    (n sig : ℕ) (bs : List Bool) → is_pending bs ≡ false → pending_from n sig bs ≡ []
unfolding pending_from
pending_from-none zero sig bs h = refl
pending_from-none (suc n) sig bs h =
    rw (pending_from, get_or-none bs sig h) (pending_from-none n (suc sig) bs h)

deliver_from-actions :
    (n sig : ℕ) (bs : List Bool) (hs : List Handler)
    → deliver_from n sig bs hs ≡ actions_for hs (pending_from n sig bs)
unfolding deliver_from actions_for pending_from
deliver_from-actions zero sig bs hs = refl
deliver_from-actions (suc n) sig bs hs =
    let clear = set bs sig false in
    let ih = deliver_from-actions n (suc sig) clear hs in
    let same = pending_from-set n sig (suc sig) bs (omega arith) in
    elim (Bool-cases (is_pending bs)) [
      | inr idle ↦ rw (deliver_from, idle, pending_from-none (suc n) sig bs idle) refl
      | inl busy ↦ elim (Bool-cases (get_or bs sig false)) [
        | inl hit ↦ rw (deliver_from, pending_from, busy, hit, ih, same) refl
        | inr miss ↦
            rw (deliver_from, pending_from, busy, miss) (deliver_from-actions n (suc sig) bs hs)
      ]
    ]

-- `signal_deliver` takes, for the pending ones of the signals 1 to 63 in ascending order, the
-- action that the task's handler stands for, up to the first that ends the task; the loop's early
-- end skips none. After it no signal is pending and the handlers are as they were.
pub signal_deliver-actions :
    (s : Signal)
    → ((signal_deliver s).0 ≡ actions_for s.actions (pending_from 63 1 s.pending))
      × (is_pending (signal_deliver s).1.pending ≡ false)
      × ((signal_deliver s).1.actions ≡ s.actions)
unfolding signal_deliver
signal_deliver-actions s =
    (deliver_from-actions 63 1 s.pending s.actions, is_pending-cleared s.pending, refl)
