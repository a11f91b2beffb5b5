-- ===== src/Mutations/Coordinator/Waiting.antt =====
-- When the coordinator refreshes, and that it forgets no refresh that was asked for.
use bighead.Common.{Bool, true, false, ◌≡◌, ◌↔◌, List, [], ◌∷◌, map, arith, any}
use bighead.Mutations.Coordinator.{
  Coordinator, Output, refresh, Call, fired, initial, flush, fire, call, calls,
}

abbrev pub is_refresh : Output → Bool
is_refresh refresh = true
is_refresh _ = false

-- A call refreshes exactly when it is the timer's, of a coordinator that is not disposed, with no
-- mutation in flight and nothing that blocks; nothing is then left queued.
pub refresh_iff :
    (blocked : Bool) (c : Coordinator) (x : Call)
    → (any is_refresh (call blocked c x).1 ≡ true) ↔ (
        (x ≡ fired)
        × (c.timer ≡ true)
        × (c.disposed ≡ false)
        × (c.mutation_depth ≡ 0)
        × (blocked ≡ false)
        × ((call blocked c x).0.refresh_queued ≡ false))
unfolding call flush fire
refresh_iff blocked c x = ground arith

-- A refresh that is queued, with no mutation in flight, has its timer set.
abbrev pub IsScheduled : Coordinator → Type 0
IsScheduled c = c.disposed ≡ false → c.refresh_queued ≡ true → c.mutation_depth ≡ 0 → c.timer ≡ true

call-IsScheduled : (c : Coordinator) (x : Call) → IsScheduled c → IsScheduled (call false c x).0
unfolding call flush fire
call-IsScheduled c x h = ground arith

calls-IsScheduled :
    (c : Coordinator) (xs : List Call)
    → IsScheduled c
    → IsScheduled (calls c (map (λ x. (false, x)) xs)).0
unfolding calls
calls-IsScheduled c [] h = h
calls-IsScheduled c (x ∷ xs) h = calls-IsScheduled (call false c x).0 xs (call-IsScheduled c x h)

-- Nothing blocks: after any calls of a new coordinator, a refresh that is still queued while no
-- mutation is in flight has a timer that will make it.
pub calls-initial-IsScheduled :
    (xs : List Call) → IsScheduled (calls initial (map (λ x. (false, x)) xs)).0
calls-initial-IsScheduled xs = calls-IsScheduled initial xs (λ d q m. ground arith)
