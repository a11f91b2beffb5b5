-- ===== src/Mutations/Coordinator.antt =====
-- apps/web/src/lib/mutation-refresh-coordinator.ts: a refresh waits for the mutations in flight.
-- `refresh`, `setTimer` and `clearTimer` are outputs; `blocked` is what `isBlocked()` answers while
-- the operation runs. A timer's handle is a true value.
pub mod Waiting
pub mod Batches
use bighead.Common.{
  ℕ, ◌+◌, ◌-◌, Bool, true, false, ◌||◌, not, List, [], ◌∷◌, ◌++◌, ltb, if◌then◌else◌,
}

pub record Coordinator : Type 0 where
  pub mutation_depth : ℕ
  pub refresh_queued : Bool
  pub timer : Bool
  pub disposed : Bool

pub data Output : Type 0 where
  refresh set_timer clear_timer : Output

pub data Call : Type 0 where
  begin request : Call
  end : (force_refresh : Bool) → Call
  dispose : Call
  fired : Call  -- the timer's callback, which exists while a handle is stored

abbrev pub initial : Coordinator
initial = record { mutation_depth = 0; refresh_queued = false; timer = false; disposed = false }

-- `hasActiveWorkspaceMutation`
unfoldable pub has_active_workspace_mutation : (workspace_mutation_depth : ℕ) → Bool
has_active_workspace_mutation workspace_mutation_depth = ltb 0 workspace_mutation_depth

-- `workspaceMutationDepth` after `beginWorkspaceMutation` and `endWorkspaceMutation`
unfoldable pub begin_workspace_mutation : ℕ → ℕ
begin_workspace_mutation depth = depth + 1

-- `cancelled` says whether a listener of the event called `preventDefault`; the result is `handled`.
unfoldable pub end_workspace_mutation : (cancelled : Bool) → ℕ → ℕ × Bool
end_workspace_mutation cancelled depth = (depth - 1, cancelled)

unfoldable pub flush : (blocked : Bool) → Coordinator → Coordinator × List Output
flush blocked c =
    if c.disposed || (ltb 0 c.mutation_depth || (blocked || (not c.refresh_queued || c.timer)))
    then (c, [])
    else (record c { timer = true }, set_timer ∷ [])

-- The callback of the timer.
unfoldable pub fire : (blocked : Bool) → Coordinator → Coordinator × List Output
fire blocked c =
    let c' = record c { timer = false } in
    if c.disposed
    then (c', [])
    else if ltb 0 c.mutation_depth || blocked
    then (record c' { refresh_queued = true }, [])
    else (record c' { refresh_queued = false }, refresh ∷ [])

unfoldable pub call : (blocked : Bool) → Coordinator → Call → Coordinator × List Output
call blocked c begin =
    if c.disposed then (c, []) else (record c { mutation_depth = c.mutation_depth + 1 }, [])
call blocked c request =
    if c.disposed then (c, []) else flush blocked (record c { refresh_queued = true })
-- `Math.max(0, depth - 1)` is the subtraction that stops at 0.
call blocked c (end force_refresh) =
    if c.disposed
    then (c, [])
    else flush blocked (record c {
      mutation_depth = c.mutation_depth - 1;
      refresh_queued = c.refresh_queued || force_refresh;
    })
call blocked c dispose =
    if c.disposed
    then (c, [])
    else (record c { disposed = true }, if c.timer then clear_timer ∷ [] else [])
call blocked c fired = if c.timer then fire blocked c else (c, [])

-- A sequence of calls, each with the answer of `isBlocked()` at its time.
unfoldable pub calls : Coordinator → List (Bool × Call) → Coordinator × List Output
calls c [] = (c, [])
calls c ((blocked, x) ∷ xs) =
    let (c', out) = call blocked c x in let (c'', outs) = calls c' xs in (c'', out ++ outs)
