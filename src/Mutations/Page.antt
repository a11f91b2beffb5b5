-- ===== src/Mutations/Page.antt =====
-- apps/web/src/components/shell/workspace-realtime.tsx: one page, its coordinator and its
-- connection, and the count of mutations that all components share. The component's listeners are
-- the events; what the router and the event source are told is an output.
pub mod Safety
use bighead.Common.{
  ℕ, Bool, true, false, ◌&&◌, not, Option, none, some, List, [], ◌∷◌, ◌++◌, if◌then◌else◌,
}
use bighead.Json.{Json}
use bighead.Realtime.Protocol.{RealtimeEvent}
use bighead.Realtime.Feed
use bighead.Realtime.Feed.{Feed, Input, debounce_default, max_seen_default}
use bighead.Mutations.Coordinator.{
  Coordinator, Call, begin, request, end, fired, call, has_active_workspace_mutation,
  begin_workspace_mutation, end_workspace_mutation,
}
use bighead.Mutations.Coordinator

-- `depth` is the module's `workspaceMutationDepth`; `feed` is the connection that `cleanup` ends.
pub record Page : Type 0 where
  pub depth : ℕ
  pub coordinator : Coordinator
  pub feed : Option Feed

pub data Happening : Type 0 where
  mutation_starts : Happening
  mutation_ends : (online : Bool) → Happening
  goes_offline goes_online : Happening
  streams : Input → Happening
  timer_fires : Happening

abbrev Output : Type 0
Output = Coordinator.Output

-- `isBlocked` and the guard of `connect`
abbrev pub active : Page → Bool
active p = has_active_workspace_mutation p.depth

-- A call of the coordinator, with `isBlocked()` answered by the shared count.
ask : Page → Call → Page × List Output
ask p x = let (c, out) = call (active p) p.coordinator x in (record p { coordinator = c }, out)

unfoldable pub connect : Page → Page
connect p = if active p then p else record p { feed = some Feed.initial }

abbrev disconnect : Page → Page
disconnect p = record p { feed = none }

-- What the connection asks for reaches the coordinator's `request`.
forward : Page → List Feed.Output → Page × List Output
unfolding ask
forward p [] = (p, [])
forward p (Feed.Output.refresh ∷ os) =
    let (p', out) = ask p request in let (p'', outs) = forward p' os in (p'', out ++ outs)
forward p (_ ∷ os) = forward p os

module _ (parse : Json → Option RealtimeEvent) where
  stream : Page → Option Feed → Input → Page × List Output
  unfolding forward
  stream p none i = (p, [])
  stream p (some f) i =
      let (f', out) = Feed.step parse debounce_default max_seen_default f i in
      forward (record p { feed = some f' }) out

  unfoldable pub happen : Page → Happening → Page × List Output
  unfolding ask stream
  happen p mutation_starts =
      let p' = record p { depth = begin_workspace_mutation p.depth } in
      let (p'', out) = ask p' begin in (disconnect p'', out)
  happen p (mutation_ends online) =
      let p' = record p { depth = (end_workspace_mutation true p.depth).0 } in
      let (p'', out) = ask p' (end false) in
      (if not (active p'') && online then connect p'' else p'', out)
  happen p goes_offline = (disconnect p, [])
  happen p goes_online = (connect p, [])
  happen p (streams i) = stream p p.feed i
  happen p timer_fires = ask p fired

  unfoldable pub history : Page → List Happening → Page × List Output
  history p [] = (p, [])
  history p (x ∷ xs) =
      let (p', out) = happen p x in let (p'', outs) = history p' xs in (p'', out ++ outs)

-- The page when the effect has run, with so many mutations of other components in flight.
unfoldable pub mounted : ℕ → Page
mounted depth = connect (record { depth = depth; coordinator = Coordinator.initial; feed = none })
