-- ===== src/Mutations/Tests.antt =====
-- A batch of mutations and a page's history, and the theorems at them.
use bighead.Common.{
  Bool, true, false, ◌≡◌, ◌↔◌, refl, Option, none, List, [], ◌∷◌, any, filter, ◌||◌, if◌then◌else◌,
}
use bighead.Json.{Json}
use bighead.Realtime.Protocol.{RealtimeEvent}
use bighead.Realtime.Feed.{ready, fired}
use bighead.Realtime.Feed
use bighead.Mutations.Coordinator
use bighead.Mutations.Coordinator.{Coordinator, call, calls}
use bighead.Mutations.Coordinator.Waiting.{is_refresh, refresh_iff}
use bighead.Mutations.Coordinator.Batches.{in_flight, asks_refresh, calls-batch}
use bighead.Mutations.Page.{
  Page, Happening, mutation_starts, mutation_ends, goes_offline, goes_online, streams, timer_fires,
  connect, happen, history, mounted,
}
use bighead.Mutations.Page.Safety.{IsSafe, history-mounted-IsSafe, refresh_when_idle}

abbrev queued : Coordinator
queued = record { mutation_depth = 0; refresh_queued = true; timer = true; disposed = false }

refresh_iff_example : (any is_refresh (call false queued Coordinator.Call.fired).1 ≡ true) ↔ (
    ◌≡◌ {A = Coordinator.Call} Coordinator.Call.fired Coordinator.Call.fired
    × (queued.timer ≡ true)
    × (queued.disposed ≡ false)
    × (queued.mutation_depth ≡ 0)
    × (◌≡◌ {A = Bool} false false)
    × ((call false queued Coordinator.Call.fired).0.refresh_queued ≡ false))
refresh_iff_example = refresh_iff false queued Coordinator.Call.fired

-- A refresh is asked for, another mutation begins and ends, and a timer set before fires.
abbrev meanwhile : List (Bool × Coordinator.Call)
meanwhile =
    (false, Coordinator.request)
    ∷ (false, Coordinator.begin)
    ∷ (false, Coordinator.Call.fired)
    ∷ (false, Coordinator.end false)
    ∷ (true, Coordinator.request)
    ∷ []

calls-batch_example :
    let (busy, out) = calls queued ((false, Coordinator.begin) ∷ meanwhile) in
    let (idle, last) =
      calls busy ((false, Coordinator.end false) ∷ (false, Coordinator.Call.fired) ∷ []) in
    (out ≡ [])
    × (idle ≡ Coordinator.initial)
    × (filter is_refresh last ≡ (
        if (queued.refresh_queued || queued.timer) || (any asks_refresh meanwhile || false)
        then Coordinator.refresh ∷ []
        else []))
unfolding in_flight
calls-batch_example = calls-batch queued false false meanwhile refl refl refl

abbrev deaf : Json → Option RealtimeEvent
deaf v = none

abbrev day : List Happening
day =
    mutation_starts
    ∷ mutation_starts
    ∷ goes_offline
    ∷ goes_online
    ∷ mutation_ends true
    ∷ mutation_ends true
    ∷ streams ready
    ∷ streams fired
    ∷ timer_fires
    ∷ []

day_runs : any is_refresh (history deaf (mounted 0) day).1 ≡ true
unfolding history happen connect mounted call Coordinator.flush Coordinator.fire
    Coordinator.has_active_workspace_mutation Coordinator.begin_workspace_mutation
    Coordinator.end_workspace_mutation Feed.step Feed.schedule
day_runs = refl

history-mounted-IsSafe_example : IsSafe (history deaf (mounted 1) day).0
history-mounted-IsSafe_example = history-mounted-IsSafe deaf 1 day

abbrev idle : Page
idle = record { depth = 0; coordinator = queued; feed = none }

refresh_when_idle_example :
    (◌≡◌ {A = Happening} timer_fires timer_fires)
    × (idle.depth ≡ 0)
    × ((happen deaf idle timer_fires).0.coordinator.refresh_queued ≡ false)
unfolding happen call Coordinator.fire Coordinator.has_active_workspace_mutation
refresh_when_idle_example = refresh_when_idle deaf idle timer_fires refl
