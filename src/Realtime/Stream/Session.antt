-- ===== src/Realtime/Stream/Session.antt =====
-- The closures that share the stream's state: the change listener, the heartbeat, the expiry, the
-- channel's status and `cleanup`.
use bighead.Common.{
  ℕ, suc, String, Bool, true, false, ◌≡◌, refl, Option, none, some, List, [], ◌∷◌, ◌++◌, arith,
  if◌then◌else◌,
}
use bighead.Json.{Json, obj, num, field, end}
use bighead.Json.Numbers.{of_ℕ}
use bighead.Realtime.Protocol.{RealtimeEvent, encode_sse}
use bighead.Realtime.Protocol.Parsing.{event_json}
use bighead.Realtime.Stream.{safe_event}

pub record Session : Type 0 where
  pub stopped : Bool
  pub sequence : ℕ

abbrev pub opening : Session
opening = record { stopped = false; sequence = 0 }

pub data Signal : Type 0 where
  change :
      (table operation : String) (row : Json) (commit_timestamp : Option Json) (now : String)
      → Signal
  heartbeat expired subscribed failed aborted : Signal

pub data Effect : Type 0 where
  enqueue : String → Effect
  clear_timers remove_listener remove_channel close : Effect

unfoldable pub cleanup : Session → Session × List Effect
cleanup s =
    if s.stopped
    then (s, [])
    else (record s { stopped = true }, clear_timers ∷ remove_listener ∷ remove_channel ∷ close ∷ [])

abbrev send : Session → String → List Effect
send s text = if s.stopped then [] else enqueue text ∷ []

-- Frames first; then, at most once, the four parts of the cleanup; then nothing.
abbrev pub IsOrderly : List Effect → Type 0
IsOrderly [] = Unit
IsOrderly (enqueue text ∷ rest) = IsOrderly rest
IsOrderly (clear_timers ∷ rest) = rest ≡ remove_listener ∷ remove_channel ∷ close ∷ []
IsOrderly (_ ∷ rest) = ⊥

-- `stringify` is `JSON.stringify`, `digits` prints a number.
module _ (stringify : Json → String) (digits : ℕ → String) where
  abbrev pub change_event : Session → String → String → Json → Option Json → String → RealtimeEvent
  change_event s table operation row stamp now =
      safe_event digits now table operation row stamp (suc s.sequence)

  abbrev pub event_frame : RealtimeEvent → String
  event_frame e = encode_sse "workspace" (stringify (event_json e)) (some e.id)

  unfoldable pub react : Session → Signal → Session × List Effect
  react s (change table operation row stamp now) = (
    record s { sequence = suc s.sequence },
    send s (event_frame (change_event s table operation row stamp now)),
  )
  react s heartbeat = (s, send s ": keepalive\n\n")
  react s expired = cleanup s
  react s subscribed =
      (s, send s (encode_sse "ready" (stringify (obj (field "retry" (num (of_ℕ 2000)) end))) none))
  react s failed = cleanup s
  react s aborted = cleanup s

  -- The effects of the signals that arrive; the text "retry: 2000" that `start` enqueues before any
  -- of them is not among these.
  unfoldable pub react_all : Session → List Signal → Session × List Effect
  react_all s [] = (s, [])
  react_all s (x ∷ xs) =
      let (s', out) = react s x in let (s'', outs) = react_all s' xs in (s'', out ++ outs)

  react-stopped :
      (s : Session) (x : Signal)
      → s.stopped ≡ true
      → ((react s x).0.stopped ≡ true) × ((react s x).1 ≡ [])
  unfolding react cleanup
  react-stopped s x h = ground arith

  -- Once the stream is stopped it stays so, and nothing is sent or cleaned up again.
  pub react_all-stopped :
      (s : Session) (xs : List Signal)
      → s.stopped ≡ true
      → ((react_all s xs).0.stopped ≡ true) × ((react_all s xs).1 ≡ [])
  unfolding react_all
  react_all-stopped s [] h = (h, refl)
  react_all-stopped s (x ∷ xs) h =
      let (still, silent) = react-stopped s x h in
      let (later, quiet) = react_all-stopped (react s x).0 xs still in (later, rw silent quiet)

  react-IsOrderly :
      (s : Session) (x : Signal) (rest : List Effect)
      → ((react s x).0.stopped ≡ true → rest ≡ [])
      → IsOrderly rest
      → IsOrderly ((react s x).1 ++ rest)
  unfolding react cleanup
  react-IsOrderly s x rest h k = ground arith

  -- Whatever signals arrive, in whatever order, the effects on the stream are orderly.
  pub react_all-IsOrderly : (s : Session) (xs : List Signal) → IsOrderly (react_all s xs).1
  unfolding react_all
  react_all-IsOrderly s [] = tt
  react_all-IsOrderly s (x ∷ xs) =
      react-IsOrderly s x (react_all (react s x).0 xs).1
        (λ h. (react_all-stopped (react s x).0 xs h).1) (react_all-IsOrderly (react s x).0 xs)
