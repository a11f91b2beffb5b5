-- ===== src/Realtime/Tests.antt =====
-- Runs of the realtime channel on small inputs, and its theorems at them.
use bighead.Common.{
  ◌==◌, ℕ, ◌+◌, ◌≤◌, String, Bool, true, ◌≡◌, ◌↔◌, refl, Option, none, some, List, [], ◌∷◌, ◌++◌,
  arith, utf16_length, map_get, map_set,
}
use bighead.Json.{Json, num, str, obj, field, end}
use bighead.Json.Numbers.{Number, of_ℕ}
use bighead.Realtime.Protocol.{
  RealtimeEvent, is_uuid, encode_sse, parse_workspace_realtime_event, string_of?,
}
use bighead.Realtime.Protocol.Parsing.{Describes, parse_iff, event_json}
use bighead.Realtime.Protocol.Frames.{read_frame, read_frame-encode_sse}
use bighead.Realtime.Protocol.Uuids.{IsPlain, EachCode, is_uuid-IsPlain}
use bighead.Realtime.Feed.{Feed, Input, ready, workspace, fired, stop, initial, step, run}
use bighead.Realtime.Feed
use bighead.Realtime.Feed.Freshness.{
  IncreasingFrom, FreshAfter, delivered, delivered_ids, run-increasing, run-FreshAfter,
}
use bighead.Realtime.Feed.Refreshing.{
  is_refresh, is_timer, bit, count, run-closed, run-balance, delivery_refreshes,
}
use bighead.Realtime.Stream.Opening.{
  Opening, stream, open_stream, IsAdmitted, open_stream_iff, reconnect_in, reconnect_of,
  reconnect_in_bounds,
}
use bighead.Realtime.Stream.Session.{
  opening, change, subscribed, expired, heartbeat, react_all, IsOrderly, react_all-IsOrderly,
}

abbrev digits : ℕ → String
digits n = "7"

abbrev number_text : Number → String
number_text n = "7"

abbrev any_date : String → Bool
any_date s = true

abbrev parse : Json → Option RealtimeEvent
parse = parse_workspace_realtime_event number_text any_date

abbrev task : String → ℕ → RealtimeEvent
task id version = record {
  id = id;
  table = "tasks";
  operation = "UPDATE";
  entity_id = "t1";
  occurred_at = "2026-07-16";
  version = some version;
}

abbrev says : RealtimeEvent → Input
says e = workspace (some (event_json e))

-- Version 1 after version 2, and a repeated id.
abbrev inputs : List Input
inputs =
    ready
    ∷ says (task "a" 1)
    ∷ says (task "b" 2)
    ∷ says (task "c" 1)
    ∷ says (task "b" 3)
    ∷ workspace none
    ∷ fired
    ∷ says (task "d" 3)
    ∷ []

run-inputs :
    (delivered_ids (run parse 250 256 initial inputs).1 ≡ "a" ∷ "b" ∷ "d" ∷ [])
    × (count is_refresh (run parse 250 256 initial inputs).1 ≡ 1)
unfolding run step Feed.accept Feed.evict Feed.schedule Feed.entity_key event_json
    parse_workspace_realtime_event string_of? map_get map_set
run-inputs = (refl, refl)

run-increasing_example :
    IncreasingFrom
      (map_get "tasks:t1" initial.versions)
      (delivered "tasks:t1" (run parse 250 256 initial inputs).1)
run-increasing_example = run-increasing parse 250 256 "tasks:t1" initial inputs

run-FreshAfter_example : FreshAfter 256 [] (delivered_ids (run parse 250 256 initial inputs).1)
run-FreshAfter_example = run-FreshAfter parse 250 256 inputs

run-closed_example :
    let out = (run parse 250 256 initial inputs).1 in
    let (f, whole) = run parse 250 256 initial (inputs ++ stop ∷ inputs) in
    (f.closed ≡ true)
    × (count is_refresh whole ≡ count is_refresh out)
    × (count is_timer whole ≡ count is_timer out)
run-closed_example = run-closed parse 250 256 initial inputs inputs

run-balance_example :
    count is_timer (run parse 250 256 initial (ready ∷ fired ∷ ready ∷ [])).1
    ≡ count is_refresh (run parse 250 256 initial (ready ∷ fired ∷ ready ∷ [])).1
      + bit (run parse 250 256 initial (ready ∷ fired ∷ ready ∷ [])).0.timer
unfolding run step Feed.schedule
run-balance_example = run-balance parse 250 256 (ready ∷ fired ∷ ready ∷ []) refl

delivery_refreshes_example :
    1
    ≤ count is_refresh
        (run parse 250 256
          (step parse 250 256 initial (says (task "a" 1))).0
          ((ready ∷ says (task "b" 2) ∷ []) ++ fired ∷ [])).1
unfolding step Feed.accept Feed.evict Feed.schedule Feed.entity_key event_json
    parse_workspace_realtime_event string_of? map_get map_set
delivery_refreshes_example =
    delivery_refreshes parse 250 256 initial (says (task "a" 1)) (ready ∷ says (task "b" 2) ∷ [])
      refl refl refl

parse_iff_example :
    (parse (event_json (task "a" 1)) ≡ some (task "a" 1))
    ↔ Describes number_text any_date (event_json (task "a" 1)) (task "a" 1)
parse_iff_example = parse_iff number_text any_date (event_json (task "a" 1)) (task "a" 1)

read_frame-encode_sse_example :
    read_frame (encode_sse "workspace" "{}" (some "a:1")) ≡ some (some "a:1", "workspace", "{}")
read_frame-encode_sse_example =
    read_frame-encode_sse "workspace" "{}" (some "a:1") (omega arith) (omega arith) (omega arith)

abbrev tenant : String
tenant = "0f9a1b2c-0000-4000-8000-0123456789AB"

is_uuid-IsPlain_example : (utf16_length tenant ≡ 36) × EachCode IsPlain tenant
unfolding is_uuid
is_uuid-IsPlain_example = is_uuid-IsPlain tenant refl

abbrev origin_of : String → Option String
origin_of s = some s

abbrev asked : Opening
asked = record {
  workspace_mode = none;
  node_env = some "production";
  url = "https://app";
  sec_fetch_site = some "same-origin";
  origin = some "https://app";
  cookie = some tenant;
  claims = true;
  access_token = some "jwt";
  member = λ organization. organization == tenant;
}

open_stream_iff_example :
    (open_stream origin_of asked ≡ stream tenant "jwt") ↔ IsAdmitted origin_of asked tenant "jwt"
open_stream_iff_example = open_stream_iff origin_of asked tenant "jwt"

no_end_of_session : reconnect_of none 60500 ≡ 269500
unfolding reconnect_of
no_end_of_session = refl

reconnect_in_bounds_example :
    (1000 ≤ reconnect_in 3600000 0)
    × (reconnect_in 3600000 0 ≤ 900000)
    × (0 + 31000 ≤ 3600000 → 0 + reconnect_in 3600000 0 + 30000 ≤ 3600000)
reconnect_in_bounds_example = reconnect_in_bounds 3600000 0

abbrev row : Json
row = obj (field "id" (str "t1") (field "version" (num (of_ℕ 4)) end))

react_all-IsOrderly_example :
    IsOrderly
      (react_all
        (λ v. "{}")
        digits
        opening
        (subscribed
          ∷ change "tasks" "UPDATE" row none "now"
          ∷ expired
          ∷ heartbeat
          ∷ expired
          ∷ [])).1
react_all-IsOrderly_example =
    react_all-IsOrderly (λ v. "{}") digits opening
      (subscribed ∷ change "tasks" "UPDATE" row none "now" ∷ expired ∷ heartbeat ∷ expired ∷ [])
