-- ===== src/Realtime/Feed.antt =====
-- apps/web/src/lib/realtime-refresh.ts: the browser's end of the stream. The callbacks that the
-- caller gives (`refresh`, `onReady`, `onEvent`, the timers) are outputs, and what calls the
-- listeners is an input; a callback is taken to return.
pub mod Steps
pub mod Freshness
pub mod Refreshing
use Prim.Native.String as Text
use bighead.Common.{
  has, ℕ, String, Bool, true, false, ◌||◌, Option, none, some, List, [], ◌∷◌, ◌++◌, leb, ltb,
  if◌then◌else◌, length, map_get, map_set,
}
use bighead.Json.{Json}
use bighead.Realtime.Protocol.{RealtimeEvent}

-- The variables that the closures share. `seen` holds the keys of the map, oldest first, and
-- `timer` says whether a handle is stored; the handles are true values.
pub record Feed : Type 0 where
  pub seen : List String
  pub versions : List (String × ℕ)
  pub timer : Bool
  pub closed : Bool

pub data Input : Type 0 where
  opened ready : Input
  workspace : (parsed : Option Json) → Input  -- `none`: `JSON.parse` throws
  fired : Input  -- the timer's callback, which exists while a handle is stored
  stop : Input  -- the function that is returned

pub data Output : Type 0 where
  refresh on_ready clear_timer close_source : Output
  on_event : RealtimeEvent → Output
  set_timer : (delay : ℕ) → Output

abbrev pub initial : Feed
initial = record { seen = []; versions = []; timer = false; closed = false }

abbrev pub debounce_default : ℕ
debounce_default = 250

abbrev pub max_seen_default : ℕ
max_seen_default = 256

-- `while (seen.size > maxSeen) seen.delete(oldest)`
unfoldable pub evict : ℕ → List String → List String
evict max_seen [] = []
evict max_seen (k ∷ ks) =
    let rest = evict max_seen ks in if ltb max_seen (length (k ∷ ks)) then rest else k ∷ ks

unfoldable pub entity_key : RealtimeEvent → String
entity_key e = Text.◌++◌ e.table (Text.◌++◌ ":" e.entity_id)

abbrev pub is_stale : Option ℕ → Option ℕ → Bool
is_stale (some version) (some last) = leb version last
is_stale _ _ = false

abbrev pub remember : String → Option ℕ → List (String × ℕ) → List (String × ℕ)
remember key none versions = versions
remember key (some version) versions = map_set key version versions

unfoldable pub accept : ℕ → Feed → RealtimeEvent → Feed × Bool
accept max_seen f e =
    if has f.seen e.id || is_stale e.version (map_get (entity_key e) f.versions)
    then (f, false)
    else (
      record f {
        seen = evict max_seen (f.seen ++ e.id ∷ []);
        versions = remember (entity_key e) e.version f.versions;
      },
      true,
    )

unfoldable pub schedule : ℕ → Feed → Feed × List Output
schedule debounce_ms f =
    if f.closed || f.timer then (f, []) else (record f { timer = true }, set_timer debounce_ms ∷ [])

module _ (parse : Json → Option RealtimeEvent) (debounce_ms max_seen : ℕ) where
  -- What the "workspace" listener does with an accepted or refused event.
  deliver : RealtimeEvent → Feed × Bool → Feed × List Output
  deliver e (f, false) = (f, [])
  deliver e (f, true) = let (f', out) = schedule debounce_ms f in (f', on_event e ∷ out)

  on_workspace : Feed → Option RealtimeEvent → Feed × List Output
  unfolding deliver
  on_workspace f none = (f, [])
  on_workspace f (some e) = deliver e (accept max_seen f e)

  parsed_event : Option Json → Option RealtimeEvent
  parsed_event none = none
  parsed_event (some v) = parse v

  on_fired : Feed → Feed × List Output
  on_fired f =
      if f.timer
      then (record f { timer = false }, if f.closed then [] else refresh ∷ [])
      else (f, [])

  on_stop : Feed → Feed × List Output
  on_stop f = if f.closed then (f, []) else (
    record f { closed = true },
    (if f.timer then clear_timer ∷ [] else []) ++ close_source ∷ [],
  )

  unfoldable pub step : Feed → Input → Feed × List Output
  unfolding on_workspace parsed_event on_fired on_stop
  step f opened = schedule debounce_ms f
  step f ready = let (f', out) = schedule debounce_ms f in (f', on_ready ∷ out)
  step f (workspace parsed) = on_workspace f (parsed_event parsed)
  step f fired = on_fired f
  step f stop = on_stop f

  unfoldable pub run : Feed → List Input → Feed × List Output
  run f [] = (f, [])
  run f (i ∷ is) = let (f', out) = step f i in let (f'', outs) = run f' is in (f'', out ++ outs)
