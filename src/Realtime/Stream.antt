-- ===== src/Realtime/Stream.antt =====
-- apps/web/src/app/api/realtime/route.ts: the server's end of the stream. The guards of `GET` come
-- first; the stream's closures share `stopped`, `sequence` and the timers. Supabase's client, the
-- clock and the stream's controller are the platform's: what they are told is an output.
pub mod Rows
pub mod Session
pub mod Opening
use Prim.Native.String as Text
use bighead.Common.{ℕ, String, ◌&&◌, not, Option, none, some, ◌++◌, ◌+◌, if◌then◌else◌}
use bighead.Json.{Json, num, get, as_string}
use bighead.Json.Numbers.{is_integer, below, natural}
use bighead.Realtime.Protocol.{RealtimeEvent}

abbrev pub row_version : Option Json → Option ℕ
row_version (some (num n)) = if is_integer n && not (below n 0) then some (natural n) else none
row_version _ = none

abbrev pub or_text : Option String → String → String
or_text none fallback = fallback
or_text (some s) fallback = s

infixr 66 ◌++ₜ◌
abbrev pub ◌++ₜ◌ : String → String → String
a ++ₜ b = Text.◌++◌ a b

-- `safeEvent`: `now` is the text of the clock, and `digits` prints a number.
unfoldable pub safe_event :
    (digits : ℕ → String) (now : String) → String → String → Json → Option Json → ℕ → RealtimeEvent
safe_event digits now table operation row commit_timestamp sequence =
    let entity_id = or_text (as_string (get row "id")) "unknown" in
    let occurred_at = or_text (as_string commit_timestamp) now in
    record {
      id =
          occurred_at
          ++ₜ ":"
          ++ₜ table
          ++ₜ ":"
          ++ₜ operation
          ++ₜ ":"
          ++ₜ entity_id
          ++ₜ ":"
          ++ₜ digits sequence;
      table = table;
      operation = operation;
      entity_id = entity_id;
      occurred_at = occurred_at;
      version = row_version (get row "version");
    }
