-- ===== src/Mutations/Page/Safety.antt =====
-- The page against the mutations in flight: it is not refreshed and not connected while one runs,
-- and it forgets no refresh.
use bighead.Common.{
  ℕ, ◌≤◌, ◌<◌, Bool, true, false, not, ◌&&◌, ◌≡◌, refl, sym, ◌∙◌, Option, none, some, List, [], ◌∷◌,
  arith, if◌then◌else◌, any, any-append,
}
use bighead.Json.{Json}
use bighead.Realtime.Protocol.{RealtimeEvent}
use bighead.Realtime.Feed
use bighead.Realtime.Feed.{Feed, Input, debounce_default, max_seen_default}
use bighead.Mutations.Coordinator.{
  request, end, fired, call, flush, fire, has_active_workspace_mutation, begin_workspace_mutation,
  end_workspace_mutation,
}
use mathlib.Core.Bool.{false≢true}
use bighead.Mutations.Coordinator.Waiting.{is_refresh, refresh_iff}
use bighead.Mutations.Page.{
  Page, Happening, mutation_starts, mutation_ends, goes_offline, goes_online, streams, timer_fires,
  active, ask, connect, forward, stream, happen, history, mounted,
}

pub record IsSafe (p : Page) : Type 0 where
  pub bounded : p.coordinator.mutation_depth ≤ p.depth
  pub in_use : p.coordinator.disposed ≡ false
  pub scheduled : p.coordinator.refresh_queued ≡ true → p.depth ≡ 0 → p.coordinator.timer ≡ true
  pub disconnected : 0 < p.depth → p.feed ≡ none

ask-request-IsSafe : (p : Page) → IsSafe p → IsSafe (ask p request).0
unfolding ask call flush has_active_workspace_mutation
ask-request-IsSafe p h = ground arith

ask_fired-IsSafe : (p : Page) → IsSafe p → IsSafe (ask p fired).0
unfolding ask call fire has_active_workspace_mutation
ask_fired-IsSafe p h = ground arith

forward-IsSafe : (p : Page) (os : List Feed.Output) → IsSafe p → IsSafe (forward p os).0
unfolding forward
forward-IsSafe p [] h = h
forward-IsSafe p (Feed.Output.refresh ∷ os) h =
    forward-IsSafe (ask p request).0 os (ask-request-IsSafe p h)
forward-IsSafe p (_ ∷ os) h = forward-IsSafe p os h

connect-IsSafe : (p : Page) → IsSafe p → IsSafe (connect p)
unfolding connect has_active_workspace_mutation
connect-IsSafe p h = ground arith

-- The page behind the coordinator's part of a mutation's end.
abbrev ended : Page → Page
ended p = (ask (record p { depth = (end_workspace_mutation true p.depth).0 }) (end false)).0

ended-IsSafe : (p : Page) → IsSafe p → IsSafe (ended p)
unfolding ask call flush has_active_workspace_mutation end_workspace_mutation
ended-IsSafe p h = ground arith

reconnect-IsSafe : (b : Bool) (p : Page) → IsSafe p → IsSafe (if b then connect p else p)
reconnect-IsSafe true p h = connect-IsSafe p h
reconnect-IsSafe false p h = h

some_ne_none : {o : Option Feed} {f : Feed} → o ≡ some f → o ≡ none → ⊥
some_ne_none a b = cc

module _ (parse : Json → Option RealtimeEvent) where
  stream-IsSafe :
      (p : Page) (feed : Option Feed) (i : Input)
      → p.feed ≡ feed
      → IsSafe p
      → IsSafe (stream parse p feed i).0
  unfolding stream
  stream-IsSafe p none i e h = h
  stream-IsSafe p (some f) i e h =
      let (f', out) = Feed.step parse debounce_default max_seen_default f i in
      forward-IsSafe (record p { feed = some f' }) out
        (record {
          bounded = h.bounded;
          in_use = h.in_use;
          scheduled = h.scheduled;
          disconnected = λ d. absurd (some_ne_none e (h.disconnected d));
        })

  happen-IsSafe : (p : Page) (x : Happening) → IsSafe p → IsSafe (happen parse p x).0
  unfolding happen
  happen-IsSafe p mutation_starts h =
      unfold ask call has_active_workspace_mutation begin_workspace_mutation in ground arith
  happen-IsSafe p (mutation_ends online) h =
      reconnect-IsSafe (not (active (ended p)) && online) (ended p) (ended-IsSafe p h)
  happen-IsSafe p goes_offline h = ground arith
  happen-IsSafe p goes_online h = connect-IsSafe p h
  happen-IsSafe p (streams i) h = stream-IsSafe p p.feed i refl h
  happen-IsSafe p timer_fires h = ask_fired-IsSafe p h

  history-IsSafe : (p : Page) (xs : List Happening) → IsSafe p → IsSafe (history parse p xs).0
  unfolding history
  history-IsSafe p [] h = h
  history-IsSafe p (x ∷ xs) h = history-IsSafe (happen parse p x).0 xs (happen-IsSafe p x h)

  mounted-IsSafe : (depth : ℕ) → IsSafe (mounted depth)
  unfolding mounted
  mounted-IsSafe depth = connect-IsSafe _ (record {
    bounded = omega arith;
    in_use = refl;
    scheduled = λ q z. cc;
    disconnected = λ d. refl;
  })

  -- A page that was mounted at any time, after whatever has happened to it since: while a mutation
  -- is in flight it is not connected, and once none is, a refresh that is still queued has its
  -- timer set.
  pub history-mounted-IsSafe :
      (depth : ℕ) (xs : List Happening) → IsSafe (history parse (mounted depth) xs).0
  history-mounted-IsSafe depth xs = history-IsSafe (mounted depth) xs (mounted-IsSafe depth)

ask-request-quiet : (p : Page) → any is_refresh (ask p request).1 ≡ false
unfolding ask call flush
ask-request-quiet p = ground arith

forward-quiet : (p : Page) (os : List Feed.Output) → any is_refresh (forward p os).1 ≡ false
unfolding forward
forward-quiet p [] = refl
forward-quiet p (Feed.Output.refresh ∷ os) = ground (
  arith,
  any-append is_refresh (ask p request).1 (forward (ask p request).0 os).1,
  ask-request-quiet p,
  forward-quiet (ask p request).0 os,
)
forward-quiet p (_ ∷ os) = forward-quiet p os

stream-quiet :
    (parse : Json → Option RealtimeEvent) (p : Page) (feed : Option Feed) (i : Input)
    → any is_refresh (stream parse p feed i).1 ≡ false
unfolding stream
stream-quiet parse p none i = refl
stream-quiet parse p (some f) i =
    let (f', out) = Feed.step parse debounce_default max_seen_default f i in
    forward-quiet (record p { feed = some f' }) out

-- The router is told to refresh by the coordinator's timer alone, and only while no mutation is in
-- flight; nothing is left queued then.
pub refresh_when_idle :
    (parse : Json → Option RealtimeEvent) (p : Page) (x : Happening)
    → any is_refresh (happen parse p x).1 ≡ true
    → (x ≡ timer_fires) × (p.depth ≡ 0) × ((happen parse p x).0.coordinator.refresh_queued ≡ false)
unfolding happen
refresh_when_idle parse p (streams i) h =
    absurd (false≢true (sym (stream-quiet parse p p.feed i) ∙ h))
refresh_when_idle parse p mutation_starts h = unfold ask call in ground arith
refresh_when_idle parse p (mutation_ends online) h = unfold ask call flush in ground arith
refresh_when_idle parse p timer_fires h =
    unfold ask has_active_workspace_mutation in
    ground (arith, (refresh_iff (active p) p.coordinator fired).0)
refresh_when_idle parse p x h = ground arith
