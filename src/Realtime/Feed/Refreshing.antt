-- ===== src/Realtime/Feed/Refreshing.antt =====
-- When the feed asks the page to refresh.
use bighead.Common.{
  ℕ, ◌+◌, ◌≤◌, Bool, true, false, not, ◌≡◌, ◌⊎◌, inl, inr, Option, none, some, List, [], ◌∷◌, ◌++◌,
  arith, any, all,
}
use bighead.Json.{Json}
use bighead.Realtime.Protocol.{RealtimeEvent}
use bighead.Realtime.Feed.{
  Feed, Input, Output, on_event, refresh, set_timer, workspace, fired, stop, initial, accept,
  schedule, parsed_event, on_workspace, step, run,
}

abbrev pub is_refresh : Output → Bool
is_refresh refresh = true
is_refresh _ = false

abbrev pub is_timer : Output → Bool
is_timer (set_timer delay) = true
is_timer _ = false

abbrev pub is_delivery : Output → Bool
is_delivery (on_event e) = true
is_delivery _ = false

abbrev pub is_stop : Input → Bool
is_stop stop = true
is_stop _ = false

abbrev pub bit : Bool → ℕ
bit true = 1
bit false = 0

abbrev pub count {ℓ} : {A : Type ℓ} → (A → Bool) → List A → ℕ
count p [] = 0
count p (x ∷ xs) = bit (p x) + count p xs

count-append {ℓ} :
    {A : Type ℓ} (p : A → Bool) (xs ys : List A) → count p (xs ++ ys) ≡ count p xs + count p ys
count-append p [] ys = omega arith
count-append p (x ∷ xs) ys = omega (arith, count-append p xs ys)

accept_frame :
    (n : ℕ) (f : Feed) (e : RealtimeEvent)
    → ((accept n f e).0.timer ≡ f.timer) × ((accept n f e).0.closed ≡ f.closed)
unfolding accept
accept_frame n f e = ground arith

module _ (parse : Json → Option RealtimeEvent) (debounce_ms max_seen : ℕ) where
  -- What a step owes: the timers that it sets are those that fire and those still pending.
  record Balanced (f f' : Feed) (out : List Output) : Type 0 where
    stays_closed : f.closed ≡ true → f'.closed ≡ true
    silent : f.closed ≡ true → (count is_refresh out ≡ 0) × (count is_timer out ≡ 0)
    balance :
        f'.closed ≡ false → count is_timer out + bit f.timer ≡ count is_refresh out + bit f'.timer

  on_workspace-Balanced :
      (f : Feed) (event : Option RealtimeEvent)
      → let (f', out) = on_workspace parse debounce_ms max_seen f event in Balanced f f' out
  unfolding on_workspace schedule
  on_workspace-Balanced f none = ground arith
  on_workspace-Balanced f (some e) = ground (arith, accept_frame max_seen f e)

  step-Balanced :
      (f : Feed) (i : Input)
      → let (f', out) = step parse debounce_ms max_seen f i in Balanced f f' out
  unfolding step schedule
  step-Balanced f (workspace parsed) =
      on_workspace-Balanced f (parsed_event parse debounce_ms max_seen parsed)
  step-Balanced f i = ground arith

  run-Balanced :
      (f : Feed) (is : List Input)
      → let (f', out) = run parse debounce_ms max_seen f is in Balanced f f' out
  unfolding run
  run-Balanced f [] = ground arith
  run-Balanced f (i ∷ is) =
      let (f', out) = step parse debounce_ms max_seen f i in
      let (f'', outs) = run parse debounce_ms max_seen f' is in
      let here : Balanced f f' out = step-Balanced f i in
      let there : Balanced f' f'' outs = run-Balanced f' is in
      ground (arith, count-append is_refresh out outs, count-append is_timer out outs)

  -- The end of the subscription closes the feed, and neither refreshes the page nor sets a timer.
  step-closed :
      (f : Feed)
      → let (f', out) = step parse debounce_ms max_seen f stop in
        (f'.closed ≡ true) × (count is_refresh out ≡ 0) × (count is_timer out ≡ 0)
  unfolding step
  step-closed f = ground arith

  -- Once the subscription is ended, nothing that still arrives refreshes the page or sets a timer:
  -- a run with the end in it has as many refreshes and timers as the part before the end, and leaves
  -- the feed closed.
  pub run-closed :
      (f : Feed) (before after : List Input)
      → let out = (run parse debounce_ms max_seen f before).1 in
        let (f', whole) = run parse debounce_ms max_seen f (before ++ stop ∷ after) in
        (f'.closed ≡ true)
        × (count is_refresh whole ≡ count is_refresh out)
        × (count is_timer whole ≡ count is_timer out)
  unfolding run
  run-closed f [] after =
      let (f', out) = step parse debounce_ms max_seen f stop in
      let (f'', outs) = run parse debounce_ms max_seen f' after in
      let (ended, no_refresh, no_timer) = step-closed f in
      let b : Balanced f' f'' outs = run-Balanced f' after in
      (
        b.stays_closed ended,
        omega (arith, count-append is_refresh out outs, no_refresh, (b.silent ended).0),
        omega (arith, count-append is_timer out outs, no_timer, (b.silent ended).1),
      )
  run-closed f (i ∷ before) after =
      let (f', out) = step parse debounce_ms max_seen f i in
      let some_out = (run parse debounce_ms max_seen f' before).1 in
      let whole = (run parse debounce_ms max_seen f' (before ++ stop ∷ after)).1 in
      let (closed, refreshes, timers) = run-closed f' before after in
      (
        closed,
        omega (
          arith,
          count-append is_refresh out some_out,
          count-append is_refresh out whole,
          refreshes,
        ),
        omega (arith, count-append is_timer out some_out, count-append is_timer out whole, timers),
      )

  -- From the start of a subscription that is still open, every timer that was set has led to one
  -- refresh, but for one that is pending; so there are never more refreshes than timers.
  pub run-balance :
      (is : List Input)
      → let (f', out) = run parse debounce_ms max_seen initial is in
        f'.closed ≡ false → count is_timer out ≡ count is_refresh out + bit f'.timer
  run-balance is open_end = omega (arith, (run-Balanced initial is).balance open_end)

  -- An open feed with a pending timer.
  abbrev IsWaiting : Feed → Type 0
  IsWaiting f = (f.timer ≡ true) × (f.closed ≡ false)

  on_workspace-IsWaiting :
      (f : Feed) (event : Option RealtimeEvent)
      → f.closed ≡ false
      → let (f', out) = on_workspace parse debounce_ms max_seen f event in
        any is_delivery out ≡ true → IsWaiting f'
  unfolding on_workspace schedule
  on_workspace-IsWaiting f none h d = cc
  on_workspace-IsWaiting f (some e) h d = ground (arith, accept_frame max_seen f e)

  step-IsWaiting :
      (f : Feed) (i : Input)
      → f.closed ≡ false
      → let (f', out) = step parse debounce_ms max_seen f i in
        any is_delivery out ≡ true → IsWaiting f'
  unfolding step schedule
  step-IsWaiting f (workspace parsed) h d =
      on_workspace-IsWaiting f (parsed_event parse debounce_ms max_seen parsed) h d
  step-IsWaiting f i h d = ground arith

  on_workspace-keeps :
      (f : Feed) (event : Option RealtimeEvent)
      → IsWaiting f
      → IsWaiting (on_workspace parse debounce_ms max_seen f event).0
  unfolding on_workspace schedule
  on_workspace-keeps f none w = w
  on_workspace-keeps f (some e) w = ground (arith, accept_frame max_seen f e)

  -- A waiting feed waits on, unless it is stopped or its timer fires, which refreshes the page.
  step-waits :
      (f : Feed) (i : Input)
      → IsWaiting f
      → is_stop i ≡ false
      → let (f', out) = step parse debounce_ms max_seen f i in
        (1 ≤ count is_refresh out) ⊎ IsWaiting f'
  unfolding step schedule
  step-waits f (workspace parsed) w h =
      inr (on_workspace-keeps f (parsed_event parse debounce_ms max_seen parsed) w)
  step-waits f i w h = ground arith

  fired-refreshes :
      (f : Feed) → IsWaiting f → 1 ≤ count is_refresh (step parse debounce_ms max_seen f fired).1
  unfolding step
  fired-refreshes f w = ground arith

  run-refreshes :
      (f : Feed) (is : List Input)
      → IsWaiting f
      → all (λ i. not (is_stop i)) is ≡ true
      → 1 ≤ count is_refresh (run parse debounce_ms max_seen f (is ++ fired ∷ [])).1
  unfolding run
  run-refreshes f [] w h =
      rw (count-append is_refresh (step parse debounce_ms max_seen f fired).1 [])
        (omega (arith, fired-refreshes f w))
  run-refreshes f (i ∷ is) w h =
      let (f', out) = step parse debounce_ms max_seen f i in
      let split =
        count-append is_refresh out (run parse debounce_ms max_seen f' (is ++ fired ∷ [])).1 in
      elim (step-waits f i w (ground arith)) [
        | inl now ↦ omega (arith, split)
        | inr w' ↦ omega (arith, split, run-refreshes f' is w' (ground arith))
      ]

  -- If an input makes an open feed hand an event to the page, then the page is refreshed once the
  -- timer fires, whatever arrives in between, short of the end of the subscription.
  pub delivery_refreshes :
      (f : Feed) (i : Input) (is : List Input)
      → f.closed ≡ false
      → any is_delivery (step parse debounce_ms max_seen f i).1 ≡ true
      → all (λ j. not (is_stop j)) is ≡ true
      → 1
        ≤ count is_refresh
            (run parse debounce_ms max_seen
              (step parse debounce_ms max_seen f i).0
              (is ++ fired ∷ [])).1
  delivery_refreshes f i is open_now d h = run-refreshes _ is (step-IsWaiting f i open_now d) h
