-- ===== src/Realtime/Feed/Freshness.antt =====
-- The versions that the feed hands out rise, for each entity, and no event is handed out twice
-- while the feed remembers it.
use bighead.Common.{
  has, ℕ, ◌≤◌, ◌<◌, String, true, false, ◌≡◌, refl, sym, inl, inr, Option, none, some, List, [],
  ◌∷◌, ◌++◌, arith, if◌then◌else◌, length, ◌==◌, eq_iff, map_get, map_get-map_set, Bool-cases,
}
use mathlib.Core.List.{append_assoc, append-nil}
use bighead.Json.{Json}
use bighead.Realtime.Protocol.{RealtimeEvent}
use bighead.Realtime.Feed.Steps.{accept_refused, length-evict, newest, evict-eq-newest, evict-evict}
use bighead.Realtime.Feed.{
  Feed, Input, Output, on_event, opened, ready, workspace, fired, stop, initial, evict, accept,
  is_stale, remember, entity_key, schedule, parsed_event, on_workspace, step, run,
}

abbrev some_version : Option ℕ → List ℕ
some_version none = []
some_version (some v) = v ∷ []

abbrev version_in : String → Output → List ℕ
version_in key (on_event e) = if entity_key e == key then some_version e.version else []
version_in key _ = []

-- The versions of one entity that the outputs hand to the page, in order.
abbrev pub delivered : String → List Output → List ℕ
delivered key [] = []
delivered key (o ∷ os) = version_in key o ++ delivered key os

-- Strictly increasing, and above `last` where there is one.
abbrev pub IncreasingFrom : Option ℕ → List ℕ → Type 0
IncreasingFrom last [] = Unit
IncreasingFrom none (x ∷ xs) = IncreasingFrom (some x) xs
IncreasingFrom (some last) (x ∷ xs) = (last < x) × IncreasingFrom (some x) xs

remember-increasing :
    (key k : String) (version : Option ℕ) (m : List (String × ℕ)) (rest : List ℕ)
    → is_stale version (map_get k m) ≡ false
    → IncreasingFrom (map_get key (remember k version m)) rest
    → IncreasingFrom (map_get key m) ((if k == key then some_version version else []) ++ rest)
remember-increasing key k none m rest fresh h = elim (Bool-cases (k == key)) [
  | inl same ↦ rw same h
  | inr other ↦ rw other h
]
remember-increasing key k (some v) m rest fresh h = elim (Bool-cases (k == key)) [
  | inl same ↦ ground (arith, same, eq_iff k key, map_get-map_set k key v m)
  | inr other ↦ rw other (rw (map_get-map_set k key v m, other) at h)
]

accept-increasing :
    (n : ℕ) (f : Feed) (e : RealtimeEvent) (key : String) (rest : List ℕ)
    → (accept n f e).1 ≡ true
    → IncreasingFrom (map_get key (accept n f e).0.versions) rest
    → IncreasingFrom (map_get key f.versions) (version_in key (on_event e) ++ rest)
unfolding accept
accept-increasing n f e key rest h k =
    ground (arith, remember-increasing key (entity_key e) e.version f.versions rest)

module _ (parse : Json → Option RealtimeEvent) (debounce_ms max_seen : ℕ) (key : String) where
  abbrev Rises : Feed → Feed × List Output → Type 0
  Rises f (f', out) =
      (rest : List ℕ)
      → IncreasingFrom (map_get key f'.versions) rest
      → IncreasingFrom (map_get key f.versions) (delivered key out ++ rest)

  schedule-Rises : (f : Feed) → Rises f (schedule debounce_ms f)
  unfolding schedule
  schedule-Rises f rest h = ground arith

  on_workspace-Rises :
      (f : Feed) (event : Option RealtimeEvent)
      → Rises f (on_workspace parse debounce_ms max_seen f event)
  unfolding on_workspace schedule
  on_workspace-Rises f none rest h = h
  on_workspace-Rises f (some e) rest h =
      ground (arith, accept_refused max_seen f e, accept-increasing max_seen f e key rest)

  step-Rises : (f : Feed) (i : Input) → Rises f (step parse debounce_ms max_seen f i)
  unfolding step schedule
  step-Rises f opened rest h = ground arith
  step-Rises f ready rest h = ground arith
  step-Rises f (workspace parsed) rest h =
      on_workspace-Rises f (parsed_event parse debounce_ms max_seen parsed) rest h
  step-Rises f fired rest h = ground arith
  step-Rises f stop rest h = ground arith

delivered-append :
    (key : String) (xs ys : List Output)
    → delivered key (xs ++ ys) ≡ delivered key xs ++ delivered key ys
delivered-append key [] ys = refl
delivered-append key (x ∷ xs) ys =
    rw (delivered-append key xs ys) (sym (append_assoc (version_in key x) _ _))

module _ (parse : Json → Option RealtimeEvent) (debounce_ms max_seen : ℕ) where
  run-Rises :
      (key : String) (f : Feed) (is : List Input)
      → Rises parse debounce_ms max_seen key f (run parse debounce_ms max_seen f is)
  unfolding run
  run-Rises key f [] rest h = h
  run-Rises key f (i ∷ is) rest h =
      let (f', out) = step parse debounce_ms max_seen f i in
      rw (delivered-append key out, append_assoc)
        (step-Rises parse debounce_ms max_seen key f i _ (run-Rises key f' is rest h))

  -- Whatever arrives, in whatever order, and with the timer and the end of the subscription in
  -- between: the versions of one entity that the feed hands to the page rise strictly, and start
  -- above the version that it had recorded before.
  pub run-increasing :
      (key : String) (f : Feed) (is : List Input)
      → IncreasingFrom
          (map_get key f.versions)
          (delivered key (run parse debounce_ms max_seen f is).1)
  run-increasing key f is = rw append-nil at (run-Rises key f is [] tt)

abbrev id_in : Output → List String
id_in (on_event e) = e.id ∷ []
id_in _ = []

-- The ids of the events that the outputs hand to the page, in order.
abbrev pub delivered_ids : List Output → List String
delivered_ids [] = []
delivered_ids (o ∷ os) = id_in o ++ delivered_ids os

-- Each id is none of the newest `n` that stand before it, those of the history included.
abbrev pub FreshAfter : ℕ → List String → List String → Type 0
FreshAfter n history [] = Unit
FreshAfter n history (x ∷ xs) =
    (has (newest n history) x ≡ false) × FreshAfter n (history ++ x ∷ []) xs

delivered_ids-append :
    (xs ys : List Output) → delivered_ids (xs ++ ys) ≡ delivered_ids xs ++ delivered_ids ys
delivered_ids-append [] ys = refl
delivered_ids-append (x ∷ xs) ys =
    rw (delivered_ids-append xs ys) (sym (append_assoc (id_in x) _ _))

FreshAfter-append :
    (n : ℕ) (history xs ys : List String)
    → FreshAfter n history xs
    → FreshAfter n (history ++ xs) ys
    → FreshAfter n history (xs ++ ys)
FreshAfter-append n history [] ys h k = rw append-nil at k
FreshAfter-append n history (x ∷ xs) ys (p, h) k =
    (p, FreshAfter-append n (history ++ x ∷ []) xs ys h (rw (append_assoc history (x ∷ []) xs) k))

-- A feed that remembers the newest ids of the history still does, after the outputs, for the
-- history with what they deliver, and what they deliver is fresh.
abbrev Tracks : ℕ → List String → Feed × List Output → Type 0
Tracks n history (f, out) =
    (f.seen ≡ evict n (history ++ delivered_ids out)) × FreshAfter n history (delivered_ids out)

module _ (parse : Json → Option RealtimeEvent) (debounce_ms max_seen : ℕ) where
  accept-seen :
      (f : Feed) (e : RealtimeEvent) (history : List String)
      → f.seen ≡ evict max_seen history
      → (accept max_seen f e).1 ≡ true
      → (has (newest max_seen history) e.id ≡ false)
        × ((accept max_seen f e).0.seen ≡ evict max_seen (history ++ e.id ∷ []))
  unfolding accept
  accept-seen f e history same ok =
      ground (arith, evict-eq-newest max_seen history, evict-evict max_seen history e.id)

  module _ (f : Feed) (history : List String) (same : f.seen ≡ evict max_seen history) where
    schedule-Tracks : Tracks max_seen history (schedule debounce_ms f)
    unfolding schedule
    schedule-Tracks = ground (arith, append-nil history)

    on_workspace-Tracks :
        (event : Option RealtimeEvent)
        → Tracks max_seen history (on_workspace parse debounce_ms max_seen f event)
    unfolding on_workspace schedule
    on_workspace-Tracks none = (rw append-nil same, tt)
    on_workspace-Tracks (some e) =
        ground
          (arith, append-nil history, accept_refused max_seen f e, accept-seen f e history same)

    step-Tracks : (i : Input) → Tracks max_seen history (step parse debounce_ms max_seen f i)
    unfolding step schedule
    step-Tracks (workspace parsed) =
        on_workspace-Tracks (parsed_event parse debounce_ms max_seen parsed)
    step-Tracks i = ground (arith, append-nil history)

  run-Tracks :
      (f : Feed) (history : List String) (is : List Input)
      → f.seen ≡ evict max_seen history
      → Tracks max_seen history (run parse debounce_ms max_seen f is)
  unfolding run
  run-Tracks f history [] same = (rw append-nil same, tt)
  run-Tracks f history (i ∷ is) same =
      let (f', out) = step parse debounce_ms max_seen f i in
      let (here, fresh) = step-Tracks f history same i in
      let (there, later) = run-Tracks f' (history ++ delivered_ids out) is here in
      (
        rw (delivered_ids-append out, ← append_assoc) there,
        rw (delivered_ids-append out)
            (FreshAfter-append max_seen history (delivered_ids out) _ fresh later),
      )

  -- From the start of a subscription, whatever arrives: an event reaches the page only if its id
  -- is none of the `max_seen` ids that reached it last.
  pub run-FreshAfter :
      (is : List Input)
      → FreshAfter max_seen [] (delivered_ids (run parse debounce_ms max_seen initial is).1)
  run-FreshAfter is = (run-Tracks initial [] is (unfold evict in refl)).1

  -- The feed never remembers more than `max_seen` ids.
  pub run-length-seen :
      (is : List Input) → length (run parse debounce_ms max_seen initial is).0.seen ≤ max_seen
  run-length-seen is =
      rw ((run-Tracks initial [] is (unfold evict in refl)).0) (length-evict max_seen _)
