-- ===== src/Mutations/Coordinator/Batches.antt =====
-- How many refreshes a batch of mutations makes.
use bighead.Common.{
  ℕ, zero, suc, Bool, true, false, ◌||◌, ◌≡◌, refl, ap, ◌∙◌, Option, none, some, some_inj, List, [],
  ◌∷◌, any, filter, arith, if◌then◌else◌,
}
use bighead.Mutations.Coordinator.{
  Coordinator, Output, refresh, Call, begin, request, end, dispose, fired, initial, flush, fire,
  call, calls,
}
use bighead.Mutations.Coordinator.Waiting.{is_refresh}

-- How many mutations are in flight after the calls, if one is all the time and nothing is disposed.
unfoldable pub in_flight : ℕ → List (Bool × Call) → Option ℕ
in_flight d [] = some d
in_flight d ((b, begin) ∷ xs) = in_flight (suc d) xs
in_flight d ((b, request) ∷ xs) = in_flight d xs
in_flight d ((b, fired) ∷ xs) = in_flight d xs
in_flight (suc (suc d)) ((b, end force) ∷ xs) = in_flight (suc d) xs
in_flight _ _ = none

-- The call asks for a refresh.
abbrev pub asks_refresh : Bool × Call → Bool
asks_refresh (b, request) = true
asks_refresh (b, end force) = force
asks_refresh _ = false

-- A refresh was asked for and has not been made.
abbrev pub is_owed : Coordinator → Bool
is_owed c = c.refresh_queued || c.timer

-- What a call owes that leaves so many mutations in flight.
record Quiet (c c' : Coordinator) (out : List Output) (d : ℕ) (x : Bool × Call) : Type 0 where
  silent : out ≡ []
  open_still : c'.disposed ≡ false
  depth : c'.mutation_depth ≡ d
  owed : is_owed c' ≡ (is_owed c || asks_refresh x)

begin-Quiet :
    (c : Coordinator) (b : Bool) (d : ℕ)
    → c.disposed ≡ false
    → c.mutation_depth ≡ d
    → let (c', out) = call b c begin in Quiet c c' out (suc d) (b, begin)
unfolding call
begin-Quiet c b d alive depth = ground (arith, alive, depth)

module _ (c : Coordinator) (b : Bool) (d : ℕ) (alive : c.disposed ≡ false)
    (depth : c.mutation_depth ≡ suc d) where
  request-Quiet : let (c', out) = call b c request in Quiet c c' out (suc d) (b, request)
  unfolding call flush
  request-Quiet = ground (arith, alive, depth)

  fired-Quiet : let (c', out) = call b c fired in Quiet c c' out (suc d) (b, fired)
  unfolding call fire
  fired-Quiet = ground (arith, alive, depth)

end-Quiet :
    (c : Coordinator) (b force : Bool) (d : ℕ)
    → c.disposed ≡ false
    → c.mutation_depth ≡ suc (suc d)
    → let (c', out) = call b c (end force) in Quiet c c' out (suc d) (b, end force)
unfolding call flush
end-Quiet c b force d alive depth = ground (arith, alive, depth)

-- The same of a sequence of calls.
record Busy (c : Coordinator) (xs : List (Bool × Call)) (e : ℕ) : Type 0 where
  silent : (calls c xs).1 ≡ []
  open_still : (calls c xs).0.disposed ≡ false
  depth : (calls c xs).0.mutation_depth ≡ e
  owed : is_owed (calls c xs).0 ≡ (is_owed c || any asks_refresh xs)

calls-Busy :
    (c : Coordinator) (x : Bool × Call) (xs : List (Bool × Call)) (d e : ℕ)
    → let (c', out) = call (x.0) c (x.1) in Quiet c c' out d x → Busy c' xs e → Busy c (x ∷ xs) e
unfolding calls
calls-Busy c (b, x) xs d e q h = record {
  silent = rw (q.silent, h.silent) refl;
  open_still = h.open_still;
  depth = h.depth;
  owed = ground (arith, q.owed, h.owed);
}

in_flight-Busy :
    (xs : List (Bool × Call)) (c : Coordinator) (d e : ℕ)
    → c.disposed ≡ false
    → c.mutation_depth ≡ suc d
    → in_flight (suc d) xs ≡ some e
    → Busy c xs e
unfolding in_flight
in_flight-Busy [] c d e alive depth h = record {
  silent = unfold calls in refl;
  open_still = unfold calls in alive;
  depth = unfold calls in (depth ∙ some_inj h);
  owed = unfold calls in ground arith;
}
in_flight-Busy ((b, begin) ∷ xs) c d e alive depth h =
    let q = begin-Quiet c b (suc d) alive depth in
    calls-Busy c (b, begin) xs (suc (suc d)) e q
      (in_flight-Busy xs _ (suc d) e q.open_still q.depth h)
in_flight-Busy ((b, request) ∷ xs) c d e alive depth h =
    let q = request-Quiet c b d alive depth in
    calls-Busy c (b, request) xs (suc d) e q (in_flight-Busy xs _ d e q.open_still q.depth h)
in_flight-Busy ((b, fired) ∷ xs) c d e alive depth h =
    let q = fired-Quiet c b d alive depth in
    calls-Busy c (b, fired) xs (suc d) e q (in_flight-Busy xs _ d e q.open_still q.depth h)
in_flight-Busy ((b, end force) ∷ xs) c (suc d) e alive depth h =
    let q = end-Quiet c b force d alive depth in
    calls-Busy c (b, end force) xs (suc d) e q (in_flight-Busy xs _ d e q.open_still q.depth h)
in_flight-Busy ((b, end force) ∷ xs) c zero e alive depth h = cc
in_flight-Busy ((b, dispose) ∷ xs) c d e alive depth h = cc

last_end :
    (c : Coordinator) (force : Bool)
    → c.disposed ≡ false
    → c.mutation_depth ≡ 1
    → let (idle, out) = calls c ((false, end force) ∷ (false, fired) ∷ []) in
      (idle ≡ initial) × (filter is_refresh out ≡ (if is_owed c || force then refresh ∷ [] else []))
unfolding calls call flush fire
last_end c force alive depth = ground (arith, alive, depth)

or_assoc : (x y z : Bool) → ((x || y) || z) ≡ (x || (y || z))
or_assoc x y z = ground arith

-- A mutation begins where none is in flight and nothing is disposed of, and whatever follows while
-- one is, in whatever order: further mutations that begin and end, requests, the timer's callback.
-- The page is not refreshed and no timer is set all this while. When the last mutation ends and the
-- timer fires, and nothing else blocks the page at these two times, the page is refreshed once if a
-- refresh was owed before, or was asked for by a request or by the end of a mutation, and not at all
-- otherwise; the coordinator is then as it was at its start.
pub calls-batch :
    (c : Coordinator) (b force : Bool) (meanwhile : List (Bool × Call))
    → c.disposed ≡ false
    → c.mutation_depth ≡ 0
    → in_flight 1 meanwhile ≡ some 1
    → let (busy, out) = calls c ((b, begin) ∷ meanwhile) in
      let (idle, last) = calls busy ((false, end force) ∷ (false, fired) ∷ []) in
      (out ≡ [])
      × (idle ≡ initial)
      × (filter is_refresh last ≡ (
          if (c.refresh_queued || c.timer) || (any asks_refresh meanwhile || force)
          then refresh ∷ []
          else []))
calls-batch c b force meanwhile alive depth h =
    let begun = begin-Quiet c b 0 alive depth in
    let busy : Busy c ((b, begin) ∷ meanwhile) 1 =
      calls-Busy c (b, begin) meanwhile 1 1 begun
        (in_flight-Busy meanwhile _ 0 1 begun.open_still begun.depth h) in
    let (as_before, refreshes) =
      last_end (calls c ((b, begin) ∷ meanwhile)).0 force busy.open_still busy.depth in
    let owed : (is_owed (calls c ((b, begin) ∷ meanwhile)).0 || force)
        ≡ ((c.refresh_queued || c.timer) || (any asks_refresh meanwhile || force)) =
      ap (λ o. o || force) busy.owed ∙ or_assoc (is_owed c) (any asks_refresh meanwhile) force in
    (busy.silent, as_before, refreshes ∙ ap (λ o. if o then refresh ∷ [] else []) owed)
