-- ===== src/Workflow/Cycles/Decides.antt =====
-- The search for a cycle from every node: its fuel and its answer.
use bighead.Common.{
  ℕ, zero, suc, ◌<◌, String, Bool, true, ◌≡◌, refl, sym, ◌≢◌, ◌⊎◌, inl, inr, List, [], ◌∷◌, arith,
  length, all, subst, has, missing, missing_less, missing-le-length, eq_iff,
}
use bighead.Workflow.{
  Marks, Outcome, cycle, out_of_fuel, clear, proceed, some_visit, enter, leave, visit, unmarked,
}
use bighead.Workflow.Cycles.{
  proceed-eq-out_of_fuel, tests-eq-out_of_fuel, Walk, edge, further, Ends, ends, link, Searches,
  some_clear, visit_clear, Loop, some_cycle, visit_cycle,
}

-- The first step of a walk, and the rest of it.
first :
    {link : String → String → Bool} {v u : String}
    → Walk link v u
    → (w : String) × (link v w ≡ true) × ((w ≡ u) ⊎ Walk link w u)
first {u = u} (edge l) = (u, l, inl refl)
first {link} (further {w = x} {u = u} p l) =
    let (w, m, rest) = first p in
    elim rest [
      | inl e ↦ (w, m, inr (subst (λ y. Walk link y u) (sym e) (edge l)))
      | inr q ↦ (w, m, inr (further q l))
    ]

-- No walk comes back to a node from which every walk ends.
Ends-no-loop : {next : String → List String} {v : String} → Ends next v → Walk (link next) v v → ⊥
Ends-no-loop {next} {v} (ends f) p =
    let (w, l, rest) = first p in
    elim rest [
      | inl e ↦ Ends-no-loop (f w l) (subst (λ y. Walk (link next) y y) (sym e) p)
      | inr q ↦ Ends-no-loop (f w l) (further q l)
    ]

last :
    {link : String → String → Bool} {v u : String}
    → Walk link v u
    → (w : String) × (link w u ≡ true)
last {v = v} (edge l) = (v, l)
last (further {w = w} p l) = (w, l)

module _ (next : String → List String) (us : List String)
    (closed : (v w : String) → has (next v) w ≡ true → has us w ≡ true) where
  some_fuel :
      (n : ℕ) (search : Marks → String → Outcome)
      → Searches next search
      → ((m : Marks) (id : String)
          → has us id ≡ true
          → missing us m.visiting < n
          → search m id ≢ out_of_fuel)
      → (m : Marks) (ids : List String) → ((w : String) → has ids w ≡ true → has us w ≡ true)
      → missing us m.visiting < n
      → some_visit search m ids ≢ out_of_fuel
  unfolding some_visit
  some_fuel n search s enough m [] inside lt h = cc
  some_fuel n search s enough m (id ∷ ids) inside lt h =
      elim (proceed-eq-out_of_fuel (search m id) (λ m1. some_visit search m1 ids) h) [
        | inl e ↦ enough m id (inside id (ground (arith, eq_iff id id))) lt e
        | inr (m1, first, rest) ↦
            let kept = (s m id m1 first).0.same in
            some_fuel n search s enough m1 ids (λ w l. inside w (ground (arith, l)))
              (subst (λ vs. missing us vs < n) (sym kept) lt) rest
      ]

  visit_fuel :
      (fuel : ℕ) (m : Marks) (id : String)
      → has us id ≡ true
      → missing us m.visiting < fuel
      → visit next fuel m id ≢ out_of_fuel
  unfolding visit enter
  visit_fuel zero m id i lt h = absurd (omega arith)
  visit_fuel (suc fuel) m id i lt h =
      let searched = some_visit (visit next fuel) (enter id m) (next id) in
      let finish = λ (m1 : Marks). clear (leave id m1) in
      let (fresh, deep) =
        tests-eq-out_of_fuel (has m.visiting id) (has m.visited id) m (proceed searched finish) h in
      elim (proceed-eq-out_of_fuel searched finish deep) [
        | inl e ↦
            some_fuel fuel (visit next fuel) (visit_clear next fuel) (visit_fuel fuel) (enter id m)
              (next id) (closed id) (omega (arith, missing_less us m.visiting id i fresh)) e
        | inr (m1, first, e) ↦ cc
      ]

  -- The search from every node.
  pub some_visit_decides :
      (fuel : ℕ)
      → length us < fuel
      → ((some_visit (visit next fuel) unmarked us ≡ cycle) × Loop next)
        ⊎ ((m : Marks) × (some_visit (visit next fuel) unmarked us ≡ clear m)
            × ((v : String) → Walk (link next) v v → ⊥))
  some_visit_decides fuel lt = result (some_visit (visit next fuel) unmarked us) refl
    where
      result :
          (o : Outcome)
          → some_visit (visit next fuel) unmarked us ≡ o
          → ((o ≡ cycle) × Loop next)
            ⊎ ((m : Marks) × (o ≡ clear m) × ((v : String) → Walk (link next) v v → ⊥))
      result cycle h = inl (
        refl,
        some_cycle next (visit next fuel) (visit_clear next fuel) (visit_cycle next fuel) unmarked
            us (λ w l v x. cc) h,
      )
      result out_of_fuel h = absurd (
          some_fuel fuel (visit next fuel) (visit_clear next fuel) (visit_fuel fuel) unmarked us
            (λ w l. l) (omega (arith, missing-le-length us [])) h)
      result (clear m) h =
          let (p, all) =
            some_clear next (visit next fuel) (visit_clear next fuel) unmarked us m h in
          inr (
            m,
            refl,
            λ v walk.
                let (w, l) = last walk in
                Ends-no-loop (p.settles (λ v x. cc) v (all v (closed w v l))) walk,
          )
