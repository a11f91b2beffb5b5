-- ===== src/Workflow/Connection/Reached.antt =====
-- The search for the nodes that are connected to the first one: its fuel and the set it ends with.
use bighead.Common.{
  ℕ, zero, suc, ◌<◌, String, Bool, true, false, ◌≡◌, refl, ap, ◌∙◌, ◌↔◌, inl, inr, Option, some,
  List, [], ◌∷◌, arith, if◌then◌else◌, length, set_add, has, missing, NoRepeats, missing_less,
  missing-le-length, eq_iff, Bool-cases,
}
use bighead.Common.{◌>>=◌, Within, missing_grows}
use bighead.Workflow.{each, visit_connected}
use bighead.Workflow.Connection.{
  Reach, here, step, beside, Grown, Search, Grows, visit_connected-Grows, visit_connected-Keeps,
}

module _ (around : String → List String) (us : List String)
    (closed : (v w : String) → beside around v w ≡ true → has us w ≡ true) where
  each_fuel :
      (n : ℕ) (search : Search around)
      → Grows around search
      → ((id : String) (s : List String)
          → has us id ≡ true
          → missing us s < n
          → (s' : List String) × (search id s ≡ some s'))
      → (s ids : List String) → Within ids us
      → missing us s < n
      → (s' : List String) × (each search s ids ≡ some s')
  unfolding each
  each_fuel n search g enough s [] sub lt = (s, refl)
  each_fuel n search g enough s (id ∷ ids) sub lt =
      let (s1, first) = enough id s (sub id (ground (arith, eq_iff id id))) lt in
      let (s', rest) =
        each_fuel n search g enough s1 ids (λ k e. sub k (ground arith))
          (omega (arith, missing_grows us s s1 (g id s s1 first).0.grows)) in
      (s', ap (λ o. o >>= λ c. each search c ids) first ∙ rest)

  not_yet :
      (b : Bool) (s : List String) (d : Option (List String))
      → b ≡ false
      → (if b then some s else d) ≡ d
  not_yet b s d h = rw h refl

  visit_connected_fuel :
      (fuel : ℕ) (id : String) (s : List String)
      → has us id ≡ true
      → missing us s < fuel
      → (s' : List String) × (visit_connected around fuel id s ≡ some s')
  unfolding visit_connected
  visit_connected_fuel zero id s i lt = absurd (omega arith)
  visit_connected_fuel (suc fuel) id s i lt = elim (Bool-cases (has s id)) [
    | inl e ↦ (s, rw e refl)
    | inr e ↦
        let (s', h) =
          each_fuel fuel (visit_connected around fuel) (visit_connected-Grows around fuel)
            (visit_connected_fuel fuel) (set_add id s) (around id) (closed id)
            (omega (arith, missing_less us s id i e)) in
        (
          s',
          not_yet (has s id) s (each (visit_connected around fuel) (set_add id s) (around id)) e
              ∙ h,
        )
  ]

  -- The set that the search ends with: no name twice, and what is connected to the start.
  pub connected_to :
      (id : String) (fuel : ℕ)
      → has us id ≡ true
      → length us < fuel
      → (s : List String) × (visit_connected around fuel id [] ≡ some s)
        × NoRepeats s
        × Within s us
        × ((k : String) → (has s k ≡ true) ↔ Reach (beside around) id k)
  connected_to id fuel i lt =
      let (s, h) = visit_connected_fuel fuel id [] i (omega (arith, missing-le-length us [])) in
      let (p, start) = visit_connected-Grows around fuel id [] s h in
      (
        s,
        h,
        p.single tt,
        visit_connected-Keeps around (λ k. has us k ≡ true) (λ v w l e. closed v w l) fuel id [] s h
            i (λ k e. cc),
        λ k. (
          visit_connected-Keeps around (Reach (beside around) id) (λ v w l r. step r l) fuel id [] s
              h here (λ j e. cc) k,
          all s p start k,
        ),
      )
    where
      all :
          (s : List String)
          → Grown around [] s
          → has s id ≡ true
          → (k : String) → Reach (beside around) id k
          → has s k ≡ true
      all s p start k here = start
      all s p start k (step {w = w} r l) = elim (p.closes w (all s p start w r)) [
        | inl e ↦ cc
        | inr sub ↦ sub k l
      ]
