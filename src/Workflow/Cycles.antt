-- ===== src/Workflow/Cycles.antt =====
-- `visit` of `validateWorkflow`: the depth-first search for a cycle, by what it leaves in the marks.
pub mod Decides
use bighead.Common.{
  ℕ, zero, suc, ◌-◌, String, Bool, true, false, ◌≡◌, refl, ap, ◌∙◌, ◌⊎◌, inl, inr, List, [], ◌∷◌,
  arith, if◌then◌else◌, all, subst, set_delete, has, has-set_add, set_delete-set_add, ◌==◌, eq_iff,
  Bool-cases,
}
use bighead.Workflow.{
  Marks, Outcome, cycle, out_of_fuel, clear, proceed, some_visit, enter, leave, visit,
}

proceed-eq-clear :
    (o : Outcome) (k : Marks → Outcome) {m' : Marks}
    → proceed o k ≡ clear m'
    → (m : Marks) × (o ≡ clear m) × (k m ≡ clear m')
proceed-eq-clear (clear m) k h = (m, refl, h)
proceed-eq-clear cycle k h = cc
proceed-eq-clear out_of_fuel k h = cc

proceed-eq-cycle :
    (o : Outcome) (k : Marks → Outcome)
    → proceed o k ≡ cycle
    → (o ≡ cycle) ⊎ ((m : Marks) × (o ≡ clear m) × (k m ≡ cycle))
proceed-eq-cycle (clear m) k h = inr (m, refl, h)
proceed-eq-cycle cycle k h = inl refl
proceed-eq-cycle out_of_fuel k h = cc

pub proceed-eq-out_of_fuel :
    (o : Outcome) (k : Marks → Outcome)
    → proceed o k ≡ out_of_fuel
    → (o ≡ out_of_fuel) ⊎ ((m : Marks) × (o ≡ clear m) × (k m ≡ out_of_fuel))
proceed-eq-out_of_fuel (clear m) k h = inr (m, refl, h)
proceed-eq-out_of_fuel cycle k h = cc
proceed-eq-out_of_fuel out_of_fuel k h = inl refl

clear_inj : {a b : Marks} → clear a ≡ clear b → a ≡ b
clear_inj h = cc

-- The two tests at the head of `visit`.
tests-eq-clear :
    (a b : Bool) (m : Marks) (d : Outcome) {m' : Marks}
    → (if a then cycle else if b then clear m else d) ≡ clear m'
    → (a ≡ false) × (((b ≡ true) × (m ≡ m')) ⊎ (d ≡ clear m'))
tests-eq-clear true b m d h = cc
tests-eq-clear false true m d h = (refl, inl (refl, clear_inj h))
tests-eq-clear false false m d h = (refl, inr h)

tests-eq-cycle :
    (a b : Bool) (m : Marks) (d : Outcome)
    → (if a then cycle else if b then clear m else d) ≡ cycle
    → (a ≡ true) ⊎ ((a ≡ false) × (d ≡ cycle))
tests-eq-cycle true b m d h = inl refl
tests-eq-cycle false true m d h = cc
tests-eq-cycle false false m d h = inr (refl, h)

pub tests-eq-out_of_fuel :
    (a b : Bool) (m : Marks) (d : Outcome)
    → (if a then cycle else if b then clear m else d) ≡ out_of_fuel
    → (a ≡ false) × (d ≡ out_of_fuel)
tests-eq-out_of_fuel true b m d h = cc
tests-eq-out_of_fuel false true m d h = cc
tests-eq-out_of_fuel false false m d h = (refl, h)

-- A walk of one edge at least.
pub data Walk (link : String → String → Bool) : String → String → Type 0 where
  edge : {v w : String} → link v w ≡ true → Walk link v w
  further : {v w u : String} → Walk link v w → link w u ≡ true → Walk link v u

-- Every walk from here ends.
pub data Ends (next : String → List String) : String → Type 0 where
  ends : {v : String} → ((w : String) → has (next v) w ≡ true → Ends next w) → Ends next v

module _ (next : String → List String) where
  abbrev pub link : String → String → Bool
  link v w = has (next v) w

  -- What a search that returns false has done to the marks.
  pub record After (m m' : Marks) : Type 0 where
    pub same : m'.visiting ≡ m.visiting
    pub grows : (v : String) → has m.visited v ≡ true → has m'.visited v ≡ true
    pub settles :
        ((v : String) → has m.visited v ≡ true → Ends next v)
        → (v : String) → has m'.visited v ≡ true
        → Ends next v

  After-refl : (m : Marks) → After m m
  After-refl m = record { same = refl; grows = λ v h. h; settles = λ e v h. e v h }

  After-trans : (a b c : Marks) → After a b → After b c → After a c
  After-trans a b c p q = record {
    same = q.same ∙ p.same;
    grows = λ v h. q.grows v (p.grows v h);
    settles = λ e v h. q.settles (p.settles e) v h;
  }

  -- A search that ends every walk from the node that it is given.
  abbrev pub Searches : (Marks → String → Outcome) → Type 0
  Searches search =
      (m : Marks) (id : String) (m' : Marks)
      → search m id ≡ clear m'
      → After m m' × (has m'.visited id ≡ true)

  pub some_clear :
      (search : Marks → String → Outcome)
      → Searches search
      → (m : Marks) (ids : List String) (m' : Marks) → some_visit search m ids ≡ clear m'
      → After m m' × ((w : String) → has ids w ≡ true → has m'.visited w ≡ true)
  unfolding some_visit
  some_clear search s m [] m' h = (subst (After m) (clear_inj h) (After-refl m), λ w e. cc)
  some_clear search s m (id ∷ ids) m' h =
      let (m1, first, rest) = proceed-eq-clear (search m id) (λ m'. some_visit search m' ids) h in
      let (p, here) = s m id m1 first in
      let (q, there) = some_clear search s m1 ids m' rest in
      (
        After-trans m m1 m' p q,
        λ w e. elim (Bool-cases (id == w)) [
          | inl i ↦ subst (λ x. has m'.visited x ≡ true) ((eq_iff id w).0 i) (q.grows id here)
          | inr i ↦ there w (ground arith)
        ],
      )

  left :
      (m : Marks) (id : String) (m1 : Marks)
      → has m.visiting id ≡ false
      → After (enter id m) m1
      → ((w : String) → has (next id) w ≡ true → has m1.visited w ≡ true)
      → After m (leave id m1)
  unfolding enter leave
  left m id m1 h p all = record {
    same = ap (set_delete id) p.same ∙ set_delete-set_add id m.visiting h;
    grows = λ v e. ground (arith, has-set_add id m1.visited v, p.grows v e);
    settles = λ e v x. elim (Bool-cases (id == v)) [
      | inl i ↦ subst (Ends next) ((eq_iff id v).0 i) (ends (λ w l. p.settles e w (all w l)))
      | inr i ↦ p.settles e v (ground (arith, has-set_add id m1.visited v))
    ];
  }

  visited_self : (id : String) (m : Marks) → has (leave id m).visited id ≡ true
  unfolding leave
  visited_self id m = ground (arith, has-set_add id m.visited id, eq_iff id id)

  pub visit_clear : (fuel : ℕ) → Searches (visit next fuel)
  unfolding visit
  visit_clear zero m id m' h = cc
  visit_clear (suc fuel) m id m' h =
      let searched = some_visit (visit next fuel) (enter id m) (next id) in
      let finish = λ (m1 : Marks). clear (leave id m1) in
      let (fresh, done) =
        tests-eq-clear (has m.visiting id) (has m.visited id) m (proceed searched finish) h in
      elim done [
        | inl (seen, e) ↦ subst Done e (After-refl m, seen)
        | inr deep ↦
            let (m1, found, e) = proceed-eq-clear searched finish deep in
            let (p, all) =
              some_clear (visit next fuel) (visit_clear fuel) (enter id m) (next id) m1 found in
            subst Done (clear_inj e) (left m id m1 fresh p all, visited_self id m1)
      ]
    where
      Done : Marks → Type 0
      Done n = After m n × (has n.visited id ≡ true)

  abbrev pub Loop : Type 0
  Loop = (v : String) × Walk link v v

  -- Walks lead to the node from all that is being visited.
  abbrev pub Leads : Marks → String → Type 0
  Leads m id = (v : String) → has m.visiting v ≡ true → Walk link v id

  pub some_cycle :
      (search : Marks → String → Outcome)
      → Searches search
      → ((m : Marks) (id : String) → Leads m id → search m id ≡ cycle → Loop)
      → (m : Marks) (ids : List String) → ((w : String) → has ids w ≡ true → Leads m w)
      → some_visit search m ids ≡ cycle
      → Loop
  unfolding some_visit
  some_cycle search s found m [] leads h = cc
  some_cycle search s found m (id ∷ ids) leads h =
      elim (proceed-eq-cycle (search m id) (λ m1. some_visit search m1 ids) h) [
        | inl e ↦ found m id (leads id (ground (arith, eq_iff id id))) e
        | inr (m1, first, rest) ↦
            let kept = (s m id m1 first).0.same in
            some_cycle search s found m1 ids
              (λ w l v x. leads w (ground (arith, l)) v (subst (λ vs. has vs v ≡ true) kept x)) rest
      ]

  onward : (m : Marks) (id w : String) → Leads m id → has (next id) w ≡ true → Leads (enter id m) w
  unfolding enter
  onward m id w leads l v x = elim (Bool-cases (id == v)) [
    | inl i ↦ subst (λ y. Walk link y w) ((eq_iff id v).0 i) (edge l)
    | inr i ↦ further (leads v (ground (arith, has-set_add id m.visiting v))) l
  ]

  pub visit_cycle :
      (fuel : ℕ) (m : Marks) (id : String) → Leads m id → visit next fuel m id ≡ cycle → Loop
  unfolding visit
  visit_cycle zero m id leads h = cc
  visit_cycle (suc fuel) m id leads h =
      let searched = some_visit (visit next fuel) (enter id m) (next id) in
      let finish = λ (m1 : Marks). clear (leave id m1) in
      elim (tests-eq-cycle (has m.visiting id) (has m.visited id) m (proceed searched finish) h) [
        | inl back ↦ (id, leads id back)
        | inr (fresh, deep) ↦ elim (proceed-eq-cycle searched finish deep) [
          | inl e ↦
              some_cycle (visit next fuel) (visit_clear fuel) (visit_cycle fuel) (enter id m)
                (next id) (λ w l. onward m id w leads l) e
          | inr (m1, first, e) ↦ cc
        ]
      ]
