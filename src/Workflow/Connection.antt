-- ===== src/Workflow/Connection.antt =====
-- `visitConnected` of `validateWorkflow`: what the search does to its set.
pub mod Reached
use bighead.Common.{
  ℕ, zero, suc, ◌-◌, String, Bool, true, false, ◌≡◌, refl, sym, ◌⊎◌, inl, inr, Option, some, List,
  [], ◌∷◌, arith, if◌then◌else◌, all, subst, set_add, has, has-set_add, NoRepeats, some_inj, find,
  ◌==◌, eq_iff, Bool-cases,
}
use bighead.Common.{◌>>=◌, >>=-eq-some, Within, NoRepeats-set_add}
use bighead.Workflow.{each, visit_connected}

-- A walk of any number of edges, none of them too.
pub data Reach (link : String → String → Bool) : String → String → Type 0 where
  here : {v : String} → Reach link v v
  step : {v w u : String} → Reach link v w → link w u ≡ true → Reach link v u

module _ (around : String → List String) where
  abbrev pub beside : String → String → Bool
  beside v w = has (around v) w

  -- What a search has done to the set.
  pub record Grown (s s' : List String) : Type 0 where
    pub grows : Within s s'
    pub single : NoRepeats s → NoRepeats s'
    pub closes : (k : String) → has s' k ≡ true → (has s k ≡ true) ⊎ Within (around k) s'

  Grown-refl : (s : List String) → Grown s s
  Grown-refl s = record { grows = λ k h. h; single = λ d. d; closes = λ k h. inl h }

  Grown-trans : (a b c : List String) → Grown a b → Grown b c → Grown a c
  Grown-trans a b c p q = record {
    grows = λ k h. q.grows k (p.grows k h);
    single = λ d. q.single (p.single d);
    closes = λ k h. elim (q.closes k h) [
      | inl e ↦ elim (p.closes k e) [ inl i ↦ inl i | inr sub ↦ inr (λ w l. q.grows w (sub w l)) ]
      | inr sub ↦ inr sub
    ];
  }

  abbrev pub Search : Type 0
  Search = String → List String → Option (List String)

  abbrev pub Grows : Search → Type 0
  Grows search =
      (id : String) (s s' : List String) → search id s ≡ some s' → Grown s s' × (has s' id ≡ true)

  each-Grows :
      (search : Search)
      → Grows search
      → (s : List String) (ids : List String) (s' : List String) → each search s ids ≡ some s'
      → Grown s s' × Within ids s'
  unfolding each
  each-Grows search g s [] s' h = (subst (Grown s) (some_inj h) (Grown-refl s), λ w e. cc)
  each-Grows search g s (id ∷ ids) s' h =
      let (s1, first, rest) = >>=-eq-some (search id s) (λ c. each search c ids) h in
      let (p, found) = g id s s1 first in
      let (q, all) = each-Grows search g s1 ids s' rest in
      (
        Grown-trans s s1 s' p q,
        λ w e. elim (Bool-cases (id == w)) [
          | inl i ↦ subst (λ x. has s' x ≡ true) ((eq_iff id w).0 i) (q.grows id found)
          | inr i ↦ all w (ground arith)
        ],
      )

  entered :
      (id : String) (s s' : List String)
      → has s id ≡ false
      → Grown (set_add id s) s'
      → Within (around id) s'
      → Grown s s'
  entered id s s' fresh p all = record {
    grows = λ k h. p.grows k (ground (arith, has-set_add id s k));
    single = λ d. p.single (NoRepeats-set_add id s fresh d);
    closes = λ k h. elim (p.closes k h) [
      | inl e ↦ elim (Bool-cases (id == k)) [
        | inl i ↦ inr (subst (λ x. Within (around x) s') ((eq_iff id k).0 i) all)
        | inr i ↦ inl (ground (arith, has-set_add id s k))
      ]
      | inr sub ↦ inr sub
    ];
  }

  seen-eq-some :
      (b : Bool) (s s' : List String) (d : Option (List String))
      → (if b then some s else d) ≡ some s'
      → ((b ≡ true) × (s ≡ s')) ⊎ ((b ≡ false) × (d ≡ some s'))
  seen-eq-some true s s' d h = inl (refl, some_inj h)
  seen-eq-some false s s' d h = inr (refl, h)

  pub visit_connected-Grows : (fuel : ℕ) → Grows (visit_connected around fuel)
  unfolding visit_connected
  visit_connected-Grows zero id s s' h = cc
  visit_connected-Grows (suc fuel) id s s' h =
      let deeper = each (visit_connected around fuel) (set_add id s) (around id) in
      elim (seen-eq-some (has s id) s s' deeper h) [
        | inl (seen, e) ↦ subst (λ x. Grown s x × (has x id ≡ true)) e (Grown-refl s, seen)
        | inr (fresh, e) ↦
            let (p, all) =
              each-Grows (visit_connected around fuel) (visit_connected-Grows fuel) (set_add id s)
                (around id) s' e in
            (
              entered id s s' fresh p all,
              p.grows id (ground (arith, has-set_add id s id, eq_iff id id)),
            )
      ]

  -- A property that goes on from a node to the nodes beside it holds of all that are found.
  module _ (Q : String → Type 0) (on : (v w : String) → beside v w ≡ true → Q v → Q w) where
    abbrev Keeps : Search → Type 0
    Keeps search =
        (id : String) (s s' : List String)
        → search id s ≡ some s'
        → Q id
        → ((k : String) → has s k ≡ true → Q k)
        → (k : String) → has s' k ≡ true
        → Q k

    each_keeps :
        (search : Search)
        → Keeps search
        → (s ids s' : List String) → each search s ids ≡ some s'
        → ((k : String) → has ids k ≡ true → Q k)
        → ((k : String) → has s k ≡ true → Q k)
        → (k : String) → has s' k ≡ true
        → Q k
    unfolding each
    each_keeps find g s [] s' h qs q k e = q k (subst (λ x. has x k ≡ true) (sym (some_inj h)) e)
    each_keeps find g s (id ∷ ids) s' h qs q k e =
        let (s1, first, rest) = >>=-eq-some (find id s) (λ c. each find c ids) h in
        each_keeps find g s1 ids s' rest (λ j x. qs j (ground arith))
          (g id s s1 first (qs id (ground (arith, eq_iff id id))) q) k e

    pub visit_connected-Keeps : (fuel : ℕ) → Keeps (visit_connected around fuel)
    unfolding visit_connected
    visit_connected-Keeps zero id s s' h qid q k e = cc
    visit_connected-Keeps (suc fuel) id s s' h qid q k e =
        let deeper = each (visit_connected around fuel) (set_add id s) (around id) in
        elim (seen-eq-some (has s id) s s' deeper h) [
          | inl (seen, i) ↦ q k (subst (λ x. has x k ≡ true) (sym i) e)
          | inr (fresh, i) ↦
              each_keeps (visit_connected around fuel) (visit_connected-Keeps fuel) (set_add id s)
                (around id) s' i (λ w l. on id w l qid) (λ j x. added j x) k e
        ]
      where
        added : (j : String) → has (set_add id s) j ≡ true → Q j
        added j x = elim (Bool-cases (id == j)) [
          | inl i ↦ subst Q ((eq_iff id j).0 i) qid
          | inr i ↦ q j (ground (arith, has-set_add id s j))
        ]
