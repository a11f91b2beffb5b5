-- ===== src/Catalog/Navigation/Coverage.antt =====
-- Which paths the menus hold.
use bighead.Catalog.{
  ScreenDefinition, Area, acesso, operacao, governanca, automacao, conhecimento, comercial,
  aprendizado, administracao,
}
use bighead.Catalog.Screens.{definitions}
use bighead.Catalog.Lookup.{join, same_area, area_order}
use bighead.Common.{
  has, subst, String, Bool, true, false, not, ◌&&◌, ◌||◌, ◌≡◌, refl, sym, ap, ◌∙◌, inl, inr, List,
  [], ◌∷◌, ◌++◌, map, arith, any, all, any-append, filter, ◌==◌, eq_iff, Bool-cases, and-eq-true,
}
use mathlib.Core.List.{append-nil}
use bighead.Catalog.Navigation.{
  link, area_label, ShellRoute, ShellGroup, hrefs, is_agent_route, path_of, agent_link, shown,
  agent_routes, area_routes, base_groups, build_more_navigation, productize_later_route_paths,
  later_paths, primary_route_paths, workspace_excluded_route_paths,
}

module _ {ℓ} {A : Type ℓ} where
  any-map {κ} :
      {B : Type κ} (p : B → Bool) (f : A → B) (xs : List A)
      → any p (map f xs) ≡ any (λ x. p (f x)) xs
  any-map p f [] = refl
  any-map p f (x ∷ xs) = ap (λ b. p (f x) || b) (any-map p f xs)

  any-filter : (p q : A → Bool) (xs : List A) → any p (filter q xs) ≡ any (λ x. p x && q x) xs
  any-filter p q [] = refl
  any-filter p q (x ∷ xs) = elim (Bool-cases (q x)) [
    | inl e ↦ rw e (ground (arith, any-filter p q xs))
    | inr e ↦ rw e (ground (arith, any-filter p q xs))
  ]

  -- A condition on the key is a condition on the key that is sought.
  any_at :
      (key : A → String) (q : String → Bool) (k : String) (xs : List A)
      → any (λ x. (key x == k) && q (key x)) xs ≡ (any (λ x. key x == k) xs && q k)
  any_at key q k [] = refl
  any_at key q k (x ∷ xs) = elim (Bool-cases (key x == k)) [
    | inl e ↦ ground (arith, e, ap q ((eq_iff (key x) k).0 e), any_at key q k xs)
    | inr e ↦ rw e (any_at key q k xs)
  ]

  any-none : (cs : List A) → any (λ c. false) cs ≡ false
  any-none [] = refl
  any-none (c ∷ cs) = any-none cs

  any-or : (p q : A → Bool) (cs : List A) → any (λ c. p c || q c) cs ≡ (any p cs || any q cs)
  any-or p q [] = refl
  any-or p q (c ∷ cs) = ground (arith, any-or p q cs)

  any-congruence : (p q : A → Bool) (cs : List A) → ((c : A) → p c ≡ q c) → any p cs ≡ any q cs
  any-congruence p q [] h = refl
  any-congruence p q (c ∷ cs) h = ground (arith, h c, any-congruence p q cs h)

module _ {ℓ} {A : Type ℓ} where
  any-any :
      (p : A → Area → Bool) (cs : List Area) (xs : List A)
      → any (λ a. any (λ x. p x a) xs) cs ≡ any (λ x. any (p x) cs) xs
  any-any p cs [] = any-none cs
  any-any p cs (x ∷ xs) =
      any-or (p x) (λ a. any (λ y. p y a) xs) cs ∙ ap (λ b. any (p x) cs || b) (any-any p cs xs)

any-area : (a : Area) (b : Bool) → any (λ c. b && same_area a c) area_order ≡ b
any-area acesso b = ground arith
any-area operacao b = ground arith
any-area governanca b = ground arith
any-area automacao b = ground arith
any-area conhecimento b = ground arith
any-area comercial b = ground arith
any-area aprendizado b = ground arith
any-area administracao b = ground arith

has-shown :
    (label p : String) (rs : List ShellRoute)
    → has (hrefs (shown label rs)) p ≡ any (λ r. r.href == p) rs
has-shown label p [] = refl
has-shown label p (r ∷ rs) =
    rw (append-nil (map (λ q. q.href) rs)) (any-map (λ h. h == p) (λ q. q.href) (r ∷ rs))

or_assoc : (a b c : Bool) → (a || (b || c)) ≡ ((a || b) || c)
or_assoc a b c = ground arith

or-and : (a b c : Bool) → ((a && c) || (b && c)) ≡ ((a || b) && c)
or-and a b c = ground arith

split_and : (h g l : Bool) → ((h && (g && l)) || (h && (l && not g))) ≡ (h && l)
split_and h g l = ground arith

has-hrefs :
    (gs hs : List ShellGroup) (p : String)
    → has (hrefs (gs ++ hs)) p ≡ (has (hrefs gs) p || has (hrefs hs) p)
has-hrefs [] hs p = refl
has-hrefs (g ∷ gs) hs p =
    rw (any-append (λ q. q == p) (map (λ r. r.href) g.routes) (hrefs (gs ++ hs))) (
      rw (any-append (λ q. q == p) (map (λ r. r.href) g.routes) (hrefs gs)) (
        rw (has-hrefs gs hs p)
          (or_assoc (has (map (λ r. r.href) g.routes) p) (has (hrefs gs) p) (has (hrefs hs) p))))

module _ (is_later : String → Bool) (ds : List ScreenDefinition) (p : String) where
  -- A screen of the area has the path.
  abbrev here : Area → Bool
  here a = any (λ s. (path_of s == p) && same_area s.area a) ds

  any-agent_routes :
      any (λ r. r.href == p) (agent_routes is_later ds)
      ≡ (has (map path_of ds) p && (is_agent_route p && is_later p))
  unfolding agent_routes agent_link path_of
  any-agent_routes =
      any-map (λ r. r.href == p) agent_link
        (filter (λ q. is_agent_route q && is_later q) (map path_of ds))
      ∙ any-filter (λ q. q == p) (λ q. is_agent_route q && is_later q) (map path_of ds)
      ∙ any_at (λ q. q) (λ q. is_agent_route q && is_later q) p (map path_of ds)

  any-area_routes :
      (a : Area)
      → any (λ r. r.href == p) (area_routes is_later ds a)
        ≡ (here a && (is_later p && not (is_agent_route p)))
  unfolding area_routes
  any-area_routes a =
      any-filter (λ r. r.href == p) (λ r. is_later r.href && not (is_agent_route r.href))
        (map (λ s. link s.title (path_of s)) (filter (λ s. same_area s.area a) ds))
      ∙ any_at (λ r. r.href) (λ h. is_later h && not (is_agent_route h)) p
          (map (λ s. link s.title (path_of s)) (filter (λ s. same_area s.area a) ds))
      ∙ ap (λ b. b && (is_later p && not (is_agent_route p)))
          (any-map (λ r. r.href == p) (λ s. link s.title (path_of s))
              (filter (λ s. same_area s.area a) ds)
            ∙ any-filter (λ s. path_of s == p) (λ s. same_area s.area a) ds)

  has-base_groups :
      (cs : List Area)
      → has (hrefs (base_groups is_later ds cs)) p
        ≡ (any here cs && (is_later p && not (is_agent_route p)))
  unfolding base_groups
  has-base_groups [] = refl
  has-base_groups (a ∷ cs) =
      has-hrefs (shown (area_label a) (area_routes is_later ds a)) (base_groups is_later ds cs) p
      ∙ ap (λ b. b || has (hrefs (base_groups is_later ds cs)) p)
          (has-shown (area_label a) p (area_routes is_later ds a) ∙ any-area_routes a)
      ∙ ap (λ b. (here a && (is_later p && not (is_agent_route p))) || b) (has-base_groups cs)
      ∙ or-and (here a) (any here cs) (is_later p && not (is_agent_route p))

  any-here : any here area_order ≡ has (map path_of ds) p
  any-here =
      any-any (λ s a. (path_of s == p) && same_area s.area a) area_order ds
      ∙ any-congruence (λ s. any (λ a. (path_of s == p) && same_area s.area a) area_order)
          (λ s. path_of s == p) ds (λ s. any-area s.area (path_of s == p))
      ∙ sym (any-map (λ q. q == p) path_of ds)

  has-menu :
      has
        (hrefs (shown "Agentes" (agent_routes is_later ds) ++ base_groups is_later ds area_order))
        p
      ≡ (has (map path_of ds) p && is_later p)
  has-menu =
      has-hrefs (shown "Agentes" (agent_routes is_later ds)) (base_groups is_later ds area_order) p
      ∙ ap (λ b. b || has (hrefs (base_groups is_later ds area_order)) p)
          (has-shown "Agentes" p (agent_routes is_later ds) ∙ any-agent_routes)
      ∙ ap (λ b. (has (map path_of ds) p && (is_agent_route p && is_later p)) || b)
          (has-base_groups area_order
            ∙ ap (λ b. b && (is_later p && not (is_agent_route p))) any-here)
      ∙ split_and (has (map path_of ds) p) (is_agent_route p) (is_later p)

has-later_paths :
    (ps : List String) (p : String)
    → has (later_paths ps) p ≡ (
        has ps p && (not (has primary_route_paths p) && not (has workspace_excluded_route_paths p)))
unfolding later_paths
has-later_paths ps p =
    any-filter (λ q. q == p)
      (λ q. not (has primary_route_paths q) && not (has workspace_excluded_route_paths q)) ps
    ∙ any_at (λ q. q)
        (λ q. not (has primary_route_paths q) && not (has workspace_excluded_route_paths q)) p ps

-- The second menu, built from any list of screens, holds the paths of these screens that the
-- catalogue has and that are neither in the first menu nor the login, and it holds no other path.
pub build_more_navigation_lem :
    (ds : List ScreenDefinition) (p : String)
    → has (hrefs (build_more_navigation ds)) p ≡ (
        has (map path_of ds) p
        && (has (map path_of definitions) p
            && (not (has primary_route_paths p) && not (has workspace_excluded_route_paths p))))
unfolding build_more_navigation productize_later_route_paths
build_more_navigation_lem ds p =
    has-menu (has productize_later_route_paths) ds p
    ∙ ap (λ b. has (map path_of ds) p && b) (has-later_paths (map path_of definitions) p)

all-any :
    (f : String → Bool) (qs : List String) (p : String)
    → all f qs ≡ true
    → has qs p ≡ true
    → f p ≡ true
all-any f [] p h k = cc
all-any f (q ∷ qs) p h k = elim (Bool-cases (q == p)) [
  | inl e ↦ subst (λ r. f r ≡ true) ((eq_iff q p).0 e) (and-eq-true (f q) (all f qs) h).0
  | inr e ↦ all-any f qs p (and-eq-true (f q) (all f qs) h).1 (sym (ap (λ b. b || has qs p) e) ∙ k)
]

primary-listed :
    all
      (λ p. has (map path_of definitions) p && not (has workspace_excluded_route_paths p))
      primary_route_paths
    ≡ true
unfolding path_of join
primary-listed = refl

cover :
    (m d x : Bool)
    → (m ≡ true → (d && not x) ≡ true)
    → (m || (d && (d && (not m && not x)))) ≡ (d && not x)
cover true d x h = sym (h refl)
cover false d x h = ground arith

apart : (m d x : Bool) → (m && (d && (d && (not m && not x)))) ≡ false
apart m d x = ground arith

login-excluded : (p : String) → has workspace_excluded_route_paths p ≡ ("/acesso/login" == p)
login-excluded p = ground arith

menus_cover :
    (p : String)
    → ((has primary_route_paths p || has (hrefs (build_more_navigation definitions)) p)
        ≡ (has (map path_of definitions) p && not (has workspace_excluded_route_paths p)))
      × ((has primary_route_paths p && has (hrefs (build_more_navigation definitions)) p) ≡ false)
menus_cover p = rw (build_more_navigation_lem definitions p) (
  cover (has primary_route_paths p) (has (map path_of definitions) p)
      (has workspace_excluded_route_paths p)
      (all-any (λ q. has (map path_of definitions) q && not (has workspace_excluded_route_paths q))
        primary_route_paths p primary-listed),
  apart (has primary_route_paths p) (has (map path_of definitions) p)
      (has workspace_excluded_route_paths p),
)

-- The two menus together show the paths of the catalogue, all but "/acesso/login" and no other,
-- and no path is in both.
pub menus_lem :
    (p : String)
    → ((has primary_route_paths p || has (hrefs (build_more_navigation definitions)) p)
        ≡ (has (map path_of definitions) p && not ("/acesso/login" == p)))
      × ((has primary_route_paths p && has (hrefs (build_more_navigation definitions)) p) ≡ false)
menus_lem p =
    let (covered, disjoint) = menus_cover p in
    (covered ∙ ap (λ b. has (map path_of definitions) p && not b) (login-excluded p), disjoint)
