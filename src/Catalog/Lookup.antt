-- ===== src/Catalog/Lookup.antt =====
-- apps/web/src/lib/screen-catalog.ts: the screen of a path, the screens of an area, and the screen
-- that is shown first.
use bighead.Catalog.Screens.{definitions}
use bighead.Catalog.{
  ScreenDefinition, ScreenCode, Area, t06, acesso, operacao, governanca, automacao, conhecimento,
  comercial, aprendizado, administracao,
}
use bighead.Common.{
  String, Bool, true, false, not, ◌&&◌, ◌≡◌, refl, sym, ap, ◌∙◌, ◌↔◌, inl, inr, Option, none, some,
  List, [], ◌∷◌, ◌++◌, arith, if◌then◌else◌, any, some_inj, subst, foldl, get_elem?, filter, find,
  ◌==◌, eq_iff, eq_refl, Bool-cases, and-eq-true,
}
use Prim.Native.String
use mathlib.Core.List.{Memᴰ, append-nil, append_assoc}

-- `slug.join("/")`
unfoldable pub join : List String → String
join [] = ""
join (x ∷ []) = x
join (x ∷ y ∷ xs) = String.◌++◌ x (String.◌++◌ "/" (join (y ∷ xs)))

unfoldable pub get_screen_by_slug : List String → Option ScreenDefinition
get_screen_by_slug slug = find (λ screen. join screen.slug == join slug) definitions

abbrev is_t06 : ScreenCode → Bool
is_t06 t06 = true
is_t06 _ = false

unfoldable pub get_default_screen : Option ScreenDefinition
get_default_screen = elim (find (λ screen. is_t06 screen.code) definitions) [
  | some screen ↦ some screen
  | none ↦ get_elem? definitions 0
]

-- An area is its name in the source.
abbrev pub area_name : Area → String
area_name acesso = "Acesso"
area_name operacao = "Operacao"
area_name governanca = "Governanca"
area_name automacao = "Automacao"
area_name conhecimento = "Conhecimento"
area_name comercial = "Comercial"
area_name aprendizado = "Aprendizado"
area_name administracao = "Administracao"

abbrev pub same_area : Area → Area → Bool
same_area a b = area_name a == area_name b

abbrev pub area_order : List Area
area_order =
    acesso ∷ operacao ∷ governanca ∷ automacao ∷ conhecimento ∷ comercial ∷ aprendizado
    ∷ administracao ∷ []

-- `accumulator[screen.area].push(screen)`
unfoldable pub push :
    (Area → List ScreenDefinition) → ScreenDefinition → Area → List ScreenDefinition
push accumulator screen a =
    if same_area screen.area a then accumulator a ++ (screen ∷ []) else accumulator a

unfoldable pub screens_by_area : List ScreenDefinition → Area → List ScreenDefinition
screens_by_area ds = foldl push (λ a. []) ds

foldl-push :
    (acc : Area → List ScreenDefinition) (ds : List ScreenDefinition) (a : Area)
    → foldl push acc ds a ≡ acc a ++ filter (λ s. same_area s.area a) ds
unfolding push
foldl-push acc [] a = sym (append-nil (acc a))
foldl-push acc (s ∷ ds) a = foldl-push (push acc s) ds a ∙ elim (Bool-cases (same_area s.area a)) [
  | inl e ↦ rw e (append_assoc (acc a) (s ∷ []) (filter (λ t. same_area t.area a) ds))
  | inr e ↦ rw e refl
]

-- The list of an area holds the screens of that area, all of them and in the order of the
-- catalogue.
pub screens_by_area_lem :
    (ds : List ScreenDefinition) (a : Area)
    → screens_by_area ds a ≡ filter (λ s. same_area s.area a) ds
unfolding screens_by_area
screens_by_area_lem ds a = foldl-push (λ b. []) ds a

module _ {ℓ} {A : Type ℓ} (key : A → String) where
  unfoldable keys_differ : List A → Bool
  keys_differ [] = true
  keys_differ (x ∷ xs) = not (any (λ y. key y == key x) xs) && keys_differ xs

  Mem-find : (p : A → Bool) (xs : List A) {x : A} → find p xs ≡ some x → Memᴰ x xs × (p x ≡ true)
  Mem-find p [] h = cc
  Mem-find p (x ∷ xs) {x = y} h = elim (Bool-cases (p x)) [
    | inl e ↦
        subst (λ z. Memᴰ z (x ∷ xs) × (p z ≡ true))
          (some_inj (sym (ap (λ b. if b then some x else find p xs) e) ∙ h)) (Memᴰ.head refl, e)
    | inr e ↦
        let (m, q) = Mem-find p xs (sym (ap (λ b. if b then some x else find p xs) e) ∙ h) in
        (Memᴰ.tail m, q)
  ]

  Mem-any :
      (k : String) (xs : List A) {x : A} → Memᴰ x xs → key x ≡ k → any (λ y. key y == k) xs ≡ true
  Mem-any k [] m h = elim m [ ]
  Mem-any k (x ∷ xs) (Memᴰ.head e) h = ground (arith, ap key e, eq_iff (key x) k)
  Mem-any k (x ∷ xs) (Memᴰ.tail m) h = ground (arith, Mem-any k xs m h)

  find-Mem :
      (xs : List A) {x : A}
      → keys_differ xs ≡ true
      → Memᴰ x xs
      → find (λ y. key y == key x) xs ≡ some x
  unfolding keys_differ
  find-Mem [] d m = elim m [ ]
  find-Mem (x ∷ xs) {x = y} d (Memᴰ.head e) = rw e (rw (eq_refl (key x)) refl)
  find-Mem (x ∷ xs) {x = y} d (Memᴰ.tail m) = elim (Bool-cases (key x == key y)) [
    | inl h ↦ ground (arith, Mem-any (key x) xs m (sym ((eq_iff (key x) (key y)).0 h)))
    | inr h ↦
        rw h (find-Mem xs (and-eq-true (not (any (λ z. key z == key x) xs)) (keys_differ xs) d).1 m)
  ]

  find_iff :
      (xs : List A) (k : String) (x : A)
      → keys_differ xs ≡ true
      → (find (λ y. key y == k) xs ≡ some x) ↔ (Memᴰ x xs × (key x ≡ k))
  find_iff xs k x d = (
    λ h. let (m, e) = Mem-find (λ y. key y == k) xs h in (m, (eq_iff (key x) k).0 e),
    λ (m, e). subst (λ j. find (λ y. key y == j) xs ≡ some x) e (find-Mem xs d m),
  )

definitions-differ : keys_differ (λ s. join s.slug) definitions ≡ true
unfolding join keys_differ
definitions-differ = refl

-- The screen of a path is the one screen of the catalogue with this path, and the catalogue shows
-- each of its screens under its path.
pub get_screen_by_slug_iff :
    (slug : List String) (s : ScreenDefinition)
    → (get_screen_by_slug slug ≡ some s) ↔ (Memᴰ s definitions × (join s.slug ≡ join slug))
unfolding get_screen_by_slug
get_screen_by_slug_iff slug s =
    find_iff (λ t. join t.slug) definitions (join slug) s definitions-differ
