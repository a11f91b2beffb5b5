-- ===== src/Workflow/Tables.antt =====
-- The maps that the check of a workflow builds, read as relations between ids.
use mathlib.Core.List.{Memᴰ}
use bighead.Common.{
  String, Bool, true, false, ◌&&◌, ◌||◌, ◌≡◌, refl, sym, ap, ◌∙◌, ◌⊎◌, inl, inr, Option, none, some,
  List, [], ◌∷◌, ◌++◌, arith, if◌then◌else◌, subst, has, has-append, some_inj, ◌==◌, eq_iff,
  map_get, map_set, map_get-map_set, Bool-cases,
}
use bighead.Workflow.{WorkflowNode, ids_of, map_of, neighbours, or_nil, push, push_at, is_some}

pub has-of_member :
    (ns : List WorkflowNode) (x : WorkflowNode) → Memᴰ x ns → has (ids_of ns) x.id ≡ true
has-of_member [] x m = elim m [ ]
has-of_member (n ∷ ns) x (Memᴰ.head e) = ground (arith, eq_iff n.id x.id, ap (λ y. y.id) e)
has-of_member (n ∷ ns) x (Memᴰ.tail m) = ground (arith, has-of_member ns x m)

-- What holds of the id of every node holds of every id.
pub all_ids :
    (P : String → Type 0) (ns : List WorkflowNode)
    → ((x : WorkflowNode) → Memᴰ x ns → P x.id)
    → (k : String) → has (ids_of ns) k ≡ true
    → P k
all_ids P [] h k e = cc
all_ids P (n ∷ ns) h k e = elim (Bool-cases (n.id == k)) [
  | inl i ↦ subst P ((eq_iff n.id k).0 i) (h n (Memᴰ.head refl))
  | inr i ↦ all_ids P ns (λ x m. h x (Memᴰ.tail m)) k (ground arith)
]

is_some-if {ℓ} :
    {V : Type ℓ} (b : Bool) (v : V) (o : Option V)
    → is_some (if b then some v else o) ≡ (b || is_some o)
is_some-if true v o = refl
is_some-if false v o = refl

swap_or : (a b c : Bool) → (a || (b || c)) ≡ ((b || a) || c)
swap_or a b c = ground arith

pub is_some-map_of {ℓ} :
    {V : Type ℓ} (value : WorkflowNode → V) (m : List (String × V)) (ns : List WorkflowNode)
    (k : String)
    → is_some (map_get k (map_of value m ns)) ≡ (has (ids_of ns) k || is_some (map_get k m))
unfolding map_of
is_some-map_of value m [] k = refl
is_some-map_of value m (n ∷ ns) k =
    is_some-map_of value (map_set n.id (value n) m) ns k
    ∙ rw (map_get-map_set n.id k (value n) m) (
        rw (is_some-if (n.id == k) (value n) (map_get k m))
          (swap_or (has (ids_of ns) k) (n.id == k) (is_some (map_get k m))))

found_here :
    (n : WorkflowNode) (ns : List WorkflowNode) (k : String) (x : WorkflowNode)
    (o : Option WorkflowNode)
    → (if n.id == k then some n else o) ≡ some x
    → ((x.id ≡ k) × Memᴰ x (n ∷ ns)) ⊎ (o ≡ some x)
found_here n ns k x o h = elim (Bool-cases (n.id == k)) [
  | inl e ↦
      let same : n ≡ x = some_inj (sym (ap (λ b. if b then some n else o) e) ∙ h) in
      inl (ap (λ y. y.id) (sym same) ∙ (eq_iff n.id k).0 e, Memᴰ.head (sym same))
  | inr e ↦ inr (sym (ap (λ b. if b then some n else o) e) ∙ h)
]

pub found :
    (m : List (String × WorkflowNode)) (ns : List WorkflowNode) (k : String) (x : WorkflowNode)
    → map_get k (map_of (λ n. n) m ns) ≡ some x
    → ((x.id ≡ k) × Memᴰ x ns) ⊎ (map_get k m ≡ some x)
unfolding map_of
found m [] k x h = inr h
found m (n ∷ ns) k x h = elim (found (map_set n.id n m) ns k x h) [
  | inl p ↦ inl (p.0, Memᴰ.tail p.1)
  | inr e ↦ found_here n ns k x (map_get k m) (sym (map_get-map_set n.id k n m) ∙ e)
]

blank_set :
    (i j : String) (m : List (String × List String))
    → neighbours m j ≡ []
    → neighbours (map_set i [] m) j ≡ []
unfolding neighbours
blank_set i j m h = rw (map_get-map_set i j [] m) (ground (arith, h))

pub neighbours-map_of :
    (m : List (String × List String)) (ns : List WorkflowNode)
    → ((k : String) → neighbours m k ≡ [])
    → (k : String) → neighbours (map_of (λ n. []) m ns) k ≡ []
unfolding map_of
neighbours-map_of m [] h k = h k
neighbours-map_of m (n ∷ ns) h k =
    neighbours-map_of (map_set n.id [] m) ns (λ j. blank_set n.id j m (h j)) k

is_some-push_at :
    (key value k : String) (m : List (String × List String)) (o : Option (List String))
    → map_get key m ≡ o
    → is_some (map_get k (push_at key value m o)) ≡ is_some (map_get k m)
is_some-push_at key value k m none h = refl
is_some-push_at key value k m (some vs) h =
    rw (map_get-map_set key k (vs ++ value ∷ []) m) (ground (arith, h, eq_iff key k))

has-push_at :
    (key value k w : String) (m : List (String × List String)) (o : Option (List String))
    → map_get key m ≡ o
    → has (or_nil (map_get k (push_at key value m o))) w
      ≡ (has (or_nil (map_get k m)) w || (is_some o && (key == k && value == w)))
has-push_at key value k w m none h = ground arith
has-push_at key value k w m (some vs) h =
    rw (map_get-map_set key k (vs ++ value ∷ []) m)
      (ground (arith, h, eq_iff key k, has-append vs (value ∷ []) w))

pub is_some-push :
    (key value k : String) (m : List (String × List String))
    → is_some (map_get k (push key value m)) ≡ is_some (map_get k m)
unfolding push
is_some-push key value k m = is_some-push_at key value k m (map_get key m) refl

pub has-push :
    (key value k w : String) (m : List (String × List String))
    → has (neighbours (push key value m) k) w
      ≡ (has (neighbours m k) w || (is_some (map_get key m) && (key == k && value == w)))
unfolding push neighbours
has-push key value k w m = has-push_at key value k w m (map_get key m) refl
