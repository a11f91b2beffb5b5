-- ===== src/Realtime/Protocol/Fields.antt =====
-- What the fields of an event may hold, apart from the code that tests them.
use bighead.Json.Counts.{CountOf, is_natural, is_natural-IsCount, IsCount-is_natural}
use bighead.Json.{Json, Fields, Items, null, bool, num, str, arr, obj}
use bighead.Json.Numbers.{Number, natural}
use bighead.Realtime.Protocol.{tables, operations, version_of, is_reference}
use bighead.Common.{
  ℕ, has, String, Bool, true, false, ◌≡◌, refl, ap, sym, ◌∙◌, ◌⊎◌, inl, inr, Option, none, some,
  eq_iff, ◌==◌, Bool-cases, if◌then◌else◌, subst, some_inj, arith,
}

abbrev pub IsTable : String → Type 0
IsTable table = (table ≡ "messages") ⊎ (table ≡ "tasks") ⊎ (table ≡ "notifications")

abbrev pub IsOperation : String → Type 0
IsOperation operation = (operation ≡ "INSERT") ⊎ (operation ≡ "UPDATE")

-- The version is absent, or a number that is a natural one.
abbrev pub IsVersion : Option Json → Option ℕ → Type 0
IsVersion given version =
    ((given ≡ none) × (version ≡ none)) ⊎ ((n : ℕ) × (version ≡ some n) × CountOf given n)

pub is_reference-eq-true :
    (item : Json)
    → is_reference item ≡ true
    → ((fs : Fields) × (item ≡ obj fs)) ⊎ ((vs : Items) × (item ≡ arr vs))
is_reference-eq-true (obj fs) h = inl (fs, refl)
is_reference-eq-true (arr vs) h = inr (vs, refl)
is_reference-eq-true null h = cc
is_reference-eq-true (bool b) h = cc
is_reference-eq-true (num x) h = cc
is_reference-eq-true (str s) h = cc

pub reference-is_reference :
    (item : Json)
    → ((fs : Fields) × (item ≡ obj fs)) ⊎ ((vs : Items) × (item ≡ arr vs))
    → is_reference item ≡ true
reference-is_reference item (inl (fs, e)) = ap is_reference e
reference-is_reference item (inr (vs, e)) = ap is_reference e

pub tables-IsTable : (table : String) → has tables table ≡ true → IsTable table
tables-IsTable table h = elim (Bool-cases ("messages" == table)) [
  | inl e ↦ inl (sym ((eq_iff "messages" table).0 e))
  | inr e ↦ elim (Bool-cases ("tasks" == table)) [
    | inl k ↦ inr (inl (sym ((eq_iff "tasks" table).0 k)))
    | inr k ↦ inr (inr (sym ((eq_iff "notifications" table).0 (ground (arith, h, e, k)))))
  ]
]

pub IsTable-tables : (table : String) → IsTable table → has tables table ≡ true
IsTable-tables table (inl e) = ap (has tables) e
IsTable-tables table (inr (inl e)) = ap (has tables) e
IsTable-tables table (inr (inr e)) = ap (has tables) e

pub operations-IsOperation :
    (operation : String) → has operations operation ≡ true → IsOperation operation
operations-IsOperation operation h = elim (Bool-cases ("INSERT" == operation)) [
  | inl e ↦ inl (sym ((eq_iff "INSERT" operation).0 e))
  | inr e ↦ inr (sym ((eq_iff "UPDATE" operation).0 (ground (arith, h, e))))
]

pub IsOperation-operations :
    (operation : String) → IsOperation operation → has operations operation ≡ true
IsOperation-operations operation (inl e) = ap (has operations) e
IsOperation-operations operation (inr e) = ap (has operations) e

counted :
    (x : Number) (b : Bool) (v : Option ℕ)
    → is_natural x ≡ b
    → (if b then some (some (natural x)) else none) ≡ some v
    → IsVersion (some (num x)) v
counted x true v c h = inr (natural x, sym (some_inj h), (x, refl, is_natural-IsCount x c))
counted x false v c h = cc

pub version_of-IsVersion :
    (given : Option Json) (v : Option ℕ) → version_of given ≡ some v → IsVersion given v
unfolding version_of
version_of-IsVersion none v h = inl (refl, sym (some_inj h))
version_of-IsVersion (some (num x)) v h = counted x (is_natural x) v refl h
version_of-IsVersion (some null) v h = cc
version_of-IsVersion (some (bool b)) v h = cc
version_of-IsVersion (some (str s)) v h = cc
version_of-IsVersion (some (arr vs)) v h = cc
version_of-IsVersion (some (obj fs)) v h = cc

pub IsVersion-version_of :
    (given : Option Json) (v : Option ℕ) → IsVersion given v → version_of given ≡ some v
unfolding version_of
IsVersion-version_of given v (inl (absent, e)) = rw (absent, e) refl
IsVersion-version_of given v (inr (n, e, (x, present, count))) =
    let (c, same) = IsCount-is_natural x n count in
    subst (λ g. version_of g ≡ some v) (sym present)
      (rw c (ap (λ k. some (some k)) same ∙ ap some (sym e)))
