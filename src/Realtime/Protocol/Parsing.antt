-- ===== src/Realtime/Protocol/Parsing.antt =====
-- Which values pass the check of an event.
use bighead.Json.Counts.{as_string-eq-some}
use bighead.Realtime.Protocol.Fields.{
  IsTable, IsOperation, IsVersion, is_reference-eq-true, reference-is_reference, tables-IsTable,
  IsTable-tables, operations-IsOperation, IsOperation-operations, version_of-IsVersion,
  IsVersion-version_of,
}
use bighead.Common.{
  ap, ◌⊎◌, inl, inr, false, has, ℕ, String, Bool, true, ◌≡◌, refl, ◌↔◌, Option, none, some, arith,
  and-eq-true, guard-eq-some, >>=-eq-some, subst, some_inj,
}
use bighead.Json.{Json, Fields, Items, arr, num, str, obj, field, end, get, as_string, lookup}
use bighead.Json.Numbers.{Number, of_ℕ}
use bighead.Realtime.Protocol.{
  RealtimeEvent, tables, operations, string_of, string_of?, version_of, is_reference,
  parse_workspace_realtime_event,
}

-- The fields of the value say what the event says, and the event is one that the browser takes.
pub record Describes (number_text : Number → String) (date_parses : String → Bool) (item : Json)
    (e : RealtimeEvent) : Type 0 where
  pub reference : ((fs : Fields) × (item ≡ obj fs)) ⊎ ((vs : Items) × (item ≡ arr vs))
  pub id : get item "id" ≡ some (str e.id)
  pub table : string_of? number_text (get item "table") ≡ e.table
  pub operation : string_of? number_text (get item "operation") ≡ e.operation
  pub entity_id : get item "entityId" ≡ some (str e.entity_id)
  pub occurred_at : get item "occurredAt" ≡ some (str e.occurred_at)
  pub version : IsVersion (get item "version") e.version
  pub known_table : IsTable e.table
  pub known_operation : IsOperation e.operation
  pub dated : date_parses e.occurred_at ≡ true

module _ (number_text : Number → String) (date_parses : String → Bool) (item : Json)
    (e : RealtimeEvent) where
  described :
      {id entity_id occurred_at : String} {version : Option ℕ}
      → is_reference item ≡ true
      → as_string (get item "id") ≡ some id
      → has tables (string_of? number_text (get item "table")) ≡ true
      → has operations (string_of? number_text (get item "operation")) ≡ true
      → as_string (get item "entityId") ≡ some entity_id
      → as_string (get item "occurredAt") ≡ some occurred_at
      → date_parses occurred_at ≡ true
      → version_of (get item "version") ≡ some version
      → record {
        id = id;
        table = string_of? number_text (get item "table");
        operation = string_of? number_text (get item "operation");
        entity_id = entity_id;
        occurred_at = occurred_at;
        version = version;
      }
        ≡ e
      → Describes number_text date_parses item e
  described {id = id} {entity_id = entity_id} {occurred_at = occurred_at} {version = version} r i t
        o n c d v same =
      subst (Describes number_text date_parses item) same (record {
        reference = is_reference-eq-true item r;
        id = as_string-eq-some (get item "id") id i;
        table = refl;
        operation = refl;
        entity_id = as_string-eq-some (get item "entityId") entity_id n;
        occurred_at = as_string-eq-some (get item "occurredAt") occurred_at c;
        version = version_of-IsVersion (get item "version") version v;
        known_table = tables-IsTable (string_of? number_text (get item "table")) t;
        known_operation = operations-IsOperation (string_of? number_text (get item "operation")) o;
        dated = d;
      })

  parse_sound :
      parse_workspace_realtime_event number_text date_parses item ≡ some e
      → Describes number_text date_parses item e
  unfolding parse_workspace_realtime_event
  parse_sound h =
      let (reference, h₁) = guard-eq-some _ _ h in
      let (id, id_eq, h₂) = >>=-eq-some _ _ h₁ in
      let (known, h₃) = guard-eq-some _ _ h₂ in
      let (entity_id, entity_eq, h₄) = >>=-eq-some _ _ h₃ in
      let (occurred_at, occurred_eq, h₅) = >>=-eq-some _ _ h₄ in
      let (dated, h₆) = guard-eq-some _ _ h₅ in
      let (version, version_eq, h₇) = >>=-eq-some _ _ h₆ in
      let (known_table, known_operation) = and-eq-true _ _ known in
      described reference id_eq known_table known_operation entity_eq occurred_eq dated version_eq
        (some_inj h₇)

  parse_complete :
      Describes number_text date_parses item e
      → parse_workspace_realtime_event number_text date_parses item ≡ some e
  unfolding parse_workspace_realtime_event
  parse_complete d = rw (
    reference-is_reference item d.reference,
    ap as_string d.id,
    d.table,
    d.operation,
    IsTable-tables e.table d.known_table,
    IsOperation-operations e.operation d.known_operation,
    ap as_string d.entity_id,
    ap as_string d.occurred_at,
    d.dated,
    IsVersion-version_of (get item "version") e.version d.version,
  )

  -- A value is taken for an event exactly when it is an object or an array whose fields spell the
  -- event, name one of "messages", "tasks" and "notifications" and one of "INSERT" and "UPDATE",
  -- as far as the text of the field goes, and carry a date that parses and either no version or a
  -- number that is a natural one.
  pub parse_iff :
      (parse_workspace_realtime_event number_text date_parses item ≡ some e)
      ↔ Describes number_text date_parses item e
  parse_iff = (parse_sound, parse_complete)

-- What the server serialises for an event: an absent version is left out.
abbrev version_field : Option ℕ → Fields
version_field none = end
version_field (some v) = field "version" (num (of_ℕ v)) end

unfoldable pub event_json : RealtimeEvent → Json
event_json e = obj (
    field "id" (str e.id) (
      field "table" (str e.table) (
        field "operation" (str e.operation) (
          field "entityId" (str e.entity_id)
            (field "occurredAt" (str e.occurred_at) (version_field e.version))))))

version_field-IsVersion :
    (version : Option ℕ) → IsVersion (lookup "version" (version_field version)) version
version_field-IsVersion none = inl (refl, refl)
version_field-IsVersion (some v) =
    inr (v, refl, (of_ℕ v, refl, (false, v, 0, refl, omega arith, inl refl)))

module _ (number_text : Number → String) (date_parses : String → Bool) (e : RealtimeEvent) where
  -- An event with a known table and operation and a date that parses is read back as it was sent.
  pub parse-event_json :
      IsTable e.table
      → IsOperation e.operation
      → date_parses e.occurred_at ≡ true
      → parse_workspace_realtime_event number_text date_parses (event_json e) ≡ some e
  unfolding event_json string_of? string_of
  parse-event_json t o d = parse_complete number_text date_parses (event_json e) e (record {
    reference = inl (_, refl);
    id = refl;
    table = refl;
    operation = refl;
    entity_id = refl;
    occurred_at = refl;
    version = version_field-IsVersion e.version;
    known_table = t;
    known_operation = o;
    dated = d;
  })
