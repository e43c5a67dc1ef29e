-- ===== src/Observe/Logger/Redaction.antt =====
-- What a log entry holds under each key, whatever the fields are.
use toolops.Base.{
  is_some, ◌≡◌, refl, ap, ◌∙◌, Bool, true, false, Option, none, some, List, [], ◌∷◌, map, arith,
  if◌then◌else◌, Bool-cases, inl, inr,
}
use toolops.Base.Text.{Text, bytes, ◌=ᵗ◌, =ᵗ_iff, member}
use toolops.Base.StringMap.{StringMap, lookup, insert, lookup-insert}
use toolops.Observe.Meta.{Value, text, ToolMeta, tool_id}
use toolops.Observe.Logger.{
  insert_given, LogLevel, Field, StructuredLogger, new_logger, with_tool, tool_attrs,
  is_redacted_field, redacted_fields, redacted, shown, add_attrs, add_fields, header_of, entry_of,
}

-- The loggers that the package makes.
pub data IsMade : StructuredLogger → Type 0 where
  new : (level : Text) → IsMade (new_logger level)
  with : (meta : ToolMeta) {l : StructuredLogger} → IsMade l → IsMade (with_tool meta l)

abbrev pub keys_of : List Field → List Text
keys_of fields = map (λ (f : Field). f.key) fields

shown-redacted :
    (k : Text) (f : Field) → is_redacted_field k ≡ true → (f.key =ᵗ k) ≡ true → shown f ≡ redacted
shown-redacted k f h same =
    ap (λ b. if b then redacted else f.value) (ap is_redacted_field ((=ᵗ_iff f.key k).0 same) ∙ h)

lookup-add_fields :
    (k : Text) (fields : List Field) (entry : StringMap Value)
    → is_redacted_field k ≡ true
    → lookup k (add_fields fields entry)
      ≡ (if member k (keys_of fields) then some redacted else lookup k entry)
unfolding add_fields member
lookup-add_fields k [] entry h = refl
lookup-add_fields k (f ∷ fields) entry h =
    lookup-add_fields k fields (insert f.key (shown f) entry) h ∙ elim (Bool-cases (f.key =ᵗ k)) [
      | inl same ↦ ground (arith, lookup-insert f.key k (shown f) entry, shown-redacted k f h same)
      | inr other ↦ ground (arith, lookup-insert f.key k (shown f) entry)
    ]

lookup-add_attrs :
    (k : Text) (attrs entry : StringMap Value)
    → is_some (lookup k attrs) ≡ false
    → lookup k (add_attrs attrs entry) ≡ lookup k entry
unfolding add_attrs lookup
lookup-add_attrs k [] entry h = refl
lookup-add_attrs k ((j, v) ∷ attrs) entry h = elim (Bool-cases (j =ᵗ k)) [
  | inl same ↦ absurd (ground (arith, h, same))
  | inr other ↦
      lookup-add_attrs k attrs (insert j v entry) (ground (arith, h, other))
      ∙ ground (arith, lookup-insert j k v entry, other)
]

other_key :
    (s k : Text) → is_redacted_field s ≡ false → is_redacted_field k ≡ true → (s =ᵗ k) ≡ false
other_key s k fine h = elim (Bool-cases (s =ᵗ k)) [
  | inr other ↦ other
  | inl same ↦ absurd (ground (arith, fine, h, ap is_redacted_field ((=ᵗ_iff s k).0 same)))
]

lookup-insert_other :
    (s k : Text) (v : Value) (attrs : StringMap Value)
    → is_redacted_field s ≡ false
    → is_redacted_field k ≡ true
    → lookup k (insert s v attrs) ≡ lookup k attrs
lookup-insert_other s k v attrs fine h =
    ground (arith, lookup-insert s k v attrs, other_key s k fine h)

lookup-insert_given :
    (s k t : Text) (attrs : StringMap Value)
    → is_redacted_field s ≡ false
    → is_redacted_field k ≡ true
    → lookup k (insert_given s t attrs) ≡ lookup k attrs
lookup-insert_given s k t attrs fine h =
    ground (arith, lookup-insert_other s k (text t) attrs fine h)

lookup-tool_attrs :
    (k : Text) (meta : ToolMeta) (attrs : StringMap Value)
    → is_redacted_field k ≡ true
    → lookup k (tool_attrs meta attrs) ≡ lookup k attrs
unfolding tool_attrs is_redacted_field member ◌=ᵗ◌
lookup-tool_attrs k meta attrs h =
    let attrs1 = insert (bytes "tool.id") (text (tool_id meta)) attrs in
    let attrs2 = insert (bytes "tool.name") (text meta.name) attrs1 in
    let attrs3 = insert_given (bytes "tool.namespace") meta.namespace attrs2 in
    lookup-insert_given (bytes "tool.version") k meta.version attrs3 refl h
    ∙ lookup-insert_given (bytes "tool.namespace") k meta.namespace attrs2 refl h
    ∙ lookup-insert_other (bytes "tool.name") k (text meta.name) attrs1 refl h
    ∙ lookup-insert_other (bytes "tool.id") k (text (tool_id meta)) attrs refl h

IsMade-base_attrs :
    (k : Text) {l : StructuredLogger}
    → IsMade l
    → is_redacted_field k ≡ true
    → lookup k l.base_attrs ≡ none
unfolding new_logger with_tool lookup
IsMade-base_attrs k (IsMade.new level) h = refl
IsMade-base_attrs k (IsMade.with meta {l} made) h =
    lookup-tool_attrs k meta l.base_attrs h ∙ IsMade-base_attrs k made h

lookup-header_of :
    (k timestamp msg : Text) (level : LogLevel)
    → is_redacted_field k ≡ true
    → lookup k (header_of timestamp level msg) ≡ none
unfolding lookup is_redacted_field member ◌=ᵗ◌
lookup-header_of k timestamp msg level h = ground (
  arith,
  other_key (bytes "timestamp") k refl h,
  other_key (bytes "level") k refl h,
  other_key (bytes "msg") k refl h,
)

-- Redaction: in an entry of any logger that the package makes, with whatever tools attached, at any level
-- and for any fields, a key that is to be redacted (input, password, token, ...) holds the text
-- `[REDACTED]` if some field has that key, and is absent otherwise.
pub lookup-entry_of :
    {l : StructuredLogger} (timestamp msg k : Text) (level : LogLevel) (fields : List Field)
    → IsMade l
    → is_redacted_field k ≡ true
    → lookup k (entry_of l timestamp level msg fields)
      ≡ (if member k (keys_of fields) then some redacted else none)
unfolding entry_of
lookup-entry_of {l} timestamp msg k level fields made h =
    let header = header_of timestamp level msg in
    lookup-add_fields k fields (add_attrs l.base_attrs header) h
    ∙ ap (λ rest. if member k (keys_of fields) then some redacted else rest)
        (lookup-add_attrs k l.base_attrs header (ap is_some (IsMade-base_attrs k made h))
          ∙ lookup-header_of k timestamp msg level h)

-- The value that `insert_given` leaves under a key, from the one before.
abbrev or_given : Bool → Text → Option Value → Option Value
or_given same t before = if t =ᵗ [] then before else if same then some (text t) else before

lookup-insert_given_key :
    (s k t : Text) (attrs : StringMap Value)
    → lookup k (insert_given s t attrs) ≡ or_given (s =ᵗ k) t (lookup k attrs)
lookup-insert_given_key s k t attrs = ground (arith, lookup-insert s k (text t) attrs)

abbrev attached : Text → ToolMeta → StringMap Value → Option Value
attached k meta attrs = or_given (bytes "tool.version" =ᵗ k) meta.version (
    or_given (bytes "tool.namespace" =ᵗ k) meta.namespace (
      if bytes "tool.name" =ᵗ k
      then some (text meta.name)
      else if bytes "tool.id" =ᵗ k
      then some (text (tool_id meta))
      else lookup k attrs))

lookup-tool_attrs_key :
    (k : Text) (meta : ToolMeta) (attrs : StringMap Value)
    → lookup k (tool_attrs meta attrs) ≡ attached k meta attrs
unfolding tool_attrs
lookup-tool_attrs_key k meta attrs =
    let attrs1 = insert (bytes "tool.id") (text (tool_id meta)) attrs in
    let attrs2 = insert (bytes "tool.name") (text meta.name) attrs1 in
    let attrs3 = insert_given (bytes "tool.namespace") meta.namespace attrs2 in
    lookup-insert_given_key (bytes "tool.version") k meta.version attrs3
    ∙ ap (or_given (bytes "tool.version" =ᵗ k) meta.version) (
        lookup-insert_given_key (bytes "tool.namespace") k meta.namespace attrs2
        ∙ ap (or_given (bytes "tool.namespace" =ᵗ k) meta.namespace) (
            lookup-insert (bytes "tool.name") k (text meta.name) attrs1
            ∙ ap (λ rest. if bytes "tool.name" =ᵗ k then some (text meta.name) else rest)
                (lookup-insert (bytes "tool.id") k (text (tool_id meta)) attrs)))

-- What WithTool attaches: the id and the name of the tool, its namespace and version where it has them, and
-- under each of these keys otherwise what the logger had before.
pub lookup-with_tool :
    (meta : ToolMeta) (l : StructuredLogger)
    → (lookup (bytes "tool.id") (with_tool meta l).base_attrs ≡ some (text (tool_id meta)))
      × (lookup (bytes "tool.name") (with_tool meta l).base_attrs ≡ some (text meta.name))
      × (lookup (bytes "tool.namespace") (with_tool meta l).base_attrs ≡ (
          if meta.namespace =ᵗ []
          then lookup (bytes "tool.namespace") l.base_attrs
          else some (text meta.namespace)))
      × (lookup (bytes "tool.version") (with_tool meta l).base_attrs ≡ (
          if meta.version =ᵗ []
          then lookup (bytes "tool.version") l.base_attrs
          else some (text meta.version)))
unfolding with_tool ◌=ᵗ◌
lookup-with_tool meta l = (
  lookup-tool_attrs_key (bytes "tool.id") meta l.base_attrs ∙ ground arith,
  lookup-tool_attrs_key (bytes "tool.name") meta l.base_attrs ∙ ground arith,
  lookup-tool_attrs_key (bytes "tool.namespace") meta l.base_attrs ∙ ground arith,
  lookup-tool_attrs_key (bytes "tool.version") meta l.base_attrs ∙ ground arith,
)

-- The fields that are redacted are those that RedactedFields lists to callers.
is_redacted_field-redacted_fields :
    (key : Text) → is_redacted_field key ≡ member key redacted_fields
unfolding is_redacted_field
is_redacted_field-redacted_fields key = refl
