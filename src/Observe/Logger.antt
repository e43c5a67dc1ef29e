-- ===== src/Observe/Logger.antt =====
-- observe/logger.go: structured logging. The time's format, json.Marshal and the writer are parameters.
pub mod Redaction
use toolops.Base.{ℕ, Bool, true, false, Option, none, some, List, [], ◌∷◌, ltb, if◌then◌else◌}
use toolops.Base.Time.{Instant}
use toolops.Base.Text.{Text, bytes, ◌=ᵗ◌, member}
use toolops.Base.StringMap.{StringMap, insert}
use toolops.Observe.Meta.{Value, text, ToolMeta, tool_id}

pub data LogLevel : Type 0 where
  level_debug level_info level_warn level_error : LogLevel

-- The number of a level.
abbrev pub rank : LogLevel → ℕ
rank level_debug = 0
rank level_info = 1
rank level_warn = 2
rank level_error = 3

unfoldable pub parse_log_level : Text → LogLevel
parse_log_level s =
    if s =ᵗ bytes "debug"
    then level_debug
    else if s =ᵗ bytes "info"
    then level_info
    else if s =ᵗ bytes "warn"
    then level_warn
    else if s =ᵗ bytes "error"
    then level_error
    else level_info

-- `String()`
unfoldable pub level_text : LogLevel → Text
level_text level_debug = bytes "debug"
level_text level_info = bytes "info"
level_text level_warn = bytes "warn"
level_text level_error = bytes "error"

pub record Field : Type 0 where
  pub key : Text
  pub value : Value

pub record StructuredLogger : Type 0 where
  pub level : LogLevel
  pub tool_meta : Option ToolMeta
  pub base_attrs : StringMap Value

-- The interface Logger, by its implementations.
pub data Logger : Type 0 where
  structured : StructuredLogger → Logger
  noop_logger : Logger

unfoldable pub new_logger : Text → StructuredLogger
unfolding parse_log_level
new_logger level = record { level = parse_log_level level; tool_meta = none; base_attrs = [] }

abbrev insert_given : Text → Text → StringMap Value → StringMap Value
insert_given key s attrs = if s =ᵗ [] then attrs else insert key (text s) attrs

unfoldable pub tool_attrs : ToolMeta → StringMap Value → StringMap Value
unfolding insert tool_id
tool_attrs meta attrs =
    let attrs1 = insert (bytes "tool.id") (text (tool_id meta)) attrs in
    let attrs2 = insert (bytes "tool.name") (text meta.name) attrs1 in
    insert_given (bytes "tool.version") meta.version
      (insert_given (bytes "tool.namespace") meta.namespace attrs2)

unfoldable pub with_tool : ToolMeta → StructuredLogger → StructuredLogger
unfolding tool_attrs
with_tool meta l = record {
  level = l.level;
  tool_meta = some meta;
  base_attrs = tool_attrs meta l.base_attrs;
}

unfoldable pub logger_with_tool : ToolMeta → Logger → Logger
logger_with_tool meta (structured l) = structured (with_tool meta l)
logger_with_tool meta noop_logger = noop_logger

-- RedactedFields, the list that callers see.
abbrev pub redacted_fields : List Text
redacted_fields =
    bytes "input"
    ∷ bytes "inputs"
    ∷ bytes "password"
    ∷ bytes "secret"
    ∷ bytes "token"
    ∷ bytes "api_key"
    ∷ bytes "apiKey"
    ∷ bytes "credential"
    ∷ []

abbrev pub redacted_keys : List Text
redacted_keys =
    bytes "input"
    ∷ bytes "inputs"
    ∷ bytes "password"
    ∷ bytes "secret"
    ∷ bytes "token"
    ∷ bytes "api_key"
    ∷ bytes "apiKey"
    ∷ bytes "credential"
    ∷ []

unfoldable pub is_redacted_field : Text → Bool
unfolding member
is_redacted_field key = member key redacted_keys

abbrev pub redacted : Value
redacted = text (bytes "[REDACTED]")

-- What the entry holds for a field.
abbrev pub shown : Field → Value
shown f = if is_redacted_field f.key then redacted else f.value

-- The loop over the base attributes.
unfoldable pub add_attrs : StringMap Value → StringMap Value → StringMap Value
unfolding insert
add_attrs [] entry = entry
add_attrs ((k, v) ∷ attrs) entry = add_attrs attrs (insert k v entry)

-- The loop over the fields.
unfoldable pub add_fields : List Field → StringMap Value → StringMap Value
unfolding insert
add_fields [] entry = entry
add_fields (f ∷ fields) entry = add_fields fields (insert f.key (shown f) entry)

abbrev pub header_of : Text → LogLevel → Text → StringMap Value
header_of timestamp level msg =
    (bytes "timestamp", text timestamp)
    ∷ (bytes "level", text (level_text level))
    ∷ (bytes "msg", text msg)
    ∷ []

unfoldable pub entry_of : StructuredLogger → Text → LogLevel → Text → List Field → StringMap Value
unfolding add_attrs add_fields
entry_of l timestamp level msg fields =
    add_fields fields (add_attrs l.base_attrs (header_of timestamp level msg))

-- What logging needs of the host: the clock with its format, json.Marshal, `none` where it fails, and the
-- writer's Write, which says whether it failed.
pub record Host (W : Type 0) : Type 0 where
  pub timestamp : W → Text
  pub marshal : StringMap Value → Option Text
  pub write : Text → W → Bool × W

module _ {W : Type 0} (h : Host W) where
  open h use {timestamp, marshal, write}

  abbrev pub end_line : Bool × W → W
  end_line (true, w) = w
  end_line (false, w) = (write (10 ∷ []) w).1

  abbrev pub write_line : Option Text → W → W
  write_line none w = w
  write_line (some line) w = end_line (write line w)

  unfoldable pub log : StructuredLogger → LogLevel → Text → List Field → W → W
  unfolding entry_of
  log l level msg fields w =
      if ltb (rank level) (rank l.level)
      then w
      else write_line (marshal (entry_of l (timestamp w) level msg fields)) w

  -- Info, Warn, Error and Debug of a Logger, by the level.
  unfoldable pub log_at : LogLevel → Logger → Text → List Field → W → W
  unfolding log
  log_at level (structured l) msg fields w = log l level msg fields w
  log_at level noop_logger msg fields w = w
