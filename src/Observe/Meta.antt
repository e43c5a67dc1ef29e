-- ===== src/Observe/Meta.antt =====
-- observe/tracer.go, the description of a tool, and the values that telemetry carries.
use toolops.Base.{Bool, List, [], ◌∷◌, ◌++◌, if◌then◌else◌}
use toolops.Base.Int.{ℤ}
use toolops.Base.Text.{Text, bytes, ◌=ᵗ◌}

-- A value of an attribute or of a log field. A float64 is given by the int64 from which it is converted.
pub data Value : Type 0 where
  text : Text → Value
  boolean : Bool → Value
  texts : List Text → Value
  float : ℤ → Value
  opaque : Text → Value

abbrev pub Attribute : Type 0
Attribute = Text × Value

pub record ToolMeta : Type 0 where
  pub id : Text
  pub namespace : Text
  pub name : Text
  pub version : Text
  pub tags : List Text
  pub category : Text

unfoldable pub span_name : ToolMeta → Text
span_name m =
    if m.namespace =ᵗ []
    then bytes "tool.exec." ++ m.name
    else bytes "tool.exec." ++ m.namespace ++ bytes "." ++ m.name

unfoldable pub tool_id : ToolMeta → Text
tool_id m =
    if m.id =ᵗ []
    then if m.namespace =ᵗ [] then m.name else m.namespace ++ bytes "." ++ m.name
    else m.id

-- Whether Validate returns ErrMissingToolName.
unfoldable pub is_missing_name : ToolMeta → Bool
is_missing_name m = m.name =ᵗ []

-- `if s != "" { attrs = append(attrs, attribute.String(key, s)) }`
abbrev pub if_given : Text → Text → List Attribute
if_given key s = if s =ᵗ [] then [] else (key, text s) ∷ []
