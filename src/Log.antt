-- ===== src/Log.antt =====
-- internal/log/log.go: the level that a text names, the attributes that a record gets, and the names of
-- the fields. strings.ToLower is a parameter, and the record is written by log/slog.
use tracearr.Prelude.{
  ◌||◌, String, List, [], ◌∷◌, ◌++◌, Option, none, some, ◌==◌, string_eq, if◌then◌else◌,
}

pub data Level : Type 0 where
  level_debug level_info level_warn level_error : Level

abbrev pub LogAttr : Type 0
LogAttr = String × String

unfoldable pub parse_level : (String → String) → String → Level
parse_level to_lower s =
    let l = to_lower s in
    if l == "debug"
    then level_debug
    else if l == "warn" || l == "warning"
    then level_warn
    else if l == "error"
    then level_error
    else level_info

-- `Handle` before the inner handler: the ids of the context's span, where it is valid
unfoldable pub handle : Option (String × String) → List LogAttr → List LogAttr
handle none attrs = attrs
handle (some (trace_id, span_id)) attrs =
    attrs ++ (("trace_id", trace_id) ∷ ("span_id", span_id) ∷ [])

-- slog's names of the time, the level and the message
unfoldable pub replace_attr : LogAttr → LogAttr
replace_attr (key, value) =
    if key == "time"
    then ("ts", value)
    else if key == "level"
    then ("severity", value)
    else if key == "msg"
    then ("msg", value)
    else (key, value)

-- New: the level, and the attribute of every record
unfoldable pub new_logger : (String → String) → String → Level × List LogAttr
unfolding parse_level
new_logger to_lower level = (parse_level to_lower level, ("service.name", "tracearr") ∷ [])
