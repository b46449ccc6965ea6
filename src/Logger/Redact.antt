-- ===== src/Logger/Redact.antt =====
-- logger/redact.go: the redactor and the values that it walks through. A map is the list of its
-- entries, in the order of a traversal.
pub mod Leaves
pub mod Hidden
pub mod Soundness
use go_library.Prelude.{
  String, Bool, true, false, ◌&&◌, ◌||◌, Option, none, some, List, [], ◌∷◌, ◌++◌, map, ◌==◌,
  string_eq, if◌then◌else◌,
}
use go_library.Runtime.{Runtime}
use go_library.GoText.{to_lower}
use go_library.Logger.Value.{
  Any, str, dict, strs, arr, nil_any, stages, other, Members, end, member, Items, done, item, Value,
  text, scalar, any, group, valuer, Attrs, nil, attr, Attr, any_value,
}

-- `Redacted`
abbrev pub redacted : String
redacted = "[REDACTED]"

-- A compiled regular expression is its source text.
pub record Pattern : Type 0 where
  pub regexp : String
  pub replacement : String

abbrev pub detector : String → Pattern
detector source = record { regexp = source; replacement = "" }

-- `PIIPatterns`
unfoldable pub pii_patterns : List Pattern
pii_patterns =
    detector "[A-Za-z0-9._%+-]+@[A-Za-z0-9.-]+\\.[A-Za-z]{2,}"
    ∷ detector "\\b\\d{3}-\\d{2}-\\d{4}\\b"
    ∷ detector "\\b\\d(?:[ -]?\\d){12,18}\\b"
    ∷ detector "\\b(?:\\+?\\d{1,2}[ .-]?)?\\(?\\d{3}\\)?[ .-]?\\d{3}[ .-]?\\d{4}\\b"
    ∷ []

-- `Redactor`; the key set is the list of its members.
pub record Redactor : Type 0 where
  pub keys : List String
  pub patterns : List Pattern

abbrev contains : List String → String → Bool
contains [] k = false
contains (j ∷ js) k = j == k || contains js k

-- `newRedactor`, and `NewRedactor`
unfoldable pub new_redactor : Runtime → List String → List Pattern → Option Redactor
new_redactor rt [] [] = none
new_redactor rt keys patterns = some (record { keys = map (to_lower rt) keys; patterns = patterns })

module _ (rt : Runtime) where
  -- The loop of `scrub`.
  unfoldable pub apply_patterns : List Pattern → String → String
  apply_patterns [] s = s
  apply_patterns (p ∷ ps) s =
      let repl = if p.replacement == "" then redacted else p.replacement in
      apply_patterns ps (rt.replace_all p.regexp s repl)

  module _ (r : Redactor) where
    -- `(*Redactor).scrub`
    unfoldable pub scrub : String → String
    unfolding apply_patterns
    scrub s = apply_patterns r.patterns s

    -- `(*Redactor).match`
    unfoldable pub match : String → Bool
    match key = contains r.keys (to_lower rt key)

    -- The entries of a `map[string]string`.
    unfoldable pub redact_strs : List (String × String) → List (String × String)
    redact_strs [] = []
    redact_strs ((k, s) ∷ kvs) = (k, if match k then redacted else scrub s) ∷ redact_strs kvs

    -- `(*Redactor).Any`, with `(*Redactor).Map` for its maps.
    unfoldable mutual
      pub redact_any : Any → Any
      redact_any (str s) = str (scrub s)
      redact_any (dict m) = dict (redact_map m)
      redact_any (strs kvs) = strs (redact_strs kvs)
      redact_any (arr xs) = arr (redact_items xs)
      redact_any nil_any = nil_any
      redact_any (stages ss) = stages ss
      redact_any (other n) = other n

      pub redact_map : Members → Members
      redact_map end = end
      redact_map (member k v m) =
          member k (if match k then str redacted else redact_any v) (redact_map m)

      pub redact_items : Items → Items
      redact_items done = done
      redact_items (item v xs) = item (redact_any v) (redact_items xs)

    -- `(*Redactor).Attr`: the value of a key that does not match, and the attributes of a group.
    unfoldable mutual
      pub redact_value : Value → Value
      redact_value (text s) = text (scrub s)
      redact_value (scalar x) = scalar x
      redact_value (any a) = any_value (redact_any a)
      redact_value (group gs) = group (redact_attrs gs)
      redact_value (valuer v) = redact_value v

      pub redact_attrs : Attrs → Attrs
      redact_attrs nil = nil
      redact_attrs (attr k v gs) =
          attr k (if match k then text redacted else redact_value v) (redact_attrs gs)

    unfoldable pub redact_attr : Attr → Attr
    redact_attr (k, v) = (k, if match k then text redacted else redact_value v)

  -- A nil redactor passes values through.
  unfoldable pub redact_opt : Option Redactor → Attr → Attr
  redact_opt none a = a
  redact_opt (some r) a = redact_attr r a
