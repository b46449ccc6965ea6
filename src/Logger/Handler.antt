-- ===== src/Logger/Handler.antt =====
-- logger/handler.go, and the handler and the methods of logger/redact.go and logger/logger.go that
-- write lines.
pub mod Clean
pub mod Effects
use go_library.Prelude.{
  ℕ, String, Bool, not, ◌≡◌, Option, some, none, List, [], ◌∷◌, ◌++◌, map, ltb_ℤ, set, length, ◌==◌,
  string_eq, if◌then◌else◌,
}
use go_library.Runtime.{Runtime}
use go_library.Logger.Value.{Value, text, scalar, any, Scalar, int, Attr, nil_any}
use go_library.Logger.Redact.{scrub, redact_attr}
use go_library.Logger.Level.{
  Level, level_debug, level_info, level_warn, level_error, parse_level, level_string,
}
use go_library.Logger.State.{
  Scope, bound, opened, Handler, sink, redact_handler, context_handler, Logger, Record, Line, World,
  M, ◌>>=◌, ◌>>◌, pure, now, level_at,
}
use go_library.Logger.Context.{Context, request_id}

module _ (rt : Runtime) where
  -- `Enabled`, which the decorators pass on.
  unfoldable pub enabled : Handler → World → Level → Bool
  enabled (sink f v scopes) w l = not (ltb_ℤ l (level_at w.levels v))
  enabled (redact_handler r h) w l = enabled h w l
  enabled (context_handler h) w l = enabled h w l

  abbrev redact_record : Handler → Record → Record
  redact_record (redact_handler r h) rec = record rec {
    message = scrub rt r rec.message;
    attrs = map (redact_attr rt r) rec.attrs;
  }
  redact_record h rec = rec

  -- The record to which `contextHandler.Handle` adds the request ID.
  unfoldable pub add_request_id : Context → Record → Record
  add_request_id ctx rec =
      if request_id ctx == ""
      then rec
      else record rec { attrs = rec.attrs ++ ("requestId", text (request_id ctx)) ∷ [] }

  -- `Handle`
  unfoldable pub handle : Handler → Context → Record → M (Unit {0})
  unfolding add_request_id
  handle (sink f v scopes) ctx rec w = (
    tt,
    record w { lines = w.lines ++ record { format = f; scopes = scopes; record_ = rec } ∷ [] },
  )
  handle (redact_handler r h) ctx rec w = handle h ctx (redact_record (redact_handler r h) rec) w
  handle (context_handler h) ctx rec w = handle h ctx (add_request_id ctx rec) w

  -- `WithAttrs`
  unfoldable pub with_attrs : Handler → List Attr → Handler
  with_attrs (sink f v scopes) args = sink f v (scopes ++ bound args ∷ [])
  with_attrs (redact_handler r h) args =
      redact_handler r (with_attrs h (map (redact_attr rt r) args))
  with_attrs (context_handler h) args = context_handler (with_attrs h args)

  -- `WithGroup`
  unfoldable pub with_group : Handler → String → Handler
  with_group (sink f v scopes) name = sink f v (scopes ++ opened name ∷ [])
  with_group (redact_handler r h) name = redact_handler r (with_group h name)
  with_group (context_handler h) name = context_handler (with_group h name)

  -- A `slog` method such as `InfoContext`: a record with the present time, if the level is enabled.
  unfoldable pub log : Logger → Level → Context → String → List Attr → M (Unit {0})
  unfolding enabled handle now
  log l level ctx msg args w =
      if enabled l.handler w level
      then (do
        t ← now rt
        handle l.handler ctx (record { time = t; level = level; message = msg; attrs = args }))
          w
      else (tt, w)

  -- `Debug`, `Info`, `Warn` and `Error`
  abbrev pub debug : Logger → Context → String → List Attr → M (Unit {0})
  debug l = log l level_debug

  abbrev pub info : Logger → Context → String → List Attr → M (Unit {0})
  info l = log l level_info

  abbrev pub warn : Logger → Context → String → List Attr → M (Unit {0})
  warn l = log l level_warn

  abbrev pub error : Logger → Context → String → List Attr → M (Unit {0})
  error l = log l level_error

  -- `With`; slog returns the same logger for no arguments.
  unfoldable pub with : Logger → List Attr → Logger
  unfolding with_attrs
  with l [] = l
  with l (a ∷ args) = record l { handler = with_attrs l.handler (a ∷ args) }

  -- `SetLevel`
  unfoldable pub set_level : Logger → String → M (Unit {0})
  set_level l level w = (tt, record w { levels = set w.levels l.level (parse_level rt level) })

-- `Err`, at the text of an error or at nil; slog drops the empty attribute.
unfoldable pub err_attr : Option String → Attr
err_attr none = ("", any nil_any)
err_attr (some message) = ("error", text message)

-- `renameAttrs`, which a sink applies to the built-in attributes and to the leaves of the others; a
-- level reaches it as a value of its own kind.
pub data Field : Type 0 where
  level_value : Level → Field
  value : Value → Field

abbrev rename_level : Field → Field
rename_level (level_value l) = value (text (level_string l))
rename_level (value x) = value x

unfoldable pub rename_attrs : String × Field → String × Field
rename_attrs (k, v) =
    if k == "time"
    then ("timestamp", v)
    else if k == "msg"
    then ("message", v)
    else if k == "level"
    then (k, rename_level v)
    else (k, v)
