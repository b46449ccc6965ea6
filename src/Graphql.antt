-- ===== src/Graphql.antt =====
-- graphql/logger.go: GraphQL operations, over the redactor and the lifecycle of the logger package. The
-- function that `OperationStart` returns is the value of what it captures. A query is a byte string.
pub mod Queries
pub mod Attributes
pub mod Outcome
pub mod Gqlgen
use go_library.Prelude.{
  ℕ, suc, ℤ, pos, pos_part, String, ◌<>◌, Bool, true, false, not, ◌&&◌, Option, none, some, List,
  [], ◌∷◌, ◌++◌, length, take, leb, ltb_ℤ, ◌==◌, string_eq, if◌then◌else◌,
}
use go_library.Runtime.{Runtime}
use go_library.Logger.Value.{Members, end, member, dict, Attr, text, scalar, int, any}
use go_library.Logger.Redact.{Redactor, new_redactor, redact_map}
use go_library.Logger.State.{M, ◌>>=◌, ◌>>◌, pure}
use go_library.Logger.State
use go_library.Logger.Context.{Context, lifecycle_from}
use go_library.Logger.Handler.{info, error, err_attr}
use go_library.Logger.Lifecycle.{start_request, finish}
use go_library.Logger.Lifecycle
use go_library.Oauth.Codec.{Bytes, Codec}

-- `Operation`
pub record Operation : Type 0 where
  pub name : String
  pub op_type : String
  pub query : Bytes
  pub variables : Members

-- `Logger`
pub record Logger : Type 0 where
  pub base : State.Logger
  pub log_variables : Bool
  pub redact_names : List String
  pub redactor : Option Redactor
  pub max_query_len : ℤ

-- `Option`
pub data Setting : Type 0 where
  with_variables : Bool → Setting
  with_redacted_variables : List String → Setting
  with_max_query_length : ℤ → Setting

unfoldable pub apply_setting : Setting → Logger → Logger
apply_setting (with_variables on) l = record l { log_variables = on }
apply_setting (with_redacted_variables names) l = record l {
  redact_names = l.redact_names ++ names;
}
apply_setting (with_max_query_length n) l = record l { max_query_len = n }

unfoldable pub apply_settings : List Setting → Logger → Logger
unfolding apply_setting
apply_settings [] l = l
apply_settings (s ∷ ss) l = apply_settings ss (apply_setting s l)

-- The logger to which `New` applies the settings.
abbrev pub fresh : State.Logger → Logger
fresh base = record {
  base = base;
  log_variables = true;
  redact_names = [];
  redactor = none;
  max_query_len = pos 2000;
}

-- `New`
unfoldable pub new : Runtime → State.Logger → List Setting → Logger
unfolding apply_settings new_redactor
new rt base settings =
    let l = apply_settings settings (fresh base) in
    record l { redactor = new_redactor rt l.redact_names [] }

-- "...(truncated)"
abbrev pub ellipsis : Bytes
ellipsis = 46 ∷ 46 ∷ 46 ∷ 40 ∷ 116 ∷ 114 ∷ 117 ∷ 110 ∷ 99 ∷ 97 ∷ 116 ∷ 101 ∷ 100 ∷ 41 ∷ []

-- `truncate`, of a length that is not negative.
unfoldable pub truncate : Bytes → ℕ → Bytes
truncate s n = if leb (length s) n then s else take n s ++ ellipsis

abbrev or_default : String → String → String
or_default s default_ = if s == "" then default_ else s

unfoldable pub operation_name : Operation → String
operation_name op = or_default op.name "anonymous"

unfoldable pub operation_type : Operation → String
operation_type op = or_default op.op_type "query"

-- What the function returned by `OperationStart` captures.
pub record Trace : Type 0 where
  pub base : State.Logger
  pub ctx : Context
  pub lc : ℕ
  pub name : String
  pub op_type : String

abbrev pub head_attrs : String → String → List Attr
head_attrs name op_type = ("graphql.operation", text name) ∷ ("graphql.type", text op_type) ∷ []

module _ (rt : Runtime) where
  -- `(*Redactor).Map`, which a nil redactor does not change.
  unfoldable pub redact_variables : Option Redactor → Members → Members
  redact_variables none m = m
  redact_variables (some r) m = redact_map rt r m

  unfoldable pub variables_attrs : Logger → Members → List Attr
  unfolding redact_variables
  variables_attrs l end = []
  variables_attrs l (member k v m) =
      if l.log_variables
      then ("graphql.variables", any (dict (redact_variables l.redactor (member k v m)))) ∷ []
      else []

  unfoldable pub query_attrs : Codec → Logger → Bytes → List Attr
  unfolding truncate
  query_attrs cx l [] = []
  query_attrs cx l (b ∷ bs) =
      if ltb_ℤ (pos 0) l.max_query_len
      then ("graphql.query", text (cx.text_of (truncate (b ∷ bs) (pos_part l.max_query_len)))) ∷ []
      else []

  unfoldable pub operation_attrs : Codec → Logger → Operation → List Attr
  unfolding operation_name operation_type query_attrs variables_attrs
  operation_attrs cx l op =
      head_attrs (operation_name op) (operation_type op)
      ++ (query_attrs cx l op.query ++ variables_attrs l op.variables)

  -- `OperationStart`
  unfoldable pub operation_start : Codec → Logger → Context → Operation → M (Context × Trace)
  unfolding operation_attrs
  operation_start cx l ctx op = do
    let name = operation_name op
    let op_type = operation_type op
    let attrs = operation_attrs cx l op
    (ctx1, p) ← start_request rt l.base ctx ("graphql " <> (op_type <> (" " <> name))) attrs
    info rt l.base ctx1 "graphql operation started" attrs
    pure (ctx1, record { base = l.base; ctx = ctx1; lc = p; name = name; op_type = op_type })

  -- The loop over the errors; the result is the count of those that are not nil.
  unfoldable pub report_errors : Trace → List (Option String) → ℕ → M ℕ
  report_errors t [] n = pure n
  report_errors t (none ∷ errs) n = report_errors t errs n
  report_errors t (some e ∷ errs) n = do
    error rt t.base t.ctx "graphql operation error"
        (head_attrs t.name t.op_type ++ err_attr (some e) ∷ [])
    report_errors t errs (suc n)

  -- The function that `OperationStart` returns.
  unfoldable pub finish_operation : Trace → List (Option String) → M (Unit {0})
  unfolding report_errors
  finish_operation t errs = do
    n ← report_errors t errs 0
    finish rt (some t.lc) t.ctx
        (head_attrs t.name t.op_type ++ ("graphql.errorCount", scalar (int (pos n))) ∷ [])

  -- `Stage`
  unfoldable pub stage : Context → String → List Attr → M (Unit {0})
  stage ctx name attrs = Lifecycle.stage rt (lifecycle_from ctx) ctx name attrs
