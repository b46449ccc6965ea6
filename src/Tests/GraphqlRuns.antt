-- ===== src/Tests/GraphqlRuns.antt =====
-- graphql/logger.go and graphql/gqlgen/extension.go: the theorems at concrete data.
use go_library.Prelude.{
  ℕ, zero, suc, pos, ◌≡◌, refl, String, ◌<>◌, Option, some, none, List, [], ◌∷◌, ◌++◌, length,
}
use go_library.Logger.Value.{Members, end, member, str, scalar, int}
use go_library.Logger.State.{World, M, sink, json}
use go_library.Logger.State
use go_library.Logger.Context.{Context, background, request_id}
use go_library.Logger.Handler.{enabled, log}
use go_library.Logger.Lifecycle.{start_request}
use go_library.Logger.Lifecycle.Ending.{Completed}
use go_library.Oauth.Codec.{Bytes}
use go_library.Graphql.{
  Operation, Setting, with_redacted_variables, with_max_query_length, fresh, operation_name,
  operation_type, head_attrs, operation_start, finish_operation,
}
use go_library.Graphql.Outcome.{finish_operation_lem, ErrorLines, failures}
use go_library.Graphql.Gqlgen.{
  OperationContext, Response, intercept_operation, respond_all, respond_all_lem, handle_all,
  errors_of,
}
use go_library.Tests.Data.{run_time, boot, orders}
use go_library.Tests.PlainCodec.{plain}

abbrev console : State.Logger
console = record { handler = sink json 0 []; level = 0; cfg = orders }

abbrev query : Bytes
query = 123 ∷ 109 ∷ 101 ∷ 125 ∷ []

abbrev login : Members
login = member "user" (str "joe") (member "Password" (str "s3cret") end)

abbrev settings : List Setting
settings = with_redacted_variables ("password" ∷ []) ∷ with_max_query_length (pos 2) ∷ []

abbrev sign_in : Operation
sign_in = record { name = "SignIn"; op_type = "mutation"; query = query; variables = login }

abbrev errors : List (Option String)
errors = some "no such user" ∷ none ∷ some "locked" ∷ []

finish_operation_lem_example :
    let ((ctx', t), u) = operation_start run_time plain (fresh console) background sign_in boot in
    (v : World) × ErrorLines run_time t (failures errors) u v
    × Completed run_time console
        ("graphql " <> (operation_type sign_in <> (" " <> operation_name sign_in)))
        t.lc
        ctx'
        (head_attrs (operation_name sign_in) (operation_type sign_in)
          ++ ("graphql.errorCount", scalar (int (pos (length (failures errors))))) ∷ [])
        v
        (finish_operation run_time t errors u).1
unfolding operation_start enabled log start_request request_id
finish_operation_lem_example =
    finish_operation_lem run_time plain (fresh console) background sign_in errors boot refl refl

-- A subscription of two responses, the second one with an error.
abbrev subscription : ℕ → M (Option Response)
subscription zero w = (some (record { errors = [] }), w)
subscription (suc n) w = (some (record { errors = "gone" ∷ [] }), w)

abbrev prepare : Context → M (Unit {0})
prepare ctx w = (tt, w)

abbrev ticks : OperationContext
ticks = record { operation_name = "Ticks"; raw_query = query; variables = end; operation = none }

respond_all_lem_example :
    let ((ctx', i), u) =
      intercept_operation run_time plain prepare (fresh console) background ticks boot in
    let (resp, u') = subscription 0 u in
    let (resps, v) =
      handle_all run_time plain subscription 1 1
        (finish_operation run_time i.trace (errors_of resp) u').1 in
    (respond_all run_time plain subscription i 0 2 u ≡ (resp ∷ resps, v))
    × (respond_all run_time plain subscription i 0 0 u ≡ ([], u))
respond_all_lem_example =
    respond_all_lem run_time plain subscription prepare (fresh console) background ticks 1 boot
