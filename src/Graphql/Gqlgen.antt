-- ===== src/Graphql/Gqlgen.antt =====
-- graphql/gqlgen/extension.go: an operation of gqlgen, finished at its first response. The operation
-- handler that gqlgen passes to the extension is a parameter: what its call logs, and of the response
-- handler that it returns the answer to the n-th call and what that call logs.
use go_library.Prelude.{
  ℕ, zero, suc, ◌≡◌, refl, ap, String, Bool, true, false, Option, none, some, List, [], ◌∷◌, map,
  ◌==◌, string_eq, if◌then◌else◌,
}
use go_library.Runtime.{Runtime}
use go_library.Logger.Value.{Members}
use go_library.Logger.State.{World, M, ◌>>=◌, ◌>>◌, pure}
use go_library.Logger.Context.{Context}
use go_library.Oauth.Codec.{Bytes, Codec}
use go_library.Graphql.{Logger, Operation, Trace, operation_start, finish_operation}

-- The definition of an operation, and what gqlgen knows of an operation.
pub record Definition : Type 0 where
  pub operation : String
  pub name : String

pub record OperationContext : Type 0 where
  pub operation_name : String
  pub raw_query : Bytes
  pub variables : Members
  pub operation : Option Definition

-- `gql.Response`, by the texts of its errors.
pub record Response : Type 0 where
  pub errors : List String

-- The operation that the extension passes on.
unfoldable pub operation_of : OperationContext → Operation
operation_of oc = elim oc.operation [
  | none ↦ record {
    name = oc.operation_name;
    op_type = "";
    query = oc.raw_query;
    variables = oc.variables;
  }
  | some d ↦ record {
    name = if oc.operation_name == "" then d.name else oc.operation_name;
    op_type = d.operation;
    query = oc.raw_query;
    variables = oc.variables;
  }
]

-- What the response handler captures: the trace, and whether `once` was done.
pub record Interception : Type 0 where
  pub trace : Trace
  pub finished : Bool

unfoldable pub errors_of : Option Response → List (Option String)
errors_of none = []
errors_of (some r) = map some r.errors

module _ (rt : Runtime) (cx : Codec) where
  -- `InterceptOperation`, and the context that the next handler is given.
  unfoldable pub intercept_operation :
      (Context → M (Unit {0})) → Logger → Context → OperationContext → M (Context × Interception)
  unfolding operation_of
  intercept_operation next l ctx oc = do
    (ctx1, t) ← operation_start rt cx l ctx (operation_of oc)
    next ctx1
    pure (ctx1, record { trace = t; finished = false })

  module _ (handler : ℕ → M (Option Response)) where
    -- The call `n` of the response handler.
    unfoldable pub respond : Interception → ℕ → M (Interception × Option Response)
    unfolding errors_of
    respond i n = do
      resp ← handler n
      if i.finished then pure (i, resp) else (do
        finish_operation rt i.trace (errors_of resp)
        pure (record i { finished = true }, resp))

    -- So many calls, of which the first is the given one, and their responses.
    unfoldable pub respond_all : Interception → ℕ → ℕ → M (List (Option Response))
    unfolding respond
    respond_all i n zero = pure []
    respond_all i n (suc k) = do
      (i', resp) ← respond i n
      resps ← respond_all i' (suc n) k
      pure (resp ∷ resps)

    -- The calls of the handler alone.
    abbrev pub handle_all : ℕ → ℕ → M (List (Option Response))
    handle_all n zero = pure []
    handle_all n (suc k) = do resp ← handler n; resps ← handle_all (suc n) k; pure (resp ∷ resps)

    respond_finished :
        (i : Interception) (n : ℕ) (w : World)
        → i.finished ≡ true
        → respond i n w ≡ ((i, (handler n w).0), (handler n w).1)
    unfolding respond
    respond_finished i n w h = rw h refl

    respond_all_finished :
        (i : Interception) (n k : ℕ) (w : World)
        → i.finished ≡ true
        → respond_all i n k w ≡ handle_all n k w
    unfolding respond_all
    respond_all_finished i n zero w h = refl
    respond_all_finished i n (suc k) w h =
        rw (respond_finished i n w h) (rw (respond_all_finished i (suc n) k (handler n w).1 h) refl)

    -- However often the response handler of an operation is called: the responses are those of the
    -- wrapped handler, the operation is finished at the first call, with the errors of the first response,
    -- and every later call is a call of the wrapped handler and no more. Before the first call
    -- nothing is finished.
    pub respond_all_lem :
        (next : Context → M (Unit {0})) (l : Logger) (ctx : Context) (oc : OperationContext) (k : ℕ)
        (w : World)
        → let ((ctx', i), u) = intercept_operation next l ctx oc w in
          let (resp, u') = handler 0 u in
          let (resps, v) = handle_all 1 k (finish_operation rt i.trace (errors_of resp) u').1 in
          (respond_all i 0 (suc k) u ≡ (resp ∷ resps, v)) × (respond_all i 0 0 u ≡ ([], u))
    unfolding intercept_operation respond_all respond
    respond_all_lem next l ctx oc k w =
        let ((ctx', i), u) = intercept_operation next l ctx oc w in
        let (resp, u') = handler 0 u in
        let w' = (finish_operation rt i.trace (errors_of resp) u').1 in
        (
          ap (λ (r : List (Option Response) × World). (resp ∷ r.0, r.1))
              (respond_all_finished (record i { finished = true }) 1 k w' refl),
          refl,
        )
