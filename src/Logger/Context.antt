-- ===== src/Logger/Context.antt =====
-- logger/context.go: the values that a `context.Context` carries.
pub mod Laws
use go_library.Prelude.{ℕ, String, Option, some, none, ◌==◌, string_eq, if◌then◌else◌}
use go_library.Runtime.{Runtime}
use go_library.Logger.State.{M, pure, ◌>>=◌, new_id}

-- A context with what `context.WithValue` has put over it.
pub data Context : Type 0 where
  background : Context
  request_id_value : String → Context → Context
  lifecycle_value : ℕ → Context → Context

-- `WithRequestID`
unfoldable pub with_request_id : Context → String → Context
with_request_id ctx id = request_id_value id ctx

-- `RequestID`
unfoldable pub request_id : Context → String
request_id background = ""
request_id (request_id_value id ctx) = id
request_id (lifecycle_value p ctx) = request_id ctx

-- `LifecycleFrom`
unfoldable pub lifecycle_from : Context → Option ℕ
lifecycle_from background = none
lifecycle_from (request_id_value id ctx) = lifecycle_from ctx
lifecycle_from (lifecycle_value p ctx) = some p

-- `EnsureRequestID`
unfoldable pub ensure_request_id : Runtime → Context → M (Context × String)
unfolding with_request_id new_id
ensure_request_id rt ctx =
    if request_id ctx == ""
    then (do id ← new_id rt; pure (with_request_id ctx id, id))
    else pure (ctx, request_id ctx)
