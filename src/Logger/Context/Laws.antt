-- ===== src/Logger/Context/Laws.antt =====
-- logger/context.go: every context that passes `EnsureRequestID` carries one request ID.
use text.Mathlib.TextLemmas.{nil-append, cons-append, cons-ne-nil}
use go_library.Prelude.{
  ℕ, ◌≡◌, refl, ◌≢◌, String, ◌<>◌, Bool-cases, inl, inr, List, [], ◌∷◌, ◌==◌, string_eq,
}
use go_library.Runtime.{Runtime}
use go_library.RequestId.{hex, uuid}
use go_library.Logger.State.{World}
use go_library.Logger.Context.{Context, request_id, lifecycle_from, ensure_request_id}

hex-dash-ne-nil : (vs : List ℕ) (s : String) → hex vs <> ("-" <> s) ≢ ""
unfolding hex
hex-dash-ne-nil [] s e = cons-ne-nil "-" s (rw (nil-append, cons-append, nil-append) at e)
hex-dash-ne-nil (v ∷ vs) s e = cons-ne-nil _ _ (rw cons-append at e)

pub uuid-ne-nil : (b : List ℕ) → uuid b ≢ ""
unfolding uuid
uuid-ne-nil b e = hex-dash-ne-nil _ _ e

-- What `EnsureRequestID` promises: the context that it returns carries the ID that it returns, which
-- is not empty; the lifecycle of the context stays; and an ID that is there already is kept, with
-- the context and the world unchanged.
pub record Ensures (ctx : Context) (w : World) (r : (Context × String) × World) : Type 0 where
  pub carried : request_id r.0.0 ≡ r.0.1
  pub not_empty : r.0.1 ≢ ""
  pub same_lifecycle : lifecycle_from r.0.0 ≡ lifecycle_from ctx
  pub kept : request_id ctx ≢ "" → r ≡ ((ctx, request_id ctx), w)

-- The context that `EnsureRequestID` returns carries the id that it returns, which is not empty, and
-- the lifecycle of the given context; a context that has an id is returned as it is.
pub ensure_request_id-Ensures :
    (rt : Runtime) (ctx : Context) (w : World) → Ensures ctx w (ensure_request_id rt ctx w)
unfolding ensure_request_id request_id lifecycle_from
ensure_request_id-Ensures rt ctx w = elim (Bool-cases (request_id ctx == "")) [
  | inl empty ↦
      rw (empty, ensure_request_id)
        (record {
          carried = refl;
          not_empty = uuid-ne-nil _;
          same_lifecycle = refl;
          kept = λ ne. absurd (ne ((string_eq.agree_iff _ _).0 empty));
        })
  | inr full ↦
      rw (full, ensure_request_id)
        (record {
          carried = refl;
          not_empty = λ e. cc ((string_eq.agree_iff (request_id ctx) "").1 e);
          same_lifecycle = refl;
          kept = λ ne. refl;
        })
]
