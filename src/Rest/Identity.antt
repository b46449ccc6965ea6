-- ===== src/Rest/Identity.antt =====
-- rest/middleware.go: the request id of a request.
use go_library.Prelude.{◌≡◌, ◌≢◌, refl, sym, ap, ◌∙◌, Bool-cases, inl, inr, ◌==◌, string_eq}
use go_library.Runtime.{Runtime}
use go_library.Logger.State.{Logger, World}
use go_library.Logger.Context.{Context, request_id, with_request_id, ensure_request_id}
use go_library.Logger.Context.Laws.{ensure_request_id-Ensures}
use go_library.Logger.Lifecycle.Opening.{request_id-start_request}
use go_library.Rest.{Request, HttpWriter, Http, request_id_header, inbound, begin_request}

module _ (rt : Runtime) (http : Http) (l : Logger) where
  request_id-inbound :
      (ctx : Context) (r : Request)
      → (r.header request_id_header ≢ ""
          → request_id (inbound rt http l ctx r) ≡ r.header request_id_header)
        × (r.header request_id_header ≡ "" → inbound rt http l ctx r ≡ ctx)
  unfolding inbound request_id with_request_id
  request_id-inbound ctx r = elim (Bool-cases (r.header request_id_header == "")) [
    | inl e ↦ (λ ne. absurd (ne ((string_eq.agree_iff _ _).0 e)), λ _. rw (e, inbound) refl)
    | inr e ↦ (λ _. rw (e, inbound) refl, λ z. rw ((string_eq.agree_iff _ _).1 z, inbound) refl)
  ]

  -- Its trace does not change the id that the context has by then.
  pub request_id-started :
      (w : HttpWriter) (ctx : Context) (r : Request) (s : w.State × World)
      → request_id (begin_request rt http l w ctx r s).0.0
        ≡ request_id (ensure_request_id rt (inbound rt http l ctx r) s.1).0.0
  unfolding begin_request
  request_id-started w ctx r s =
      let c = inbound rt http l ctx r in
      let x = ensure_request_id-Ensures rt c s.1 in
      let c1 = (ensure_request_id rt c s.1).0.0 in
      let u1 = (ensure_request_id rt c s.1).1 in
      request_id-start_request rt l c1 _ _ u1
      ∙ ap (λ a. request_id a.0.0)
          ((ensure_request_id-Ensures rt c1 u1).kept (λ z. x.not_empty (sym x.carried ∙ z)))

  request_id-kept :
      (w : HttpWriter) (ctx : Context) (r : Request) (s : w.State × World)
      → request_id (inbound rt http l ctx r) ≢ ""
      → request_id (begin_request rt http l w ctx r s).0.0 ≡ request_id (inbound rt http l ctx r)
  request_id-kept w ctx r s ne =
      request_id-started w ctx r s
      ∙ ap (λ a. request_id a.0.0)
          ((ensure_request_id-Ensures rt (inbound rt http l ctx r) s.1).kept ne)

  -- The request that reaches the handler has a request id: that of its `X-Request-ID` header, if this is
  -- not empty, and else that of the context that the request came with, or a fresh one. The answer has
  -- the same id in its header, set before the handler runs.
  pub request_id-begin_request :
      (w : HttpWriter) (ctx : Context) (r : Request) (s : w.State × World)
      → let ((ctx', more), (st, u)) = begin_request rt http l w ctx r s in
        (st ≡ w.set_header request_id_header (request_id ctx') s.0)
        × (request_id ctx' ≢ "")
        × (r.header request_id_header ≢ "" → request_id ctx' ≡ r.header request_id_header)
        × (r.header request_id_header ≡ "" → request_id ctx ≢ "" → request_id ctx' ≡ request_id ctx)
  unfolding begin_request
  request_id-begin_request w ctx r s =
      let x = ensure_request_id-Ensures rt (inbound rt http l ctx r) s.1 in
      let same = request_id-started w ctx r s ∙ x.carried in
      let (given, plain) = request_id-inbound ctx r in
      (
        ap (λ id. w.set_header request_id_header id s.0) (sym same),
        λ z. x.not_empty (sym same ∙ z),
        λ ne. request_id-kept w ctx r s (λ z. ne (sym (given ne) ∙ z)) ∙ given ne,
        λ z ne.
            request_id-kept w ctx r s (λ y. ne (sym (ap request_id (plain z)) ∙ y))
            ∙ ap request_id (plain z),
      )
