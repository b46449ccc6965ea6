-- ===== src/System/Correlation.antt =====
-- oauth/client.go and secrets/secrets.go: every line of a call has the request id of its context.
use go_library.Prelude.{◌≡◌, ◌≢◌, refl, sym, ap, ◌∙◌, String}
use go_library.Runtime.{Runtime}
use go_library.Logger.State.{Logger, World, now}
use go_library.Logger.Context.{Context, request_id}
use go_library.Logger.Context.Laws.{ensure_request_id-Ensures}
use go_library.Logger.Lifecycle.Correlation.{
  AddsId, AllAddId, Written, Written-trans, Written-none, log-Written, stage-Written,
  ensure_request_id-Written,
}
use go_library.Oauth.Codec.{Codec}
use go_library.Oauth.Setup.{Client}
use go_library.Oauth.Backend.{TokenCache, Endpoint}
use go_library.Oauth.Client.{Sys}
use go_library.Oauth.Client.Methods.{token, refresh}
use go_library.Secrets
use go_library.Secrets.{Source, secret_json}
use go_library.System.Clients.{
  Channel, token-Stepped, refresh-Stepped, secret-Loaded, parameter-Loaded,
  parameters_by_path-Loaded, secret_json-Loaded,
}

module _ (rt : Runtime) (id : String) (ne : id ≢ "") where
  -- From `w` on only lines with this request id are written, under contexts that have it.
  Written-Channel :
      (l : Logger) (w : World)
      → AddsId rt id l.handler
      → Channel rt l (λ ctx. request_id ctx ≡ id) (λ u. Written rt id w u)
  unfolding now
  Written-Channel l w a = record {
    reads = λ u h. Written-trans rt id h (Written-none rt id u (now rt u).1 refl h.all_add);
    ids = λ ctx u h. Written-trans rt id h (ensure_request_id-Written rt id ctx u h.all_add);
    kept = λ ctx u e.
        ap (λ r. request_id r.0.0) ((ensure_request_id-Ensures rt ctx u).kept (λ z. ne (sym e ∙ z)))
        ∙ e;
    logs = λ level ctx msg args u e h.
        Written-trans rt id h (log-Written rt id ne l level ctx msg args u a e h.all_add);
    stages = λ p ctx name attrs u e h.
        Written-trans rt id h (stage-Written rt id ne p ctx name attrs u e h.all_add);
  }

  module _ (w : World) (h : AllAddId rt id w) (ctx : Context) (e : request_id ctx ≡ id) where
    begun : Written rt id w w
    begun = Written-none rt id w w refl h

    client-Written :
        (c : Client) (cx : Codec) (tc : TokenCache) (ep : Endpoint) (s : Sys tc ep)
        → AddsId rt id c.base.handler
        → s.world ≡ w
        → Written rt id w (token rt cx tc ep c ctx s).1.world
          × Written rt id w (refresh rt cx tc ep c ctx s).1.world
    client-Written c cx tc ep s a same =
        let start : Written rt id w s.world = rw same begun in
        let ch = Written-Channel c.base w a in
        (
          token-Stepped rt c _ _ ch cx tc ep ctx e s start,
          refresh-Stepped rt c _ _ ch cx tc ep ctx e s start,
        )

    loader-Written :
        (l : Logger) (src : Source) (cx : Codec) (name : String) (s : Secrets.Sys src)
        → AddsId rt id l.handler
        → s.world ≡ w
        → Written rt id w (Secrets.secret rt l src ctx name s).1.world
          × Written rt id w (Secrets.parameter rt l src ctx name s).1.world
          × Written rt id w (Secrets.parameters_by_path rt l src ctx name s).1.world
          × Written rt id w (secret_json rt cx l src ctx name s).1.world
    loader-Written l src cx name s a same =
        let start : Written rt id w s.world = rw same begun in
        let ch = Written-Channel l w a in
        (
          secret-Loaded rt l _ _ ch src ctx name e s start,
          parameter-Loaded rt l _ _ ch src ctx name e s start,
          parameters_by_path-Loaded rt l _ _ ch src ctx name e s start,
          secret_json-Loaded rt l _ _ ch src cx ctx name e s start,
        )

-- Under a context with a request id, for a client and a loader whose loggers add it, with redactors, if
-- any, that neither have the key of the id nor change the id, in a world in which the loggers of all
-- traces are so: every line that `Token` or `Refresh` writes, and every line that
-- a load of a secret, a parameter, a path of parameters or a JSON secret writes, whatever the outcome,
-- has this id as its last attribute, in the groups that its logger opened. The lines that were there
-- before stay.
pub calls-Written :
    (rt : Runtime) (ctx : Context) (w : World) (cx : Codec) (c : Client) (tc : TokenCache)
    (ep : Endpoint) (s : Sys tc ep) (l : Logger) (src : Source) (name : String)
    (s' : Secrets.Sys src)
    → request_id ctx ≢ ""
    → AllAddId rt (request_id ctx) w
    → AddsId rt (request_id ctx) c.base.handler
    → AddsId rt (request_id ctx) l.handler
    → s.world ≡ w
    → s'.world ≡ w
    → let id = request_id ctx in
      Written rt id w (token rt cx tc ep c ctx s).1.world
      × Written rt id w (refresh rt cx tc ep c ctx s).1.world
      × Written rt id w (Secrets.secret rt l src ctx name s').1.world
      × Written rt id w (Secrets.parameter rt l src ctx name s').1.world
      × Written rt id w (Secrets.parameters_by_path rt l src ctx name s').1.world
      × Written rt id w (secret_json rt cx l src ctx name s').1.world
calls-Written rt ctx w cx c tc ep s l src name s' ne h a b same same' =
    let id = request_id ctx in
    let (asked, refreshed) = client-Written rt id ne w h ctx refl c cx tc ep s a same in
    let (secret, parameter, path, parsed) =
      loader-Written rt id ne w h ctx refl l src cx name s' b same' in
    (asked, refreshed, secret, parameter, path, parsed)
