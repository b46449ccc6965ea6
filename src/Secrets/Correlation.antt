-- ===== src/Secrets/Correlation.antt =====
-- secrets/secrets.go: the request ids of the lines of `SecretJSON`, which ensures one twice.
use go_library.Prelude.{
  ◌∷◌, ℕ, suc, true, [], ◌≡◌, ◌≢◌, refl, sym, ap, ◌∙◌, String, ◌++◌, List, none, ◌==◌, string_eq,
}
use mathlib.Core.Path.{subst}
use go_library.Runtime.{Runtime}
use go_library.RequestId.{uuid}
use go_library.Logger.Value.{Attr}
use go_library.Logger.State.{Logger, Line, World, now, new_id}
use go_library.Logger.Context.{
  Context, request_id, lifecycle_from, with_request_id, ensure_request_id,
}
use go_library.Logger.Context.Laws.{uuid-ne-nil}
use go_library.Logger.Level.{level_error}
use go_library.Logger.Handler.{enabled}
use go_library.Logger.Handler.Effects.{log-Frame, enabled_congr}
use go_library.Logger.Lifecycle.{stage}
use go_library.Logger.Lifecycle.Opening.{ensure_request_id-levels, stage-levels}
use go_library.Logger.Lifecycle.Correlation.{
  AddsId, AllAddId, Carries, Written, Written-trans, Written-from, log_enabled-Carries, log-Written,
  stage-Written, ensure_request_id-Written,
}
use go_library.Oauth.Codec.{Bytes, Codec}
use go_library.Secrets.{
  Answer, found, missing, failure, Source, Sys, Messages, secret_messages, load_attrs,
  secrets_manager, log_answer, begin_load, secret, parsed, unparsable, unmarshal_strings,
  parse_answer, secret_json,
}
use go_library.Secrets.Parsing.{secret-ids, secret-found}

module _ (rt : Runtime) where
  -- The request id that is made of the draw of this number.
  abbrev pub drawn : ℕ → String
  drawn n = uuid (rt.entropy n)

  ensure_request_id_empty :
      (ctx : Context) (w : World)
      → request_id ctx ≡ ""
      → (request_id (ensure_request_id rt ctx w).0.0 ≡ drawn w.ids_made)
        × ((ensure_request_id rt ctx w).1.ids_made ≡ suc w.ids_made)
        × ((ensure_request_id rt ctx w).1.lines ≡ w.lines)
  unfolding ensure_request_id request_id with_request_id new_id
  ensure_request_id_empty ctx w z =
      let e : (request_id ctx == "") ≡ true = (string_eq.agree_iff (request_id ctx) "").1 z in
      rw (e, ensure_request_id) (refl, refl, refl)

  module _ (l : Logger) (id : String) (ne : id ≢ "") (a : AddsId rt id l.handler) where
    log_answer-Written :
        {A : Type 0} (ms : Messages) (ctx : Context) (attrs : List Attr) (more : A → List Attr)
        (r : Answer A) (w : World)
        → request_id ctx ≡ id
        → AllAddId rt id w
        → Written rt id w (log_answer rt l ms ctx attrs more r w).1
    unfolding log_answer
    log_answer-Written ms ctx attrs more (found v) w e h = log-Written rt id ne l _ ctx _ _ w a e h
    log_answer-Written ms ctx attrs more (missing v) w e h =
        log-Written rt id ne l _ ctx _ _ w a e h
    log_answer-Written ms ctx attrs more (failure v) w e h =
        log-Written rt id ne l _ ctx _ _ w a e h

    secret-Written :
        (src : Source) (ctx : Context) (name : String) (s : Sys src)
        → request_id (ensure_request_id rt ctx s.world).0.0 ≡ id
        → AllAddId rt id s.world
        → Written rt id s.world (secret rt l src ctx name s).1.world
    unfolding secret begin_load now
    secret-Written src ctx name s e h =
        let ((ctx', _), u) = ensure_request_id rt ctx s.world in
        let first = ensure_request_id-Written rt id ctx s.world h in
        let q = lifecycle_from ctx' in
        let staged = stage-Written rt id ne q ctx' "secrets.load" [] u e first.all_add in
        let w1 = (stage rt q ctx' "secrets.load" [] u).1 in
        let (start, w2) = now rt w1 in
        let (t, w3) = now rt w2 in
        Written-trans rt id first (
          Written-trans rt id staged (
            Written-from rt id w3 w1 _ refl (
              log_answer-Written secret_messages ctx'
                (load_attrs "secrets.name" name secrets_manager start t) (λ v. [])
                (src.secret name s.state).0 w3 e staged.all_add)))

  log_answer-levels :
      {A : Type 0} (l : Logger) (ms : Messages) (ctx : Context) (attrs : List Attr)
      (more : A → List Attr) (r : Answer A) (w : World)
      → (log_answer rt l ms ctx attrs more r w).1.levels ≡ w.levels
  unfolding log_answer
  log_answer-levels l ms ctx attrs more (found v) w = (log-Frame rt _ _ _ _ _ _).levels
  log_answer-levels l ms ctx attrs more (missing v) w = (log-Frame rt _ _ _ _ _ _).levels
  log_answer-levels l ms ctx attrs more (failure v) w = (log-Frame rt _ _ _ _ _ _).levels

  secret-levels :
      (l : Logger) (src : Source) (ctx : Context) (name : String) (s : Sys src)
      → (secret rt l src ctx name s).1.world.levels ≡ s.world.levels
  unfolding secret begin_load now
  secret-levels l src ctx name s =
      let ((ctx', _), u) = ensure_request_id rt ctx s.world in
      let q = lifecycle_from ctx' in
      let w1 = (stage rt q ctx' "secrets.load" [] u).1 in
      let (start, w2) = now rt w1 in
      let (t, w3) = now rt w2 in
      log_answer-levels l secret_messages ctx'
        (load_attrs "secrets.name" name secrets_manager start t) (λ v. [])
        (src.secret name s.state).0 w3
      ∙ stage-levels rt q ctx' "secrets.load" [] u
      ∙ ensure_request_id-levels rt ctx s.world

  module _ (cx : Codec) (l : Logger) (src : Source) where
    parse_failure-Carries :
        (ctx : Context) (name : String) (v : Bytes) (s : Sys src)
        → unmarshal_strings cx v ≡ none
        → request_id ctx ≡ ""
        → AddsId rt (drawn s.world.ids_made) l.handler
        → enabled rt l.handler s.world level_error ≡ true
        → let (r, s') = parse_answer rt cx l src ctx name (found v) s in
          (r ≡ unparsable name (cx.decode_failure v))
          × (line : Line) × (s'.world.lines ≡ s.world.lines ++ line ∷ [])
          × Carries rt (drawn s.world.ids_made) line
    unfolding parse_answer parsed
    parse_failure-Carries ctx name v s e z a on =
        let ((ctx', _), u) = ensure_request_id rt ctx s.world in
        let (id, made, same) = ensure_request_id_empty ctx s.world z in
        let still =
          enabled_congr rt l.handler s.world u level_error (ensure_request_id-levels rt ctx s.world)
          ∙ on in
        let (line, lines, carried) =
          log_enabled-Carries rt (drawn s.world.ids_made) (uuid-ne-nil _) l level_error ctx' _ _ u a
            id still in
        rw (parse_answer, e) (refl, line, lines ∙ ap (λ x. x ++ line ∷ []) same, carried)

    -- Where the source gives a value that is no object of texts, and the context has no request id, at a
    -- logger with the error level enabled that adds the ids of the two next draws and whose redactor, if
    -- it has one, neither has the key of the id nor changes these ids, in a world in which the loggers
    -- of all traces add and show the first: the result is the error that names the secret. Every line
    -- of the load has the id of the first draw as its last attribute, and the one line of the error,
    -- which comes after them, has that of the second draw.
    pub secret_json-ids :
        (ctx : Context) (name : String) (s : Sys src) (v : Bytes)
        → (src.secret name s.state).0 ≡ found v
        → unmarshal_strings cx v ≡ none
        → request_id ctx ≡ ""
        → enabled rt l.handler s.world level_error ≡ true
        → AddsId rt (drawn s.world.ids_made) l.handler
        → AddsId rt (drawn (suc s.world.ids_made)) l.handler
        → AllAddId rt (drawn s.world.ids_made) s.world
        → let s1 = (secret rt l src ctx name s).1 in
          let (r, s') = secret_json rt cx l src ctx name s in
          (r ≡ unparsable name (cx.decode_failure v))
          × Written rt (drawn s.world.ids_made) s.world s1.world
          × (line : Line) × (s'.world.lines ≡ s1.world.lines ++ line ∷ [])
          × Carries rt (drawn (suc s.world.ids_made)) line
    unfolding secret_json
    secret_json-ids ctx name s v e bad z on a1 a2 h =
        let s1 = (secret rt l src ctx name s).1 in
        let (id, made, same) = ensure_request_id_empty ctx s.world z in
        let next = secret-ids rt cx l src ctx name s ∙ made in
        let still =
          enabled_congr rt l.handler s.world s1.world level_error (secret-levels l src ctx name s)
          ∙ on in
        let (r, line, lines, carried) =
          parse_failure-Carries ctx name v s1 bad z
            (subst (λ n. AddsId rt (drawn n) l.handler) (sym next) a2) still in
        let step =
          ap (λ x. parse_answer rt cx l src ctx name x s1)
            (secret-found rt cx l src ctx name s v e) in
        (
          ap (λ x. x.0) step ∙ r,
          secret-Written l _ (uuid-ne-nil _) a1 src ctx name s id h,
          line,
          ap (λ x. x.1.world.lines) step ∙ lines,
          subst (λ n. Carries rt (drawn n) line) next carried,
        )
