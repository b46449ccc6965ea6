-- ===== src/System/Clients.antt =====
-- oauth/client.go and secrets/secrets.go: what holds of the state of the logger package through its
-- operations, holds through those of these packages.
use go_library.Prelude.{
  ℕ, String, [], ◌∷◌, pos, length, Bool, true, false, Option, none, some, List, Dict, ltb, leb,
  ◌||◌, if◌then◌else◌,
}
use go_library.Runtime.{Runtime}
use go_library.Logger.Value.{Attr, scalar, int}
use go_library.Logger.State.{Logger, World, now}
use go_library.Logger.Level.{Level}
use go_library.Logger.Context.{Context, ensure_request_id}
use go_library.Logger.Handler.{log}
use go_library.Logger.Lifecycle.{stage}
use go_library.Oauth.Codec.{Bytes, Codec, Time}
use go_library.Oauth.Token.{Token, Field}
use go_library.Oauth.Setup.{Client}
use go_library.Oauth.Backend.{
  Got, hit, miss, failed, TokenCache, Reply, no_response, unreadable, response, Endpoint,
}
use go_library.Oauth.Client.{
  Fetched, token_ok, token_error, token_valid, Sys, M, parse_fields, parse_reply, read_reply,
  exchange, fetch, pure, post, present, token_request,
}
use go_library.Oauth.Client.Methods.{
  use_entry, use_reading, read_cache, report_write, write_cache, settle, fetch_and_cache,
  begin_call, found_or_fetch, token, refresh, invalidate,
}
use go_library.Secrets
use go_library.Secrets.{
  Answer, found, missing, failure, Source, Messages, log_answer, load_attrs, secrets_manager,
  parameter_store, secret_messages, parameter_messages, parameters_messages, begin_load, Parsed,
  parsed, parse_answer, secret_json,
}

-- What may be said of the state of the logger package through the operations that a client or a loader
-- with the logger `l` has of that package, under contexts of a kind that the request id decides.
pub record Channel (rt : Runtime) (l : Logger) (P : Context → Type 0) (R : World → Type 0)
    : Type 0 where
  pub reads : (u : World) → R u → R (now rt u).1
  pub ids : (ctx : Context) (u : World) → R u → R (ensure_request_id rt ctx u).1
  pub kept : (ctx : Context) (u : World) → P ctx → P (ensure_request_id rt ctx u).0.0
  pub logs :
      (level : Level) (ctx : Context) (msg : String) (args : List Attr) (u : World)
      → P ctx
      → R u
      → R (log rt l level ctx msg args u).1
  pub stages :
      (p : Option ℕ) (ctx : Context) (name : String) (attrs : List Attr) (u : World)
      → P ctx
      → R u
      → R (stage rt p ctx name attrs u).1

module _ (rt : Runtime) (c : Client) (P : Context → Type 0) (R : World → Type 0)
    (ch : Channel rt c.base P R) (cx : Codec) (tc : TokenCache) (ep : Endpoint) where
  -- An action that keeps what is said of the state of the logger package.
  abbrev Stepped : {A : Type 0} → M tc ep A → Type 0
  Stepped m = (s : Sys tc ep) → R s.world → R (m s).1.world

  if-Stepped :
      {A : Type 0} (b : Bool) (m k : M tc ep A)
      → Stepped m
      → Stepped k
      → Stepped (if b then m else k)
  if-Stepped true m k x y = x
  if-Stepped false m k x y = y

  parse_fields-Stepped :
      (body : Bytes) (raw : Option (Dict Field)) → Stepped (parse_fields rt cx tc ep c.cfg body raw)
  unfolding parse_fields
  parse_fields-Stepped body none s h = h
  parse_fields-Stepped body (some raw) s h = ch.reads _ h

  read_reply-Stepped : (r : Reply) → Stepped (read_reply rt cx tc ep c.cfg r)
  unfolding read_reply parse_reply
  read_reply-Stepped (no_response e) s h = h
  read_reply-Stepped (unreadable e) s h = h
  read_reply-Stepped (response status body) s h =
      if-Stepped (ltb status 200 || leb 300 status) _ _ (λ s h. h) (parse_fields-Stepped _ _) s h

  exchange-Stepped : (bad : Option String) → Stepped (exchange rt cx tc ep c.cfg bad)
  unfolding exchange
  exchange-Stepped none s h =
      let (r, s') = post (token_request c.cfg) s in read_reply-Stepped r s' h
  exchange-Stepped (some e) s h = h

  begin_call-P : (ctx : Context) (s : Sys tc ep) → P ctx → P (begin_call rt cx tc ep ctx s).0
  unfolding begin_call
  begin_call-P ctx s p = ch.kept ctx s.world p

  begin_call-Stepped : (ctx : Context) → P ctx → Stepped (begin_call rt cx tc ep ctx)
  unfolding begin_call
  begin_call-Stepped ctx p s h = ch.stages _ _ _ _ _ (ch.kept ctx s.world p) (ch.ids ctx s.world h)

  module _ (ctx : Context) (p : P ctx) where
    report_write-Stepped : (e : Option String) → Stepped (report_write rt cx tc ep c ctx e)
    unfolding report_write
    report_write-Stepped none s h = h
    report_write-Stepped (some e) s h = ch.logs _ _ _ _ _ p h

    settle-Stepped : (start : Time) (f : Fetched) → Stepped (settle rt cx tc ep c ctx start f)
    unfolding settle write_cache
    settle-Stepped start (token_error e) s h = ch.logs _ _ _ _ _ p (ch.reads _ h)
    settle-Stepped start (token_ok tok) s h =
        if-Stepped c.cfg.cache_write _ _ (λ s h. report_write-Stepped _ _ (ch.reads _ h)) (λ s h. h)
          _ (ch.logs _ _ _ _ _ p (ch.reads _ (ch.reads _ h)))

    fetch_and_cache-Stepped : Stepped (fetch_and_cache rt cx tc ep c ctx)
    unfolding fetch_and_cache fetch
    fetch_and_cache-Stepped s h =
        let (start, s1) = present rt s in
        let (f, s2) = fetch rt cx tc ep c.cfg s1 in
        settle-Stepped start f s2
          (exchange-Stepped (ep.bad_url c.cfg.token_url) s1 (ch.reads s.world h))

    use_entry-Stepped :
        (bytes : Bytes) (t : Option Token) → Stepped (use_entry rt cx tc ep c ctx bytes t)
    unfolding use_entry
    use_entry-Stepped bytes none s h = ch.logs _ _ _ _ _ p h
    use_entry-Stepped bytes (some tok) s h =
        if-Stepped (token_valid c.cfg.expiry_margin _ tok) _ _ (λ s h. ch.logs _ _ _ _ _ p h)
          (λ s h. ch.logs _ _ _ _ _ p h) _ (ch.reads _ h)

    use_reading-Stepped : (g : Got) → Stepped (use_reading rt cx tc ep c ctx g)
    unfolding use_reading
    use_reading-Stepped (hit bytes) s h = use_entry-Stepped bytes _ s h
    use_reading-Stepped (miss e) s h = ch.logs _ _ _ _ _ p h
    use_reading-Stepped (failed e) s h = ch.logs _ _ _ _ _ p h

    read_cache-Stepped : Stepped (read_cache rt cx tc ep c ctx)
    unfolding read_cache
    read_cache-Stepped s h = use_reading-Stepped _ _ h

    found_or_fetch-Stepped : (t : Option Token) → Stepped (found_or_fetch rt cx tc ep c ctx t)
    unfolding found_or_fetch
    found_or_fetch-Stepped none s h = fetch_and_cache-Stepped s h
    found_or_fetch-Stepped (some t) s h = h

  pub token-Stepped : (ctx : Context) → P ctx → Stepped (token rt cx tc ep c ctx)
  unfolding token
  token-Stepped ctx p s h =
      let (ctx', s1) = begin_call rt cx tc ep ctx s in
      let p' = begin_call-P ctx s p in
      let look = if c.cfg.cache_read then read_cache rt cx tc ep c ctx' else pure none in
      found_or_fetch-Stepped ctx' p' (look s1).0 (look s1).1 (
        if-Stepped c.cfg.cache_read (read_cache rt cx tc ep c ctx') (pure none)
          (read_cache-Stepped ctx' p') (λ s h. h) s1 (begin_call-Stepped ctx p s h))

  pub refresh-Stepped : (ctx : Context) → P ctx → Stepped (refresh rt cx tc ep c ctx)
  unfolding refresh
  refresh-Stepped ctx p s h =
      let (ctx', s1) = begin_call rt cx tc ep ctx s in
      fetch_and_cache-Stepped ctx' (begin_call-P ctx s p) s1 (begin_call-Stepped ctx p s h)

  pub invalidate-Stepped : Stepped (invalidate rt cx tc ep c)
  unfolding invalidate
  invalidate-Stepped = if-Stepped c.cfg.has_cache _ _ (λ s h. h) (λ s h. h)

module _ (rt : Runtime) (l : Logger) (P : Context → Type 0) (R : World → Type 0)
    (ch : Channel rt l P R) (src : Source) where
  -- An action of the loader that keeps what is said of the state of the logger package.
  abbrev Loaded : {A : Type 0} → Secrets.M src A → Type 0
  Loaded m = (s : Secrets.Sys src) → R s.world → R (m s).1.world

  begin_load-P : (ctx : Context) (s : Secrets.Sys src) → P ctx → P (begin_load rt l src ctx s).0
  unfolding begin_load
  begin_load-P ctx s p = ch.kept ctx s.world p

  begin_load-Loaded : (ctx : Context) → P ctx → Loaded (begin_load rt l src ctx)
  unfolding begin_load
  begin_load-Loaded ctx p s h = ch.stages _ _ _ _ _ (ch.kept ctx s.world p) (ch.ids ctx s.world h)

  log_answer-R :
      {A : Type 0} (ms : Messages) (ctx : Context) (attrs : List Attr) (more : A → List Attr)
      (a : Answer A) (u : World)
      → P ctx
      → R u
      → R (log_answer rt l ms ctx attrs more a u).1
  unfolding log_answer
  log_answer-R ms ctx attrs more (found a) u p h = ch.logs _ _ _ _ _ p h
  log_answer-R ms ctx attrs more (missing e) u p h = ch.logs _ _ _ _ _ p h
  log_answer-R ms ctx attrs more (failure e) u p h = ch.logs _ _ _ _ _ p h

  -- The line of a load, after the two readings of the clock.
  answered :
      {A : Type 0} (ms : Messages) (ctx : Context) (key name source : String) (more : A → List Attr)
      (a : Answer A) (u : World)
      → P ctx
      → R u
      → let (start, u1) = now rt u in
        let (t, u2) = now rt u1 in
        R (log_answer rt l ms ctx (load_attrs key name source start t) more a u2).1
  answered ms ctx key name source more a u p h =
      log_answer-R ms ctx _ more a _ p (ch.reads _ (ch.reads u h))

  pub secret-Loaded :
      (ctx : Context) (name : String) → P ctx → Loaded (Secrets.secret rt l src ctx name)
  unfolding Secrets.secret
  secret-Loaded ctx name p s h =
      answered secret_messages _ "secrets.name" name secrets_manager (λ v. []) _ _
        (begin_load-P ctx s p) (begin_load-Loaded ctx p s h)

  pub parameter-Loaded :
      (ctx : Context) (name : String) → P ctx → Loaded (Secrets.parameter rt l src ctx name)
  unfolding Secrets.parameter
  parameter-Loaded ctx name p s h =
      answered parameter_messages _ "secrets.name" name parameter_store (λ v. []) _ _
        (begin_load-P ctx s p) (begin_load-Loaded ctx p s h)

  pub parameters_by_path-Loaded :
      (ctx : Context) (path : String)
      → P ctx
      → Loaded (Secrets.parameters_by_path rt l src ctx path)
  unfolding Secrets.parameters_by_path
  parameters_by_path-Loaded ctx path p s h =
      answered parameters_messages _ "secrets.path" path parameter_store
        (λ vals. ("secrets.count", scalar (int (pos (length vals)))) ∷ []) _ _
        (begin_load-P ctx s p) (begin_load-Loaded ctx p s h)

  module _ (cx : Codec) (ctx : Context) (name : String) (p : P ctx) where
    parsed-Loaded :
        (v : Bytes) (m : Option (Dict String)) → Loaded (parsed rt cx l src ctx name v m)
    unfolding parsed
    parsed-Loaded v (some m) s h = h
    parsed-Loaded v none s h = ch.logs _ _ _ _ _ (ch.kept ctx s.world p) (ch.ids ctx s.world h)

    parse_answer-Loaded : (a : Answer Bytes) → Loaded (parse_answer rt cx l src ctx name a)
    unfolding parse_answer
    parse_answer-Loaded (found v) s h = parsed-Loaded v _ s h
    parse_answer-Loaded (missing e) s h = h
    parse_answer-Loaded (failure e) s h = h

    pub secret_json-Loaded : Loaded (secret_json rt cx l src ctx name)
    unfolding secret_json
    secret_json-Loaded s h =
        let (answer, s1) = Secrets.secret rt l src ctx name s in
        parse_answer-Loaded answer s1 (secret-Loaded ctx name p s h)
