-- ===== src/Oauth/Client/Methods.antt =====
-- oauth/client.go: the cache steps, and `Token`, `Refresh` and `Invalidate`.
use go_library.Prelude.{
  pos, String, false, Option, none, some, List, [], ◌∷◌, ◌++◌, pos_part, ◌==◌, string_eq,
  if◌then◌else◌,
}
use go_library.Runtime.{Runtime}
use go_library.Logger.Value.{text, scalar, Attr, int, boolean, millis, seconds, time}
use go_library.Logger.Context.{Context, ensure_request_id, lifecycle_from}
use go_library.Logger.Handler.{debug, info, warn, error, err_attr}
use go_library.Logger.Lifecycle.{stage, dur_ms}
use go_library.Oauth.Codec.{Bytes, Codec, Time, zero_time, int_eq, until}
use go_library.Oauth.Token.{Token}
use go_library.Oauth.Token.Entry.{marshal_cache, unmarshal_cache}
use go_library.Oauth.Errors.{error_text}
use go_library.Oauth.Setup.{Client}
use go_library.Oauth.Backend.{Got, hit, miss, failed, TokenCache, Endpoint}
use go_library.Oauth.Client.{
  FetchError, building, sending, reading, decoding, auth, Fetched, token_ok, token_error,
  token_valid, cache_ttl, base_attrs, cache_attrs, M, ◌>>=◌, ◌>>◌, pure, lift, present, cache_get,
  cache_set, cache_delete, fetch,
}

unfoldable pub fetch_error_text : Codec → FetchError → String
fetch_error_text cx (building e) = e
fetch_error_text cx (sending e) = e
fetch_error_text cx (reading e) = e
fetch_error_text cx (decoding e) = e
fetch_error_text cx (auth e) = error_text cx e

-- The attributes of an `AuthError`, which `errors.As` finds.
abbrev auth_attrs : FetchError → List Attr
auth_attrs (auth e) =
    ("oauth.httpStatus", scalar (int (pos e.status_code))) ∷ ("oauth.errorCode", text e.code) ∷ []
auth_attrs _ = []

abbrev instance_attr : Token → List Attr
instance_attr tok =
    if tok.instance_url == "" then [] else ("oauth.instanceUrl", text tok.instance_url) ∷ []

-- A time in an attribute; the zero time is none.
abbrev time_attr : Time → Attr
time_attr t = ("oauth.expiresAt", scalar (time (if t == zero_time then none else some t)))

module _ (rt : Runtime) (cx : Codec) (tc : TokenCache) (ep : Endpoint) where
  -- What `readCache` does with a text that it decoded, or could not decode.
  unfoldable pub use_entry : Client → Context → Bytes → Option Token → M tc ep (Option Token)
  use_entry c ctx bytes none = do
    lift (
        warn rt c.base ctx "oauth token cache read failed"
          (cache_attrs c.cfg ++ err_attr (some (cx.decode_failure bytes)) ∷ []))
    pure none
  use_entry c ctx bytes (some tok) = do
    t ← present rt
    if token_valid c.cfg.expiry_margin t tok
        then (do
          lift (
              debug rt c.base ctx "oauth token cache hit"
                (cache_attrs c.cfg ++ time_attr tok.expires_at ∷ []))
          pure (some tok))
        else (do lift (debug rt c.base ctx "oauth token cache miss" (cache_attrs c.cfg)); pure none)

  unfoldable pub use_reading : Client → Context → Got → M tc ep (Option Token)
  unfolding use_entry
  use_reading c ctx (hit bytes) = use_entry c ctx bytes (unmarshal_cache cx bytes)
  use_reading c ctx (miss e) = do
    lift (debug rt c.base ctx "oauth token cache miss" (cache_attrs c.cfg))
    pure none
  use_reading c ctx (failed e) = do
    lift (
        warn rt c.base ctx "oauth token cache read failed"
          (cache_attrs c.cfg ++ err_attr (some e) ∷ []))
    pure none

  -- `readCache`
  unfoldable pub read_cache : Client → Context → M tc ep (Option Token)
  unfolding use_reading
  read_cache c ctx = do g ← cache_get c.cfg.cache_key; use_reading c ctx g

  unfoldable pub report_write : Client → Context → Option String → M tc ep (Unit {0})
  report_write c ctx none = pure tt
  report_write c ctx (some e) = lift (
      warn rt c.base ctx "oauth token cache write failed"
        (cache_attrs c.cfg ++ err_attr (some e) ∷ []))

  -- `writeCache`
  unfoldable pub write_cache : Client → Context → Token → M tc ep (Unit {0})
  unfolding report_write
  write_cache c ctx tok = do
    t ← present rt
    e ← cache_set c.cfg.cache_key (marshal_cache cx tok) (cache_ttl c.cfg t tok)
    report_write c ctx e

  -- What `fetchAndCache` does with the outcome of the fetch that began at `start`.
  unfoldable pub settle : Client → Context → Time → Fetched → M tc ep Fetched
  unfolding write_cache
  settle c ctx start (token_error e) = do
    t ← present rt
    lift (
        error rt c.base ctx "oauth token fetch failed" (
          base_attrs c.cfg
          ++ (("oauth.durationMs", scalar (millis (dur_ms (pos_part start) (pos_part t)))) ∷ [])
          ++ auth_attrs e
          ++ err_attr (some (fetch_error_text cx e)) ∷ []))
    pure (token_error e)
  settle c ctx start (token_ok tok) = do
    t ← present rt
    u ← present rt
    lift (
        info rt c.base ctx "oauth token acquired" (
          base_attrs c.cfg
          ++ (("oauth.expiresInSec", scalar (seconds (until u tok.expires_at)))
              ∷ ("oauth.durationMs", scalar (millis (dur_ms (pos_part start) (pos_part t))))
              ∷ ("oauth.cacheHit", scalar (boolean false))
              ∷ [])
          ++ instance_attr tok))
    if c.cfg.cache_write then write_cache c ctx tok else pure tt
    pure (token_ok tok)

  -- `fetchAndCache`
  unfoldable pub fetch_and_cache : Client → Context → M tc ep Fetched
  unfolding settle
  fetch_and_cache c ctx = do start ← present rt; r ← fetch rt cx tc ep c.cfg; settle c ctx start r

  -- The first two lines of `Token` and `Refresh`.
  unfoldable pub begin_call : Context → M tc ep Context
  begin_call ctx = do
    (ctx', _) ← lift (ensure_request_id rt ctx)
    lift (stage rt (lifecycle_from ctx') ctx' "oauth.token" [])
    pure ctx'

  -- What `Token` does with a token that was in the cache, or without one.
  unfoldable pub found_or_fetch : Client → Context → Option Token → M tc ep Fetched
  found_or_fetch c ctx (some tok) = pure (token_ok tok)
  found_or_fetch c ctx none = fetch_and_cache c ctx

  -- `Token`
  unfoldable pub token : Client → Context → M tc ep Fetched
  unfolding begin_call found_or_fetch
  token c ctx = do
    ctx' ← begin_call ctx
    found ← if c.cfg.cache_read then read_cache c ctx' else pure none
    found_or_fetch c ctx' found

  -- `Refresh`
  unfoldable pub refresh : Client → Context → M tc ep Fetched
  unfolding begin_call
  refresh c ctx = do ctx' ← begin_call ctx; fetch_and_cache c ctx'

  -- `Invalidate`
  unfoldable pub invalidate : Client → M tc ep (Option String)
  invalidate c = if c.cfg.has_cache then cache_delete c.cfg.cache_key else pure none
