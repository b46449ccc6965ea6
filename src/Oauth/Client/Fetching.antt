-- ===== src/Oauth/Client/Fetching.antt =====
-- oauth/client.go: what the methods of a client send, and when they give a token.
use go_library.Prelude.{
  ℕ, pos, ◌≡◌, refl, sym, ap, ◌∙◌, ◌↔◌, String, Bool, true, false, ◌||◌, Dict, Option, none, some,
  take, ltb, leb, ◌≤◌, ◌<◌, arith, if◌then◌else◌,
}
use mathlib.Core.Path.{subst}
use go_library.Runtime.{Runtime}
use go_library.Logger.State.{now}
use go_library.Oauth.Codec.{Bytes, Codec}
use go_library.Oauth.Token.{Token, Field, decode_map, parse_token_response}
use go_library.Oauth.Token.Response.{
  Describes, parse_token_response-Describes, Describes-parse_token_response,
}
use go_library.Oauth.Setup.{Config}
use go_library.Oauth.Backend.{TokenCache, Reply, no_response, unreadable, response, Endpoint}
use go_library.Oauth.Client.{
  max_body_bytes, Fetched, token_ok, token_error, token_request, Sys, M, FetchError, post, pure,
  parse_fields, parse_reply, read_reply, exchange, fetch,
}

module _ (rt : Runtime) (cx : Codec) (tc : TokenCache) (ep : Endpoint) where
  -- The endpoint grants the token that the fields of its reply to the token request describe.
  pub record IsGranted (cfg : Config) (s : Sys tc ep) (tok : Token) : Type 0 where
    pub url_ok : ep.bad_url cfg.token_url ≡ none
    pub status : ℕ
    pub body : Bytes
    pub reply : (ep.post (token_request cfg) s.server).0 ≡ response status body
    pub success : (200 ≤ status) × (status < 300)
    pub raw : Dict Field
    pub decoded : decode_map cx (take max_body_bytes body) ≡ some raw
    pub described : Describes cx raw (pos (now rt s.world).0) cfg.default_ttl tok

  module _ (cfg : Config) (tok : Token) where
    fields_lem :
        (body : Bytes) (fields : Option (Dict Field)) (s : Sys tc ep)
        → (parse_fields rt cx tc ep cfg body fields s).0 ≡ token_ok tok
        → (raw : Dict Field) × (fields ≡ some raw)
          × (tok ≡ parse_token_response cx raw (pos (now rt s.world).0) cfg.default_ttl)
    unfolding parse_fields
    fields_lem body none s h = cc h
    fields_lem body (some raw) s h = (raw, refl, cc h)

    if_lem :
        (bad : Bool) (e : FetchError) (m : M tc ep Fetched) (s : Sys tc ep)
        → ((if bad then pure (token_error e) else m) s).0 ≡ token_ok tok
        → (bad ≡ false) × ((m s).0 ≡ token_ok tok)
    if_lem true e m s h = cc h
    if_lem false e m s h = (refl, h)

    reply_lem :
        (r : Reply) (s : Sys tc ep)
        → (read_reply rt cx tc ep cfg r s).0 ≡ token_ok tok
        → (status : ℕ) × (body : Bytes) × (r ≡ response status body)
          × (200 ≤ status)
          × (status < 300)
          × (raw : Dict Field) × (decode_map cx (take max_body_bytes body) ≡ some raw)
          × (tok ≡ parse_token_response cx raw (pos (now rt s.world).0) cfg.default_ttl)
    unfolding read_reply parse_reply
    reply_lem (no_response e) s h = cc h
    reply_lem (unreadable e) s h = cc h
    reply_lem (response status body) s h =
        let (good, ok) = if_lem (ltb status 200 || leb 300 status) _ _ s h in
        let found = fields_lem _ _ s ok in
        let (raw, d, p) = found in (status, body, refl, ground arith, ground arith, raw, d, p)

    success_lem :
        (status : ℕ) → 200 ≤ status → status < 300 → (ltb status 200 || leb 300 status) ≡ false
    success_lem status low high = ground arith

    reply_back :
        (status : ℕ) (body : Bytes) (raw : Dict Field) (s : Sys tc ep)
        → (200 ≤ status) × (status < 300)
        → decode_map cx (take max_body_bytes body) ≡ some raw
        → (read_reply rt cx tc ep cfg (response status body) s).0
          ≡ token_ok (parse_token_response cx raw (pos (now rt s.world).0) cfg.default_ttl)
    unfolding read_reply parse_reply parse_fields
    reply_back status body raw s (low, high) d = rw (success_lem status low high, d) refl

    exchange_lem :
        (bad : Option String) (s : Sys tc ep)
        → (exchange rt cx tc ep cfg bad s).0 ≡ token_ok tok
        → (bad ≡ none)
          × ((read_reply rt cx tc ep cfg
                (ep.post (token_request cfg) s.server).0
                (post (token_request cfg) s).1).0
              ≡ token_ok tok)
    unfolding exchange
    exchange_lem none s h = (refl, h)
    exchange_lem (some e) s h = cc h

    fetch-IsGranted :
        (s : Sys tc ep) → (fetch rt cx tc ep cfg s).0 ≡ token_ok tok → IsGranted cfg s tok
    unfolding fetch
    fetch-IsGranted s h =
        let (url_ok, h') = exchange_lem _ s h in
        let (status, body, reply, low, high, raw, decoded, parsed) = reply_lem _ _ h' in
        record {
          url_ok = url_ok;
          status = status;
          body = body;
          reply = reply;
          success = (low, high);
          raw = raw;
          decoded = decoded;
          described =
              subst (Describes cx raw (pos (now rt s.world).0) cfg.default_ttl) (sym parsed)
                (parse_token_response-Describes cx raw (pos (now rt s.world).0) cfg.default_ttl);
        }

    IsGranted-fetch :
        (s : Sys tc ep) → IsGranted cfg s tok → (fetch rt cx tc ep cfg s).0 ≡ token_ok tok
    unfolding fetch exchange
    IsGranted-fetch s g =
        rw (g.url_ok, g.reply)
          (reply_back g.status g.body g.raw _ g.success g.decoded
            ∙ ap token_ok (sym (Describes-parse_token_response cx g.raw _ _ tok g.described)))

    -- A fetch gives a token exactly when the endpoint grants it: the request can be built, the reply
    -- has a status of 200 to 299, its body, up to the limit of what is read, decodes to a map of
    -- fields, and the token is the one that they describe. It has the access token, the type, the scope and the
    -- instance of the fields of these names, each "" where the field is missing or no text; it expires
    -- from now in the seconds of "expires_in", a number or the text of one, and else in the default; it
    -- was issued at the milliseconds of the text "issued_at", if it is one of a number; and it keeps the
    -- fields.
    pub fetch_iff :
        (s : Sys tc ep) → ((fetch rt cx tc ep cfg s).0 ≡ token_ok tok) ↔ IsGranted cfg s tok
    fetch_iff s = (fetch-IsGranted s, IsGranted-fetch s)
