-- ===== src/Tests/ClientRuns.antt =====
-- oauth/client.go: runs of clients, and the theorems at concrete data.
use go_library.Prelude.{
  ◌+◌, ◌≡◌, sym, take, refl, ◌↔◌, arith, String, true, none, some, [], ◌∷◌, ◌++◌, pos, ◌+ℤ◌, Dict,
  lookup, insert, string_eq,
}
use mathlib.Core.Path.{subst₂}
use go_library.Logger.State.{now}
use go_library.Logger.Context.{background}
use go_library.Oauth.Codec.{
  Bytes, Codec, Duration, Time, string, number, IsInt64, IsLawfulCodec, unix_seconds, zero_time,
}
use go_library.Oauth.Token.{Token, Field, valid, text, float, decode_map, parse_token_response}
use go_library.Oauth.Token.Entry.{marshal_cache, unmarshal_cache}
use go_library.Oauth.Token.RoundTrip.{cached_view}
use go_library.Oauth.Setup.{Config, Client, client, new, with_grant, with_defaults}
use go_library.Oauth.Backend.{TokenCache, IsLawfulCache, Endpoint, response}
use go_library.Oauth.Backend.Redis.{
  UniversalClient, IsLawfulClient, Reading, bytes, nil, failure, redis_cache,
  redis_cache-IsLawfulCache,
}
use go_library.Oauth.Client.{
  Sys, Fetched, token_ok, token_valid, cache_ttl, grant_form, base_form, token_form, fetch,
  token_request, max_body_bytes,
}
use go_library.Oauth.Client.Methods.{begin_call, token, refresh, invalidate, read_cache}
use go_library.Oauth.Client.Silence.{requests}
use go_library.Oauth.Client.Fetching.{IsGranted, fetch_iff}
use go_library.Oauth.Client.Reading.{Reports, read_cache-Reports}
use go_library.Oauth.Client.Serving.{Outcome, token-Outcome}
use go_library.Oauth.Client.Secrecy.{
  Credentials, with_credentials, AlikeGot, AlikeServed, AlikeFields, SameWorld, SameLife,
}
use go_library.Oauth.Client.Secrecy.Logs.{token-Alike}
use go_library.Oauth.Client.Sharing.{new-token-refresh}
use go_library.Oauth.Client.Caching.{token-invalidate}
use go_library.Tests.Data.{run_time, boot}
use go_library.Tests.PlainCodec.{plain, plain-IsLawfulCodec}
use go_library.Tests.OauthRuns.{
  dict_client, dict_client-IsLawfulClient, store, granted, endpoint, cfg, held, base, client_of,
}

abbrev start : Sys store endpoint
start = record { world = boot; store = []; server = 0; sent = [] }

abbrev t1 : Token
t1 = record {
  access_token = "t1";
  token_type = "";
  expires_at = pos 3600000000005;
  scope = "";
  instance_url = "";
  issued_at = zero_time;
  raw = ("access_token", text "t1") ∷ ("expires_in", float 3600) ∷ [];
}

fetch_iff_example :
    ((fetch run_time plain store endpoint cfg start).0 ≡ token_ok t1)
    ↔ IsGranted run_time plain store endpoint cfg start t1
fetch_iff_example = fetch_iff run_time plain store endpoint cfg t1 start

-- A Redis that cannot be reached.
abbrev gone : UniversalClient
gone = record {
  Db = Unit {0};
  get = λ key d. (failure "dial tcp: refused", d);
  set = λ key value ttl d. (some "dial tcp: refused", d);
  del = λ key d. (some "dial tcp: refused", d);
}

abbrev down : Sys (redis_cache gone) endpoint
down = record { world = boot; store = tt; server = 0; sent = [] }

read_cache-Reports_example :
    Reports run_time plain gone endpoint
      (client_of cfg)
      background
      (failure "dial tcp: refused")
      down
      (read_cache run_time plain (redis_cache gone) endpoint (client_of cfg) background down)
read_cache-Reports_example =
    read_cache-Reports run_time plain gone endpoint (client_of cfg) background down

start_fetch : (fetch run_time plain store endpoint cfg start).0 ≡ token_ok t1
unfolding fetch go_library.Oauth.Token.decode_map go_library.Oauth.Token.parse_token_response lookup
    ◌+ℤ◌ insert now
start_fetch = refl

token-Outcome_example :
    let (ctx', s1) = begin_call run_time plain store endpoint background start in
    let (r, s') = token run_time plain store endpoint (client_of cfg) background start in
    Outcome run_time plain store endpoint (client_of cfg) s1 r s'
token-Outcome_example = token-Outcome run_time plain store endpoint (client_of cfg) background start

abbrev t2 : Token
t2 = record t1 { expires_at = pos 3600002000005 }

t2-IsInt64 : IsInt64 (unix_seconds t2.expires_at)
unfolding unix_seconds
t2-IsInt64 = (omega arith, omega arith)

-- A client of the same endpoint and id with another secret, other scopes and another audience.
abbrev narrow : Config
narrow = record cfg { cache_key = "" }

abbrev wide : Config
wide = record cfg {
  cache_key = "";
  client_secret = "secret2";
  scopes = "admin" ∷ [];
  extra_params = ("audience", "billing") ∷ [];
}

abbrev made : Config → Client
made conf = record { cfg = with_defaults plain (with_grant conf); base = base }

new-narrow : new plain base narrow ≡ client (made narrow)
unfolding new with_grant
new-narrow = refl

new-wide : new plain base wide ≡ client (made wide)
unfolding new with_grant
new-wide = refl

refresh-narrow :
    (refresh run_time plain store endpoint (made narrow) background start).0 ≡ token_ok t2
unfolding refresh go_library.Oauth.Client.Methods.fetch_and_cache fetch
    go_library.Oauth.Token.decode_map go_library.Oauth.Token.parse_token_response lookup ◌+ℤ◌ insert
    now go_library.Logger.Lifecycle.stage go_library.Logger.Context.lifecycle_from
    go_library.Logger.Context.ensure_request_id go_library.Logger.Context.request_id with_defaults
    with_grant
refresh-narrow = refl

token_valid-narrow :
    let s' = (refresh run_time plain store endpoint (made narrow) background start).1 in
    let s'' = (begin_call run_time plain store endpoint background s').1 in
    token_valid (pos 60000000000) (pos (now run_time s''.world).0) (cached_view t2) ≡ true
unfolding token_valid cached_view unix_seconds go_library.Oauth.Codec.unix_time ◌+ℤ◌ now begin_call
    go_library.Logger.Lifecycle.stage go_library.Logger.Context.lifecycle_from
    go_library.Logger.Context.ensure_request_id go_library.Logger.Context.request_id refresh
    go_library.Oauth.Client.Methods.fetch_and_cache fetch go_library.Oauth.Token.decode_map
    go_library.Logger.Handler.log with_defaults with_grant
token_valid-narrow = refl

new-token-refresh_example :
    let s' = (refresh run_time plain store endpoint (made narrow) background start).1 in
    ((token run_time plain store endpoint (made wide) background s').0 ≡ token_ok (cached_view t2))
    × ((token run_time plain store endpoint (made wide) background s').1.sent ≡ s'.sent)
unfolding with_defaults with_grant
new-token-refresh_example =
    new-token-refresh run_time plain store endpoint base base narrow wide (made narrow) (made wide)
      (record { url = refl; grant = refl; id = refl; user = refl; key = refl }) new-narrow new-wide
      plain-IsLawfulCodec (redis_cache-IsLawfulCache dict_client dict_client-IsLawfulClient)
      (λ value ttl st. refl) refl refl background background start t2 refresh-narrow t2-IsInt64
      token_valid-narrow

token-invalidate_example :
    let (_, s') = invalidate run_time plain store endpoint (client_of cfg) start in
    ((before : Sys store endpoint) × (before.server ≡ 0)
      × ((token run_time plain store endpoint (client_of cfg) background s').0
          ≡ (fetch run_time plain store endpoint cfg before).0))
    × ((token run_time plain store endpoint (client_of cfg) background s').1.sent
        ≡ [] ++ requests run_time plain store endpoint cfg none)
unfolding invalidate
token-invalidate_example =
    token-invalidate run_time plain store endpoint (client_of cfg) background start
      (redis_cache-IsLawfulCache dict_client dict_client-IsLawfulClient) refl refl

-- Another client of the endpoint, with a token of its own in the cache, which expires with the other.
abbrev others : Credentials
others = record {
  client_id = "id2";
  client_secret = "secret2";
  username = "joe";
  password = "hunter2";
  security_token = "";
  scopes = [];
  extra_params = [];
}

abbrev holding : String → Dict Bytes
holding secret = ("k", marshal_cache plain (record held { access_token = secret })) ∷ []

abbrev other_grant : Bytes
other_grant = plain.encode (("access_token", string "t9") ∷ ("expires_in", number "3600") ∷ [])

abbrev granting : Endpoint
granting = record endpoint { post = λ req n. (response 200 other_grant, n + 1) }

holding-AlikeGot : AlikeGot plain (store.get "k" (holding "t0")).0 (store.get "k" (holding "t9")).0
unfolding lookup go_library.Oauth.Backend.Redis.translate unmarshal_cache marshal_cache unix_seconds
holding-AlikeGot = (refl, refl)

abbrev fields : String → Dict Field
fields secret = ("access_token", text secret) ∷ ("expires_in", float 3600) ∷ []

decode_map-granted : decode_map plain (take max_body_bytes granted) ≡ some (fields "t1")
unfolding decode_map insert
decode_map-granted = refl

decode_map-other_grant : decode_map plain (take max_body_bytes other_grant) ≡ some (fields "t9")
unfolding decode_map insert
decode_map-other_grant = refl

parse_token_response-SameLife :
    (t : Time)
    → SameLife
        (parse_token_response plain (fields "t1") t (pos 900000000000))
        (parse_token_response plain (fields "t9") t (pos 900000000000))
unfolding parse_token_response lookup
parse_token_response-SameLife t = (refl, refl)

post-AlikeServed : AlikeServed plain store store endpoint granting (client_of cfg) others 0 0
post-AlikeServed = (
  refl,
  (
    refl,
    λ e. cc e,
    λ e.
        subst₂
          (AlikeFields plain (pos 900000000000) (take max_body_bytes granted)
            (take max_body_bytes other_grant))
          (sym decode_map-granted) (sym decode_map-other_grant) parse_token_response-SameLife,
  ),
)

token-Alike_example :
    let s : Sys store endpoint = record {
      world = boot;
      store = holding "t0";
      server = 0;
      sent = [];
    } in
    let s' : Sys store granting = record {
      world = boot;
      store = holding "t9";
      server = 0;
      sent = [];
    } in
    let c = client_of cfg in
    let c' = with_credentials others c in
    SameWorld
      (token run_time plain store endpoint c background s).1
      (token run_time plain store granting c' background s').1
    × SameWorld
        (refresh run_time plain store endpoint c background s).1
        (refresh run_time plain store granting c' background s').1
token-Alike_example =
    token-Alike run_time plain store store endpoint granting (client_of cfg) others
      (λ v v' ttl st st'. refl) background boot (holding "t0") (holding "t9") 0 0 [] []
      holding-AlikeGot post-AlikeServed
