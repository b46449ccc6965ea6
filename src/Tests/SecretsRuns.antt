-- ===== src/Tests/SecretsRuns.antt =====
-- secrets/secrets.go and secrets/aws/source.go: the theorems at concrete data.
use go_library.Prelude.{
  true, ◌++◌, ℕ, ◌<◌, ◌≡◌, refl, String, Option, none, some, List, [], ◌∷◌, Dict, lookup, pos,
  length, arith, string_eq,
}
use go_library.Logger.Value.{scalar, int}
use go_library.Logger.Handler.{enabled}
use go_library.Logger.State.{Logger, Line, context_handler, sink, json}
use go_library.Logger.Context.{background, request_id}
use go_library.Oauth.Codec.{Bytes}
use go_library.Secrets.{
  Answer, found, missing, Source, Sys, secret, parameter, parameters_by_path, members, unparsable,
  unmarshal_strings, secret_json, secret_messages, parameter_messages, parameters_messages,
  secrets_manager, parameter_store,
}
use go_library.Secrets.Silence.{loads-Alike, Alike, AnyTwo, SameCount}
use go_library.Secrets.Answers.{Loaded, loads_lem}
use go_library.Secrets.Parsing.{strings, last_member, secret_json-encode}
use go_library.Secrets.Correlation.{drawn, secret_json-ids}
use go_library.Logger.Lifecycle.Correlation.{Carries, Written}
use go_library.Secrets.Aws.{
  SecretValue, err_not_found, to_string, Api, Reply, output, not_found_exception, Page, PathInput,
  Parameter, IsPaginated, following, collect,
}
use go_library.Secrets.Aws
use go_library.Secrets.Aws.Paging.{Served, gathered, last_value, parameters_by_path_lem}
use go_library.Secrets.Aws.Loading.{Gives, secret_value, parameter_value, aws_source, load-Served}
use go_library.Tests.Data.{run_time, boot, orders}
use go_library.Tests.PlainCodec.{plain, plain-IsLawfulCodec}

abbrev console : Logger
console = record { handler = sink json 0 []; level = 0; cfg = orders }

-- A source of one value.
abbrev only : Bytes → Source
only v = record {
  State = Unit {0};
  secret = λ name st. (found v, st);
  parameter = λ name st. (missing "secrets: not found", st);
  parameters_by_path = λ path st. (found (("/db/user", v) ∷ []), st);
}

abbrev credentials : List (String × String)
credentials = ("user", "joe") ∷ ("user", "ann") ∷ ("password", "s3cret") ∷ []

abbrev vault : Source
vault = only (plain.encode (strings credentials))

abbrev start : (src : Source) → src.State → Sys src
start src st = record { world = boot; state = st }

loads-Alike_example :
    let s = start vault tt in
    let s' = start (only (7 ∷ [])) tt in
    (Alike AnyTwo (vault.secret "/db" tt).0 (found (7 ∷ []))
      → (secret run_time console vault background "/db" s).1.world
        ≡ (secret run_time console (only (7 ∷ [])) background "/db" s').1.world)
    × (Alike AnyTwo (vault.parameter "/db" tt).0 (missing "secrets: not found")
        → (parameter run_time console vault background "/db" s).1.world
          ≡ (parameter run_time console (only (7 ∷ [])) background "/db" s').1.world)
    × (Alike SameCount (vault.parameters_by_path "/db" tt).0 (found (("/db/user", 7 ∷ []) ∷ []))
        → (parameters_by_path run_time console vault background "/db" s).1.world
          ≡ (parameters_by_path run_time console (only (7 ∷ [])) background "/db" s').1.world)
loads-Alike_example = loads-Alike run_time console vault (only (7 ∷ [])) tt tt background "/db" boot

loads_lem_example :
    let s = start vault tt in
    Loaded run_time console vault background secret_messages "secrets.name" "/db" secrets_manager
      (λ v. [])
      s
      (vault.secret "/db" tt)
      (secret run_time console vault background "/db" s)
    × Loaded run_time console vault background parameter_messages "secrets.name" "/db"
        parameter_store
        (λ v. [])
        s
        (vault.parameter "/db" tt)
        (parameter run_time console vault background "/db" s)
    × Loaded run_time console vault background parameters_messages "secrets.path" "/db"
        parameter_store
        (λ d. ("secrets.count", scalar (int (pos (length d)))) ∷ [])
        s
        (vault.parameters_by_path "/db" tt)
        (parameters_by_path run_time console vault background "/db" s)
loads_lem_example = loads_lem run_time console vault background "/db" (start vault tt)

secret_json-encode_example :
    (d : Dict String) × ((secret_json run_time plain console vault background "/db"
        (start vault tt)).0
      ≡ members d)
    × ((k : String) → lookup k d ≡ last_member k credentials none)
secret_json-encode_example =
    secret_json-encode run_time plain console vault background "/db" (start vault tt) credentials
      plain-IsLawfulCodec refl

-- A logger as `New` makes one.
abbrev correlating : Logger
correlating = record { handler = context_handler (sink json 0 []); level = 0; cfg = orders }

secret_json-ids_example :
    let src = only [] in
    let s1 = (secret run_time correlating src background "/db" (start src tt)).1 in
    let (r, s') = secret_json run_time plain correlating src background "/db" (start src tt) in
    (r ≡ unparsable "/db" (plain.decode_failure []))
    × Written run_time (drawn run_time 0) boot s1.world
    × (line : Line) × (s'.world.lines ≡ s1.world.lines ++ line ∷ [])
    × Carries run_time (drawn run_time 1) line
unfolding unmarshal_strings request_id enabled
secret_json-ids_example =
    secret_json-ids run_time plain correlating (only []) background "/db" (start (only []) tt) []
      refl refl refl refl tt tt tt

-- A parameter store with two pages under each path.
abbrev page_at : Option String → Page
page_at none = record {
  parameters = record { name = some "/db/user"; value = some (1 ∷ []) } ∷ [];
  next_token = some "2";
}
page_at (some token) = record {
  parameters = record { name = some "/db/user"; value = some (2 ∷ []) } ∷ [];
  next_token = some "";
}

abbrev store : Api
store = record {
  State = Unit {0};
  get_secret_value = λ name st. (not_found_exception "no such secret", st);
  get_parameter = λ input st. (not_found_exception "no such parameter", st);
  get_parameters_by_path = λ input st. (output (page_at input.next_token), st);
}

abbrev pages_left : String → Option String → Unit {0} → ℕ
pages_left path none st = 1
pages_left path (some token) st = 0

store-IsPaginated : IsPaginated store pages_left
unfolding following
store-IsPaginated path none st page next e go = omega arith
store-IsPaginated path (some token) st page next e go = cc (e, go)

parameters_by_path_lem_example :
    (r : Answer (List Parameter)) × (st' : Unit {0}) × Served store "/db" none tt r st'
    × ((n : ℕ) → 1 < n → Aws.parameters_by_path store n "/db" tt ≡ some (gathered [] r, st'))
    × ((ps : List Parameter) (k : String) → lookup k (collect ps []) ≡ last_value k ps none)
parameters_by_path_lem_example = parameters_by_path_lem store "/db" pages_left store-IsPaginated tt

load-Served_example :
    let aws = aws_source store pages_left store-IsPaginated in
    let s = start aws tt in
    let (v, s1) = secret run_time console aws background "/db" s in
    let (p, s2) = parameter run_time console aws background "/db" s in
    let (a, s3) = parameters_by_path run_time console aws background "/db" s in
    Gives secret_value (store.get_secret_value "/db" tt).0 v
    × (s1.state ≡ tt)
    × Gives parameter_value
        (store.get_parameter (record { name = "/db"; with_decryption = true }) tt).0
        p
    × (s2.state ≡ tt)
    × (r : Answer (List Parameter)) × Served store "/db" none tt r s3.state
    × (a ≡ gathered [] r)
    × ((n : ℕ) → 1 < n → Aws.parameters_by_path store n "/db" tt ≡ some (a, s3.state))
load-Served_example =
    load-Served store pages_left store-IsPaginated run_time console background "/db"
      (start (aws_source store pages_left store-IsPaginated) tt)
