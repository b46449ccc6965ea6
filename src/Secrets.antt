-- ===== src/Secrets.antt =====
-- secrets/secrets.go and secrets/source.go: the loader of secrets and parameters, over a source. The
-- state behind the source is a parameter, and a secret is a byte string.
pub mod Silence
pub mod Answers
pub mod Parsing
pub mod Correlation
pub mod Aws
use go_library.Prelude.{
  ℕ, String, Option, none, some, List, [], ◌∷◌, ◌++◌, Dict, insert, pos, length,
}
use go_library.Runtime.{Runtime}
use go_library.Logger.Value.{Attr, text, scalar, int, millis}
use go_library.Logger.State.{Logger, World, now}
use go_library.Logger.Context.{Context, ensure_request_id, lifecycle_from}
use go_library.Logger.Handler.{debug, error, err_attr}
use go_library.Logger.Lifecycle.{stage, dur_ms}
use go_library.Oauth.Codec.{Bytes, Json, null, string, Codec, object, null_document, other_document}

-- What a source answers: a value, `ErrNotFound` or an error that wraps it, or another error.
pub data Answer (A : Type 0) : Type 0 where
  found : A → Answer A
  missing : String → Answer A
  failure : String → Answer A

-- `Source`
pub record Source : Type 1 where
  pub State : Type 0
  pub secret : String → State → Answer Bytes × State
  pub parameter : String → State → Answer Bytes × State
  pub parameters_by_path : String → State → Answer (Dict Bytes) × State

-- What a loader acts on.
pub record Sys (src : Source) : Type 0 where
  pub world : World
  pub state : src.State

abbrev pub M : Source → Type 0 → Type 0
M src A = Sys src → A × Sys src

module _ {src : Source} where
  infixl 5 ◌>>=◌ ◌>>◌
  abbrev pub ◌>>=◌ : {A B : Type 0} → M src A → (A → M src B) → M src B
  ◌>>=◌ m f s = let (a, s') = m s in f a s'

  abbrev pub ◌>>◌ : {A B : Type 0} → M src A → M src B → M src B
  ◌>>◌ m k s = let (a, s') = m s in k s'

  abbrev pub pure : {A : Type 0} → A → M src A
  pure a s = (a, s)

  -- An action of the logger package, and a call of the source.
  abbrev pub lift : {A : Type 0} → (World → A × World) → M src A
  lift m s = let (a, w) = m s.world in (a, record s { world = w })

  abbrev pub ask : {A : Type 0} → (src.State → A × src.State) → M src A
  ask m s = let (a, st) = m s.state in (a, record s { state = st })

-- The attributes that every line of a load has.
abbrev pub load_attrs : String → String → String → ℕ → ℕ → List Attr
load_attrs key name source start t =
    (key, text name)
    ∷ ("secrets.source", text source)
    ∷ ("secrets.durationMs", scalar (millis (dur_ms start t)))
    ∷ []

abbrev pub secrets_manager : String
secrets_manager = "secretsManager"

abbrev pub parameter_store : String
parameter_store = "parameterStore"

-- The texts of the lines of a load: on a value, on `ErrNotFound`, and on another error.
pub record Messages : Type 0 where
  pub loaded : String
  pub not_found : String
  pub failed : String

-- `secretErrMessage` and `parameterErrMessage`, with the message of a success before them.
abbrev pub secret_messages : Messages
secret_messages = record {
  loaded = "secret loaded";
  not_found = "secret not found";
  failed = "secret load failed";
}

abbrev pub parameter_messages : Messages
parameter_messages = record {
  loaded = "parameter loaded";
  not_found = "parameter not found";
  failed = "parameter load failed";
}

abbrev pub parameters_messages : Messages
parameters_messages = record {
  loaded = "parameters loaded";
  not_found = "parameter not found";
  failed = "parameter load failed";
}

module _ (rt : Runtime) (l : Logger) where
  -- The line of a load, with further attributes on a value.
  unfoldable pub log_answer :
      {A : Type 0}
      → Messages
      → Context
      → List Attr
      → (A → List Attr)
      → Answer A
      → World
      → Unit {0} × World
  log_answer ms ctx attrs more (found a) = debug rt l ctx ms.loaded (attrs ++ more a)
  log_answer ms ctx attrs more (missing e) =
      error rt l ctx ms.not_found (attrs ++ err_attr (some e) ∷ [])
  log_answer ms ctx attrs more (failure e) =
      error rt l ctx ms.failed (attrs ++ err_attr (some e) ∷ [])

  module _ (src : Source) where
    -- The first two lines of each load.
    unfoldable pub begin_load : Context → M src Context
    begin_load ctx = do
      (ctx', _) ← lift (ensure_request_id rt ctx)
      lift (stage rt (lifecycle_from ctx') ctx' "secrets.load" [])
      pure ctx'

    -- `fetchSecret`, and `Secret`
    unfoldable pub secret : Context → String → M src (Answer Bytes)
    unfolding begin_load log_answer
    secret ctx name = do
      ctx' ← begin_load ctx
      start ← lift (now rt)
      answer ← ask (src.secret name)
      t ← lift (now rt)
      lift (
          log_answer secret_messages ctx' (load_attrs "secrets.name" name secrets_manager start t)
            (λ v. []) answer)
      pure answer

    -- `Parameter`
    unfoldable pub parameter : Context → String → M src (Answer Bytes)
    unfolding begin_load log_answer
    parameter ctx name = do
      ctx' ← begin_load ctx
      start ← lift (now rt)
      answer ← ask (src.parameter name)
      t ← lift (now rt)
      lift (
          log_answer parameter_messages ctx'
            (load_attrs "secrets.name" name parameter_store start t) (λ v. []) answer)
      pure answer

    -- `ParametersByPath`
    unfoldable pub parameters_by_path : Context → String → M src (Answer (Dict Bytes))
    unfolding begin_load log_answer
    parameters_by_path ctx path = do
      ctx' ← begin_load ctx
      start ← lift (now rt)
      answer ← ask (src.parameters_by_path path)
      t ← lift (now rt)
      lift (
          log_answer parameters_messages ctx'
            (load_attrs "secrets.path" path parameter_store start t)
            (λ vals. ("secrets.count", scalar (int (pos (length vals)))) ∷ []) answer)
      pure answer

-- The result of `SecretJSON`; `unparsable` is the error that names the secret and wraps the text.
pub data Parsed : Type 0 where
  members : Dict String → Parsed
  not_found : String → Parsed
  not_loaded : String → Parsed
  unparsable : String → String → Parsed

-- The members of an object that is read into a `map[string]string`: null is the empty text, another
-- value that is no text is an error.
unfoldable pub string_members : List (String × Json) → Dict String → Option (Dict String)
string_members [] m = some m
string_members ((k, string s) ∷ ms) m = string_members ms (insert k s m)
string_members ((k, null) ∷ ms) m = string_members ms (insert k "" m)
string_members ((k, _) ∷ ms) m = none

-- `json.Unmarshal` into a `map[string]string`.
unfoldable pub unmarshal_strings : Codec → Bytes → Option (Dict String)
unfolding string_members
unmarshal_strings cx bytes = elim (cx.decode bytes) [
  | none ↦ none
  | some (object ms) ↦ string_members ms []
  | some null_document ↦ some []
  | some other_document ↦ none
]

module _ (rt : Runtime) (cx : Codec) (l : Logger) (src : Source) where
  -- What `SecretJSON` does with a value that it parsed, or could not parse.
  unfoldable pub parsed : Context → String → Bytes → Option (Dict String) → M src Parsed
  parsed ctx name v (some m) = pure (members m)
  parsed ctx name v none = do
    (ctx', _) ← lift (ensure_request_id rt ctx)
    lift (
        error rt l ctx' "secret JSON parse failed" (
          ("secrets.name", text name)
          ∷ ("secrets.source", text secrets_manager)
          ∷ err_attr (some (cx.decode_failure v))
          ∷ []))
    pure (unparsable name (cx.decode_failure v))

  unfoldable pub parse_answer : Context → String → Answer Bytes → M src Parsed
  unfolding parsed unmarshal_strings
  parse_answer ctx name (found v) = parsed ctx name v (unmarshal_strings cx v)
  parse_answer ctx name (missing e) = pure (not_found e)
  parse_answer ctx name (failure e) = pure (not_loaded e)

  -- `SecretJSON`
  unfoldable pub secret_json : Context → String → M src Parsed
  unfolding secret parse_answer
  secret_json ctx name = do answer ← secret rt l src ctx name; parse_answer ctx name answer
