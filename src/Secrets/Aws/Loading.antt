-- ===== src/Secrets/Aws/Loading.antt =====
-- secrets/aws/source.go under secrets/secrets.go: a loader whose source is AWS.
use go_library.Prelude.{
  true, ℕ, ◌<◌, ◌≡◌, sym, ap, ◌∙◌, String, Option, none, some, Option-cases, inl, inr, refl, List,
  [],
}
use mathlib.Core.Path.{subst}
use go_library.Runtime.{Runtime}
use go_library.Logger.State.{Logger}
use go_library.Logger.Context.{Context}
use go_library.Oauth.Codec.{Bytes}
use go_library.Secrets.{Answer, found, missing, failure, Source, Sys}
use go_library.Secrets
use go_library.Secrets.Answers.{loads_lem}
use go_library.Secrets.Aws.{
  Api, Parameter, SecretValue, Reply, output, not_found_exception, api_error, err_not_found, secret,
  parameter, secret_answer, parameter_answer, parameters_by_path, IsPaginated,
}
use go_library.Secrets.Aws.Paging.{Served, gathered, parameters_by_path_lem}

-- The value of a secret: its text, or its bytes without one. That of a parameter is its text.
abbrev pub secret_value : SecretValue → Bytes
secret_value out = elim out.secret_string [ none ↦ out.secret_binary | some s ↦ s ]

abbrev pub parameter_value : Parameter → Bytes
parameter_value p = elim p.value [ none ↦ [] | some s ↦ s ]

-- A reply of the service gives an answer: the value of an output, `ErrNotFound` for the exception of a
-- missing entry, and every other error as it is.
abbrev pub Gives : {A : Type 0} → (A → Bytes) → Reply A → Answer Bytes → Type 0
Gives value (output out) a = a ≡ found (value out)
Gives value (not_found_exception e) a = a ≡ missing err_not_found
Gives value (api_error e) a = a ≡ failure e

secret_answer-Gives : (r : Reply SecretValue) → Gives secret_value r (secret_answer r)
unfolding secret_answer
secret_answer-Gives (not_found_exception e) = refl
secret_answer-Gives (api_error e) = refl
secret_answer-Gives (output out) = elim (Option-cases out.secret_string) [
  | inl e ↦ rw e refl
  | inr (t, e) ↦ rw e refl
]

parameter_answer-Gives : (r : Reply Parameter) → Gives parameter_value r (parameter_answer r)
unfolding parameter_answer
parameter_answer-Gives (not_found_exception e) = refl
parameter_answer-Gives (api_error e) = refl
parameter_answer-Gives (output p) = elim (Option-cases p.value) [
  | inl e ↦ rw e refl
  | inr (t, e) ↦ rw e refl
]

module _ (api : Api) (left : String → Option String → api.State → ℕ)
    (fair : IsPaginated api left) where
  -- The AWS source as a source of a loader: the loop over pages has as much fuel as it needs.
  abbrev pub aws_source : Source
  aws_source = record {
    State = api.State;
    secret = secret api;
    parameter = parameter api;
    parameters_by_path = λ path st.
        let ends = parameters_by_path_lem api path left fair st in (gathered [] ends.0, ends.1);
  }

  module _ (rt : Runtime) (l : Logger) where
    -- A loader over AWS, where the pages of each listing run out. A secret, and a parameter, which is
    -- asked for with decryption, that the service has gives its value, the text of a secret or its bytes
    -- if it has no text; one that the service says does not exist gives `ErrNotFound`; any other error
    -- of the service is the error of the load. The parameters under a path are those that the service
    -- serves on all pages, or its first error: what the loop over the pages returns on any fuel above
    -- the bound of the pages. Each load leaves the service as its calls do.
    pub load-Served :
        (ctx : Context) (name : String) (s : Sys aws_source)
        → let (v, s1) = Secrets.secret rt l aws_source ctx name s in
          let (p, s2) = Secrets.parameter rt l aws_source ctx name s in
          let (a, s3) = Secrets.parameters_by_path rt l aws_source ctx name s in
          let (secret_reply, st1) = api.get_secret_value name s.state in
          let (parameter_reply, st2) =
            api.get_parameter (record { name = name; with_decryption = true }) s.state in
          Gives secret_value secret_reply v
          × (s1.state ≡ st1)
          × Gives parameter_value parameter_reply p
          × (s2.state ≡ st2)
          × (r : Answer (List Parameter)) × Served api name none s.state r s3.state
          × (a ≡ gathered [] r)
          × ((n : ℕ)
              → left name none s.state < n
              → parameters_by_path api n name s.state ≡ some (a, s3.state))
    unfolding secret parameter
    load-Served ctx name s =
        let (secrets, params, paths) = loads_lem rt l aws_source ctx name s in
        let (r, st', served, returned, values) =
          parameters_by_path_lem api name left fair s.state in
        (
          subst (Gives secret_value _) (sym secrets.same) (secret_answer-Gives _),
          secrets.moved,
          subst (Gives parameter_value _) (sym params.same) (parameter_answer-Gives _),
          params.moved,
          r,
          subst (λ st. Served api name none s.state r st) (sym paths.moved) served,
          paths.same,
          λ n h. returned n h ∙ ap some (λ i. (sym paths.same i, sym paths.moved i)),
        )
