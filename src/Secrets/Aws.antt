-- ===== src/Secrets/Aws.antt =====
-- secrets/aws/source.go: AWS Secrets Manager and SSM Parameter Store as a source. The clients of the
-- AWS SDK are a parameter; a pointer to a text is an option.
pub mod Paging
pub mod Loading
use go_library.Prelude.{
  ℕ, zero, suc, ◌<◌, ◌≡◌, ◌≢◌, String, Bool, true, Option, none, some, List, [], ◌∷◌, Dict, insert,
  ◌==◌, string_eq, if◌then◌else◌,
}
use go_library.Oauth.Codec.{Bytes}
use go_library.Secrets.{Answer, found, missing, failure}

-- What a client answers: an output, the exception for an entry that does not exist, another error.
pub data Reply (A : Type 0) : Type 0 where
  output : A → Reply A
  not_found_exception : String → Reply A
  api_error : String → Reply A

pub record SecretValue : Type 0 where
  pub secret_string : Option Bytes
  pub secret_binary : Bytes

pub record Parameter : Type 0 where
  pub name : Option String
  pub value : Option Bytes

pub record ParameterInput : Type 0 where
  pub name : String
  pub with_decryption : Bool

pub record PathInput : Type 0 where
  pub path : String
  pub recursive : Bool
  pub with_decryption : Bool
  pub next_token : Option String

pub record Page : Type 0 where
  pub parameters : List Parameter
  pub next_token : Option String

-- `secretsManagerAPI` and `ssmAPI`; the output of `GetParameter` has its parameter, as the service
-- documents it.
pub record Api : Type 1 where
  pub State : Type 0
  pub get_secret_value : String → State → Reply SecretValue × State
  pub get_parameter : ParameterInput → State → Reply Parameter × State
  pub get_parameters_by_path : PathInput → State → Reply Page × State

-- `secrets.ErrNotFound`
abbrev pub err_not_found : String
err_not_found = "secrets: not found"

-- `awssdk.ToString`: nil is the empty text.
abbrev pub to_string : {A : Type 0} → A → Option A → A
to_string empty none = empty
to_string empty (some v) = v

unfoldable pub secret_answer : Reply SecretValue → Answer Bytes
secret_answer (not_found_exception e) = missing err_not_found
secret_answer (api_error e) = failure e
secret_answer (output out) = found (to_string out.secret_binary out.secret_string)

unfoldable pub parameter_answer : Reply Parameter → Answer Bytes
parameter_answer (not_found_exception e) = missing err_not_found
parameter_answer (api_error e) = failure e
parameter_answer (output p) = found (to_string [] p.value)

-- The parameters of a page, written into the result.
unfoldable pub collect : List Parameter → Dict Bytes → Dict Bytes
collect [] m = m
collect (p ∷ ps) m = collect ps (insert (to_string "" p.name) (to_string [] p.value) m)

-- The token to go on with; nil and the empty text end the listing.
unfoldable pub following : Option String → Option String
following none = none
following (some token) = if token == "" then none else some token

module _ (api : Api) where
  -- `Secret`
  unfoldable pub secret : String → api.State → Answer Bytes × api.State
  unfolding secret_answer
  secret name st = let (r, st') = api.get_secret_value name st in (secret_answer r, st')

  -- `Parameter`
  unfoldable pub parameter : String → api.State → Answer Bytes × api.State
  unfolding parameter_answer
  parameter name st =
      let (r, st') = api.get_parameter (record { name = name; with_decryption = true }) st in
      (parameter_answer r, st')

  abbrev pub request_page : String → Option String → api.State → Reply Page × api.State
  request_page path token =
      api.get_parameters_by_path
        (record { path = path; recursive = true; with_decryption = true; next_token = token })

  -- The loop of `ParametersByPath`, on fuel; none is that the fuel did not last.
  unfoldable pub pages :
      ℕ → String → Option String → Dict Bytes → api.State → Option (Answer (Dict Bytes) × api.State)
  unfolding collect following
  pages zero path token m st = none
  pages (suc n) path token m st =
      let (r, st') = request_page path token st in
      elim r [
        | not_found_exception e ↦ some (missing err_not_found, st')
        | api_error e ↦ some (failure e, st')
        | output page ↦ elim (following page.next_token) [
          | none ↦ some (found (collect page.parameters m), st')
          | some next ↦ pages n path (some next) (collect page.parameters m) st'
        ]
      ]

  -- `ParametersByPath`
  unfoldable pub parameters_by_path :
      ℕ → String → api.State → Option (Answer (Dict Bytes) × api.State)
  unfolding pages
  parameters_by_path n path st = pages n path none [] st

  -- A listing comes to an end: `left` bounds the pages that follow, and each page with a token is
  -- followed by fewer.
  abbrev pub IsPaginated : (String → Option String → api.State → ℕ) → Type 0
  IsPaginated left =
      (path : String) (token : Option String) (st : api.State) (page : Page) (next : String)
      → (request_page path token st).0 ≡ output page
      → following page.next_token ≡ some next
      → left path (some next) (request_page path token st).1 < left path token st
