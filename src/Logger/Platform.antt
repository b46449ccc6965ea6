-- ===== src/Logger/Platform.antt =====
-- logger/platform.go: detection of the platform, and its attributes.
pub mod Detection
use go_library.Prelude.{
  String, Bool, not, ◌||◌, List, [], ◌∷◌, ◌++◌, ◌==◌, string_eq, if◌then◌else◌,
}
use go_library.Runtime.{Runtime}
use go_library.Logger.Value.{text, Attr}
use go_library.Logger.State.{Platform, lambda, ecs, kubernetes, container, local, named_platform}

-- The text of a `Platform`.
unfoldable pub platform_name : Platform → String
platform_name lambda = "lambda"
platform_name ecs = "ecs"
platform_name kubernetes = "kubernetes"
platform_name container = "container"
platform_name local = "local"
platform_name (named_platform name) = name

module _ (rt : Runtime) where
  abbrev pub is_set : String → Bool
  is_set key = not (rt.getenv key == "")

  -- `DetectPlatform`
  unfoldable pub detect_platform : Platform
  detect_platform =
      if is_set "AWS_LAMBDA_FUNCTION_NAME"
      then lambda
      else if is_set "ECS_CONTAINER_METADATA_URI_V4" || is_set "ECS_CONTAINER_METADATA_URI"
      then ecs
      else if is_set "KUBERNETES_SERVICE_HOST"
      then kubernetes
      else if rt.file_exists "/.dockerenv" || is_set "container"
      then container
      else local

  -- `firstEnv`
  unfoldable pub first_env : List String → String
  first_env [] = ""
  first_env (k ∷ ks) = let rest = first_env ks in if rt.getenv k == "" then rest else rt.getenv k

  -- An attribute that is left out where its text is empty.
  abbrev pub optional : String → String → List Attr
  optional key value = if value == "" then [] else (key, text value) ∷ []

  abbrev pub own_attrs : Platform → List Attr
  own_attrs lambda =
      optional "functionName" (rt.getenv "AWS_LAMBDA_FUNCTION_NAME")
      ++ optional "functionMemoryMB" (rt.getenv "AWS_LAMBDA_FUNCTION_MEMORY_SIZE")
  own_attrs kubernetes = optional "pod" (rt.getenv "HOSTNAME")
  own_attrs _ = []

  -- `platformAttrs`
  unfoldable pub platform_attrs : Platform → List Attr
  unfolding first_env
  platform_attrs p =
      optional "region" (first_env ("AWS_REGION" ∷ "AWS_DEFAULT_REGION" ∷ [])) ++ own_attrs p
