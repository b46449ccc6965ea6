-- ===== src/Logger/Platform/Detection.antt =====
-- logger/platform.go: which platform is detected, and where its attributes come from.
use go_library.Prelude.{
  ◌≡◌, ◌≢◌, refl, ap, ◌∙◌, ◌⊎◌, inl, inr, String, true, false, List, [], ◌∷◌, All, All-append,
  Bool-cases, ◌==◌, string_eq, arith,
}
use go_library.Runtime.{Runtime}
use go_library.Logger.Value.{text, Attr}
use go_library.Logger.State.{Platform, lambda, ecs, kubernetes, container, local, named_platform}
use go_library.Logger.Platform.{optional, own_attrs, detect_platform, first_env, platform_attrs}

module _ (rt : Runtime) where
  abbrev Set_ : String → Type 0
  Set_ key = rt.getenv key ≢ ""

  abbrev Unset : String → Type 0
  Unset key = rt.getenv key ≡ ""

  abbrev InEcs : Type 0
  InEcs = Set_ "ECS_CONTAINER_METADATA_URI_V4" ⊎ Set_ "ECS_CONTAINER_METADATA_URI"

  abbrev NotInEcs : Type 0
  NotInEcs = Unset "ECS_CONTAINER_METADATA_URI_V4" × Unset "ECS_CONTAINER_METADATA_URI"

  -- The signs of each platform, and of none that comes before it.
  abbrev pub HasSigns : Platform → Type 0
  HasSigns lambda = Set_ "AWS_LAMBDA_FUNCTION_NAME"
  HasSigns ecs = Unset "AWS_LAMBDA_FUNCTION_NAME" × InEcs
  HasSigns kubernetes = Unset "AWS_LAMBDA_FUNCTION_NAME" × NotInEcs × Set_ "KUBERNETES_SERVICE_HOST"
  HasSigns container =
      Unset "AWS_LAMBDA_FUNCTION_NAME"
      × NotInEcs
      × Unset "KUBERNETES_SERVICE_HOST"
      × ((rt.file_exists "/.dockerenv" ≡ true) ⊎ Set_ "container")
  HasSigns local =
      Unset "AWS_LAMBDA_FUNCTION_NAME"
      × NotInEcs
      × Unset "KUBERNETES_SERVICE_HOST"
      × (rt.file_exists "/.dockerenv" ≡ false)
      × Unset "container"
  HasSigns (named_platform name) = ⊥

  -- An attribute with the text of a variable that is set.
  abbrev pub FromEnvironment : Attr → Type 0
  FromEnvironment (k, v) = (key : String) × (v ≡ text (rt.getenv key)) × Set_ key

  equal : (key : String) → (rt.getenv key == "") ≡ true → Unset key
  equal key e = (string_eq.agree_iff _ _).0 e

  differs : (key : String) → (rt.getenv key == "") ≡ false → Set_ key
  differs key e z = ground (arith, string_eq.agree_iff (rt.getenv key) "")

  detect_platform-HasSigns : HasSigns (detect_platform rt)
  unfolding detect_platform
  detect_platform-HasSigns = elim (Bool-cases (rt.getenv "AWS_LAMBDA_FUNCTION_NAME" == "")) [
    | inr f ↦ rw (detect_platform, f) (differs _ f)
    | inl f ↦ elim (Bool-cases (rt.getenv "ECS_CONTAINER_METADATA_URI_V4" == "")) [
      | inr v ↦ rw (detect_platform, f, v) (equal _ f, inl (differs _ v))
      | inl v ↦ elim (Bool-cases (rt.getenv "ECS_CONTAINER_METADATA_URI" == "")) [
        | inr u ↦ rw (detect_platform, f, v, u) (equal _ f, inr (differs _ u))
        | inl u ↦ elim (Bool-cases (rt.getenv "KUBERNETES_SERVICE_HOST" == "")) [
          | inr k ↦
              rw (detect_platform, f, v, u, k) (equal _ f, (equal _ v, equal _ u), differs _ k)
          | inl k ↦ elim (Bool-cases (rt.file_exists "/.dockerenv")) [
            | inl d ↦
                rw (detect_platform, f, v, u, k, d)
                  (equal _ f, (equal _ v, equal _ u), equal _ k, inl d)
            | inr d ↦ elim (Bool-cases (rt.getenv "container" == "")) [
              | inr c ↦
                  rw (detect_platform, f, v, u, k, d, c)
                    (equal _ f, (equal _ v, equal _ u), equal _ k, inr (differs _ c))
              | inl c ↦
                  rw (detect_platform, f, v, u, k, d, c)
                    (equal _ f, (equal _ v, equal _ u), equal _ k, d, equal _ c)
            ]
          ]
        ]
      ]
    ]
  ]

  first_env_lem :
      (keys : List String)
      → first_env rt keys ≢ ""
      → (key : String) × (first_env rt keys ≡ rt.getenv key)
  unfolding first_env
  first_env_lem [] ne = absurd (ne refl)
  first_env_lem (k ∷ keys) ne = elim (Bool-cases (rt.getenv k == "")) [
    | inl e ↦
        let same : first_env rt (k ∷ keys) ≡ first_env rt keys = rw (first_env, e) refl in
        let (key, h) = first_env_lem keys (λ z. ne (same ∙ z)) in (key, same ∙ h)
    | inr e ↦ (k, rw (first_env, e) refl)
  ]

  optional-FromEnvironment :
      (k v : String)
      → (v ≢ "" → (key : String) × (v ≡ rt.getenv key))
      → All FromEnvironment (optional rt k v)
  optional-FromEnvironment k v h = elim (Bool-cases (v == "")) [
    | inl e ↦ rw e tt
    | inr e ↦
        let ne : v ≢ "" = λ z. ground (arith, string_eq.agree_iff v "") in
        let (key, same) = h ne in rw e ((key, ap text same, λ z. ne (same ∙ z)), tt)
  ]

  -- The platform that is detected is the first of Lambda, ECS, Kubernetes and a container that has its
  -- signs in the environment, and local if none has. Every attribute of a platform, whichever it
  -- is, has the text of an environment variable that is set.
  pub detect_platform_lem :
      HasSigns (detect_platform rt) × ((p : Platform) → All FromEnvironment (platform_attrs rt p))
  unfolding platform_attrs
  detect_platform_lem = (
    detect_platform-HasSigns,
    λ p.
        All-append FromEnvironment (optional rt "region" (first_env rt regions)) _
          (optional-FromEnvironment "region" _ (first_env_lem regions)) (own p),
  )
    where
      regions : List String
      regions = "AWS_REGION" ∷ "AWS_DEFAULT_REGION" ∷ []

      own : (p : Platform) → All FromEnvironment (own_attrs rt p)
      own lambda =
          All-append FromEnvironment
            (optional rt "functionName" (rt.getenv "AWS_LAMBDA_FUNCTION_NAME")) _
            (optional-FromEnvironment "functionName" _ (λ ne. ("AWS_LAMBDA_FUNCTION_NAME", refl)))
            (optional-FromEnvironment "functionMemoryMB" _
              (λ ne. ("AWS_LAMBDA_FUNCTION_MEMORY_SIZE", refl)))
      own kubernetes = optional-FromEnvironment "pod" _ (λ ne. ("HOSTNAME", refl))
      own ecs = tt
      own container = tt
      own local = tt
      own (named_platform name) = tt
