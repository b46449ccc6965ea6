-- ===== src/Secrets/Silence.antt =====
-- secrets/secrets.go: what a load leaves in the log does not depend on the values that it loads.
use go_library.Prelude.{◌≡◌, refl, ap, String, List, [], ◌∷◌, Dict, pos, length}
use go_library.Runtime.{Runtime}
use go_library.Logger.Value.{Attr, scalar, int}
use go_library.Logger.State.{Logger, World, now}
use go_library.Logger.Context.{Context}
use go_library.Oauth.Codec.{Bytes}
use go_library.Secrets.{
  Answer, found, missing, failure, Source, Sys, Messages, secret_messages, parameter_messages,
  parameters_messages, load_attrs, secrets_manager, parameter_store, log_answer, begin_load, secret,
  parameter, parameters_by_path,
}

-- The same error, or a value on both sides; of the two values no more is asked than `P` says.
abbrev pub Alike : {A : Type 0} → (A → A → Type 0) → Answer A → Answer A → Type 0
Alike P (found a) (found b) = P a b
Alike P (missing e) (missing e') = e ≡ e'
Alike P (failure e) (failure e') = e ≡ e'
Alike P _ _ = ⊥

abbrev pub AnyTwo : Bytes → Bytes → Type 0
AnyTwo v v' = Unit {0}

abbrev pub SameCount : Dict Bytes → Dict Bytes → Type 0
SameCount d d' = length d ≡ length d'

module _ (rt : Runtime) (l : Logger) where
  log_answer-Alike :
      {A : Type 0} (P : A → A → Type 0) (ms : Messages) (ctx : Context) (attrs : List Attr)
      (more : A → List Attr)
      → ((a b : A) → P a b → more a ≡ more b)
      → (r r' : Answer A) (w : World) → Alike P r r'
      → log_answer rt l ms ctx attrs more r w ≡ log_answer rt l ms ctx attrs more r' w
  unfolding log_answer
  log_answer-Alike P ms ctx attrs more h (found a) (found b) w p = rw (h a b p) refl
  log_answer-Alike P ms ctx attrs more h (missing e) (missing e') w p = rw p refl
  log_answer-Alike P ms ctx attrs more h (failure e) (failure e') w p = rw p refl
  log_answer-Alike P ms ctx attrs more h (found a) (missing e) w p = absurd p
  log_answer-Alike P ms ctx attrs more h (found a) (failure e) w p = absurd p
  log_answer-Alike P ms ctx attrs more h (missing e) (found a) w p = absurd p
  log_answer-Alike P ms ctx attrs more h (missing e) (failure e') w p = absurd p
  log_answer-Alike P ms ctx attrs more h (failure e) (found a) w p = absurd p
  log_answer-Alike P ms ctx attrs more h (failure e) (missing e') w p = absurd p

  -- Two sources of whatever kinds and states, and one world: where they answer a name with a value each,
  -- or with the same error, a load of the name leaves the same world behind, its lines included,
  -- whatever the values are. So it is for secrets, for parameters, and for parameters by path, where
  -- of the values their number is logged.
  pub loads-Alike :
      (src src' : Source) (st : src.State) (st' : src'.State) (ctx : Context) (name : String)
      (w : World)
      → let s : Sys src = record { world = w; state = st } in
        let s' : Sys src' = record { world = w; state = st' } in
        (Alike AnyTwo (src.secret name st).0 (src'.secret name st').0
          → (secret rt l src ctx name s).1.world ≡ (secret rt l src' ctx name s').1.world)
        × (Alike AnyTwo (src.parameter name st).0 (src'.parameter name st').0
            → (parameter rt l src ctx name s).1.world ≡ (parameter rt l src' ctx name s').1.world)
        × (Alike SameCount (src.parameters_by_path name st).0 (src'.parameters_by_path name st').0
            → (parameters_by_path rt l src ctx name s).1.world
              ≡ (parameters_by_path rt l src' ctx name s').1.world)
  unfolding secret parameter parameters_by_path begin_load
  loads-Alike src src' st st' ctx name w =
      let (ctx', s1) = begin_load rt l src ctx (record { world = w; state = st }) in
      let (start, w1) = now rt s1.world in
      let (t, w2) = now rt w1 in
      let line = λ (r : Unit {0} × World). r.1 in
      (
        λ p. ap line (
            log_answer-Alike AnyTwo secret_messages ctx'
              (load_attrs "secrets.name" name secrets_manager start t) (λ v. []) (λ a b q. refl)
              (src.secret name st).0 (src'.secret name st').0 w2 p),
        λ p. ap line (
            log_answer-Alike AnyTwo parameter_messages ctx'
              (load_attrs "secrets.name" name parameter_store start t) (λ v. []) (λ a b q. refl)
              (src.parameter name st).0 (src'.parameter name st').0 w2 p),
        λ p. ap line (
            log_answer-Alike SameCount parameters_messages ctx'
              (load_attrs "secrets.path" name parameter_store start t)
              (λ v. ("secrets.count", scalar (int (pos (length v)))) ∷ [])
              (λ a b q. ap (λ n. ("secrets.count", scalar (int (pos n))) ∷ []) q)
              (src.parameters_by_path name st).0 (src'.parameters_by_path name st').0 w2 p),
      )
