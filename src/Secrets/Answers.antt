-- ===== src/Secrets/Answers.antt =====
-- secrets/secrets.go: what a load returns, and the one line that it logs of it.
use go_library.Prelude.{◌≡◌, refl, ap, ◌∙◌, String, true, some, List, [], ◌∷◌, ◌++◌, pos, length}
use go_library.Runtime.{Runtime}
use go_library.Logger.Value.{Attr, scalar, int}
use go_library.Logger.Level.{Level, level_debug, level_error}
use go_library.Logger.State.{Logger, World, now}
use go_library.Logger.Context.{Context}
use go_library.Logger.Handler.{enabled, err_attr}
use go_library.Logger.Handler.Effects.{logged, log_enabled, enabled_congr}
use go_library.Secrets.{
  Answer, found, missing, failure, Source, Sys, Messages, secret_messages, parameter_messages,
  parameters_messages, load_attrs, secrets_manager, parameter_store, log_answer, begin_load, secret,
  parameter, parameters_by_path,
}

module _ {A : Type 0} where
  -- The level, the text and the further attributes of the line of an answer.
  abbrev pub level_of : Answer A → Level
  level_of (found a) = level_debug
  level_of (missing e) = level_error
  level_of (failure e) = level_error

  abbrev pub message_of : Messages → Answer A → String
  message_of ms (found a) = ms.loaded
  message_of ms (missing e) = ms.not_found
  message_of ms (failure e) = ms.failed

  abbrev pub details : (A → List Attr) → Answer A → List Attr
  details more (found a) = more a
  details more (missing e) = err_attr (some e) ∷ []
  details more (failure e) = err_attr (some e) ∷ []

module _ (rt : Runtime) (l : Logger) where
  log_answer_lem :
      {A : Type 0} (ms : Messages) (ctx : Context) (attrs : List Attr) (more : A → List Attr)
      (r : Answer A) (w : World)
      → enabled rt l.handler w (level_of r) ≡ true
      → log_answer rt l ms ctx attrs more r w
        ≡ (tt, logged rt l (level_of r) ctx (message_of ms r) (attrs ++ details more r) w)
  unfolding log_answer
  log_answer_lem ms ctx attrs more (found a) w on = log_enabled rt l level_debug ctx _ _ w on
  log_answer_lem ms ctx attrs more (missing e) w on = log_enabled rt l level_error ctx _ _ w on
  log_answer_lem ms ctx attrs more (failure e) w on = log_enabled rt l level_error ctx _ _ w on

  module _ (src : Source) where
    -- From `s` to `s'` a load gave `a`, the answer `r` of the source, left the source in the state `st`,
    -- and wrote one line after those that began it, if the level of the answer is enabled then.
    pub record Loaded {A : Type 0} (ctx : Context) (ms : Messages) (key name source : String)
        (more : A → List Attr) (s : Sys src) (r : Answer A × src.State) (a : Answer A × Sys src)
        : Type 0 where
      pub same : a.0 ≡ r.0
      pub moved : a.1.state ≡ r.1
      pub line :
          let (ctx', u) = begin_load rt l src ctx s in
          let (start, w1) = now rt u.world in
          let (t, w2) = now rt w1 in
          enabled rt l.handler u.world (level_of r.0) ≡ true
          → a.1.world
            ≡ logged rt l
                (level_of r.0)
                ctx'
                (message_of ms r.0)
                (load_attrs key name source start t ++ details more r.0)
                w2

    -- Whatever the source: a load of a secret, of a parameter, and of the parameters under a path gives
    -- the answer of the source, and leaves the source as the one call of it does. It writes one line after
    -- its start: at the debug level for a value, and at the error level with the error for an error,
    -- where a text of its own tells `ErrNotFound` from other errors.
    pub loads_lem :
        (ctx : Context) (name : String) (s : Sys src)
        → Loaded ctx secret_messages "secrets.name" name secrets_manager
            (λ v. [])
            s
            (src.secret name s.state)
            (secret rt l src ctx name s)
          × Loaded ctx parameter_messages "secrets.name" name parameter_store
              (λ v. [])
              s
              (src.parameter name s.state)
              (parameter rt l src ctx name s)
          × Loaded ctx parameters_messages "secrets.path" name parameter_store
              (λ d. ("secrets.count", scalar (int (pos (length d)))) ∷ [])
              s
              (src.parameters_by_path name s.state)
              (parameters_by_path rt l src ctx name s)
    unfolding secret parameter parameters_by_path begin_load now
    loads_lem ctx name s =
        let (ctx', u) = begin_load rt l src ctx s in
        let (start, w1) = now rt u.world in
        let (t, w2) = now rt w1 in
        let step = enabled_congr rt l.handler u.world w2 in
        (
          record {
            same = refl;
            moved = refl;
            line = λ on.
                ap (λ r. r.1)
                  (log_answer_lem secret_messages ctx'
                    (load_attrs "secrets.name" name secrets_manager start t) (λ v. [])
                    (src.secret name s.state).0 w2 (step _ refl ∙ on));
          },
          record {
            same = refl;
            moved = refl;
            line = λ on.
                ap (λ r. r.1)
                  (log_answer_lem parameter_messages ctx'
                    (load_attrs "secrets.name" name parameter_store start t) (λ v. [])
                    (src.parameter name s.state).0 w2 (step _ refl ∙ on));
          },
          record {
            same = refl;
            moved = refl;
            line = λ on.
                ap (λ r. r.1)
                  (log_answer_lem parameters_messages ctx'
                    (load_attrs "secrets.path" name parameter_store start t)
                    (λ d. ("secrets.count", scalar (int (pos (length d)))) ∷ [])
                    (src.parameters_by_path name s.state).0 w2 (step _ refl ∙ on));
          },
        )
