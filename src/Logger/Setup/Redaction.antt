-- ===== src/Logger/Setup/Redaction.antt =====
-- logger/logger.go: a logger that `New` builds keeps what is under a sensitive key out of every line, and so does
-- every logger derived from it.
use go_library.Prelude.{
  ◌≡◌, refl, String, Option, some, List, [], ◌∷◌, ◌++◌, ◌==◌, string_eq, if◌then◌else◌,
}
use go_library.Runtime.{Runtime}
use go_library.Logger.Value.{Attr, text}
use go_library.Logger.Redact.{Redactor, new_redactor}
use go_library.Logger.Level.{Level}
use go_library.Logger.State.{Config, Logger, World}
use go_library.Logger.Context.{Context, request_id}
use go_library.Logger.Handler.{with, with_group}
use go_library.Logger.Handler.Clean.{IsGuarded, with-IsGuarded, with_group-IsGuarded}
use go_library.Logger.Setup.{new, all_patterns}

module _ (rt : Runtime) where
  -- The loggers that come of a configuration: what `New` returns, and what `With`, and `WithGroup`
  -- on the slog logger, make of those.
  pub data Derived (cfg : Config) : Logger → Type 0 where
    made : (w : World) → Derived cfg (new rt cfg w).0
    child : {l : Logger} → Derived cfg l → (args : List Attr) → Derived cfg (with rt l args)
    grouped :
        {l : Logger}
        → Derived cfg l
        → (name : String) → Derived cfg (record l { handler = with_group rt l.handler name })

  -- The redactor of a configuration, or none for a nil one.
  abbrev pub redactor_of : Config → Option Redactor
  redactor_of cfg = new_redactor rt cfg.redact_keys (all_patterns rt cfg)

  new-IsGuarded :
      (cfg : Config) (w : World) {r : Redactor}
      → redactor_of cfg ≡ some r
      → IsGuarded rt r (new rt cfg w).0.handler
  unfolding new
  new-IsGuarded cfg w h = with-IsGuarded rt _ _ _ (rw h (refl, tt))

  pub Derived-IsGuarded :
      {cfg : Config} {l : Logger} (r : Redactor)
      → redactor_of cfg ≡ some r
      → Derived cfg l
      → IsGuarded rt r l.handler
  Derived-IsGuarded {cfg} r h (made w) = new-IsGuarded cfg w h
  Derived-IsGuarded r h (child {l} d args) = with-IsGuarded rt r l args (Derived-IsGuarded r h d)
  Derived-IsGuarded r h (grouped {l} d name) =
      with_group-IsGuarded rt r l.handler name (Derived-IsGuarded r h d)

  -- The attributes that `contextHandler` sees off with the arguments of a call.
  abbrev pub with_id_attr : Context → List Attr → List Attr
  with_id_attr ctx args =
      if request_id ctx == "" then args else args ++ ("requestId", text (request_id ctx)) ∷ []
