-- ===== src/Logger/Setup/Correlation.antt =====
-- logger/logger.go: the loggers that add the request id of the context to their lines.
use go_library.Prelude.{
  ◌≡◌, String, false, Option, none, some, Option-cases, inl, inr, List, [], ◌∷◌,
}
use go_library.Runtime.{Runtime}
use go_library.Logger.Value.{Attr}
use go_library.Logger.Redact.{Redactor, match, scrub}
use go_library.Logger.State.{Config, Handler, sink, redact_handler, context_handler, Logger}
use go_library.Logger.Handler.{with, with_attrs, with_group}
use go_library.Logger.Lifecycle.Correlation.{Shows, AddsId}
use go_library.Logger.Setup.{new}
use go_library.Logger.Setup.Redaction.{Derived, made, child, grouped, redactor_of}

module _ (rt : Runtime) (id : String) where
  with_attrs-Shows :
      (h : Handler) (args : List Attr) → Shows rt id h → Shows rt id (with_attrs rt h args)
  unfolding with_attrs
  with_attrs-Shows (context_handler h) args a = absurd a
  with_attrs-Shows (sink f v scopes) args a = tt
  with_attrs-Shows (redact_handler r h) args (m, s, a) = (m, s, with_attrs-Shows h _ a)

  with_group-Shows :
      (h : Handler) (name : String) → Shows rt id h → Shows rt id (with_group rt h name)
  unfolding with_group
  with_group-Shows (context_handler h) name a = absurd a
  with_group-Shows (sink f v scopes) name a = tt
  with_group-Shows (redact_handler r h) name (m, s, a) = (m, s, with_group-Shows h name a)

  with_attrs-AddsId :
      (h : Handler) (args : List Attr) → AddsId rt id h → AddsId rt id (with_attrs rt h args)
  unfolding with_attrs
  with_attrs-AddsId (context_handler h) args a = with_attrs-Shows h args a
  with_attrs-AddsId (sink f v scopes) args a = absurd a
  with_attrs-AddsId (redact_handler r h) args a = absurd a

  with-AddsId :
      (l : Logger) (args : List Attr)
      → AddsId rt id l.handler
      → AddsId rt id (with rt l args).handler
  unfolding with
  with-AddsId l [] a = a
  with-AddsId l (x ∷ args) a = with_attrs-AddsId l.handler (x ∷ args) a

  with_group-AddsId :
      (h : Handler) (name : String) → AddsId rt id h → AddsId rt id (with_group rt h name)
  unfolding with_group
  with_group-AddsId (context_handler h) name a = with_group-Shows h name a
  with_group-AddsId (sink f v scopes) name a = absurd a
  with_group-AddsId (redact_handler r h) name a = absurd a

  -- A redactor, if there is one, that neither has the key of the request id nor changes the id.
  abbrev pub Spares : Option Redactor → Type 0
  Spares none = Unit {0}
  Spares (some r) = (match rt r "requestId" ≡ false) × (scrub rt r id ≡ id)

  -- A logger that `New` made of a configuration whose redactor spares the request id, or that is derived
  -- from one, adds the request id.
  pub Derived-AddsId :
      {cfg : Config} {l : Logger}
      → Spares (redactor_of rt cfg)
      → Derived rt cfg l
      → AddsId rt id l.handler
  unfolding new
  Derived-AddsId {cfg} sp (made w) = with-AddsId _ _ (elim (Option-cases (redactor_of rt cfg)) [
    | inl e ↦ rw e tt
    | inr (r, e) ↦ let (m, s) : Spares (some r) = rw e at sp in rw e (m, s, tt)
  ])
  Derived-AddsId sp (child {l} d args) = with-AddsId l args (Derived-AddsId sp d)
  Derived-AddsId sp (grouped {l} d name) = with_group-AddsId l.handler name (Derived-AddsId sp d)
