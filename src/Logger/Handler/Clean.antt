-- ===== src/Logger/Handler/Clean.antt =====
-- logger/redact.go and logger/handler.go: what reaches a sink behind a redactor.
use go_library.Prelude.{◌≡◌, ap, String, List, [], ◌∷◌, map, All, All-append, Bool-cases, inl, inr}
use go_library.Runtime.{Runtime}
use go_library.Logger.Value.{Attr}
use go_library.Logger.Redact.{Redactor, scrub, redact_attr}
use go_library.Logger.Redact.Leaves.{attr_leaves, IsBlank}
use go_library.Logger.Redact.Soundness.{redact_attr-IsRedacted}
use go_library.Logger.Level.{Level}
use go_library.Logger.State.{
  Scope, bound, opened, Handler, sink, redact_handler, context_handler, Logger, Record, Line, World,
}
use go_library.Logger.Context.{Context}
use go_library.Logger.Handler.{enabled, with_attrs, with_group, log, with, add_request_id}
use go_library.Logger.Handler.Effects.{line_of, log_enabled, log_disabled}

module _ (rt : Runtime) (r : Redactor) where
  -- Nothing of the attribute stands under a sensitive key but the placeholder, whatever its type.
  abbrev pub AttrIsBlank : Attr → Type 0
  AttrIsBlank a = All (IsBlank rt r) (attr_leaves a)

  abbrev pub ScopeIsBlank : Scope → Type 0
  ScopeIsBlank (bound args) = All AttrIsBlank args
  ScopeIsBlank (opened name) = Unit

  -- A line as the sink gets it: its scopes and its own attributes.
  pub record LineIsBlank (line : Line) : Type 0 where
    pub scopes_blank : All ScopeIsBlank line.scopes
    pub attrs_blank : All AttrIsBlank line.record_.attrs

  -- A handler that `New` builds with the redactor, and what `With` and `WithGroup` make of it.
  abbrev pub IsGuarded : Handler → Type 0
  IsGuarded (context_handler (redact_handler q (sink f v scopes))) =
      (q ≡ r) × All ScopeIsBlank scopes
  IsGuarded h = ⊥

  redact_attrs-blank : (args : List Attr) → All AttrIsBlank (map (redact_attr rt r) args)
  redact_attrs-blank [] = tt
  redact_attrs-blank (a ∷ args) = ((redact_attr-IsRedacted rt r a).blank, redact_attrs-blank args)

  pub with_attrs-IsGuarded :
      (h : Handler) (args : List Attr) → IsGuarded h → IsGuarded (with_attrs rt h args)
  unfolding with_attrs
  with_attrs-IsGuarded (context_handler (redact_handler q (sink f v scopes))) args (e, b) =
      (e, All-append ScopeIsBlank scopes _ b (rw e (redact_attrs-blank args), tt))
  with_attrs-IsGuarded h args g = absurd g

  pub with_group-IsGuarded :
      (h : Handler) (name : String) → IsGuarded h → IsGuarded (with_group rt h name)
  unfolding with_group
  with_group-IsGuarded (context_handler (redact_handler q (sink f v scopes))) name (e, b) =
      (e, All-append ScopeIsBlank scopes _ b (tt, tt))
  with_group-IsGuarded h name g = absurd g

  pub with-IsGuarded :
      (l : Logger) (args : List Attr) → IsGuarded l.handler → IsGuarded (with rt l args).handler
  unfolding with
  with-IsGuarded l [] g = g
  with-IsGuarded l (a ∷ args) g = with_attrs-IsGuarded l.handler (a ∷ args) g

  -- What a guarded handler writes of a record: the message is scrubbed, and the attributes, with the
  -- request ID of the context behind them, are redacted.
  pub line_of-guarded :
      (h : Handler) (ctx : Context) (rec : Record)
      → IsGuarded h
      → ((line_of rt h ctx rec).record_.message ≡ scrub rt r (add_request_id rt ctx rec).message)
        × ((line_of rt h ctx rec).record_.attrs
            ≡ map (redact_attr rt r) (add_request_id rt ctx rec).attrs)
        × All ScopeIsBlank (line_of rt h ctx rec).scopes
  unfolding line_of
  line_of-guarded (context_handler (redact_handler q (sink f v scopes))) ctx rec (e, b) =
      (ap (λ x. scrub rt x given.message) e, ap (λ x. map (redact_attr rt x) given.attrs) e, b)
    where
      given : Record
      given = add_request_id rt ctx rec
  line_of-guarded h ctx rec g = absurd g

  pub line_of-blank :
      (h : Handler) (ctx : Context) (rec : Record)
      → IsGuarded h
      → LineIsBlank (line_of rt h ctx rec)
  line_of-blank h ctx rec g =
      let (_, e, b) = line_of-guarded h ctx rec g in
      record { scopes_blank = b; attrs_blank = rw e (redact_attrs-blank _) }

  pub log-LineIsBlank :
      (l : Logger) (level : Level) (ctx : Context) (msg : String) (args : List Attr) (w : World)
      → IsGuarded l.handler
      → All LineIsBlank w.lines
      → All LineIsBlank (log rt l level ctx msg args w).1.lines
  log-LineIsBlank l level ctx msg args w g b = elim (Bool-cases (enabled rt l.handler w level)) [
    | inl on ↦
        rw (log_enabled rt l level ctx msg args w on)
          (All-append LineIsBlank w.lines _ b (line_of-blank l.handler ctx _ g, tt))
    | inr off ↦ rw (log_disabled rt l level ctx msg args w off) b
  ]
