-- ===== src/Logger/Lifecycle/Correlation.antt =====
-- logger/handler.go and logger/lifecycle.go: every line of a request has the request id of its context,
-- where the redactors of its loggers spare it.
use go_library.Prelude.{
  ℕ, ◌≡◌, ◌≢◌, refl, sym, ap, ◌∙◌, String, true, Bool-cases, Option-cases, inl, inr, Option, none,
  some, List, [], ◌∷◌, ◌++◌, map, map-append, false, append-nil, append_assoc, get_elem?, All,
  All-append, All-set, All-get_elem?, ◌==◌, string_eq,
}
use go_library.Runtime.{Runtime}
use go_library.Logger.Value.{Attr, text}
use go_library.Logger.Redact.{Redactor, match, scrub, redact_attr, redact_value}
use go_library.Logger.Level.{Level}
use go_library.Logger.State.{
  Handler, sink, redact_handler, context_handler, Logger, Record, Line, World, now, alloc,
}
use go_library.Logger.Context.{Context, request_id, ensure_request_id}
use go_library.Logger.Context.Laws.{ensure_request_id-Ensures}
use go_library.Logger.Handler.{enabled, log, add_request_id}
use go_library.Logger.Handler.Effects.{line_of, log_enabled, log_disabled, log-Frame}
use go_library.Logger.Lifecycle.{start_request, stage, stage_at, finish, end_open, add_stage}

module _ (rt : Runtime) (id : String) where
  abbrev id_attr : Attr
  id_attr = ("requestId", text id)

  -- A handler that passes the attribute of the request id on: its redactors neither have the key nor
  -- change the id.
  abbrev pub Shows : Handler → Type 0
  Shows (sink f v scopes) = Unit {0}
  Shows (redact_handler r h) = (match rt r "requestId" ≡ false) × (scrub rt r id ≡ id) × Shows h
  Shows (context_handler h) = ⊥

  -- A handler that adds the request id to its records, as `New` builds it, and passes it on.
  abbrev pub AddsId : Handler → Type 0
  AddsId (context_handler h) = Shows h
  AddsId h = ⊥

  -- A world in which every trace has a logger with such a handler.
  abbrev pub AllAddId : World → Type 0
  AllAddId w = All (λ lc. AddsId lc.log.handler) w.lifecycles

  -- The last attribute of the line is the request id, under its key.
  pub record Carries (line : Line) : Type 0 where
    pub attrs : List Attr
    pub last : line.record_.attrs ≡ attrs ++ ("requestId", text id) ∷ []

  -- From `w` to `w'` only lines with this request id were written.
  pub record Written (w w' : World) : Type 0 where
    pub added : List Line
    pub lines : w'.lines ≡ w.lines ++ added
    pub carried : All Carries added
    pub all_add : AllAddId w'

  pub Written-trans : {u v w : World} → Written u v → Written v w → Written u w
  Written-trans {u = u} a b = record {
    added = a.added ++ b.added;
    lines = b.lines ∙ ap (λ l. l ++ b.added) a.lines ∙ append_assoc u.lines a.added b.added;
    carried = All-append Carries a.added b.added a.carried b.carried;
    all_add = b.all_add;
  }

  -- No line was written.
  pub Written-none : (w w' : World) → w'.lines ≡ w.lines → AllAddId w' → Written w w'
  Written-none w w' e h = record {
    added = [];
    lines = e ∙ sym (append-nil w.lines);
    carried = tt;
    all_add = h;
  }

  -- What is written from one world on is so from every world with the same lines.
  pub Written-from : (v w w' : World) → v.lines ≡ w.lines → Written v w' → Written w w'
  Written-from v w w' e a = record {
    added = a.added;
    lines = a.lines ∙ ap (λ l. l ++ a.added) e;
    carried = a.carried;
    all_add = a.all_add;
  }

  redact_attr-id_attr :
      (r : Redactor)
      → match rt r "requestId" ≡ false
      → scrub rt r id ≡ id
      → redact_attr rt r id_attr ≡ id_attr
  unfolding redact_attr redact_value
  redact_attr-id_attr r m e = rw (m, e) refl

  line_of-Shows :
      (h : Handler) (ctx : Context) (rec : Record) (before : List Attr)
      → Shows h
      → rec.attrs ≡ before ++ id_attr ∷ []
      → (attrs : List Attr) × ((line_of rt h ctx rec).record_.attrs ≡ attrs ++ id_attr ∷ [])
  unfolding line_of
  line_of-Shows (sink f v scopes) ctx rec before a e = (before, e)
  line_of-Shows (redact_handler r h) ctx rec before (m, s, a) e =
      line_of-Shows h ctx _ (map (redact_attr rt r) before) a (
        ap (map (redact_attr rt r)) e
        ∙ map-append (redact_attr rt r) before (id_attr ∷ [])
        ∙ ap (λ x. map (redact_attr rt r) before ++ x ∷ []) (redact_attr-id_attr r m s))
  line_of-Shows (context_handler h) ctx rec before a e = absurd a

  module _ (ne : id ≢ "") where
    add_request_id_lem :
        (ctx : Context) (rec : Record)
        → request_id ctx ≡ id
        → add_request_id rt ctx rec
          ≡ record rec { attrs = rec.attrs ++ ("requestId", text id) ∷ [] }
    unfolding add_request_id
    add_request_id_lem ctx rec e = elim (Bool-cases (request_id ctx == "")) [
      | inl z ↦ absurd (ne (sym e ∙ (string_eq.agree_iff _ _).0 z))
      | inr z ↦ rw z (ap (λ x. record rec { attrs = rec.attrs ++ ("requestId", text x) ∷ [] }) e)
    ]

    line_of-Carries :
        (h : Handler) (ctx : Context) (rec : Record)
        → AddsId h
        → request_id ctx ≡ id
        → Carries (line_of rt h ctx rec)
    unfolding line_of
    line_of-Carries (context_handler h) ctx rec a e =
        let (attrs, last) =
          line_of-Shows h ctx (add_request_id rt ctx rec) rec.attrs a
            (ap (λ x. x.attrs) (add_request_id_lem ctx rec e)) in
        record { attrs = attrs; last = last }
    line_of-Carries (sink f v scopes) ctx rec a e = absurd a
    line_of-Carries (redact_handler r h) ctx rec a e = absurd a

    pub log_enabled-Carries :
        (l : Logger) (level : Level) (ctx : Context) (msg : String) (args : List Attr) (w : World)
        → AddsId l.handler
        → request_id ctx ≡ id
        → enabled rt l.handler w level ≡ true
        → (line : Line) × ((log rt l level ctx msg args w).1.lines ≡ w.lines ++ line ∷ [])
          × Carries line
    log_enabled-Carries l level ctx msg args w a e on = (
      line_of rt l.handler ctx
          (record { time = rt.clock w.clock_reads; level = level; message = msg; attrs = args }),
      ap (λ r. r.1.lines) (log_enabled rt l level ctx msg args w on),
      line_of-Carries l.handler ctx _ a e,
    )

    pub log-Written :
        (l : Logger) (level : Level) (ctx : Context) (msg : String) (args : List Attr) (w : World)
        → AddsId l.handler
        → request_id ctx ≡ id
        → AllAddId w
        → Written w (log rt l level ctx msg args w).1
    log-Written l level ctx msg args w a e h =
        let h' : AllAddId (log rt l level ctx msg args w).1 =
          rw (log-Frame rt l level ctx msg args w).lifecycles h in
        elim (Bool-cases (enabled rt l.handler w level)) [
          | inl on ↦
              let (line, lines, carried) = log_enabled-Carries l level ctx msg args w a e on in
              record { added = line ∷ []; lines = lines; carried = (carried, tt); all_add = h' }
          | inr off ↦
              Written-none w _ (ap (λ r. r.1.lines) (log_disabled rt l level ctx msg args w off)) h'
        ]

    pub stage-Written :
        (p : Option ℕ) (ctx : Context) (name : String) (attrs : List Attr) (w : World)
        → request_id ctx ≡ id
        → AllAddId w
        → Written w (stage rt p ctx name attrs w).1
    unfolding stage stage_at add_stage now
    stage-Written none ctx name attrs w e h = Written-none w w refl h
    stage-Written (some p) ctx name attrs w e h = elim (Option-cases (get_elem? w.lifecycles p)) [
      | inl q ↦ rw (q, stage) (Written-none w w refl h)
      | inr (lc, q) ↦
          let a = All-get_elem? (λ c. AddsId c.log.handler) w.lifecycles p h q in
          let h' =
            All-set (λ c. AddsId c.log.handler) w.lifecycles p
              (add_stage rt lc name (rt.clock w.clock_reads)) a h in
          rw (q, stage) (Written-from _ w _ refl (log-Written lc.log _ ctx _ _ _ a e h'))
    ]

    pub finish-Written :
        (p : Option ℕ) (ctx : Context) (attrs : List Attr) (w : World)
        → request_id ctx ≡ id
        → AllAddId w
        → Written w (finish rt p ctx attrs w).1
    unfolding finish end_open
    finish-Written none ctx attrs w e h = Written-none w w refl h
    finish-Written (some p) ctx attrs w e h = elim (Option-cases (get_elem? w.lifecycles p)) [
      | inl q ↦ rw (q, finish) (Written-none w w refl h)
      | inr (lc, q) ↦ elim (Bool-cases lc.ended) [
        | inl over ↦ rw (q, finish, over) (Written-none w w refl h)
        | inr open_ ↦
            let a = All-get_elem? (λ c. AddsId c.log.handler) w.lifecycles p h q in
            let h' =
              All-set (λ c. AddsId c.log.handler) w.lifecycles p (record lc { ended = true }) a h in
            rw (q, finish, open_) (Written-from _ w _ refl (log-Written lc.log _ ctx _ _ _ a e h'))
      ]
    ]

    pub start_request-Written :
        (l : Logger) (ctx : Context) (name : String) (attrs : List Attr) (w : World)
        → AddsId l.handler
        → request_id ctx ≡ id
        → AllAddId w
        → Written w (start_request rt l ctx name attrs w).1
    unfolding start_request request_id now alloc
    start_request-Written l ctx name attrs w a e h =
        let kept = (ensure_request_id-Ensures rt ctx w).kept (λ z. ne (sym e ∙ z)) in
        rw (start_request, kept)
          (Written-from _ w _ refl (
            log-Written l _ _ _ _ _ a e
              (All-append (λ c. AddsId c.log.handler) w.lifecycles _ h (a, tt))))

  -- `EnsureRequestID` writes nothing.
  pub ensure_request_id-Written :
      (ctx : Context) (w : World) → AllAddId w → Written w (ensure_request_id rt ctx w).1
  unfolding ensure_request_id
  ensure_request_id-Written ctx w h = elim (Bool-cases (request_id ctx == "")) [
    | inl e ↦ rw (e, ensure_request_id) (Written-none w _ refl h)
    | inr e ↦ rw (e, ensure_request_id) (Written-none w _ refl h)
  ]
