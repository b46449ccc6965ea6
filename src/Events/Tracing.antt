-- ===== src/Events/Tracing.antt =====
-- events/logger.go: a request id follows a message from its producer to its consumer, and a consumed
-- message is traced to its end.
use go_library.Prelude.{
  ◌≡◌, ◌≢◌, refl, sym, ap, ◌∙◌, String, true, Bool-cases, inl, inr, Option, none, some, [], ◌∷◌,
  ◌++◌, lookup, ◌==◌, string_eq, ◌<>◌,
}
use go_library.Runtime.{Runtime}
use go_library.Logger.Value.{text}
use go_library.Logger.Level.{level_info}
use go_library.Logger.State.{Logger, World}
use go_library.Logger.Context.{Context, request_id, ensure_request_id}
use go_library.Logger.Context.Laws.{ensure_request_id-Ensures}
use go_library.Logger.Handler.{enabled, error, err_attr}
use go_library.Logger.Handler.Effects.{log-Frame, enabled_congr}
use go_library.Logger.Lifecycle.Interleaving.{Steps}
use go_library.Logger.Lifecycle.Ending.{Completed, finish-Completed}
use go_library.Logger.Lifecycle.Opening.{
  IsOpen, start_request-IsOpen, request_id-start_request, log-IsOpen,
}
use go_library.Events.{
  Message, Consumption, request_id_header, header_of, correlated, outgoing_headers, lag_attrs,
  consume_start, done,
}

module _ (rt : Runtime) (l : Logger) where
  request_id-ensure :
      (ctx : Context) (w : World)
      → request_id ctx ≢ ""
      → request_id (ensure_request_id rt ctx w).0.0 ≡ request_id ctx
  request_id-ensure ctx w ne =
      ap (λ r. request_id r.0.0) ((ensure_request_id-Ensures rt ctx w).kept ne)

  not_empty : (ctx : Context) (w : World) → request_id (ensure_request_id rt ctx w).0.0 ≢ ""
  not_empty ctx w z = let e = ensure_request_id-Ensures rt ctx w in e.not_empty (sym e.carried ∙ z)

  pub header_of-outgoing :
      (producer : Context) (msg : Message)
      → lookup request_id_header msg.headers ≡ lookup request_id_header (outgoing_headers producer)
      → header_of msg request_id_header ≡ request_id producer
  unfolding header_of outgoing_headers lookup
  header_of-outgoing producer msg e = elim (Bool-cases (request_id producer == "")) [
    | inl empty ↦ rw (e, header_of, empty) (sym ((string_eq.agree_iff _ _).0 empty))
    | inr full ↦ rw (e, header_of, full) refl
  ]

  pub request_id-correlated :
      (ctx : Context) (msg : Message)
      → header_of msg request_id_header ≢ ""
      → request_id (correlated ctx msg) ≡ header_of msg request_id_header
  unfolding correlated request_id
  request_id-correlated ctx msg ne = elim (Bool-cases (header_of msg request_id_header == "")) [
    | inl empty ↦ absurd (ne ((string_eq.agree_iff _ _).0 empty))
    | inr full ↦ rw full refl
  ]

  correlated_plain :
      (ctx : Context) (msg : Message)
      → header_of msg request_id_header ≡ ""
      → correlated ctx msg ≡ ctx
  unfolding correlated
  correlated_plain ctx msg e = rw ((string_eq.agree_iff _ _).1 e) refl

  -- A message that carries, under the name of the library's header, what `OutgoingHeaders` gives for
  -- the context of its producer: the consumer's context has the request id of the producer, if that
  -- has one, and else the id of the context that the consumer starts from, or a fresh one.
  pub request_id-consume_start :
      (producer ctx : Context) (msg : Message) (w : World)
      → lookup request_id_header msg.headers ≡ lookup request_id_header (outgoing_headers producer)
      → let id = request_id (consume_start rt l ctx msg w).0.0 in
        (request_id producer ≢ "" → id ≡ request_id producer)
        × (request_id producer ≡ "" → request_id ctx ≢ "" → id ≡ request_id ctx)
        × (id ≢ "")
  unfolding consume_start
  request_id-consume_start producer ctx msg w e =
      let w' = (lag_attrs rt msg w).1 in
      let start = request_id-start_request rt l (correlated ctx msg) _ _ w' in
      let keeps = request_id-ensure (correlated ctx msg) w' in
      let sent = header_of-outgoing producer msg e in
      (
        λ ne.
            start
            ∙ keeps
                (λ z. ne (sym (request_id-correlated ctx msg (λ y. ne (sym sent ∙ y)) ∙ sent) ∙ z))
            ∙ request_id-correlated ctx msg (λ y. ne (sym sent ∙ y))
            ∙ sent,
        λ none_sent ne.
            let same = correlated_plain ctx msg (sent ∙ none_sent) in
            start ∙ keeps (λ z. ne (ap request_id (sym same) ∙ z)) ∙ ap request_id same,
        λ z. not_empty (correlated ctx msg) w' (sym start ∙ z),
      )

  -- The result that a completion states, and the world after the error was logged.
  abbrev pub result_of : Option String → String
  result_of none = "success"
  result_of (some e) = "error"

  abbrev pub reported : Consumption → Option String → World → World
  reported c none w = w
  reported c (some e) w =
      (error rt c.base c.ctx "event processing failed" (c.attrs ++ err_attr (some e) ∷ []) w).1

  consume_start-IsOpen :
      (ctx : Context) (msg : Message) (w : World)
      → let ((ctx', c), w') = consume_start rt l ctx msg w in
        IsOpen l ("consume " <> msg.topic) c.lc w'
  unfolding consume_start
  consume_start-IsOpen ctx msg w = log-IsOpen rt _ _ _ _ _ (start_request-IsOpen rt _ _ _ _ _)

  done-Completed :
      (ctx : Context) (msg : Message) (w : World) (e : Option String)
      → let ((ctx', c), u) = consume_start rt l ctx msg w in
        enabled rt l.handler u level_info ≡ true
        → Completed rt l
            ("consume " <> msg.topic)
            c.lc
            ctx'
            (c.attrs ++ ("kafka.result", text (result_of e)) ∷ [])
            (reported c e u)
            (done rt c e u).1
  unfolding done consume_start
  done-Completed ctx msg w none on =
      finish-Completed rt l _ _ _ _ _ on (consume_start-IsOpen ctx msg w)
  done-Completed ctx msg w (some e) on =
      finish-Completed rt l _ _ _ _ _
        (enabled_congr rt l.handler _ _ level_info (log-Frame rt _ _ _ _ _ _).levels ∙ on)
        (log-IsOpen rt _ _ _ _ _ (consume_start-IsOpen ctx msg w))

  -- A consumed message, from any world and at a logger with the info level enabled then: the first
  -- call of the function that `ConsumeStart` returned, after it logged the error if it is given one,
  -- writes one line, the completion of the trace of the message with the attributes of the start and
  -- the result behind them. A later call without an error changes nothing, whatever operations of the
  -- logger package come in between.
  pub done_once :
      (ctx : Context) (msg : Message) (w : World) (e : Option String)
      → let ((ctx', c), u) = consume_start rt l ctx msg w in
        enabled rt l.handler u level_info ≡ true
        → Completed rt l
            ("consume " <> msg.topic)
            c.lc
            ctx'
            (c.attrs ++ ("kafka.result", text (result_of e)) ∷ [])
            (reported c e u)
            (done rt c e u).1
          × ((v : World) → Steps rt (done rt c e u).1 v → done rt c none v ≡ (tt, v))
  unfolding done
  done_once ctx msg w e on =
      let completed = done-Completed ctx msg w e on in
      (completed, λ v steps. completed.once steps _ _)
