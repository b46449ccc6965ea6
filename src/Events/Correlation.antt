-- ===== src/Events/Correlation.antt =====
-- events/logger.go: every line that is written while a message is consumed has the request id of its
-- producer.
use go_library.Prelude.{
  ◌≡◌, ◌≢◌, refl, sym, ◌∙◌, String, Bool-cases, inl, inr, Option, none, some, lookup, ◌==◌,
}
use go_library.Runtime.{Runtime}
use go_library.GoTime.{zero_time, int_eq}
use go_library.Logger.State.{Logger, World, now}
use go_library.Logger.Context.{Context, request_id}
use go_library.Logger.Lifecycle.Correlation.{
  AddsId, AllAddId, Written, Written-trans, Written-none, log-Written, finish-Written,
  start_request-Written,
}
use go_library.Events.{
  Message, Consumption, request_id_header, correlated, outgoing_headers, lag_attrs, consume_start,
  done,
}
use go_library.Events.Tracing.{header_of-outgoing, request_id-correlated, request_id-consume_start}

module _ (rt : Runtime) (id : String) where
  lag_attrs-Written :
      (msg : Message) (w : World) → AllAddId rt id w → Written rt id w (lag_attrs rt msg w).1
  unfolding lag_attrs now
  lag_attrs-Written msg w h = elim (Bool-cases (msg.timestamp == zero_time)) [
    | inl e ↦ rw (e, lag_attrs) (Written-none rt id w w refl h)
    | inr e ↦ rw (e, lag_attrs) (Written-none rt id w _ refl h)
  ]

  done-Written :
      (ne : id ≢ "") (c : Consumption) (e : Option String) (w : World)
      → AddsId rt id c.base.handler
      → request_id c.ctx ≡ id
      → AllAddId rt id w
      → Written rt id w (done rt c e w).1
  unfolding done
  done-Written ne c none w a same h = finish-Written rt id ne (some c.lc) c.ctx _ w same h
  done-Written ne c (some e) w a same h =
      let first = log-Written rt id ne c.base _ c.ctx _ _ w a same h in
      Written-trans rt id first (finish-Written rt id ne (some c.lc) c.ctx _ _ same first.all_add)

module _ (rt : Runtime) (l : Logger) (producer ctx : Context) (msg : Message)
    (a : AddsId rt (request_id producer) l.handler)
    (sent : lookup request_id_header msg.headers
      ≡ lookup request_id_header (outgoing_headers producer))
    (ne : request_id producer ≢ "") (w : World) (h : AllAddId rt (request_id producer) w) where
  consume_start-Written : Written rt (request_id producer) w (consume_start rt l ctx msg w).1
  unfolding consume_start
  consume_start-Written =
      let id = request_id producer in
      let head = header_of-outgoing rt l producer msg sent in
      let same = request_id-correlated rt l ctx msg (λ z. ne (sym head ∙ z)) ∙ head in
      let lag = lag_attrs-Written rt id msg w h in
      let start =
        start_request-Written rt id ne l (correlated ctx msg) _ _ (lag_attrs rt msg w).1 a same
          lag.all_add in
      let received =
        log-Written rt id ne l _ _ _ _ _ a
          ((request_id-consume_start rt l producer ctx msg w sent).0 ne) start.all_add in
      Written-trans rt id lag (Written-trans rt id start received)

  -- A message that carries, under the name of the library's header, what `OutgoingHeaders` gives for a
  -- producer with a request id, consumed at a logger that adds this id and whose redactor, if it has
  -- one, neither has the key of the id nor changes the id, in a world in which the loggers of all
  -- traces are so: the consumer's context has the request id of the producer, and if the lines of the
  -- processing have it, then so has every line from the start of the consumption to its end, with or
  -- without an error: as its last attribute, in the groups that the logger opened. The lines that were
  -- there before stay.
  pub consumed-Written :
      (e : Option String)
      → let ((ctx', c), u) = consume_start rt l ctx msg w in
        (v : World)
        → Written rt (request_id producer) u v
        → (request_id ctx' ≡ request_id producer)
          × Written rt (request_id producer) w (done rt c e v).1
  unfolding consume_start
  consumed-Written e v processed =
      let ((ctx', c), u) = consume_start rt l ctx msg w in
      let id = request_id producer in
      let same = (request_id-consume_start rt l producer ctx msg w sent).0 ne in
      (
        same,
        Written-trans rt id consume_start-Written
            (Written-trans rt id processed (done-Written rt id ne c e v a same processed.all_add)),
      )
