-- ===== src/Rest/Correlation.antt =====
-- rest/middleware.go: every line that is written while a request is served has the request id of the
-- request, which is the one that the answer has in its header.
use go_library.Prelude.{
  ℕ, ◌≡◌, ◌≢◌, refl, sym, String, false, Bool-cases, Option-cases, inl, inr, Option, some, List,
}
use go_library.Runtime.{Runtime}
use go_library.Logger.Value.{Any, Attr}
use go_library.Logger.State.{Logger, World, now}
use go_library.Logger.Context.{Context, request_id, ensure_request_id}
use go_library.Logger.Handler.{log}
use go_library.Logger.Lifecycle.{stage, start_request}
use go_library.Logger.Lifecycle.Correlation.{
  AddsId, AllAddId, Written, Written-trans, Written-none, Written-from, log-Written, stage-Written,
  finish-Written, start_request-Written, ensure_request_id-Written,
}
use go_library.Rest.{
  Setting, skips, Request, HttpWriter, Program, returns, panics, set_header, write_header, write,
  logs, stages, Outcome, returned, panicked, Http, fresh, recording, run, Serving,
  request_id_header, recovered, recover_outcome, end_request, inbound, begin_request, serve_logged,
  serve,
}
use go_library.Rest.Running.{IsBody, IsErrorReply}
use go_library.Rest.Identity.{request_id-started, request_id-begin_request}

-- A program that logs only by loggers that add this request id, and under contexts that have it.
abbrev pub KeepsId : Runtime → String → Program → Type 0
KeepsId rt id returns = Unit {0}
KeepsId rt id (panics v) = Unit {0}
KeepsId rt id (set_header k v p) = KeepsId rt id p
KeepsId rt id (write_header status p) = KeepsId rt id p
KeepsId rt id (write b k) = (r : ℕ × Option String) → KeepsId rt id (k r)
KeepsId rt id (logs l level ctx msg attrs p) =
    AddsId rt id l.handler × (request_id ctx ≡ id) × KeepsId rt id p
KeepsId rt id (stages q ctx name attrs p) = (request_id ctx ≡ id) × KeepsId rt id p

IsBody-KeepsId : (rt : Runtime) (id : String) (p : Program) → IsBody p → KeepsId rt id p
IsBody-KeepsId rt id returns h = tt
IsBody-KeepsId rt id (write b k) h = λ r. IsBody-KeepsId rt id (k r) (h r)
IsBody-KeepsId rt id (panics v) h = absurd h
IsBody-KeepsId rt id (set_header k v p) h = absurd h
IsBody-KeepsId rt id (write_header status p) h = absurd h
IsBody-KeepsId rt id (logs l level ctx msg attrs p) h = absurd h
IsBody-KeepsId rt id (stages q ctx name attrs p) h = absurd h

IsErrorReply-KeepsId : (rt : Runtime) (id : String) (p : Program) → IsErrorReply p → KeepsId rt id p
IsErrorReply-KeepsId rt id (set_header k v p) h = IsErrorReply-KeepsId rt id p h
IsErrorReply-KeepsId rt id (write_header status p) (e, h) = IsBody-KeepsId rt id p h
IsErrorReply-KeepsId rt id returns h = absurd h
IsErrorReply-KeepsId rt id (panics v) h = absurd h
IsErrorReply-KeepsId rt id (write b k) h = absurd h
IsErrorReply-KeepsId rt id (logs l level ctx msg attrs p) h = absurd h
IsErrorReply-KeepsId rt id (stages q ctx name attrs p) h = absurd h

module _ (rt : Runtime) (id : String) (ne : id ≢ "") where
  run-Written :
      (w : HttpWriter) (p : Program) (st : w.State) (u : World)
      → KeepsId rt id p
      → AllAddId rt id u
      → Written rt id u (run rt w p (st, u)).1.1
  unfolding run
  run-Written w returns st u k h = Written-none rt id u u refl h
  run-Written w (panics v) st u k h = Written-none rt id u u refl h
  run-Written w (set_header key v p) st u k h = run-Written w p (w.set_header key v st) u k h
  run-Written w (write_header status p) st u k h =
      elim (Option-cases (w.write_header status st).0) [
        | inl e ↦ rw (run, e) (run-Written w p (w.write_header status st).1 u k h)
        | inr (v, e) ↦ rw (run, e) (Written-none rt id u u refl h)
      ]
  run-Written w (write b f) st u k h =
      let (r, st') = w.write b st in run-Written w (f r) st' u (k r) h
  run-Written w (logs l level ctx msg attrs p) st u (a, e, k) h =
      let first = log-Written rt id ne l level ctx msg attrs u a e h in
      Written-trans rt id first
        (run-Written w p st (log rt l level ctx msg attrs u).1 k first.all_add)
  run-Written w (stages q ctx name attrs p) st u (e, k) h =
      let first = stage-Written rt id ne q ctx name attrs u e h in
      Written-trans rt id first (run-Written w p st (stage rt q ctx name attrs u).1 k first.all_add)

  start_trace-Written :
      (l : Logger) (ctx : Context) (name : String) (attrs : List Attr) (u : World)
      → AddsId rt id l.handler
      → request_id ctx ≡ id
      → AllAddId rt id u
      → let (c, u1) = start_request rt l ctx name attrs u in Written rt id u (now rt u1).1
  unfolding now
  start_trace-Written l ctx name attrs u a e h =
      let first = start_request-Written rt id ne l ctx name attrs u a e h in
      record {
        added = first.added;
        lines = first.lines;
        carried = first.carried;
        all_add = first.all_add;
      }

  module _ (http : Http) (l : Logger) (a : AddsId rt id l.handler)
      (reply : IsErrorReply http.internal_error) (w : HttpWriter) (r : Request) (ctx : Context)
      (e : request_id ctx ≡ id) where
    recovered-Written :
        (v : Any) (s : Serving rt http l w)
        → AllAddId rt id s.1
        → Written rt id s.1 (recovered rt http l w r ctx v s).1.1
    unfolding recovered
    recovered-Written v ((rc, st), u) h =
        let first = log-Written rt id ne l _ ctx _ _ u a e h in
        elim (Bool-cases rc.wrote_header) [
          | inl wrote ↦ rw (recovered, wrote) first
          | inr fresh_ ↦
              rw (recovered, fresh_)
                (Written-trans rt id first (
                  run-Written (recording w) http.internal_error (rc, st) _
                    (IsErrorReply-KeepsId rt id http.internal_error reply) first.all_add))
        ]

    recover_outcome-Written :
        (out : Outcome) (s : Serving rt http l w)
        → AllAddId rt id s.1
        → Written rt id s.1 (recover_outcome rt http l w r ctx out s).1.1
    unfolding recover_outcome
    recover_outcome-Written returned s h = Written-none rt id s.1 s.1 refl h
    recover_outcome-Written (panicked v) s h = recovered-Written v s h

    end_request-Written :
        (p start : ℕ) (b : Outcome × Serving rt http l w)
        → AllAddId rt id b.1.1
        → Written rt id b.1.1 (end_request rt http l w r ctx p start b).1.1
    unfolding end_request now
    end_request-Written p start (panicked v, ((rc, st), u)) h = Written-none rt id u u refl h
    end_request-Written p start (returned, ((rc, st), u)) h =
        Written-from rt id _ u _ refl (finish-Written rt id ne (some p) ctx _ _ e h)

module _ (rt : Runtime) (http : Http) (l : Logger) (w : HttpWriter) (ctx : Context) (r : Request)
    (s : w.State × World) where
  -- The id of the request.
  abbrev pub id_of : String
  id_of = request_id (begin_request rt http l w ctx r s).0.0

  id_of-ne : id_of ≢ ""
  id_of-ne = (request_id-begin_request rt http l w ctx r s).1

  module _ (a : AddsId rt id_of l.handler) (h : AllAddId rt id_of s.1) where
    begin_request-Written : Written rt id_of s.1 (begin_request rt http l w ctx r s).1.1
    unfolding begin_request
    begin_request-Written =
        let ((ctx1, id), u1) = ensure_request_id rt (inbound rt http l ctx r) s.1 in
        let first = ensure_request_id-Written rt id_of (inbound rt http l ctx r) s.1 h in
        Written-trans rt id_of first (
          start_trace-Written rt id_of id_of-ne l ctx1 _ _ u1 a
            (sym (request_id-started rt http l w ctx r s)) first.all_add)

    module _ (reply : IsErrorReply http.internal_error) (next : Request → Context → Program)
        (keeps : (c : Context) → request_id c ≡ id_of → KeepsId rt id_of (next r c)) where
      serve_logged-Written : Written rt id_of s.1 (serve_logged rt http l w next ctx r s).1.1
      unfolding serve_logged
      serve_logged-Written =
          let ((ctx2, (p, start)), (st1, u3)) = begin_request rt http l w ctx r s in
          let begun = begin_request-Written in
          let (out, s') = run rt (recording w) (next r ctx2) ((fresh, st1), u3) in
          let ran =
            run-Written rt id_of id_of-ne (recording w) (next r ctx2) (fresh, st1) u3
              (keeps ctx2 refl) begun.all_add in
          let settled =
            recover_outcome-Written rt id_of id_of-ne http l a reply w r ctx2 refl out s'
              ran.all_add in
          let ended =
            end_request-Written rt id_of id_of-ne http l a reply w r ctx2 refl p start _
              settled.all_add in
          Written-trans rt id_of begun
            (Written-trans rt id_of ran (Written-trans rt id_of settled ended))

      -- A request that is not skipped, at a logger that adds the id of the request and whose redactor, if
      -- it has one, neither has the key of the id nor changes the id, in a world in which the loggers of
      -- all traces are so, with `http.Error` as it is documented, and for a handler that, under a context
      -- with the id of the request, logs only by such loggers and under such contexts: the id is not
      -- empty, and is that of the incoming `X-Request-ID` header, if this is not empty, and else that of
      -- the context that the request came with, if that has one. It is set as the header of the answer
      -- before the handler runs, and every line that is written until the request is answered has it as
      -- its last attribute, in the groups that its logger opened: the start of the trace, the lines and
      -- the stages of the handler, the line of a recovered panic, and the completion. The lines that were
      -- there before stay.
      pub serve-Written :
          (settings : List Setting)
          → skips settings r.path ≡ false
          → let ((ctx2, more), (st1, u1)) = begin_request rt http l w ctx r s in
            (request_id ctx2 ≢ "")
            × (r.header request_id_header ≢ "" → request_id ctx2 ≡ r.header request_id_header)
            × (r.header request_id_header ≡ ""
                → request_id ctx ≢ ""
                → request_id ctx2 ≡ request_id ctx)
            × (st1 ≡ w.set_header request_id_header (request_id ctx2) s.0)
            × Written rt (request_id ctx2) s.1 (serve rt http l settings w next ctx r s).1.1
      unfolding serve
      serve-Written settings skip =
          let (header, full, given, plain) = request_id-begin_request rt http l w ctx r s in
          (full, given, plain, header, rw (serve, skip) serve_logged-Written)
