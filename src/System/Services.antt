-- ===== src/System/Services.antt =====
-- etl/job.go, events/logger.go, graphql/*.go and rest/middleware.go: what these packages do to the state
-- of the logger package, they do by its operations.
use go_library.Prelude.{
  ℕ, String, Bool-cases, Option-cases, inl, inr, Option, none, some, List, [], ◌∷◌, ◌==◌, string_eq,
  suc,
}
use go_library.Runtime.{Runtime}
use go_library.GoTime.{zero_time, int_eq}
use go_library.Logger.Value.{Any, Attr}
use go_library.Logger.State.{Logger, World}
use go_library.Logger.Context.{Context}
use go_library.Logger.Lifecycle.Interleaving.{Steps, reads, ids, logs, starts, stages, ends}
use go_library.Oauth.Codec.{Codec}
use go_library.Etl.{Job, start_job, checkpoint, complete_job, fail_job}
use go_library.Events.{Message, Consumption, lag_attrs, consume_start, done, produced}
use go_library.Graphql.{Operation, Trace, operation_start, report_errors, finish_operation}
use go_library.Graphql
use go_library.Rest.{
  Setting, skips, Request, HttpWriter, Program, returns, panics, set_header, write_header, write,
  Outcome, returned, panicked, Http, Recorder, fresh, recording, run, Serving, recovered,
  recover_outcome, end_request, begin_request, serve_logged, serve,
}
use go_library.Rest

module _ (rt : Runtime) {w : World} where
  pub start_job-Steps :
      {u : World}
      → Steps rt w u
      → (l : Logger) (ctx : Context) (name : String) (attrs : List Attr)
      → Steps rt w (start_job rt l ctx name attrs u).1
  unfolding start_job
  start_job-Steps s l ctx name attrs = logs (reads (starts s l ctx _ attrs)) l _ _ _ _

  pub checkpoint-Steps :
      {u : World}
      → Steps rt w u
      → (j : Job) (ctx : Context) (name : String) (attrs : List Attr)
      → Steps rt w (checkpoint rt j ctx name attrs u).1
  unfolding checkpoint
  checkpoint-Steps s j ctx name attrs = logs (stages (reads s) (some j.lc) ctx name []) _ _ _ _ _

  pub complete_job-Steps :
      {u : World}
      → Steps rt w u
      → (j : Job) (ctx : Context) (attrs : List Attr) → Steps rt w (complete_job rt j ctx attrs u).1
  unfolding complete_job
  complete_job-Steps s j ctx attrs = ends (reads s) _ _ _

  pub fail_job-Steps :
      {u : World}
      → Steps rt w u
      → (j : Job) (ctx : Context) (e : Option String) (attrs : List Attr)
      → Steps rt w (fail_job rt j ctx e attrs u).1
  unfolding fail_job
  fail_job-Steps s j ctx e attrs = ends (reads (logs (reads s) _ _ _ _ _)) _ _ _

  lag_attrs-Steps : {u : World} → Steps rt w u → (msg : Message) → Steps rt w (lag_attrs rt msg u).1
  unfolding lag_attrs
  lag_attrs-Steps s msg = elim (Bool-cases (msg.timestamp == zero_time)) [
    | inl e ↦ rw (e, lag_attrs) s
    | inr e ↦ rw (e, lag_attrs) (reads s)
  ]

  pub consume_start-Steps :
      {u : World}
      → Steps rt w u
      → (l : Logger) (ctx : Context) (msg : Message) → Steps rt w (consume_start rt l ctx msg u).1
  unfolding consume_start
  consume_start-Steps s l ctx msg = logs (starts (lag_attrs-Steps s msg) l _ _ _) _ _ _ _ _

  pub done-Steps :
      {u : World}
      → Steps rt w u
      → (c : Consumption) (e : Option String) → Steps rt w (done rt c e u).1
  unfolding done
  done-Steps s c none = ends s _ _ _
  done-Steps s c (some e) = ends (logs s _ _ _ _ _) _ _ _

  pub produced-Steps :
      {u : World}
      → Steps rt w u
      → (l : Logger) (ctx : Context) (msg : Message) (e : Option String)
      → Steps rt w (produced rt l ctx msg e u).1
  unfolding produced
  produced-Steps s l ctx msg none = logs s _ _ _ _ _
  produced-Steps s l ctx msg (some e) = logs s _ _ _ _ _

  pub operation_start-Steps :
      {u : World}
      → Steps rt w u
      → (cx : Codec) (l : Graphql.Logger) (ctx : Context) (op : Operation)
      → Steps rt w (operation_start rt cx l ctx op u).1
  unfolding operation_start
  operation_start-Steps s cx l ctx op = logs (starts s _ _ _ _) _ _ _ _ _

  report_errors-Steps :
      (t : Trace) (errs : List (Option String)) (n : ℕ) {u : World}
      → Steps rt w u
      → Steps rt w (report_errors rt t errs n u).1
  unfolding report_errors
  report_errors-Steps t [] n s = s
  report_errors-Steps t (none ∷ errs) n s = report_errors-Steps t errs n s
  report_errors-Steps t (some e ∷ errs) n s = report_errors-Steps t errs (suc n) (logs s _ _ _ _ _)

  pub finish_operation-Steps :
      {u : World}
      → Steps rt w u
      → (t : Trace) (errs : List (Option String)) → Steps rt w (finish_operation rt t errs u).1
  unfolding finish_operation
  finish_operation-Steps s t errs = ends (report_errors-Steps t errs 0 s) _ _ _

  pub graphql_stage-Steps :
      {u : World}
      → Steps rt w u
      → (ctx : Context) (name : String) (attrs : List Attr)
      → Steps rt w (Graphql.stage rt ctx name attrs u).1
  unfolding Graphql.stage
  graphql_stage-Steps s ctx name attrs = stages s _ _ _ _

  -- A handler of requests, by its program.
  pub run-Steps :
      (h : HttpWriter) (p : Program) (st : h.State) {u : World}
      → Steps rt w u
      → Steps rt w (run rt h p (st, u)).1.1
  unfolding run
  run-Steps h returns st s = s
  run-Steps h (panics v) st s = s
  run-Steps h (set_header key v p) st s = run-Steps h p (h.set_header key v st) s
  run-Steps h (write_header status p) st s = elim (Option-cases (h.write_header status st).0) [
    | inl e ↦ rw (run, e) (run-Steps h p (h.write_header status st).1 s)
    | inr (v, e) ↦ rw (run, e) s
  ]
  run-Steps h (write b f) st s = let (r, st') = h.write b st in run-Steps h (f r) st' s
  run-Steps h (Rest.logs l level ctx msg attrs p) st s =
      run-Steps h p st (logs s l level ctx msg attrs)
  run-Steps h (Rest.stages q ctx name attrs p) st s = run-Steps h p st (stages s q ctx name attrs)

  module _ (http : Http) (l : Logger) (h : HttpWriter) (r : Request) where
    recovered-Steps :
        (ctx : Context) (v : Any) (rc : Recorder) (st : h.State) {u : World}
        → Steps rt w u
        → Steps rt w (recovered rt http l h r ctx v ((rc, st), u)).1.1
    unfolding recovered
    recovered-Steps ctx v rc st s = elim (Bool-cases rc.wrote_header) [
      | inl wrote ↦ rw (recovered, wrote) (logs s l _ ctx _ _)
      | inr fresh_ ↦
          rw (recovered, fresh_)
            (run-Steps (recording h) http.internal_error (rc, st) (logs s l _ ctx _ _))
    ]

    recover_outcome-Steps :
        (ctx : Context) (out : Outcome) (rc : Recorder) (st : h.State) {u : World}
        → Steps rt w u
        → Steps rt w (recover_outcome rt http l h r ctx out ((rc, st), u)).1.1
    unfolding recover_outcome
    recover_outcome-Steps ctx returned rc st s = s
    recover_outcome-Steps ctx (panicked v) rc st s = recovered-Steps ctx v rc st s

    end_request-Steps :
        (ctx : Context) (p start : ℕ) (b : Outcome × Serving rt http l h)
        → Steps rt w b.1.1
        → Steps rt w (end_request rt http l h r ctx p start b).1.1
    unfolding end_request
    end_request-Steps ctx p start (panicked v, ((rc, st), u)) s = s
    end_request-Steps ctx p start (returned, ((rc, st), u)) s = ends (reads s) _ _ _

    pub serve-Steps :
        (settings : List Setting) (next : Request → Context → Program) (ctx : Context)
        (st : h.State) {u : World}
        → Steps rt w u
        → Steps rt w (serve rt http l settings h next ctx r (st, u)).1.1
    unfolding serve serve_logged begin_request
    serve-Steps settings next ctx st {u} s = elim (Bool-cases (skips settings r.path)) [
      | inl skip ↦ rw (serve, skip) (run-Steps h (next r ctx) st s)
      | inr not_ ↦
          let ((ctx2, (p, start)), (st1, u3)) = begin_request rt http l h ctx r (st, u) in
          let (out, ((rc, st2), u4)) = run rt (recording h) (next r ctx2) ((fresh, st1), u3) in
          let begun : Steps rt w u3 = reads (starts (ids s _) l _ _ _) in
          rw (serve, not_)
            (end_request-Steps ctx2 p start _ (
              recover_outcome-Steps ctx2 out rc st2
                (run-Steps (recording h) (next r ctx2) (fresh, st1) begun)))
    ]
