-- ===== src/Graphql/Outcome.antt =====
-- graphql/logger.go: how an operation ends.
use go_library.Prelude.{
  ℕ, suc, ◌+◌, ◌≡◌, refl, ap, ◌∙◌, String, ◌<>◌, true, Option, none, some, List, [], ◌∷◌, ◌++◌,
  length, arith, pos,
}
use mathlib.Core.Path.{subst}
use go_library.Runtime.{Runtime}
use go_library.Logger.Value.{scalar, int}
use go_library.Logger.Level.{level_info, level_error}
use go_library.Logger.State.{Logger, Record, World}
use go_library.Logger.Context.{Context}
use go_library.Logger.Handler.{enabled, error, err_attr}
use go_library.Logger.Handler.Effects.{line_of, log-Frame, log_enabled, enabled_congr}
use go_library.Logger.Lifecycle.Opening.{IsOpen, start_request-IsOpen, log-IsOpen}
use go_library.Logger.Lifecycle.Ending.{Completed, finish-Completed}
use go_library.Oauth.Codec.{Codec}
use go_library.Graphql.{
  Operation, Trace, operation_name, operation_type, operation_start, report_errors,
  finish_operation, head_attrs,
}
use go_library.Graphql

-- The errors that are not nil, in order.
abbrev pub failures : List (Option String) → List String
failures [] = []
failures (none ∷ errs) = failures errs
failures (some e ∷ errs) = e ∷ failures errs

module _ (rt : Runtime) where
  -- From `w` to `w'` one line was written for each error, in order, each with that error and no other.
  pub data ErrorLines (t : Trace) : List String → World → World → Type 0 where
    nothing_more : {w : World} → ErrorLines t [] w w
    one_more :
        {e : String} {es : List String} {w w' w'' : World} (rec : Record)
        → rec.message ≡ "graphql operation error"
        → rec.level ≡ level_error
        → rec.attrs ≡ head_attrs t.name t.op_type ++ err_attr (some e) ∷ []
        → w'.lines ≡ w.lines ++ line_of rt t.base.handler t.ctx rec ∷ []
        → ErrorLines t es w' w''
        → ErrorLines t (e ∷ es) w w''

  module _ (t : Trace) where
    report_errors-levels :
        (errs : List (Option String)) (n : ℕ) (w : World)
        → (report_errors rt t errs n w).1.levels ≡ w.levels
    unfolding report_errors
    report_errors-levels [] n w = refl
    report_errors-levels (none ∷ errs) n w = report_errors-levels errs n w
    report_errors-levels (some e ∷ errs) n w =
        report_errors-levels errs (suc n) _ ∙ (log-Frame rt _ _ _ _ _ _).levels

    report_errors-IsOpen :
        (errs : List (Option String)) (n : ℕ) {l : Logger} {name : String} {p : ℕ} {w : World}
        → IsOpen l name p w
        → IsOpen l name p (report_errors rt t errs n w).1
    unfolding report_errors
    report_errors-IsOpen [] n o = o
    report_errors-IsOpen (none ∷ errs) n o = report_errors-IsOpen errs n o
    report_errors-IsOpen (some e ∷ errs) n o =
        report_errors-IsOpen errs (suc n) (log-IsOpen rt _ _ _ _ _ o)

    report_errors_lem :
        (errs : List (Option String)) (n : ℕ) (w : World)
        → enabled rt t.base.handler w level_error ≡ true
        → ((report_errors rt t errs n w).0 ≡ n + length (failures errs))
          × ErrorLines t (failures errs) w (report_errors rt t errs n w).1
    unfolding report_errors
    report_errors_lem [] n w on = (omega arith, nothing_more)
    report_errors_lem (none ∷ errs) n w on = report_errors_lem errs n w on
    report_errors_lem (some e ∷ errs) n w on =
        let w' =
          (error rt t.base t.ctx "graphql operation error"
            (head_attrs t.name t.op_type ++ err_attr (some e) ∷ []) w).1 in
        let (count, lines) = report_errors_lem errs (suc n) w' (
          enabled_congr rt t.base.handler w w' level_error (log-Frame rt _ _ _ _ _ _).levels
          ∙ on) in
        (
          omega arith,
          one_more _ refl refl refl
              (ap (λ r. r.1.lines) (log_enabled rt t.base level_error t.ctx _ _ w on)) lines,
        )

  -- The end of an operation that `OperationStart` began in any world, at a logger with the info and
  -- error levels enabled then: one line for each error that is not nil, in order and with that error,
  -- and after them one more, the completion of the trace, which is named after the operation and has
  -- the count of these errors. To end the trace again changes nothing, whatever operations of the
  -- logger package come in between.
  pub finish_operation_lem :
      (cx : Codec) (l : Graphql.Logger) (ctx : Context) (op : Operation)
      (errs : List (Option String)) (w : World)
      → let ((ctx', t), u) = operation_start rt cx l ctx op w in
        enabled rt l.base.handler u level_info ≡ true
        → enabled rt l.base.handler u level_error ≡ true
        → (v : World) × ErrorLines t (failures errs) u v
          × Completed rt l.base
              ("graphql " <> (operation_type op <> (" " <> operation_name op)))
              t.lc
              ctx'
              (head_attrs (operation_name op) (operation_type op)
                ++ ("graphql.errorCount", scalar (int (pos (length (failures errs))))) ∷ [])
              v
              (finish_operation rt t errs u).1
  unfolding operation_start finish_operation
  finish_operation_lem cx l ctx op errs w on on' =
      let ((ctx', t), u) = operation_start rt cx l ctx op w in
      let (n, v) = report_errors rt t errs 0 u in
      let (count, lines) = report_errors_lem t errs 0 u on' in
      let count' : n ≡ length (failures errs) = omega (arith, count) in
      let name = operation_name op in
      let op_type = operation_type op in
      let open_ =
        report_errors-IsOpen t errs 0
          (log-IsOpen rt _ _ _ _ _ (start_request-IsOpen rt _ _ _ _ _)) in
      (
        v,
        lines,
        subst
            (λ k.
              Completed rt l.base ("graphql " <> (op_type <> (" " <> name))) t.lc ctx'
                (head_attrs name op_type ++ ("graphql.errorCount", scalar (int (pos k))) ∷ []) v
                (finish_operation rt t errs u).1)
            count'
            (finish-Completed rt l.base _ _ _ _ v
              (enabled_congr rt l.base.handler u v level_info (report_errors-levels t errs 0 u)
                ∙ on)
              open_),
      )
