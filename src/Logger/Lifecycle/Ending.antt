-- ===== src/Logger/Lifecycle/Ending.antt =====
-- logger/lifecycle.go: the one completion of a trace that was started.
use go_library.Prelude.{ℕ, ◌≡◌, ap, ◌∙◌, String, true, some, List, [], ◌∷◌, ◌++◌}
use go_library.Runtime.{Runtime}
use go_library.Logger.Value.{Attr}
use go_library.Logger.Level.{level_info}
use go_library.Logger.State.{Logger, Lifecycle, Record, World}
use go_library.Logger.Context.{Context}
use go_library.Logger.Handler.{enabled}
use go_library.Logger.Handler.Effects.{line_of}
use go_library.Logger.Lifecycle.{finish}
use go_library.Logger.Lifecycle.Completion.{IsCompletion, finish_line}
use go_library.Logger.Lifecycle.Interleaving.{Steps, finish-Steps_once}
use go_library.Logger.Lifecycle.Opening.{IsOpen}

module _ (rt : Runtime) (l : Logger) (name : String) (p : ℕ) (ctx : Context)
    (attrs : List Attr) where
  -- From `w` to `w'` one line was written, the completion of the trace of this name with these
  -- attributes, and to end the trace again changes nothing, whatever operations of the logger package
  -- come in between.
  pub record Completed (w w' : World) : Type 0 where
    pub lc : Lifecycle
    pub rec : Record
    pub same_name : lc.name ≡ name
    pub completion : IsCompletion rt lc attrs w rec
    pub one_line : w'.lines ≡ w.lines ++ line_of rt l.handler ctx rec ∷ []
    pub once :
        {v : World}
        → Steps rt w' v
        → (ctx' : Context) (attrs' : List Attr) → finish rt (some p) ctx' attrs' v ≡ (tt, v)

  pub finish-Completed :
      (w : World)
      → enabled rt l.handler w level_info ≡ true
      → IsOpen l name p w
      → Completed w (finish rt (some p) ctx attrs w).1
  finish-Completed w on o =
      let on' : enabled rt o.lc.log.handler w level_info ≡ true =
        ap (λ k. enabled rt k.handler w level_info) o.same_log ∙ on in
      let (rec, completion, lines) = finish_line rt p o.lc ctx attrs w o.found o.not_ended on' in
      record {
        lc = o.lc;
        rec = rec;
        same_name = o.same_name;
        completion = completion;
        one_line = lines ∙ ap (λ k. w.lines ++ line_of rt k.handler ctx rec ∷ []) o.same_log;
        once = λ steps ctx' attrs'.
            finish-Steps_once rt p o.lc ctx ctx' attrs attrs' w o.found o.not_ended steps;
      }
