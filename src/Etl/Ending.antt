-- ===== src/Etl/Ending.antt =====
-- etl/job.go: a job ends once.
use go_library.Prelude.{◌≡◌, refl, ap, ◌∙◌, false, true, Option, some, String, List, get_elem?}
use go_library.Runtime.{Runtime}
use go_library.Logger.Value.{Attr}
use go_library.Logger.State.{Lifecycle, World, now}
use go_library.Logger.Context.{Context}
use go_library.Logger.Lifecycle.Completion.{finish_marks}
use go_library.Logger.Lifecycle.Interleaving.{Steps, reads, finish-Steps_ended}
use go_library.Logger.Handler.Effects.{log-Frame}
use go_library.Etl.{Job, complete_job, fail_job}

module _ (rt : Runtime) (j : Job) (lc : Lifecycle) (w : World)
    (found : get_elem? w.lifecycles j.lc ≡ some lc) (open_ : lc.ended ≡ false) where
  -- The lifecycle of the job has ended.
  abbrev HasEnded : World → Type 0
  HasEnded u = get_elem? u.lifecycles j.lc ≡ some (record lc { ended = true })

  complete_ended :
      (ctx : Context) (attrs : List Attr) (u : World) {v : World}
      → HasEnded u
      → Steps rt u v
      → complete_job rt j ctx attrs v ≡ (tt, (now rt v).1)
  unfolding complete_job now
  complete_ended ctx attrs u h steps =
      finish-Steps_ended rt j.lc (record lc { ended = true }) u h refl (reads steps) ctx _

  complete-HasEnded :
      (ctx : Context) (attrs : List Attr) → HasEnded (complete_job rt j ctx attrs w).1
  unfolding complete_job now
  complete-HasEnded ctx attrs = (finish_marks rt j.lc lc ctx _ (now rt w).1 found open_).0

  fail-HasEnded :
      (ctx : Context) (e : Option String) (attrs : List Attr)
      → HasEnded (fail_job rt j ctx e attrs w).1
  unfolding fail_job now
  fail-HasEnded ctx e attrs =
      (finish_marks rt j.lc lc ctx _ _
        (ap (λ ls. get_elem? ls j.lc) (log-Frame rt _ _ _ _ _ _).lifecycles ∙ found) open_).0

  -- For a job whose lifecycle has not ended: after `Complete`, and after `Fail`, a further `Complete`
  -- writes no line and changes nothing, whatever operations of the logger package come in between; it
  -- does no more than read the clock.
  pub complete_job_once :
      (ctx ctx' : Context) (e : Option String) (attrs attrs' : List Attr)
      → let u = (complete_job rt j ctx attrs w).1 in
        let v = (fail_job rt j ctx e attrs w).1 in
        ((u' : World) → Steps rt u u' → complete_job rt j ctx' attrs' u' ≡ (tt, (now rt u').1))
        × ((v' : World) → Steps rt v v' → complete_job rt j ctx' attrs' v' ≡ (tt, (now rt v').1))
  complete_job_once ctx ctx' e attrs attrs' = (
    λ v steps. complete_ended ctx' attrs' _ (complete-HasEnded ctx attrs) steps,
    λ v steps. complete_ended ctx' attrs' _ (fail-HasEnded ctx e attrs) steps,
  )
