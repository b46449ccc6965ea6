-- ===== src/Etl/Reporting.antt =====
-- etl/job.go: the completion of a job reports what the job counted.
use go_library.Prelude.{
  ℕ, ℤ, pos, Option, ◌≡◌, refl, ◌∙◌, true, String, ◌<>◌, List, [], ◌∷◌, ◌++◌, All, ◌-◌, arith,
}
use go_library.Runtime.{Runtime}
use go_library.GoTime.{IsInt64}
use go_library.Logger.Value.{Attr, text, scalar, int}
use go_library.Logger.Level.{level_info}
use go_library.Logger.State.{Logger, World, now}
use go_library.Logger.Context.{Context}
use go_library.Logger.Handler.{enabled, error, err_attr}
use go_library.Logger.Handler.Effects.{log-Frame, enabled_congr}
use go_library.Logger.Lifecycle.Opening.{
  IsOpen, moved, log-IsOpen, stage-IsOpen, stage-levels, start_request-IsOpen,
}
use go_library.Logger.Lifecycle.Ending.{Completed, finish-Completed}
use go_library.Etl.{Job, rate, start_job, checkpoint, complete_job, fail_job}
use go_library.Etl.Counting.{Count, IsCounted, count, count_all}
use go_library.Etl.Totals.{sum_done, sum_lost, count_all_exact}

-- What a job does between its start and its end: it counts, and makes checkpoints.
pub data Work : Type 0 where
  counts : Count → Work
  checks : Context → String → List Attr → Work

abbrev pub counts_of : List Work → List Count
counts_of [] = []
counts_of (counts c ∷ ws) = c ∷ counts_of ws
counts_of (checks ctx name attrs ∷ ws) = counts_of ws

-- The job with the sums of its counts.
abbrev pub summed : List Work → Job → Job
summed ws j = record j {
  processed = sum_done (pos 0) (counts_of ws);
  failed = sum_lost (pos 0) (counts_of ws);
}

-- The attributes of the summary of a job that processed and lost this many records.
abbrev pub summary_of : String → String → ℤ → ℤ → ℤ → List Attr
summary_of name status m n d =
    ("etl.job", text name)
    ∷ ("etl.status", text status)
    ∷ ("etl.recordsProcessed", scalar (int m))
    ∷ ("etl.recordsFailed", scalar (int n))
    ∷ rate m d
    ∷ []

module _ (rt : Runtime) where
  unfoldable pub work_all : List Work → Job → World → Job × World
  work_all [] j w = (j, w)
  work_all (counts c ∷ ws) j w = work_all ws (count j c) w
  work_all (checks ctx name attrs ∷ ws) j w = work_all ws j (checkpoint rt j ctx name attrs w).1

  work_all-counts :
      (ws : List Work) (j : Job) (w : World) → (work_all ws j w).0 ≡ count_all j (counts_of ws)
  unfolding work_all count_all
  work_all-counts [] j w = refl
  work_all-counts (counts c ∷ ws) j w = work_all-counts ws (count j c) w
  work_all-counts (checks ctx name attrs ∷ ws) j w =
      work_all-counts ws j (checkpoint rt j ctx name attrs w).1

  work_all-levels : (ws : List Work) (j : Job) (w : World) → (work_all ws j w).1.levels ≡ w.levels
  unfolding work_all checkpoint now
  work_all-levels [] j w = refl
  work_all-levels (counts c ∷ ws) j w = work_all-levels ws (count j c) w
  work_all-levels (checks ctx name attrs ∷ ws) j w =
      work_all-levels ws j (checkpoint rt j ctx name attrs w).1
      ∙ (log-Frame rt _ _ _ _ _ _).levels
      ∙ stage-levels rt _ _ _ _ _

  work_all-IsOpen :
      (ws : List Work) (j : Job) {l : Logger} {name : String} {p : ℕ} (w : World)
      → IsOpen l name p w
      → IsOpen l name p (work_all ws j w).1
  unfolding work_all checkpoint now
  work_all-IsOpen [] j w o = o
  work_all-IsOpen (counts c ∷ ws) j w o = work_all-IsOpen ws (count j c) w o
  work_all-IsOpen (checks ctx tag attrs ∷ ws) j w o =
      work_all-IsOpen ws j (checkpoint rt j ctx tag attrs w).1
        (log-IsOpen rt _ _ _ _ _ (stage-IsOpen rt _ _ _ _ (moved rt refl o)))

  start_job-IsOpen :
      (l : Logger) (ctx : Context) (name : String) (attrs : List Attr) (w : World)
      → let ((ctx1, j), u) = start_job rt l ctx name attrs w in IsOpen l ("etl " <> name) j.lc u
  unfolding start_job now
  start_job-IsOpen l ctx name attrs w =
      log-IsOpen rt _ _ _ _ _ (moved rt refl (start_request-IsOpen rt l ctx _ attrs w))

  complete_job-Completed :
      (l : Logger) (name : String) (j : Job) (ctx : Context) (attrs : List Attr) (v : World)
      → enabled rt l.handler v level_info ≡ true
      → IsOpen l ("etl " <> name) j.lc v
      → Completed rt l
          ("etl " <> name)
          j.lc
          ctx
          (summary_of j.name "completed" j.processed j.failed (pos ((now rt v).0 - j.start))
            ++ attrs)
          (now rt v).1
          (complete_job rt j ctx attrs v).1
  unfolding complete_job now
  complete_job-Completed l name j ctx attrs v on o =
      finish-Completed rt l _ _ _ _ _ (enabled_congr rt l.handler v _ level_info refl ∙ on)
        (moved rt refl o)

  -- The world after the line of a failure, with the summary at its time.
  abbrev pub failed_line : Job → Context → Option String → List Attr → World → World
  failed_line j ctx e attrs v =
      let (t, v1) = now rt v in
      (error rt j.log ctx "etl job failed"
        ((summary_of j.name "failed" j.processed j.failed (pos (t - j.start)) ++ err_attr e ∷ [])
          ++ attrs)
        v1).1

  fail_job-Completed :
      (l : Logger) (name : String) (j : Job) (ctx : Context) (e : Option String) (attrs : List Attr)
      (v : World)
      → enabled rt l.handler v level_info ≡ true
      → IsOpen l ("etl " <> name) j.lc v
      → let x = failed_line j ctx e attrs v in
        Completed rt l
          ("etl " <> name)
          j.lc
          ctx
          (summary_of j.name "failed" j.processed j.failed (pos ((now rt x).0 - j.start)) ++ attrs)
          (now rt x).1
          (fail_job rt j ctx e attrs v).1
  unfolding fail_job now
  fail_job-Completed l name j ctx e attrs v on o =
      finish-Completed rt l _ _ _ _ _
        (enabled_congr rt l.handler v _ level_info (log-Frame rt _ _ _ _ _ _).levels ∙ on)
        (moved rt refl (log-IsOpen rt _ _ _ _ _ (moved rt refl o)))

  -- A job that `StartJob` began in any world, at a logger with the info level enabled then, after any
  -- sequence of counts, each an int64, and of checkpoints. If the sum of all records processed and
  -- that of all that failed are int64, whatever wrapped around in between: `Complete` writes one line,
  -- the completion of the trace of the job, with these sums, the status and the rate over the time
  -- since the start; and `Fail` does so after it logged the error with the summary at that time. To
  -- end the trace again changes nothing, whatever operations of the logger package come in between.
  pub jobs-Completed :
      (l : Logger) (ctx ctx' : Context) (name : String) (e : Option String)
      (attrs attrs' : List Attr) (ws : List Work) (w : World)
      → All IsCounted (counts_of ws)
      → IsInt64 (sum_done (pos 0) (counts_of ws))
      → IsInt64 (sum_lost (pos 0) (counts_of ws))
      → let ((ctx1, j), u) = start_job rt l ctx name attrs w in
        enabled rt l.handler u level_info ≡ true
        → let (j', v) = work_all ws j u in
          let m = sum_done (pos 0) (counts_of ws) in
          let n = sum_lost (pos 0) (counts_of ws) in
          let x = failed_line (summed ws j) ctx' e attrs' v in
          Completed rt l
            ("etl " <> name)
            j.lc
            ctx'
            (summary_of name "completed" m n (pos ((now rt v).0 - j.start)) ++ attrs')
            (now rt v).1
            (complete_job rt j' ctx' attrs' v).1
          × Completed rt l
              ("etl " <> name)
              j.lc
              ctx'
              (summary_of name "failed" m n (pos ((now rt x).0 - j.start)) ++ attrs')
              (now rt x).1
              (fail_job rt j' ctx' e attrs' v).1
  unfolding start_job
  jobs-Completed l ctx ctx' name e attrs attrs' ws w h x y on =
      let ((ctx1, j), u) = start_job rt l ctx name attrs w in
      let v = (work_all ws j u).1 in
      let counted : (work_all ws j u).0 ≡ summed ws j =
        work_all-counts ws j u
        ∙ count_all_exact j (counts_of ws)
            (record { processed = (omega arith, omega arith); failed = (omega arith, omega arith) })
            h x y in
      let on' = enabled_congr rt l.handler u v level_info (work_all-levels ws j u) ∙ on in
      let open_ = work_all-IsOpen ws j u (start_job-IsOpen l ctx name attrs w) in
      rw counted (
        complete_job-Completed l name (summed ws j) ctx' attrs' v on' open_,
        fail_job-Completed l name (summed ws j) ctx' e attrs' v on' open_,
      )
