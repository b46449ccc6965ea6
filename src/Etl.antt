-- ===== src/Etl.antt =====
-- etl/job.go: runs of batch jobs, over the lifecycle and the log of the logger package. A job is passed
-- on explicitly: its counters are atomic, so each operation on them is one step.
pub mod Ending
pub mod Counting
pub mod Totals
pub mod Reporting
use go_library.Prelude.{
  ℕ, pos, ℤ, ◌+ℤ◌, ◌-ℤ◌, ltb_ℤ, ◌^◌, ◌-◌, String, ◌<>◌, Bool, true, false, Option, none, some, List,
  [], ◌∷◌, ◌++◌, if◌then◌else◌,
}
use go_library.Runtime.{Runtime}
use go_library.Logger.Value.{Attr, text, scalar, int, seconds, ratio}
use go_library.Logger.State.{Logger, World, M, ◌>>=◌, ◌>>◌, pure, now}
use go_library.Logger.Context.{Context}
use go_library.Logger.Handler.{info, error, err_attr}
use go_library.Logger.Lifecycle.{start_request, stage, finish}
use go_library.Oauth.Codec.{max_int64, min_int64}

-- `Job`; `lc` is the index of its lifecycle.
pub record Job : Type 0 where
  pub name : String
  pub log : Logger
  pub lc : ℕ
  pub start : ℕ
  pub processed : ℤ
  pub failed : ℤ

-- `(*atomic.Int64).Add`, of which the result wraps around.
unfoldable pub add_int64 : ℤ → ℤ → ℤ
add_int64 a b =
    let d = a +ℤ b in
    if ltb_ℤ max_int64 d
    then d -ℤ pos (2 ^ 64)
    else if ltb_ℤ d min_int64
    then d +ℤ pos (2 ^ 64)
    else d

-- `Processed` and `Failed`
unfoldable pub add_processed : Job → ℤ → Job
unfolding add_int64
add_processed j n = record j { processed = add_int64 j.processed n }

unfoldable pub add_failed : Job → ℤ → Job
unfolding add_int64
add_failed j n = record j { failed = add_int64 j.failed n }

-- `rate`, of a duration that is not negative.
unfoldable pub rate : ℤ → ℤ → Attr
rate n d = ("etl.recordsPerSec", scalar (if ltb_ℤ (pos 0) d then ratio n d else int (pos 0)))

-- `time.Since`, of a time with a monotonic reading.
abbrev elapsed : Job → ℕ → ℤ
elapsed j t = pos (t - j.start)

module _ (rt : Runtime) where
  -- `StartJob`
  unfoldable pub start_job : Logger → Context → String → List Attr → M (Context × Job)
  start_job l ctx name attrs = do
    (ctx1, p) ← start_request rt l ctx ("etl " <> name) attrs
    t ← now rt
    info rt l ctx1 "etl job started" (("etl.job", text name) ∷ attrs)
    pure (
      ctx1,
      record { name = name; log = l; lc = p; start = t; processed = pos 0; failed = pos 0 },
    )

  -- `Checkpoint`
  unfoldable pub checkpoint : Job → Context → String → List Attr → M (Unit {0})
  unfolding rate
  checkpoint j ctx name attrs = do
    t ← now rt
    stage rt (some j.lc) ctx name []
    info rt j.log ctx "etl checkpoint" (
        (("etl.job", text j.name)
          ∷ ("etl.checkpoint", text name)
          ∷ ("etl.recordsProcessed", scalar (int j.processed))
          ∷ ("etl.recordsFailed", scalar (int j.failed))
          ∷ ("etl.elapsedSec", scalar (seconds (elapsed j t)))
          ∷ rate j.processed (elapsed j t)
          ∷ [])
        ++ attrs)

  -- `summaryAttrs`
  unfoldable pub summary_attrs : Job → String → M (List Attr)
  unfolding rate
  summary_attrs j status = do
    t ← now rt
    pure (
        ("etl.job", text j.name)
        ∷ ("etl.status", text status)
        ∷ ("etl.recordsProcessed", scalar (int j.processed))
        ∷ ("etl.recordsFailed", scalar (int j.failed))
        ∷ rate j.processed (elapsed j t)
        ∷ [])

  -- `Complete`
  unfoldable pub complete_job : Job → Context → List Attr → M (Unit {0})
  unfolding summary_attrs
  complete_job j ctx attrs = do
    summary ← summary_attrs j "completed"
    finish rt (some j.lc) ctx (summary ++ attrs)

  -- `Fail`
  unfoldable pub fail_job : Job → Context → Option String → List Attr → M (Unit {0})
  unfolding summary_attrs
  fail_job j ctx e attrs = do
    summary ← summary_attrs j "failed"
    error rt j.log ctx "etl job failed" ((summary ++ err_attr e ∷ []) ++ attrs)
    summary' ← summary_attrs j "failed"
    finish rt (some j.lc) ctx (summary' ++ attrs)
