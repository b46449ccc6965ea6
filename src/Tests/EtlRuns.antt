-- ===== src/Tests/EtlRuns.antt =====
-- etl/job.go: runs, and the theorems at concrete data.
use go_library.Prelude.{pos, ◌≡◌, refl, arith, false, some, List, [], ◌∷◌, ◌++◌, ◌<>◌, ◌-◌, ◌+ℤ◌}
use mathlib.Core.List.{Permᴰ}
use go_library.Logger.State.{Logger, Lifecycle, World, sink, json, now}
use go_library.Logger.Context.{background, request_id}
use go_library.Logger.Handler.{enabled, log}
use go_library.Logger.Lifecycle.{start_request}
use go_library.Logger.Lifecycle.Ending.{Completed}
use go_library.Etl.Totals.{sum_done, sum_lost}
use go_library.Etl.Reporting.{
  Work, counts, checks, counts_of, work_all, summary_of, failed_line, summed, jobs-Completed,
}
use go_library.Logger.Lifecycle.Interleaving.{Steps}
use go_library.Etl.{Job, start_job, complete_job, fail_job}
use go_library.Etl.Ending.{complete_job_once}
use go_library.Etl.Counting.{done, lost, count_all, count_all-Perm}
use go_library.Tests.Data.{run_time, boot, orders}

abbrev console : Logger
console = record { handler = sink json 0 []; level = 0; cfg = orders }

abbrev trace : Lifecycle
trace = record {
  name = "etl nightly";
  start = 5;
  log = console;
  last_stage = 5;
  stage_list = [];
  ended = false;
}

abbrev running : World
running = record boot { lifecycles = trace ∷ [] }

abbrev nightly : Job
nightly = record {
  name = "nightly";
  log = console;
  lc = 0;
  start = 5;
  processed = pos 40;
  failed = pos 2;
}

complete_job_once_example :
    let u = (complete_job run_time nightly background [] running).1 in
    let v = (fail_job run_time nightly background (some "disk full") [] running).1 in
    ((u' : World)
      → Steps run_time u u'
      → complete_job run_time nightly background [] u' ≡ (tt, (now run_time u').1))
    × ((v' : World)
        → Steps run_time v v'
        → complete_job run_time nightly background [] v' ≡ (tt, (now run_time v').1))
complete_job_once_example =
    complete_job_once run_time nightly trace running refl refl background background
      (some "disk full") [] []

count_all-Perm_example :
    count_all nightly (done (pos 5) ∷ lost (pos 1) ∷ [])
    ≡ count_all nightly (lost (pos 1) ∷ done (pos 5) ∷ [])
count_all-Perm_example =
    count_all-Perm nightly (Permᴰ.swap refl refl)
      (record { processed = (omega arith, omega arith); failed = (omega arith, omega arith) })
      ((omega arith, omega arith), ((omega arith, omega arith), tt))

-- Three batches, with a checkpoint after the first.
abbrev batches : List Work
batches =
    counts (done (pos 5))
    ∷ checks background "first batch" []
    ∷ counts (lost (pos 1))
    ∷ counts (done (pos 7))
    ∷ []

jobs-Completed_example :
    let ((ctx1, j), u) = start_job run_time console background "nightly" [] boot in
    let (j', v) = work_all run_time batches j u in
    let m = sum_done (pos 0) (counts_of batches) in
    let n = sum_lost (pos 0) (counts_of batches) in
    let x = failed_line run_time (summed batches j) background (some "disk full") [] v in
    Completed run_time console
      ("etl " <> "nightly")
      j.lc
      background
      (summary_of "nightly" "completed" m n (pos ((now run_time v).0 - j.start)) ++ [])
      (now run_time v).1
      (complete_job run_time j' background [] v).1
    × Completed run_time console
        ("etl " <> "nightly")
        j.lc
        background
        (summary_of "nightly" "failed" m n (pos ((now run_time x).0 - j.start)) ++ [])
        (now run_time x).1
        (fail_job run_time j' background (some "disk full") [] v).1
unfolding start_job enabled ◌+ℤ◌ start_request log request_id
jobs-Completed_example =
    jobs-Completed run_time console background background "nightly" (some "disk full") [] [] batches
      boot
      ((omega arith, omega arith), ((omega arith, omega arith), ((omega arith, omega arith), tt)))
      (omega arith, omega arith) (omega arith, omega arith) refl
