-- ===== src/Tests/SystemRuns.antt =====
-- The packages together: the theorems at concrete data.
use go_library.Prelude.{◌≡◌, refl, false, some, [], ◌∷◌}
use go_library.GoText.{to_lower}
use go_library.Logger.Redact.{match, scrub, apply_patterns}
use go_library.Logger.State.{Logger, Lifecycle, World, sink, context_handler, redact_handler, json}
use go_library.Logger.Context.{background, request_id, request_id_value}
use go_library.Logger.Lifecycle.{finish}
use go_library.Logger.Lifecycle.Growth.{Grows}
use go_library.Logger.Lifecycle.Timing.{AllTimed}
use go_library.Oauth.Client.{Sys}
use go_library.Oauth.Client.Methods.{token, refresh}
use go_library.Oauth.Setup.{Client}
use go_library.Secrets
use go_library.Secrets.{Source, found, missing, secret_json}
use go_library.Logger.Lifecycle.Correlation.{Written}
use go_library.System.Correlation.{calls-Written}
use go_library.Etl.{start_job}
use go_library.Events.{consume_start}
use go_library.System.{Runs, Runs-Grows, Runs-AllTimed, finish-Runs_once}
use go_library.Tests.Data.{run_time, run_time-IsMonotonic, boot, orders, orders_redactor}
use go_library.Tests.PlainCodec.{plain}
use go_library.Tests.OauthRuns.{store, endpoint, cfg, client_of}
use go_library.Tests.EventsRuns.{order_placed}

abbrev console : Logger
console = record { handler = sink json 0 []; level = 0; cfg = orders }

abbrev trace : Lifecycle
trace = record {
  name = "GET /orders";
  start = 5;
  log = console;
  last_stage = 5;
  stage_list = [];
  ended = false;
}

-- A request is under way.
abbrev running : World
running = record boot { clock_reads = 1; lifecycles = trace ∷ [] }

-- A job starts, a message comes, and a client asks for a token.
abbrev busy : World → World
busy w =
    (consume_start run_time console background order_placed
      (start_job run_time console background "nightly" [] w).1).1

abbrev asking : World → Sys store endpoint
asking w = record { world = busy w; store = []; server = 0; sent = [] }

abbrev asked : World → World
asked w = (token run_time plain store endpoint (client_of cfg) background (asking w)).1.world

runs : (w : World) → Runs run_time w (asked w)
runs w =
    Runs.tokens plain store endpoint (asking w)
      (Runs.consumes (Runs.starts_job Runs.begun console background "nightly" []) console background
        order_placed)
      (client_of cfg) background

Runs-Grows_example : Grows running (asked running)
Runs-Grows_example = Runs-Grows run_time (runs running)

Runs-AllTimed_example : AllTimed run_time run_time-IsMonotonic (asked boot)
Runs-AllTimed_example = Runs-AllTimed run_time run_time-IsMonotonic (runs boot) tt

finish-Runs_once_example :
    let v = asked (finish run_time (some 0) background [] running).1 in
    finish run_time (some 0) background [] v ≡ (tt, v)
finish-Runs_once_example =
    finish-Runs_once run_time 0 trace background background [] [] running refl refl
      (runs (finish run_time (some 0) background [] running).1)

-- A client and a loader whose logger is as `New` makes it, with a redactor, under a context with a request id.
abbrev correlating : Logger
correlating = record {
  handler = context_handler (redact_handler orders_redactor (sink json 0 []));
  level = 0;
  cfg = orders;
}

abbrev here_client : Client
here_client = record { cfg = cfg; base = correlating }

-- A source with nothing in it.
abbrev nothing : Source
nothing = record {
  State = Unit {0};
  secret = λ name st. (missing "no secret", st);
  parameter = λ name st. (missing "no parameter", st);
  parameters_by_path = λ path st. (found [], st);
}

abbrev asking_here : Sys store endpoint
asking_here = record { world = boot; store = []; server = 0; sent = [] }

abbrev loading : Secrets.Sys nothing
loading = record { world = boot; state = tt }

calls-Written_example :
    let ctx = request_id_value "abc" background in
    Written run_time "abc" boot
      (token run_time plain store endpoint here_client ctx asking_here).1.world
    × Written run_time "abc" boot
        (refresh run_time plain store endpoint here_client ctx asking_here).1.world
    × Written run_time "abc" boot
        (Secrets.secret run_time correlating nothing ctx "db" loading).1.world
    × Written run_time "abc" boot
        (Secrets.parameter run_time correlating nothing ctx "db" loading).1.world
    × Written run_time "abc" boot
        (Secrets.parameters_by_path run_time correlating nothing ctx "db" loading).1.world
    × Written run_time "abc" boot
        (secret_json run_time plain correlating nothing ctx "db" loading).1.world
unfolding request_id match scrub apply_patterns to_lower
calls-Written_example =
    calls-Written run_time (request_id_value "abc" background) boot plain here_client store endpoint
      asking_here correlating nothing "db" loading (λ e. cc e) tt (refl, refl, tt) (refl, refl, tt)
      refl refl
