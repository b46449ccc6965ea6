-- ===== src/Tests/RestRuns.antt =====
-- rest/middleware.go: the theorems at concrete data.
use go_library.Prelude.{ℕ, pos, ◌+◌, ◌≤◌, ◌≡◌, ◌≢◌, refl, ◌<>◌, none, List, [], ◌∷◌, length, arith}
use go_library.Logger.Value.{str}
use go_library.Logger.Level.{level_info}
use go_library.Logger.State.{Logger, World, sink, json}
use go_library.Logger.Context.{Context, background, request_id}
use go_library.Logger.Handler.{enabled}
use go_library.Logger.Lifecycle.{start_request}
use go_library.Logger.Lifecycle.Ending.{Completed}
use go_library.Rest.{
  Setting, with_skip_paths, skips, any_of, Request, HttpWriter, Program, returns, panics,
  set_header, write_header, write, logs, Http, Recorder, fresh, recording, run, returned,
  begin_request, serve, end_attrs, request_id_header,
}
use go_library.Rest.Recording.{
  calls, status_of, IsSettled, informational, total, any_call, recording_lem,
}
use go_library.Rest.Serving.{answer_status, answer_calls, serve-Completed}
use go_library.Logger.Lifecycle.Correlation.{AddsId, Written}
use go_library.GoText.{to_lower}
use go_library.Logger.Redact.{new_redactor, match, scrub, apply_patterns}
use go_library.Logger.Setup.{new, all_patterns}
use go_library.Logger.Setup.Redaction.{Derived}
use go_library.Logger.Setup.Correlation.{Derived-AddsId}
use go_library.Rest.Correlation.{serve-Written}
use go_library.Tests.Data.{run_time, boot, orders}

abbrev console : Logger
console = record { handler = sink json 0 []; level = 0; cfg = orders }

-- A writer that counts the bytes of the body.
abbrev counter : HttpWriter
counter = record {
  State = ℕ;
  set_header = λ k v st. st;
  write_header = λ status st. (none, st);
  write = λ b st. ((length b, none), st + length b);
}

-- The error reply of net/http.
abbrev net_http : Http
net_http = record {
  internal_error =
      set_header "Content-Type" "text/plain; charset=utf-8"
        (write_header (pos 500) (write (73 ∷ 10 ∷ []) (λ r. returns)));
  stack = λ n. "goroutine 1";
}

-- A handler that creates something, and fails on the way.
abbrev create : Program
create =
    logs console level_info background "creating" []
      (write_header (pos 201) (write (123 ∷ 125 ∷ []) (λ r. panics (str "nil map"))))

abbrev order_request : Request
order_request = record {
  method = "POST";
  path = "/orders";
  raw_query = "";
  user_agent = "curl";
  remote_addr = "10.0.0.9";
  header = λ name. "abc";
}

abbrev health : List Setting
health = with_skip_paths ("/healthz" ∷ []) ∷ []

recording_lem_example :
    let (out, ((rc, st'), u')) = run run_time (recording counter) create ((fresh, 0), boot) in
    ((out, (st', u')) ≡ run run_time counter create (0, boot))
    × (rc.status ≡ status_of (calls counter create 0))
    × (rc.bytes ≡ pos (total (calls counter create 0)))
    × (rc.wrote_header ≡ any_call (calls counter create 0))
unfolding calls total informational
recording_lem_example = recording_lem run_time counter create 0 boot (omega arith) refl

serve-Completed_example :
    let next = λ (r : Request) (ctx : Context). create in
    let ((ctx2, (p, start)), s1) =
      begin_request run_time net_http console counter background order_request (0, boot) in
    let (out, s2) = run run_time counter create s1 in
    let cs = calls counter create s1.0 in
    let (o, s3) =
      serve run_time net_http console health counter next background order_request (0, boot) in
    (rc : Recorder) × (ms : ℕ) × (v : World) × (o ≡ returned)
    × (IsSettled cs → rc.status ≡ answer_status out cs)
    × (total (answer_calls run_time net_http console counter out cs s2.0) ≤ 9223372036854775807
        → rc.bytes ≡ pos (total (answer_calls run_time net_http console counter out cs s2.0)))
    × Completed run_time console
        ("POST" <> (" " <> "/orders"))
        p
        ctx2
        (end_attrs run_time net_http console order_request rc ms)
        v
        s3.1
unfolding skips any_of enabled
serve-Completed_example =
    serve-Completed run_time net_http console counter (refl, λ r. tt) (λ st. refl) health
      (λ r ctx. create) background order_request (0, boot) refl refl

-- A logger that `New` made.
abbrev correlating : Logger
correlating = (new run_time orders boot).0

correlating-AddsId : AddsId run_time "abc" correlating.handler
unfolding new_redactor all_patterns match scrub apply_patterns to_lower
correlating-AddsId = Derived-AddsId run_time "abc" {cfg = orders} (refl, refl) (Derived.made boot)

-- A handler that logs under the context of the request, and fails on the way.
abbrev create_logged : Request → Context → Program
create_logged r ctx =
    logs correlating level_info ctx "creating" []
      (write_header (pos 201) (write (123 ∷ 125 ∷ []) (λ n. panics (str "nil map"))))

serve-Written_example :
    let ((ctx2, more), (st1, u1)) =
      begin_request run_time net_http correlating counter background order_request (0, boot) in
    (request_id ctx2 ≢ "")
    × (order_request.header request_id_header ≢ ""
        → request_id ctx2 ≡ order_request.header request_id_header)
    × (order_request.header request_id_header ≡ ""
        → request_id background ≢ ""
        → request_id ctx2 ≡ request_id background)
    × (st1 ≡ counter.set_header request_id_header (request_id ctx2) 0)
    × Written run_time
        (request_id ctx2)
        boot
        (serve run_time net_http correlating health counter create_logged background order_request
          (0, boot)).1.1
unfolding skips any_of request_id begin_request start_request
serve-Written_example =
    serve-Written run_time net_http correlating counter background order_request (0, boot)
      correlating-AddsId tt (refl, λ r. tt) create_logged
      (λ ctx e. (correlating-AddsId, e, λ n. tt)) health refl
