-- ===== src/Tests/EventsRuns.antt =====
-- events/logger.go: the theorems at concrete data.
use go_library.Prelude.{◌≡◌, refl, some, none, [], ◌∷◌, ◌++◌, pos, ◌<>◌, lookup}
use go_library.GoText.{to_lower}
use go_library.Logger.Redact.{match, scrub, apply_patterns}
use go_library.GoTime.{zero_time}
use go_library.Logger.Value.{text}
use go_library.Logger.State.{Logger, World, sink, context_handler, redact_handler, json}
use go_library.Logger.Context.{Context, background, request_id_value, request_id}
use go_library.Logger.Handler.{enabled, log}
use go_library.Logger.Lifecycle.{start_request}
use go_library.Logger.Lifecycle.Correlation.{Written, Written-none}
use go_library.Events.Correlation.{consumed-Written}
use go_library.Logger.Lifecycle.Interleaving.{Steps}
use go_library.Logger.Lifecycle.Ending.{Completed}
use go_library.Events.{Message, consume_start, done, outgoing_headers}
use go_library.Events.Tracing.{done_once, reported}
use go_library.Tests.Data.{run_time, boot, orders, orders_redactor}

abbrev console : Logger
console = record { handler = sink json 0 []; level = 0; cfg = orders }

abbrev producer : Context
producer = request_id_value "abc" background

abbrev pub order_placed : Message
order_placed = record {
  topic = "orders";
  partition = pos 3;
  offset = pos 17;
  key = "o-1";
  consumer_group = "";
  headers = ("x-request-id", "abc") ∷ [];
  timestamp = zero_time;
}

done_once_example :
    let ((ctx', c), u) = consume_start run_time console background order_placed boot in
    Completed run_time console
      ("consume " <> "orders")
      c.lc
      ctx'
      (c.attrs ++ ("kafka.result", text "error") ∷ [])
      (reported run_time console c (some "timeout") u)
      (done run_time c (some "timeout") u).1
    × ((v : World)
        → Steps run_time (done run_time c (some "timeout") u).1 v
        → done run_time c none v ≡ (tt, v))
unfolding consume_start enabled log start_request request_id lookup
done_once_example = done_once run_time console background order_placed boot (some "timeout") refl

-- A logger as `New` makes one, with a redactor.
abbrev correlating : Logger
correlating = record {
  handler = context_handler (redact_handler orders_redactor (sink json 0 []));
  level = 0;
  cfg = orders;
}

-- The processing of the message does not log.
consumed-Written_example :
    let ((ctx', c), u) = consume_start run_time correlating background order_placed boot in
    (request_id ctx' ≡ "abc") × Written run_time "abc" boot (done run_time c (some "timeout") u).1
unfolding lookup outgoing_headers request_id consume_start start_request log match scrub
    apply_patterns to_lower
consumed-Written_example =
    let ((ctx', c), u) = consume_start run_time correlating background order_placed boot in
    consumed-Written run_time correlating producer background order_placed (refl, refl, tt) refl
      (λ e. cc e) boot tt (some "timeout") u
      (Written-none run_time "abc" u u refl ((refl, refl, tt), tt))
