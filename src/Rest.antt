-- ===== src/Rest.antt =====
-- rest/middleware.go: the middleware for HTTP requests, over the context, the log and the lifecycle of
-- the logger package. net/http is a parameter, and so is the handler that is served.
pub mod Recording
pub mod Running
pub mod Identity
pub mod Correlation
pub mod Serving
use go_library.Prelude.{
  ℕ, ℤ, pos, String, ◌<>◌, Bool, true, false, Option, none, some, List, [], ◌∷◌, ◌==◌, string_eq,
  if◌then◌else◌,
}
use go_library.Runtime.{Runtime}
use go_library.Logger.Value.{Any, Attr, text, scalar, any, int, millis}
use go_library.Logger.Level.{Level}
use go_library.Logger.State.{Logger, World, now}
use go_library.Logger.Context.{Context, with_request_id, ensure_request_id}
use go_library.Logger.Handler.{log, error}
use go_library.Logger.Lifecycle.{start_request, stage, finish, dur_ms}
use go_library.Oauth.Codec.{Bytes}
use go_library.Etl.{add_int64}

-- `RequestIDHeader`
abbrev pub request_id_header : String
request_id_header = "X-Request-ID"

-- `Option`, which is `WithSkipPaths` at its paths, and the paths that the options collect.
pub data Setting : Type 0 where
  with_skip_paths : List String → Setting

unfoldable pub any_of : String → List String → Bool
any_of path [] = false
any_of path (p ∷ ps) = if p == path then true else any_of path ps

unfoldable pub skips : List Setting → String → Bool
unfolding any_of
skips [] path = false
skips (with_skip_paths paths ∷ settings) path =
    if any_of path paths then true else skips settings path

-- What the middleware reads of an `http.Request`; `header` is `Header.Get`.
pub record Request : Type 0 where
  pub method : String
  pub path : String
  pub raw_query : String
  pub user_agent : String
  pub remote_addr : String
  pub header : String → String

-- `http.ResponseWriter`. `WriteHeader` panics for a code that is no status; `Write` gives the number
-- of bytes written, and the text of an error.
pub record HttpWriter : Type 1 where
  pub State : Type 0
  pub set_header : String → String → State → State
  pub write_header : ℤ → State → Option Any × State
  pub write : Bytes → State → (ℕ × Option String) × State

-- What a handler does, up to its return or its panic: it uses the writer, and writes to logs and to
-- traces, which it does not end. With no loop in it, it comes to its end.
pub data Program : Type 0 where
  returns : Program
  panics : Any → Program
  set_header : String → String → Program → Program
  write_header : ℤ → Program → Program
  write : Bytes → (ℕ × Option String → Program) → Program
  logs : Logger → Level → Context → String → List Attr → Program → Program
  stages : Option ℕ → Context → String → List Attr → Program → Program

pub data Outcome : Type 0 where
  returned : Outcome
  panicked : Any → Outcome

-- `http.Error` at the text and the code of status 500, which works on a writer, and the text of
-- `debug.Stack` at each reading of the clock.
pub record Http : Type 0 where
  pub internal_error : Program
  pub stack : ℕ → String

-- The fields of `responseWriter`.
pub record Recorder : Type 0 where
  pub status : ℤ
  pub bytes : ℤ
  pub wrote_header : Bool

abbrev pub fresh : Recorder
fresh = record { status = pos 200; bytes = pos 0; wrote_header = false }

-- What `WriteHeader` and `Write` record; `int` has 64 bits.
unfoldable pub record_header : ℤ → Recorder → Recorder
record_header status rc =
    if rc.wrote_header then rc else record rc { status = status; wrote_header = true }

unfoldable pub record_write : ℕ → Recorder → Recorder
unfolding add_int64
record_write n rc = record rc { wrote_header = true; bytes = add_int64 rc.bytes (pos n) }

-- `responseWriter` as a writer.
abbrev pub recording : HttpWriter → HttpWriter
recording w = record {
  State = Recorder × w.State;
  set_header = λ k v s. (s.0, w.set_header k v s.1);
  write_header = λ status s.
      let rc = record_header status s.0 in let (p, st) = w.write_header status s.1 in (p, (rc, st));
  write = λ b s. let (r, st) = w.write b s.1 in (r, (record_write r.0 s.0, st));
}

module _ (rt : Runtime) where
  -- A program over a writer.
  unfoldable pub run : (w : HttpWriter) → Program → w.State × World → Outcome × (w.State × World)
  run w returns s = (returned, s)
  run w (panics v) s = (panicked v, s)
  run w (set_header k v p) s = run w p (w.set_header k v s.0, s.1)
  run w (write_header status p) s =
      let (r, st) = w.write_header status s.0 in
      elim r [ some v ↦ (panicked v, (st, s.1)) | none ↦ run w p (st, s.1) ]
  run w (write b k) s = let (r, st) = w.write b s.0 in run w (k r) (st, s.1)
  run w (logs l level ctx msg attrs p) s = run w p (s.0, (log rt l level ctx msg attrs s.1).1)
  run w (stages q ctx name attrs p) s = run w p (s.0, (stage rt q ctx name attrs s.1).1)

  module _ (http : Http) (l : Logger) where
    -- The state while a request is served.
    abbrev pub Serving : HttpWriter → Type 0
    Serving w = (Recorder × w.State) × World

    abbrev pub request_attrs : Request → List Attr
    request_attrs r = ("http.method", text r.method) ∷ ("http.path", text r.path) ∷ []

    abbrev pub end_attrs : Request → Recorder → ℕ → List Attr
    end_attrs r rc ms =
        ("http.method", text r.method)
        ∷ ("http.path", text r.path)
        ∷ ("http.query", text r.raw_query)
        ∷ ("http.status", scalar (int rc.status))
        ∷ ("http.responseBytes", scalar (int rc.bytes))
        ∷ ("http.durationMs", scalar (millis ms))
        ∷ ("http.userAgent", text r.user_agent)
        ∷ ("http.remoteAddr", text r.remote_addr)
        ∷ []

    -- What a deferred function does after a panic that it recovers.
    unfoldable pub recovered :
        (w : HttpWriter) → Request → Context → Any → Serving w → Outcome × Serving w
    unfolding run
    recovered w r ctx v ((rc, st), u) =
        let u' =
          (error rt l ctx "panic recovered"
            (("panic", any v) ∷ ("stack", text (http.stack u.clock_reads)) ∷ request_attrs r)
            u).1 in
        elim rc.wrote_header [
          | true ↦ (returned, ((rc, st), u'))
          | false ↦ run (recording w) http.internal_error ((rc, st), u')
        ]

    unfoldable pub recover_outcome :
        (w : HttpWriter) → Request → Context → Outcome → Serving w → Outcome × Serving w
    unfolding recovered
    recover_outcome w r ctx returned s = (returned, s)
    recover_outcome w r ctx (panicked v) s = recovered w r ctx v s

    -- The end of the trace, which a panic inside the deferred function does not reach.
    unfoldable pub end_request :
        (w : HttpWriter)
        → Request
        → Context
        → ℕ
        → ℕ
        → Outcome × Serving w
        → Outcome × (w.State × World)
    unfolding dur_ms
    end_request w r ctx p start (panicked v, ((rc, st), u)) = (panicked v, (st, u))
    end_request w r ctx p start (returned, ((rc, st), u)) =
        let (t, u') = now rt u in
        (returned, (st, (finish rt (some p) ctx (end_attrs r rc (dur_ms start t)) u').1))

    -- The context of a request with the id of its header, if that is not empty.
    unfoldable pub inbound : Context → Request → Context
    inbound ctx r =
        if r.header request_id_header == ""
        then ctx
        else with_request_id ctx (r.header request_id_header)

    -- What the middleware does before it serves the request: the context of the handler, the index of
    -- the trace, and the time of the start.
    unfoldable pub begin_request :
        (w : HttpWriter)
        → Context
        → Request
        → w.State × World
        → (Context × (ℕ × ℕ)) × (w.State × World)
    unfolding inbound
    begin_request w ctx r (st, u) =
        let ((ctx1, id), u1) = ensure_request_id rt (inbound ctx r) u in
        let st1 = w.set_header request_id_header id st in
        let ((ctx2, p), u2) =
          start_request rt l ctx1 (r.method <> (" " <> r.path)) (request_attrs r) u1 in
        let (start, u3) = now rt u2 in ((ctx2, (p, start)), (st1, u3))

    unfoldable pub serve_logged :
        (w : HttpWriter)
        → (Request → Context → Program)
        → Context
        → Request
        → w.State × World
        → Outcome × (w.State × World)
    unfolding begin_request recover_outcome end_request
    serve_logged w next ctx r s =
        let ((ctx2, (p, start)), (st1, u3)) = begin_request w ctx r s in
        let (out, s') = run (recording w) (next r ctx2) ((fresh, st1), u3) in
        end_request w r ctx2 p start (recover_outcome w r ctx2 out s')

    -- `Middleware`
    unfoldable pub serve :
        List Setting
        → (w : HttpWriter) → (Request → Context → Program)
        → Context
        → Request
        → w.State × World
        → Outcome × (w.State × World)
    unfolding skips serve_logged
    serve settings w next ctx r s = elim (skips settings r.path) [
      | true ↦ run w (next r ctx) s
      | false ↦ serve_logged w next ctx r s
    ]
