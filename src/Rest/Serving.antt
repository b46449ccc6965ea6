-- ===== src/Rest/Serving.antt =====
-- rest/middleware.go: every request that is not skipped is answered, traced to its end, and known by one
-- request id.
use go_library.Prelude.{
  ℕ, ℤ, pos, ◌≤◌, ◌≡◌, refl, sym, ap, ◌∙◌, String, ◌<>◌, true, false, List, [], ◌∷◌, string_eq,
}
use mathlib.Core.Path.{subst}
use go_library.Runtime.{Runtime}
use go_library.Logger.Level.{level_info}
use go_library.Logger.State.{Logger, World, now}
use go_library.Logger.Context.{Context}
use go_library.Logger.Handler.{enabled}
use go_library.Logger.Handler.Effects.{log-Frame, enabled_congr}
use go_library.Logger.Lifecycle.{dur_ms}
use go_library.Logger.Lifecycle.Opening.{
  IsOpen, ensure_request_id-levels, start_request-IsOpen, start_request-levels, moved, log-IsOpen,
}
use go_library.Logger.Lifecycle.Ending.{Completed, finish-Completed}
use go_library.Rest.{
  Setting, skips, Request, HttpWriter, Program, Outcome, returned, panicked, Http, Recorder, fresh,
  recording, run, Serving, end_attrs, recovered, recover_outcome, end_request, inbound,
  begin_request, serve_logged, serve,
}
use go_library.Rest.Recording.{
  Call, calls, status_of, IsSettled, total, absorb, status-absorb, bytes-absorb,
  wrote_header-absorb, run-recording,
}
use go_library.Rest.Running.{IsErrorReply, AcceptsError, run-levels, run-IsOpen, reply_returns}

-- The status of the answer by the way in which a handler ended and the calls that it made: the error
-- reply after a panic without a call.
abbrev pub answer_status : Outcome → List Call → ℤ
answer_status returned cs = status_of cs
answer_status (panicked v) [] = pos 500
answer_status (panicked v) (c ∷ cs) = status_of (c ∷ cs)

module _ (rt : Runtime) (http : Http) (l : Logger) where
  -- The calls of the answer: those of the handler, or of the error reply after a panic without a call.
  abbrev pub answer_calls : (w : HttpWriter) → Outcome → List Call → w.State → List Call
  answer_calls w returned cs st = cs
  answer_calls w (panicked v) [] st = calls w http.internal_error st
  answer_calls w (panicked v) (c ∷ cs) st = c ∷ cs

  module _ (w : HttpWriter) (reply : IsErrorReply http.internal_error)
      (accepts : AcceptsError w) where
    -- What the deferred function has before it ends the trace.
    record Settled (out : Outcome) (cs : List Call) (st : w.State) (u : World)
        (a : Outcome × Serving rt http l w) : Type 0 where
      pub ends : a.0 ≡ returned
      pub recorded : a.1.0.0 ≡ absorb fresh (answer_calls w out cs st)
      pub settles : IsSettled cs → IsSettled (answer_calls w out cs st)
      pub status : status_of (answer_calls w out cs st) ≡ answer_status out cs
      pub levels : a.1.1.levels ≡ u.levels
      pub keeps_open : (name : String) (p : ℕ) → IsOpen l name p u → IsOpen l name p a.1.1

    settled :
        (r : Request) (ctx : Context) (out : Outcome) (cs : List Call) (st : w.State) (u : World)
        → Settled out cs st u (recover_outcome rt http l w r ctx out ((absorb fresh cs, st), u))
    unfolding recover_outcome recovered absorb
    settled r ctx returned cs st u = record {
      ends = refl;
      recorded = refl;
      settles = λ h. h;
      status = refl;
      levels = refl;
      keeps_open = λ name p o. o;
    }
    settled r ctx (panicked v) [] st u =
        let u' =
          (recovered rt http l w r ctx v ((record fresh { wrote_header = true }, st), u)).1.1 in
        let e = run-recording rt w http.internal_error fresh st u' in
        record {
          ends = ap (λ a. a.0) e ∙ (reply_returns rt w http.internal_error st u' accepts reply).0;
          recorded = ap (λ a. a.1.0.0) e;
          settles = λ h. (reply_returns rt w http.internal_error st u' accepts reply).1;
          status = (reply_returns rt w http.internal_error st u' accepts reply).2;
          levels =
              run-levels rt (recording w) http.internal_error (fresh, st) u'
              ∙ (log-Frame rt _ _ _ _ _ _).levels;
          keeps_open = λ name p o.
              run-IsOpen rt (recording w) http.internal_error (fresh, st) u'
                (log-IsOpen rt _ _ _ _ _ o);
        }
    settled r ctx (panicked v) (c ∷ cs) st u =
        let u' =
          (recovered rt http l w r ctx v ((record fresh { wrote_header = true }, st), u)).1.1 in
        let x = absorb fresh (c ∷ cs) in
        let wrote =
          ap (λ b. record { status = x.status; bytes = x.bytes; wrote_header = b })
            (wrote_header-absorb (c ∷ cs)) in
        let kept : recovered rt http l w r ctx v ((x, st), u) ≡ (returned, ((x, st), u')) =
          ap (λ rc. recovered rt http l w r ctx v ((rc, st), u)) wrote
          ∙ ap (λ rc. (returned, ((rc, st), u'))) (sym wrote) in
        record {
          ends = ap (λ a. a.0) kept;
          recorded = ap (λ a. a.1.0.0) kept;
          settles = λ h. h;
          status = refl;
          levels = ap (λ a. a.1.1.levels) kept ∙ (log-Frame rt _ _ _ _ _ _).levels;
          keeps_open =
              λ name p o. subst (λ a. IsOpen l name p a.1.1) (sym kept) (log-IsOpen rt _ _ _ _ _ o);
        }

    end_request-Completed :
        (r : Request) (ctx : Context) (name : String) (p start : ℕ)
        (a : Outcome × Serving rt http l w)
        → a.0 ≡ returned
        → enabled rt l.handler a.1.1 level_info ≡ true
        → IsOpen l name p a.1.1
        → let b = end_request rt http l w r ctx p start a in
          (b.0 ≡ returned)
          × Completed rt l name p ctx
              (end_attrs rt http l r a.1.0.0 (dur_ms start (now rt a.1.1).0))
              (now rt a.1.1).1
              b.1.1
    unfolding end_request now
    end_request-Completed r ctx name p start (panicked v, s) h on o = cc h
    end_request-Completed r ctx name p start (returned, ((rc, st), u)) h on o = (
      refl,
      finish-Completed rt l name p ctx _ _ (enabled_congr rt l.handler u _ level_info refl ∙ on)
          (moved rt refl o),
    )

    -- For a writer that takes 500 for a status, with `http.Error` as it is documented, and at a logger with
    -- the info level enabled when the request comes in: whatever a handler does at a request that is not
    -- skipped, of what a `Program` can do, and whether it returns or panics, the middleware returns,
    -- and it ends the trace of the request with one completion. If the first call of the handler of
    -- `Write` or `WriteHeader`, if there is one, is none of `WriteHeader` at an informational code or at
    -- one for which the writer panics, then the completion has the status of the answer: the first that
    -- the handler gives it, 200 if it returns without one, and 500 if it panics without a call. It has the
    -- bytes that the calls of `Write` wrote, those of the error reply included, if they are less than
    -- 2^63 in all.
    pub serve-Completed :
        (settings : List Setting) (next : Request → Context → Program) (ctx : Context) (r : Request)
        (s : w.State × World)
        → skips settings r.path ≡ false
        → enabled rt l.handler s.1 level_info ≡ true
        → let ((ctx2, (p, start)), s1) = begin_request rt http l w ctx r s in
          let (out, s2) = run rt w (next r ctx2) s1 in
          let cs = calls w (next r ctx2) s1.0 in
          let (o, s3) = serve rt http l settings w next ctx r s in
          (rc : Recorder) × (ms : ℕ) × (v : World) × (o ≡ returned)
          × (IsSettled cs → rc.status ≡ answer_status out cs)
          × (total (answer_calls w out cs s2.0) ≤ 9223372036854775807
              → rc.bytes ≡ pos (total (answer_calls w out cs s2.0)))
          × Completed rt l (r.method <> (" " <> r.path)) p ctx2 (end_attrs rt http l r rc ms) v s3.1
    unfolding serve serve_logged begin_request now
    serve-Completed settings next ctx r s skip on =
        let ((ctx2, (p, start)), s1) = begin_request rt http l w ctx r s in
        let (out, s2) = run rt w (next r ctx2) s1 in
        let cs = calls w (next r ctx2) s1.0 in
        let name = r.method <> (" " <> r.path) in
        let a = recover_outcome rt http l w r ctx2 out ((absorb fresh cs, s2.0), s2.1) in
        let done = settled r ctx2 out cs s2.0 s2.1 in
        let e : serve rt http l settings w next ctx r s ≡ end_request rt http l w r ctx2 p start a =
          rw (serve, skip)
            (ap
              (λ b.
                end_request rt http l w r ctx2 p start (recover_outcome rt http l w r ctx2 b.0 b.1))
              (run-recording rt w (next r ctx2) fresh s1.0 s1.1)) in
        let levels =
          done.levels
          ∙ run-levels rt w (next r ctx2) s1.0 s1.1
          ∙ start_request-levels rt l _ _ _ _
          ∙ ensure_request_id-levels rt (inbound rt http l ctx r) s.1 in
        let open_ = done.keeps_open name p (
          run-IsOpen rt w (next r ctx2) s1.0 s1.1
            (moved rt refl (start_request-IsOpen rt l _ _ _ _))) in
        let (ret, completed) =
          end_request-Completed r ctx2 name p start a done.ends
            (enabled_congr rt l.handler s.1 a.1.1 level_info levels ∙ on) open_ in
        (
          a.1.0.0,
          dur_ms start (now rt a.1.1).0,
          (now rt a.1.1).1,
          ap (λ b. b.0) e ∙ ret,
          λ h. ap (λ rc. rc.status) done.recorded ∙ status-absorb _ (done.settles h) ∙ done.status,
          λ h. ap (λ rc. rc.bytes) done.recorded ∙ bytes-absorb _ h,
          subst
              (λ b.
                Completed rt l name p ctx2
                  (end_attrs rt http l r a.1.0.0 (dur_ms start (now rt a.1.1).0)) (now rt a.1.1).1
                  b.1.1)
              (sym e) completed,
        )
