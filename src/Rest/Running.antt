-- ===== src/Rest/Running.antt =====
-- rest/middleware.go: what a handler leaves of the state while it runs, and what `http.Error` answers.
use go_library.Prelude.{
  ℕ, pos, ◌≡◌, refl, ap, ◌∙◌, String, Option-cases, inl, inr, Option, none, string_eq,
}
use go_library.Runtime.{Runtime}
use go_library.Logger.State.{Logger, World}
use go_library.Logger.Handler.{log}
use go_library.Logger.Handler.Effects.{log-Frame}
use go_library.Logger.Lifecycle.{stage}
use go_library.Logger.Lifecycle.Opening.{IsOpen, log-IsOpen, stage-levels, stage-IsOpen}
use go_library.Rest.{
  HttpWriter, Program, returns, panics, set_header, write_header, write, logs, stages, returned,
  run,
}
use go_library.Rest.Recording.{calls, status_of, IsSettled, informational}

-- A program that only writes to the body, and one that answers 500: headers, then the status, then a
-- body. `http.Error` is documented to do this.
abbrev pub IsBody : Program → Type 0
IsBody returns = Unit {0}
IsBody (write b k) = (r : ℕ × Option String) → IsBody (k r)
IsBody _ = ⊥

abbrev pub IsErrorReply : Program → Type 0
IsErrorReply (set_header k v p) = IsErrorReply p
IsErrorReply (write_header status p) = (status ≡ pos 500) × IsBody p
IsErrorReply _ = ⊥

-- A writer that takes 500 for a status, as net/http does.
abbrev pub AcceptsError : HttpWriter → Type 0
AcceptsError w = (st : w.State) → (w.write_header (pos 500) st).0 ≡ none

module _ (rt : Runtime) where
  module _ (w : HttpWriter) where
    pub run-levels :
        (p : Program) (st : w.State) (u : World) → (run rt w p (st, u)).1.1.levels ≡ u.levels
    unfolding run
    run-levels returns st u = refl
    run-levels (panics v) st u = refl
    run-levels (set_header k v p) st u = run-levels p (w.set_header k v st) u
    run-levels (write_header status p) st u = elim (Option-cases (w.write_header status st).0) [
      | inl e ↦ rw (run, e) (run-levels p (w.write_header status st).1 u)
      | inr (v, e) ↦ rw (run, e) refl
    ]
    run-levels (write b k) st u = let (r, st') = w.write b st in run-levels (k r) st' u
    run-levels (logs l level ctx msg attrs p) st u =
        run-levels p st (log rt l level ctx msg attrs u).1
        ∙ (log-Frame rt l level ctx msg attrs u).levels
    run-levels (stages q ctx name attrs p) st u =
        run-levels p st (stage rt q ctx name attrs u).1 ∙ stage-levels rt q ctx name attrs u

    pub run-IsOpen :
        (p : Program) (st : w.State) (u : World) {l : Logger} {name : String} {q : ℕ}
        → IsOpen l name q u
        → IsOpen l name q (run rt w p (st, u)).1.1
    unfolding run
    run-IsOpen returns st u o = o
    run-IsOpen (panics v) st u o = o
    run-IsOpen (set_header k v p) st u o = run-IsOpen p (w.set_header k v st) u o
    run-IsOpen (write_header status p) st u o = elim (Option-cases (w.write_header status st).0) [
      | inl e ↦ rw (run, e) (run-IsOpen p (w.write_header status st).1 u o)
      | inr (v, e) ↦ rw (run, e) o
    ]
    run-IsOpen (write b k) st u o = let (r, st') = w.write b st in run-IsOpen (k r) st' u o
    run-IsOpen (logs l level ctx msg attrs p) st u o =
        run-IsOpen p st (log rt l level ctx msg attrs u).1 (log-IsOpen rt l level ctx msg attrs o)
    run-IsOpen (stages q ctx name attrs p) st u o =
        run-IsOpen p st (stage rt q ctx name attrs u).1 (stage-IsOpen rt q ctx name attrs o)

    body_returns :
        (p : Program) (st : w.State) (u : World) → IsBody p → (run rt w p (st, u)).0 ≡ returned
    unfolding run
    body_returns returns st u h = refl
    body_returns (write b k) st u h = let (r, st') = w.write b st in body_returns (k r) st' u (h r)
    body_returns (panics v) st u h = absurd h
    body_returns (set_header k v p) st u h = absurd h
    body_returns (write_header status p) st u h = absurd h
    body_returns (logs l level ctx msg attrs p) st u h = absurd h
    body_returns (stages q ctx name attrs p) st u h = absurd h

    -- An error reply returns, and its first call is the status 500, which settles the answer.
    pub reply_returns :
        (p : Program) (st : w.State) (u : World)
        → AcceptsError w
        → IsErrorReply p
        → ((run rt w p (st, u)).0 ≡ returned)
          × IsSettled (calls w p st)
          × (status_of (calls w p st) ≡ pos 500)
    unfolding run calls status_of informational
    reply_returns (set_header k v p) st u a h = reply_returns p (w.set_header k v st) u a h
    reply_returns (write_header status p) st u a (e, h) =
        let ok = ap (λ c. (w.write_header c st).0) e ∙ a st in
        (
          rw (run, ok) (body_returns p (w.write_header status st).1 u h),
          rw (calls, ok, e) refl,
          rw (calls, ok, e) refl,
        )
    reply_returns returns st u a h = absurd h
    reply_returns (panics v) st u a h = absurd h
    reply_returns (write b k) st u a h = absurd h
    reply_returns (logs l level ctx msg attrs p) st u a h = absurd h
    reply_returns (stages q ctx name attrs p) st u a h = absurd h
