-- ===== src/Rest/Recording.antt =====
-- rest/middleware.go: what `responseWriter` sees of a handler, and that it stays out of its way.
use go_library.Prelude.{
  ℕ, ℤ, pos, negsuc, ◌+◌, ◌≤◌, ◌≡◌, refl, ap, ◌∙◌, Bool, true, false, Option-cases, inl, inr, none,
  some, List, [], ◌∷◌, arith, ◌+ℤ◌, leb, ◌&&◌, ◌||◌, if◌then◌else◌,
}
use go_library.Runtime.{Runtime}
use go_library.Logger.State.{World}
use go_library.Logger.Lifecycle.{stage}
use go_library.Logger.Handler.{log}
use go_library.Etl.{add_int64}
use go_library.Etl.Counting.{add_int64_exact}
use go_library.Rest.{
  HttpWriter, Program, returns, panics, set_header, write_header, write, logs, stages, Recorder,
  fresh, record_header, record_write, recording, run,
}

-- The calls that may give the answer its status and its length: `WriteHeader` at a code that the writer
-- takes, or at one for which it panics, and `Write` with the number of bytes that it wrote.
pub data Call : Type 0 where
  header : ℤ → Call
  refused : ℤ → Call
  body : ℕ → Call

-- The calls that a program makes of a writer.
unfoldable pub calls : (w : HttpWriter) → Program → w.State → List Call
calls w returns st = []
calls w (panics v) st = []
calls w (set_header k v p) st = calls w p (w.set_header k v st)
calls w (write_header status p) st = elim (w.write_header status st).0 [
  | some v ↦ refused status ∷ []
  | none ↦ header status ∷ calls w p (w.write_header status st).1
]
calls w (write b k) st = let (r, st') = w.write b st in body r.0 ∷ calls w (k r) st'
calls w (logs l level ctx msg attrs p) st = calls w p st
calls w (stages q ctx name attrs p) st = calls w p st

-- The codes that net/http sends ahead of an answer: those from 100 to 199 but 101.
unfoldable pub informational : ℤ → Bool
informational (pos n) = leb 100 n && (leb n 199 && (leb n 100 || leb 102 n))
informational (negsuc n) = false

-- The status of an answer, as net/http documents it: the first code that it takes and that is not
-- informational; a `Write` before such a code, and a return without one, stand for 200.
unfoldable pub status_of : List Call → ℤ
unfolding informational
status_of [] = pos 200
status_of (header status ∷ cs) =
    let rest = status_of cs in if informational status then rest else status
status_of (refused status ∷ cs) = status_of cs
status_of (body n ∷ cs) = pos 200

-- The first call, if there is one, settles the status.
abbrev pub IsSettled : List Call → Type 0
IsSettled [] = Unit {0}
IsSettled (header status ∷ cs) = informational status ≡ false
IsSettled (refused status ∷ cs) = ⊥
IsSettled (body n ∷ cs) = Unit {0}

unfoldable pub total : List Call → ℕ
total [] = 0
total (header status ∷ cs) = total cs
total (refused status ∷ cs) = total cs
total (body n ∷ cs) = n + total cs

unfoldable pub absorb : Recorder → List Call → Recorder
absorb rc [] = rc
absorb rc (header status ∷ cs) = absorb (record_header status rc) cs
absorb rc (refused status ∷ cs) = absorb (record_header status rc) cs
absorb rc (body n ∷ cs) = absorb (record_write n rc) cs

absorb_later :
    (st : ℤ) (n : ℤ) (cs : List Call)
    → let rc = absorb (record { status = st; bytes = n; wrote_header = true }) cs in
      (rc.status ≡ st) × (rc.wrote_header ≡ true)
unfolding absorb record_header record_write
absorb_later st n [] = (refl, refl)
absorb_later st n (header status ∷ cs) = absorb_later st n cs
absorb_later st n (refused status ∷ cs) = absorb_later st n cs
absorb_later st n (body k ∷ cs) = absorb_later st (add_int64 n (pos k)) cs

pub status-absorb : (cs : List Call) → IsSettled cs → (absorb fresh cs).status ≡ status_of cs
unfolding absorb status_of record_header record_write
status-absorb [] h = refl
status-absorb (header status ∷ cs) h = rw h (absorb_later status _ cs).0
status-absorb (refused status ∷ cs) h = absurd h
status-absorb (body n ∷ cs) h = (absorb_later (pos 200) _ cs).0

-- Whether a call was made.
abbrev pub any_call : List Call → Bool
any_call [] = false
any_call (c ∷ cs) = true

pub wrote_header-absorb : (cs : List Call) → (absorb fresh cs).wrote_header ≡ any_call cs
unfolding absorb record_header record_write
wrote_header-absorb [] = refl
wrote_header-absorb (header status ∷ cs) = (absorb_later status _ cs).1
wrote_header-absorb (refused status ∷ cs) = (absorb_later status _ cs).1
wrote_header-absorb (body n ∷ cs) = (absorb_later (pos 200) _ cs).1

add_small : (a n : ℕ) → a + n ≤ 9223372036854775807 → add_int64 (pos a) (pos n) ≡ pos (a + n)
unfolding ◌+ℤ◌
add_small a n h = add_int64_exact (pos a) (pos n) (ground arith, ground arith) ∙ ground arith

bytes_from :
    (st : ℤ) (b : Bool) (a : ℕ) (cs : List Call)
    → a + total cs ≤ 9223372036854775807
    → (absorb (record { status = st; bytes = pos a; wrote_header = b }) cs).bytes
      ≡ pos (a + total cs)
unfolding absorb total record_header record_write
bytes_from st b a [] h = ap pos (omega arith)
bytes_from st true a (header status ∷ cs) h = bytes_from st true a cs h
bytes_from st false a (header status ∷ cs) h = bytes_from status true a cs h
bytes_from st true a (refused status ∷ cs) h = bytes_from st true a cs h
bytes_from st false a (refused status ∷ cs) h = bytes_from status true a cs h
bytes_from st b a (body n ∷ cs) h =
    rw (absorb, record_write, add_small a n (omega arith))
      (bytes_from st true (a + n) cs (omega arith) ∙ ap pos (omega arith))

pub bytes-absorb :
    (cs : List Call) → total cs ≤ 9223372036854775807 → (absorb fresh cs).bytes ≡ pos (total cs)
bytes-absorb cs h = bytes_from (pos 200) false 0 cs (omega arith) ∙ ap pos (omega arith)

module _ (rt : Runtime) (w : HttpWriter) where
  pub run-recording :
      (p : Program) (rc : Recorder) (st : w.State) (u : World)
      → run rt (recording w) p ((rc, st), u) ≡ (
        (run rt w p (st, u)).0,
        ((absorb rc (calls w p st), (run rt w p (st, u)).1.0), (run rt w p (st, u)).1.1),
      )
  unfolding run calls absorb
  run-recording returns rc st u = refl
  run-recording (panics v) rc st u = refl
  run-recording (set_header k v p) rc st u = run-recording p rc (w.set_header k v st) u
  run-recording (write_header status p) rc st u = elim (Option-cases (w.write_header status st).0) [
    | inl e ↦
        rw (run, calls, e)
          (run-recording p (record_header status rc) (w.write_header status st).1 u)
    | inr (v, e) ↦ rw (run, calls, e) refl
  ]
  run-recording (write b k) rc st u =
      let (r, st') = w.write b st in run-recording (k r) (record_write r.0 rc) st' u
  run-recording (logs l level ctx msg attrs p) rc st u =
      run-recording p rc st (log rt l level ctx msg attrs u).1
  run-recording (stages q ctx name attrs p) rc st u =
      run-recording p rc st (stage rt q ctx name attrs u).1

  -- A handler whose calls of `Write` write less than 2^63 bytes in all, and whose first call of `Write` or
  -- `WriteHeader`, if it makes one, is none of `WriteHeader` at an informational code or at one for which
  -- the writer panics: behind the recorder it returns or panics as it does at the writer itself, and
  -- leaves the same answer and the same log. The recorder has the status of the answer, 200 if no call
  -- gives it another, and the bytes of all calls.
  pub recording_lem :
      (p : Program) (st : w.State) (u : World)
      → total (calls w p st) ≤ 9223372036854775807
      → IsSettled (calls w p st)
      → let (out, ((rc, st'), u')) = run rt (recording w) p ((fresh, st), u) in
        ((out, (st', u')) ≡ run rt w p (st, u))
        × (rc.status ≡ status_of (calls w p st))
        × (rc.bytes ≡ pos (total (calls w p st)))
        × (rc.wrote_header ≡ any_call (calls w p st))
  recording_lem p st u h first =
      let e = run-recording p fresh st u in
      (
        ap (λ a. (a.0, (a.1.0.1, a.1.1))) e,
        ap (λ a. a.1.0.0.status) e ∙ status-absorb _ first,
        ap (λ a. a.1.0.0.bytes) e ∙ bytes-absorb _ h,
        ap (λ a. a.1.0.0.wrote_header) e ∙ wrote_header-absorb _,
      )
