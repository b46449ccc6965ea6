-- ===== src/System.antt =====
-- The packages together: any sequence of their operations, of any number of requests, jobs, messages,
-- clients and loaders, over one state of the logger package.
mod Services
mod Clients
pub mod Correlation
use go_library.Prelude.{ℕ, ◌≡◌, true, false, String, Option, some, List, get_elem?}
use go_library.Runtime.{Runtime, IsMonotonic}
use go_library.Logger.Value.{Attr}
use go_library.Logger.State.{Logger, Lifecycle, World}
use go_library.Logger.Context.{Context}
use go_library.Logger.Lifecycle.{finish}
use go_library.Logger.Lifecycle.Growth.{Grows}
use go_library.Logger.Lifecycle.Interleaving.{
  Steps, here, reads, news, inits, sets, ids, logs, starts, stages, ends, Steps-Grows,
  finish-Steps_once,
}
use go_library.Logger.Lifecycle.Timing.{AllTimed, Steps-AllTimed}
use go_library.Oauth.Codec.{Codec}
use go_library.Oauth.Setup.{Client}
use go_library.Oauth.Backend.{TokenCache, Endpoint}
use go_library.Oauth.Client.{Sys}
use go_library.Oauth.Client.Methods.{token, refresh, invalidate}
use go_library.Etl.{Job, start_job, checkpoint, complete_job, fail_job}
use go_library.Events.{Message, Consumption, consume_start, done, produced}
use go_library.Graphql.{Operation, Trace, operation_start, finish_operation}
use go_library.Graphql
use go_library.Rest.{Setting, Request, HttpWriter, Program, Http, serve}
use go_library.Secrets.{Source, secret_json}
use go_library.Secrets
use Services.{
  start_job-Steps, checkpoint-Steps, complete_job-Steps, fail_job-Steps, consume_start-Steps,
  done-Steps, produced-Steps, operation_start-Steps, finish_operation-Steps, graphql_stage-Steps,
  serve-Steps,
}
use Clients.{
  Channel, token-Stepped, refresh-Stepped, invalidate-Stepped, secret-Loaded, parameter-Loaded,
  parameters_by_path-Loaded, secret_json-Loaded,
}

module _ (rt : Runtime) where
  -- The operations of all packages, in any order. Of a cache, an endpoint, a source or a writer any
  -- state may come up, with the state of the logger package that there is.
  pub data Runs (w : World) : World → Type 1 where
    begun : Runs w w
    logger : {u v : World} → Runs w u → Steps rt u v → Runs w v
    starts_job :
        {u : World}
        → Runs w u
        → (l : Logger) (ctx : Context) (name : String) (attrs : List Attr)
        → Runs w (start_job rt l ctx name attrs u).1
    checks :
        {u : World}
        → Runs w u
        → (j : Job) (ctx : Context) (name : String) (attrs : List Attr)
        → Runs w (checkpoint rt j ctx name attrs u).1
    completes :
        {u : World}
        → Runs w u
        → (j : Job) (ctx : Context) (attrs : List Attr) → Runs w (complete_job rt j ctx attrs u).1
    fails :
        {u : World}
        → Runs w u
        → (j : Job) (ctx : Context) (e : Option String) (attrs : List Attr)
        → Runs w (fail_job rt j ctx e attrs u).1
    consumes :
        {u : World}
        → Runs w u
        → (l : Logger) (ctx : Context) (msg : Message) → Runs w (consume_start rt l ctx msg u).1
    consumed :
        {u : World} → Runs w u → (c : Consumption) (e : Option String) → Runs w (done rt c e u).1
    produces :
        {u : World}
        → Runs w u
        → (l : Logger) (ctx : Context) (msg : Message) (e : Option String)
        → Runs w (produced rt l ctx msg e u).1
    operates :
        {u : World}
        → Runs w u
        → (cx : Codec) (l : Graphql.Logger) (ctx : Context) (op : Operation)
        → Runs w (operation_start rt cx l ctx op u).1
    operated :
        {u : World}
        → Runs w u
        → (t : Trace) (errs : List (Option String)) → Runs w (finish_operation rt t errs u).1
    stages_operation :
        {u : World}
        → Runs w u
        → (ctx : Context) (name : String) (attrs : List Attr)
        → Runs w (Graphql.stage rt ctx name attrs u).1
    serves :
        {u : World}
        → Runs w u
        → (http : Http) (l : Logger) (h : HttpWriter) (r : Request) (settings : List Setting)
          (next : Request → Context → Program) (ctx : Context) (st : h.State)
        → Runs w (serve rt http l settings h next ctx r (st, u)).1.1
    tokens :
        (cx : Codec) (tc : TokenCache) (ep : Endpoint) (s : Sys tc ep)
        → Runs w s.world
        → (c : Client) (ctx : Context) → Runs w (token rt cx tc ep c ctx s).1.world
    refreshes :
        (cx : Codec) (tc : TokenCache) (ep : Endpoint) (s : Sys tc ep)
        → Runs w s.world
        → (c : Client) (ctx : Context) → Runs w (refresh rt cx tc ep c ctx s).1.world
    invalidates :
        (cx : Codec) (tc : TokenCache) (ep : Endpoint) (s : Sys tc ep)
        → Runs w s.world
        → (c : Client) → Runs w (invalidate rt cx tc ep c s).1.world
    loads_secret :
        (l : Logger) (src : Source) (s : Secrets.Sys src)
        → Runs w s.world
        → (ctx : Context) (name : String) → Runs w (Secrets.secret rt l src ctx name s).1.world
    loads_parameter :
        (l : Logger) (src : Source) (s : Secrets.Sys src)
        → Runs w s.world
        → (ctx : Context) (name : String) → Runs w (Secrets.parameter rt l src ctx name s).1.world
    loads_path :
        (l : Logger) (src : Source) (s : Secrets.Sys src)
        → Runs w s.world
        → (ctx : Context) (path : String)
        → Runs w (Secrets.parameters_by_path rt l src ctx path s).1.world
    loads_json :
        (cx : Codec) (l : Logger) (src : Source) (s : Secrets.Sys src)
        → Runs w s.world
        → (ctx : Context) (name : String) → Runs w (secret_json rt cx l src ctx name s).1.world

  Steps-trans : {u v w : World} → Steps rt u v → Steps rt v w → Steps rt u w
  Steps-trans s here = s
  Steps-trans s (reads t) = reads (Steps-trans s t)
  Steps-trans s (news t cfg) = news (Steps-trans s t) cfg
  Steps-trans s (inits t cfg) = inits (Steps-trans s t) cfg
  Steps-trans s (sets t l level) = sets (Steps-trans s t) l level
  Steps-trans s (ids t ctx) = ids (Steps-trans s t) ctx
  Steps-trans s (logs t l level ctx msg args) = logs (Steps-trans s t) l level ctx msg args
  Steps-trans s (starts t l ctx name attrs) = starts (Steps-trans s t) l ctx name attrs
  Steps-trans s (stages t p ctx name attrs) = stages (Steps-trans s t) p ctx name attrs
  Steps-trans s (ends t p ctx attrs) = ends (Steps-trans s t) p ctx attrs

  -- Further operations of the logger package.
  Steps-Channel : (w : World) (l : Logger) → Channel rt l (λ ctx. Unit {0}) (λ u. Steps rt w u)
  Steps-Channel w l = record {
    reads = λ u s. reads s;
    ids = λ ctx u s. ids s ctx;
    kept = λ ctx u p. tt;
    logs = λ level ctx msg args u p s. logs s l level ctx msg args;
    stages = λ q ctx name attrs u p s. stages s q ctx name attrs;
  }

  -- Whatever the packages do to the state of the logger package, they do by its operations.
  Runs-Steps : {w w' : World} → Runs w w' → Steps rt w w'
  Runs-Steps begun = here
  Runs-Steps (logger r s) = Steps-trans (Runs-Steps r) s
  Runs-Steps (starts_job r l ctx name attrs) = start_job-Steps rt (Runs-Steps r) l ctx name attrs
  Runs-Steps (checks r j ctx name attrs) = checkpoint-Steps rt (Runs-Steps r) j ctx name attrs
  Runs-Steps (completes r j ctx attrs) = complete_job-Steps rt (Runs-Steps r) j ctx attrs
  Runs-Steps (fails r j ctx e attrs) = fail_job-Steps rt (Runs-Steps r) j ctx e attrs
  Runs-Steps (consumes r l ctx msg) = consume_start-Steps rt (Runs-Steps r) l ctx msg
  Runs-Steps (consumed r c e) = done-Steps rt (Runs-Steps r) c e
  Runs-Steps (produces r l ctx msg e) = produced-Steps rt (Runs-Steps r) l ctx msg e
  Runs-Steps (operates r cx l ctx op) = operation_start-Steps rt (Runs-Steps r) cx l ctx op
  Runs-Steps (operated r t errs) = finish_operation-Steps rt (Runs-Steps r) t errs
  Runs-Steps (stages_operation r ctx name attrs) =
      graphql_stage-Steps rt (Runs-Steps r) ctx name attrs
  Runs-Steps (serves r http l h req settings next ctx st) =
      serve-Steps rt http l h req settings next ctx st (Runs-Steps r)
  Runs-Steps (tokens cx tc ep s r c ctx) =
      token-Stepped rt c _ _ (Steps-Channel _ c.base) cx tc ep ctx tt s (Runs-Steps r)
  Runs-Steps (refreshes cx tc ep s r c ctx) =
      refresh-Stepped rt c _ _ (Steps-Channel _ c.base) cx tc ep ctx tt s (Runs-Steps r)
  Runs-Steps (invalidates cx tc ep s r c) =
      invalidate-Stepped rt c _ _ (Steps-Channel _ c.base) cx tc ep s (Runs-Steps r)
  Runs-Steps (loads_secret l src s r ctx name) =
      secret-Loaded rt l _ _ (Steps-Channel _ l) src ctx name tt s (Runs-Steps r)
  Runs-Steps (loads_parameter l src s r ctx name) =
      parameter-Loaded rt l _ _ (Steps-Channel _ l) src ctx name tt s (Runs-Steps r)
  Runs-Steps (loads_path l src s r ctx path) =
      parameters_by_path-Loaded rt l _ _ (Steps-Channel _ l) src ctx path tt s (Runs-Steps r)
  Runs-Steps (loads_json cx l src s r ctx name) =
      secret_json-Loaded rt l _ _ (Steps-Channel _ l) src cx ctx name tt s (Runs-Steps r)

  -- Through whatever operations of all packages, of whatever requests, jobs, messages and clients and
  -- in whatever order: the lines that were written stay as they are, in their order and in front of all
  -- others; every trace that was started keeps its name, its start and its logger, stages are only
  -- added behind the others that it has, and one that has ended stays so; no reading of the clock and
  -- no drawn id is given back; the cold start does not come again once it is over; and the start of
  -- the process stays.
  pub Runs-Grows : {w w' : World} → Runs w w' → Grows w w'
  Runs-Grows r = Steps-Grows rt (Runs-Steps r)

  -- Over a clock that never goes back, and from a world whose traces are timed, whatever operations of
  -- all packages come in whatever order: in every trace the stages are recorded in the order of their
  -- times since the start, none later than the last stage, and the time since the stage before fits
  -- into it.
  pub Runs-AllTimed :
      (mono : IsMonotonic rt) {w w' : World} → Runs w w' → AllTimed rt mono w → AllTimed rt mono w'
  Runs-AllTimed mono r = Steps-AllTimed rt mono (Runs-Steps r)

  -- A lifecycle is ended at most once under every interleaving: after an `End` on one that had not
  -- ended, and then any operations of all packages, on this and on other lifecycles and in whatever
  -- order, a further `End` on it changes nothing, whatever its context and attributes.
  pub finish-Runs_once :
      (p : ℕ) (lc : Lifecycle) (ctx ctx' : Context) (attrs attrs' : List Attr) (w : World)
      {v : World}
      → get_elem? w.lifecycles p ≡ some lc
      → lc.ended ≡ false
      → Runs (finish rt (some p) ctx attrs w).1 v
      → finish rt (some p) ctx' attrs' v ≡ (tt, v)
  finish-Runs_once p lc ctx ctx' attrs attrs' w found open_ r =
      finish-Steps_once rt p lc ctx ctx' attrs attrs' w found open_ (Runs-Steps r)
