-- ===== src/Command/Daemon.antt =====
-- cmd/backwyn/main.go: `runDaemon`. The loop takes the events that wake it as a list, in the order in
pub mod Persistent
-- which its `select` receives them.
use backwyn.Prelude.{
  ℕ, Bool, true, false, not, ◌||◌, ◌&&◌, Option, none, some, List, [], ◌∷◌, ◌++◌, Result, ok, err,
  if◌then◌else◌,
}
use backwyn.Prelude.Int.{ℤ, pos, leb_ℤ}
use backwyn.Prelude.Text.{Text, lit, text_eq}
use backwyn.Time.{Time}
use backwyn.Storage.{Backend}
use backwyn.Config.{Config, Environment}
use backwyn.Retention.Policy.{Policy}
use backwyn.Runner.Status.{Tracker, new_tracker}
use backwyn.Runner.Cycle.{World, Times, Deps, cycle}
use backwyn.Command.Flags.{Values, Flag, duration_flag, bool_flag, string_flag, parse}
use backwyn.Command.Runtime.{System, Outcome, success, failure, panics, still_running}
use backwyn.Command.Prune.{zero_policy, retention_flags}

-- The variables of `runDaemon`.
pub record DaemonFlags : Type 0 where
  pub interval : ℤ
  pub max_age : ℤ
  pub once : Bool
  pub listen : Text
  pub policy : Policy

-- Their defaults, from the environment.
unfoldable pub daemon_defaults : Environment → DaemonFlags
unfolding text_eq
daemon_defaults env =
    let addr = env (lit "BACKWYN_LISTEN_ADDR") in
    record {
      interval = pos 21_600_000_000_000;
      max_age = pos 86_400_000_000_000;
      once = false;
      listen = if text_eq addr [] then lit ":8080" else addr;
      policy = zero_policy;
    }

unfoldable pub daemon_flags : Values → List (Flag DaemonFlags)
unfolding duration_flag bool_flag string_flag retention_flags
daemon_flags values =
    duration_flag values (lit "interval") (λ d o. record o { interval = d })
    ∷ duration_flag values (lit "max-age") (λ d o. record o { max_age = d })
    ∷ bool_flag values (lit "once") (λ b o. record o { once = b })
    ∷ string_flag values (lit "listen") (λ v o. record o { listen = v })
    ∷ retention_flags values (λ f o. record o { policy = f o.policy })

-- The line that `slog` writes.
pub data LogLine : Type 0 where
  started : ℤ → ℤ → LogLine
  cycle_error : Text → LogLine
  shutting_down : Text → LogLine

-- What wakes the loop: the context is done, or the ticker has fired; then the clock shows these times
-- in the cycle.
pub data Wake : Type 0 where
  done : Text → Wake
  tick : Times → Time → Wake

-- The daemon: what its cycles work on, what it has logged, and the address that it serves;
-- `warned` is what `flag` has printed.
pub record DaemonState (S H : Type 0) : Type 0 where
  pub world : World S H
  pub log : List LogLine
  pub serves : Option Text
  pub warned : Text

abbrev outcome_of : Option Text → Outcome
outcome_of none = success
outcome_of (some e) = failure e

module _ {S H : Type 0} (d : Deps S H) where
  -- `if err := runner.Cycle(ctx, deps); err != nil { slog.Error(...) }`
  unfoldable pub after_cycle : Option Text × World S H → DaemonState S H → DaemonState S H
  after_cycle (none, w) p = record p { world = w }
  after_cycle (some e, w) p = record p { world = w; log = p.log ++ cycle_error e ∷ [] }

  unfoldable pub logged_cycle : Times → Time → DaemonState S H → DaemonState S H
  unfolding after_cycle cycle
  logged_cycle times now p = after_cycle (cycle d times now p.world) p

  -- The loop.
  unfoldable pub daemon_loop : List Wake → DaemonState S H → Outcome × DaemonState S H
  unfolding logged_cycle
  daemon_loop [] p = (still_running, p)
  daemon_loop (done reason ∷ wakes) p =
      (success, record p { log = p.log ++ shutting_down reason ∷ [] })
  daemon_loop (tick times now ∷ wakes) p = daemon_loop wakes (logged_cycle times now p)

  -- `runDaemon` behind its first cycle.
  unfoldable pub with_ticker : ℤ → List Wake → DaemonState S H → Outcome × DaemonState S H
  unfolding daemon_loop
  with_ticker interval wakes p =
      let looped = daemon_loop wakes p in
      if leb_ℤ interval (pos 0)
      then (panics (lit "non-positive interval for NewTicker"), p)
      else looped

  -- `runDaemon` behind the context; the first cycle is at `times` and `now`.
  unfoldable pub start :
      DaemonFlags → Times → Time → List Wake → DaemonState S H → Outcome × DaemonState S H
  unfolding with_ticker
  start o times now wakes p =
      let single = cycle d times now p.world in
      let greeted = record p { log = p.log ++ started o.interval o.max_age ∷ [] } in
      let running = with_ticker o.interval wakes (logged_cycle times now greeted) in
      if o.once then (outcome_of single.0, record p { world = single.1 }) else running

module _ {S H P : Type 0} (sys : System S H P) (b : Backend S) where
  -- The `runner.Deps` of `runDaemon`.
  unfoldable pub deps_of : Config → DaemonFlags → Deps S H
  deps_of cfg o = record {
    cfg = cfg;
    backend = b;
    host = sys.host;
    max_age = o.max_age;
    retention = o.policy;
    sorter = sys.sorter;
    json = sys.json;
    aead = sys.aead;
    random = sys.random;
    sha256 = sys.sha256;
    quote = sys.quote;
    urls = sys.urls;
  }

  -- The daemon before its first cycle, with the server if there is one.
  unfoldable pub launched : DaemonFlags → S → H → DaemonState S H
  unfolding new_tracker text_eq
  launched o s h = record {
    world = record { store = s; machine = h; tracker = some new_tracker; alerts = [] };
    log = [];
    serves = if not (text_eq o.listen []) && not o.once then some o.listen else none;
    warned = [];
  }

  -- `runDaemon` behind `fs.Parse`
  unfoldable pub after_parse :
      Config
      → Times
      → Time
      → List Wake
      → S
      → H
      → Result Text (DaemonFlags × List Text)
      → Outcome × DaemonState S H
  unfolding start deps_of launched
  after_parse cfg times now wakes s h (err e) = (
    failure e,
    record {
      world = record { store = s; machine = h; tracker = none; alerts = [] };
      log = [];
      serves = none;
      warned = e ++ (lit "\n" ++ sys.values.usage (lit "run"));
    },
  )
  after_parse cfg times now wakes s h (ok (o, operands)) =
      start (deps_of cfg o) o times now wakes (launched o s h)

  -- `runDaemon`
  unfoldable pub run_daemon :
      Config → List Text → Times → Time → List Wake → S → H → Outcome × DaemonState S H
  unfolding after_parse parse daemon_flags daemon_defaults
  run_daemon cfg args times now wakes s h =
      after_parse cfg times now wakes s h
        (parse sys.values (daemon_flags sys.values) none args (daemon_defaults sys.env))
