-- ===== src/Command/Daemon/Persistent.antt =====
-- cmd/backwyn/main.go: the daemon goes on, whatever its cycles return, until it is told to stop.
use mathlib.Core.List.{append-nil, append_assoc}
use backwyn.Prelude.{
  ◌≡◌, refl, sym, ap, ◌∙◌, false, Option, none, some, List, [], ◌∷◌, ◌++◌, ok, map,
}
use backwyn.Prelude.Int.{pos, leb_ℤ}
use backwyn.Prelude.Text.{Text}
use backwyn.Time.{Time}
use backwyn.Storage.{Backend}
use backwyn.Config.{Config}
use backwyn.Runner.Cycle.{World, Times, Deps, cycle}
use backwyn.Command.Flags.{parse}
use backwyn.Command.Runtime.{System, success}
use backwyn.Command.Daemon.{
  DaemonFlags, daemon_flags, daemon_defaults, LogLine, started, cycle_error, shutting_down, Wake,
  done, tick, DaemonState, after_cycle, logged_cycle, daemon_loop, with_ticker, start, deps_of,
  launched, after_parse, run_daemon,
}

-- When a cycle runs.
abbrev pub Moment : Type 0
Moment = Times × Time

abbrev pub ticks : List Moment → List Wake
ticks ms = map (λ m. tick m.0 m.1) ms

module _ {S H : Type 0} (d : Deps S H) where
  -- One cycle after the other, each on the world that the one before it has left.
  unfoldable pub worlds : List Moment → World S H → World S H
  unfolding cycle
  worlds [] w = w
  worlds ((times, now) ∷ ms) w = worlds ms (cycle d times now w).1

  abbrev line_of : Option Text → List LogLine
  line_of none = []
  line_of (some e) = cycle_error e ∷ []

  -- The errors of those cycles.
  unfoldable pub errors : List Moment → World S H → List LogLine
  unfolding cycle
  errors [] w = []
  errors ((times, now) ∷ ms) w =
      line_of (cycle d times now w).0 ++ errors ms (cycle d times now w).1

  -- The daemon behind those cycles.
  abbrev Reached : List Moment → DaemonState S H → DaemonState S H → Type 0
  Reached ms p q =
      (q.world ≡ worlds ms p.world) × (q.log ≡ p.log ++ errors ms p.world) × (q.serves ≡ p.serves)

  after_cycle-world :
      (x : Option Text × World S H) (p : DaemonState S H)
      → ((after_cycle d x p).world ≡ x.1)
        × ((after_cycle d x p).log ≡ p.log ++ line_of x.0)
        × ((after_cycle d x p).serves ≡ p.serves)
  unfolding after_cycle
  after_cycle-world (none, w) p = (refl, sym (append-nil p.log), refl)
  after_cycle-world (some e, w) p = (refl, refl, refl)

  loop-Reached :
      (ms : List Moment) (reason : Text) (rest : List Wake) (p : DaemonState S H)
      → let x = daemon_loop d (ticks ms ++ done reason ∷ rest) p in
        (x.0 ≡ success)
        × (x.1.world ≡ worlds ms p.world)
        × (x.1.log ≡ (p.log ++ errors ms p.world) ++ shutting_down reason ∷ [])
        × (x.1.serves ≡ p.serves)
  unfolding daemon_loop worlds errors logged_cycle
  loop-Reached [] reason rest p =
      (refl, refl, ap (λ l. l ++ shutting_down reason ∷ []) (sym (append-nil p.log)), refl)
  loop-Reached ((times, now) ∷ ms) reason rest p =
      let x = cycle d times now p.world in
      let (world, log, serves) = after_cycle-world x p in
      let (ended, reached, logged, served) = loop-Reached ms reason rest (after_cycle d x p) in
      (
        ended,
        reached ∙ ap (worlds ms) world,
        logged
            ∙ ap (λ l. l ++ shutting_down reason ∷ [])
                (ap (λ l. l ++ errors ms (after_cycle d x p).world) log
                  ∙ (ap (λ w. (p.log ++ line_of x.0) ++ errors ms w) world
                      ∙ append_assoc p.log (line_of x.0) (errors ms x.1))),
        served ∙ serves,
      )

  start-Reached :
      (o : DaemonFlags) (times : Times) (now : Time) (ms : List Moment) (reason : Text)
      (rest : List Wake) (p : DaemonState S H)
      → o.once ≡ false
      → leb_ℤ o.interval (pos 0) ≡ false
      → p.log ≡ []
      → let x = start d o times now (ticks ms ++ done reason ∷ rest) p in
        (x.0 ≡ success)
        × (x.1.world ≡ worlds ((times, now) ∷ ms) p.world)
        × (x.1.log
            ≡ started o.interval o.max_age
              ∷ (errors ((times, now) ∷ ms) p.world ++ shutting_down reason ∷ []))
        × (x.1.serves ≡ p.serves)
  unfolding start with_ticker
  start-Reached o times now ms reason rest p often positive quiet =
      let first = started o.interval o.max_age ∷ [] in
      let greeted = record p { log = p.log ++ first } in
      let (ended, world, log, serves) = loop-Reached ((times, now) ∷ ms) reason rest greeted in
      rw (often, positive)
        (
          ended,
          world,
          log
              ∙ ap
                  (λ l.
                    ((l ++ first) ++ errors ((times, now) ∷ ms) p.world)
                    ++ shutting_down reason ∷ [])
                  quiet,
          serves,
        )

module _ {S H P : Type 0} (sys : System S H P) (b : Backend S) where
  -- `run` without -once, with arguments that parse and an interval above zero, runs a cycle when it
  -- starts and one at each tick until it is told to stop, and then returns without an error. No cycle's
  -- error ends it: each is logged, in order, and the next cycle goes on with what that cycle has left.
  pub run_daemon_lem :
      (cfg : Config) (args : List Text) (times : Times) (now : Time) (ms : List Moment)
      (reason : Text) (rest : List Wake) (s : S) (h : H) (o : DaemonFlags) (operands : List Text)
      → parse sys.values (daemon_flags sys.values) none args (daemon_defaults sys.env)
        ≡ ok (o, operands)
      → o.once ≡ false
      → leb_ℤ o.interval (pos 0) ≡ false
      → let x = run_daemon sys b cfg args times now (ticks ms ++ done reason ∷ rest) s h in
        let d = deps_of sys b cfg o in
        let w = (launched sys b o s h).world in
        (x.0 ≡ success)
        × (x.1.world ≡ worlds d ((times, now) ∷ ms) w)
        × (x.1.log
            ≡ started o.interval o.max_age
              ∷ (errors d ((times, now) ∷ ms) w ++ shutting_down reason ∷ []))
        × (x.1.serves ≡ (launched sys b o s h).serves)
  unfolding run_daemon after_parse launched
  run_daemon_lem cfg args times now ms reason rest s h o operands parsed often positive =
      rw parsed (
        start-Reached (deps_of sys b cfg o) o times now ms reason rest (launched sys b o s h) often
          positive refl)
