-- ===== src/Command/Monitored.antt =====
-- cmd/backwyn/main.go: what the exit code of `backwyn check` says, from `main` to the store.
use backwyn.Prelude.{
  ◌≡◌, ◌⊎◌, refl, sym, ap, ◌∙◌, inl, inr, ℕ, Option, none, some, List, ◌∷◌, Result, ok, err,
  Result-cases, arith,
}
use backwyn.Prelude.Int.{ℤ}
use backwyn.Prelude.Text.{Text, lit, text_eq}
use backwyn.Time.{Time}
use backwyn.Storage.{Backend}
use backwyn.Manifest.{Manifest}
use backwyn.Config.{Config, ConfigError, load}
use backwyn.Artifact.Load.{load_all}
use backwyn.Retention.Plan.{IsSorter}
use backwyn.Check.Healthy.{IsCovered}
use backwyn.Command.Flags.{parse}
use backwyn.Command.Runtime.{
  System, Process, Outcome, success, failure, exits, panics, still_running, refuse_flags,
}
use backwyn.Command.Check.{check_flags, default_max_age, after_parse, run_check}
use backwyn.Command.Check.ExitCode.{run_check_lem}
use backwyn.Command.{
  Moments, cleanup_temp_files, new_backend, dispatch, after_new_backend, after_config, run,
  exit_code, main,
}

abbrev code_of : Outcome → Option ℕ
code_of success = some 0
code_of (failure e) = some 1
code_of (exits n) = some n
code_of (panics e) = some 2
code_of still_running = none

exit_code-code :
    {S H P : Type 0} (sys : System S H P) (x : Outcome × Process S H)
    → (exit_code sys x).0 ≡ code_of x.0
unfolding exit_code
exit_code-code sys (success, p) = refl
exit_code-code sys (failure e, p) = refl
exit_code-code sys (exits n, p) = refl
exit_code-code sys (panics e, p) = refl
exit_code-code sys (still_running, p) = refl

module _ {S H P : Type 0} (sys : System S H P) (args : List Text) where
  -- The manifests that a check reads in the store `b` at `s`, and its threshold.
  abbrev pub Read : Backend S → S → List Manifest → ℤ → Type 0
  Read b s ms max_age =
      ((operands : List Text) × (parse sys.values (check_flags sys.values) none args default_max_age
          ≡ ok (max_age, operands)))
      × ((load_all b sys.json s).0 ≡ ok ms)

  -- The outcome of a check: it is refused, or it tells whether there is coverage.
  abbrev Told : Backend S → S → Time → Outcome → Type 0
  Told b s now o =
      ((e : Text) × (o ≡ failure e))
      ⊎ ((ms : List Manifest) × (max_age : ℤ) × Read b s ms max_age
          × (((o ≡ success) × IsCovered ms max_age now)
              ⊎ ((o ≡ exits 3) × (¬ IsCovered ms max_age now))))

  run_check-Told :
      (b : Backend S) (now : Time) (p : Process S H)
      → IsSorter sys.sorter
      → Told b p.store now (run_check sys b args now p).0
  unfolding run_check after_parse refuse_flags
  run_check-Told b now p sorts =
      elim (Result-cases (parse sys.values (check_flags sys.values) none args default_max_age)) [
        | inr (e, bad) ↦ inl (e, rw bad refl)
        | inl ((max_age, operands), parsed) ↦
            let (failed, told) = run_check_lem sys b args now p max_age operands sorts parsed in
            elim (Result-cases (load_all b sys.json p.store).0) [
              | inr (e, unread) ↦ inl (e, failed e unread)
              | inl (ms, loaded) ↦
                  let (iff, either) = told ms loaded in
                  let read : Read b p.store ms max_age = ((operands, parsed), loaded) in
                  elim either [
                    | inl good ↦ inr (ms, max_age, read, inl (good, iff.0 good))
                    | inr bad ↦ inr (
                      ms,
                      max_age,
                      read,
                      inr (
                        bad,
                        λ c. let e : exits 3 ≡ success = sym bad ∙ iff.1 c in absurd (ground arith),
                      ),
                    )
                  ]
            ]
      ]

  -- The program has a configuration, a store and what a check reads there, of which `Q` holds.
  abbrev pub Found : S → (List Manifest → ℤ → Type 0) → Type 0
  Found s0 Q =
      (cfg : Config) × (b : Backend S) × (s : S) × (ms : List Manifest) × (max_age : ℤ) × (load
          sys.env
        ≡ ok cfg)
      × (new_backend sys cfg s0 ≡ (ok b, s))
      × Read b s ms max_age
      × Q ms max_age

  abbrev Ended : S → Time → Outcome → Type 0
  Ended s0 now o =
      ((e : Text) × (o ≡ failure e))
      ⊎ (((o ≡ success) × Found s0 (λ ms max_age. IsCovered ms max_age now))
          ⊎ ((o ≡ exits 3) × Found s0 (λ ms max_age. ¬ IsCovered ms max_age now)))

  Told-Ended :
      (cfg : Config) (b : Backend S) (s0 s : S) (now : Time) (o : Outcome)
      → load sys.env ≡ ok cfg
      → new_backend sys cfg s0 ≡ (ok b, s)
      → Told b s now o
      → Ended s0 now o
  Told-Ended cfg b s0 s now o l n (inl failed) = inl failed
  Told-Ended cfg b s0 s now o l n (inr (ms, max_age, read, inl (good, covered))) =
      inr (inl (good, (cfg, b, s, ms, max_age, l, n, read, covered)))
  Told-Ended cfg b s0 s now o l n (inr (ms, max_age, read, inr (bad, bare))) =
      inr (inr (bad, (cfg, b, s, ms, max_age, l, n, read, bare)))

  after_new_backend-Ended :
      (cfg : Config) (at : Moments) (p : Process S H) (x : Result Text (Backend S) × S)
      → IsSorter sys.sorter
      → load sys.env ≡ ok cfg
      → new_backend sys cfg p.store ≡ x
      → Ended p.store at.now (after_new_backend sys cfg (lit "check") args at x p).0
  unfolding after_new_backend dispatch lit text_eq
  after_new_backend-Ended cfg at p (err e, s) sorts l n = inl (e, refl)
  after_new_backend-Ended cfg at p (ok b, s) sorts l n =
      Told-Ended cfg b p.store s at.now _ l n
        (run_check-Told b at.now (record p { store = s }) sorts)

  after_config-Ended :
      (at : Moments) (p : Process S H) (x : Result ConfigError Config)
      → IsSorter sys.sorter
      → load sys.env ≡ x
      → Ended p.store at.now (after_config sys (lit "check") args at x p).0
  unfolding after_config
  after_config-Ended at p (err e) sorts l = inl (sys.show_config_error e, refl)
  after_config-Ended at p (ok cfg) sorts l =
      after_new_backend-Ended cfg at p (new_backend sys cfg p.store) sorts l refl

  coded :
      (s0 : S) (now : Time) (o : Outcome) (code : Option ℕ)
      → code ≡ code_of o
      → Ended s0 now o
      → (code ≡ some 0 → Found s0 (λ ms max_age. IsCovered ms max_age now))
        × (code ≡ some 3 → Found s0 (λ ms max_age. ¬ IsCovered ms max_age now))
        × ((code ≡ some 0) ⊎ ((code ≡ some 1) ⊎ (code ≡ some 3)))
  coded s0 now o code e (inl (why, failed)) =
      let one : code ≡ some 1 = e ∙ ap code_of failed in
      (λ h. absurd (ground arith), λ h. absurd (ground arith), inr (inl one))
  coded s0 now o code e (inr (inl (good, found))) =
      let zero_code : code ≡ some 0 = e ∙ ap code_of good in
      (λ h. found, λ h. absurd (ground arith), inl zero_code)
  coded s0 now o code e (inr (inr (bad, found))) =
      let three : code ≡ some 3 = e ∙ ap code_of bad in
      (λ h. absurd (ground arith), λ h. found, inr (inr three))

  -- The exit code of `backwyn check` is 0, 1 or 3, and so 1 if its flags do not parse. It is 0 only if the configuration loads, the store
  -- opens, the flags parse, and the manifests that are in the store are read and one of them is verified
  -- and no older than the threshold; and it is 3 only if all of that works and none of them is.
  pub main-check :
      (at : Moments) (p : Process S H)
      → IsSorter sys.sorter
      → let code = (main sys (lit "check" ∷ args) at p).0 in
        (code ≡ some 0 → Found p.store (λ ms max_age. IsCovered ms max_age at.now))
        × (code ≡ some 3 → Found p.store (λ ms max_age. ¬ IsCovered ms max_age at.now))
        × ((code ≡ some 0) ⊎ ((code ≡ some 1) ⊎ (code ≡ some 3)))
  unfolding main lit text_eq run cleanup_temp_files
  main-check at p sorts =
      let p' = cleanup_temp_files sys p in
      let o = after_config sys (lit "check") args at (load sys.env) p' in
      let code = exit_code-code sys o in
      coded p.store at.now o.0 (exit_code sys o).0 code
        (after_config-Ended at p' (load sys.env) sorts refl)
