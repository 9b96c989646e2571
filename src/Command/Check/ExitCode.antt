-- ===== src/Command/Check/ExitCode.antt =====
-- cmd/backwyn/main.go: what the outcome of `check` says.
use mathlib.Core.Path.{subst}
use backwyn.Prelude.{
  ◌≡◌, ◌↔◌, ◌⊎◌, refl, sym, ap, ◌∙◌, inl, inr, Bool, true, false, none, List, Result, ok, err,
  Result-cases, arith,
}
use backwyn.Prelude.Int.{ℤ}
use backwyn.Prelude.Text.{Text}
use backwyn.Time.{Time}
use backwyn.Storage.{Backend}
use backwyn.Manifest.{Manifest}
use backwyn.Artifact.Load.{load_all}
use backwyn.Check as Check
use backwyn.Check.Healthy.{IsCovered, run-healthy_iff}
use backwyn.Retention.Plan.{IsSorter}
use backwyn.Command.Flags.{parse}
use backwyn.Command.Runtime.{System, Process, Outcome, success, failure, exits}
use backwyn.Command.Check.{
  check_flags, default_max_age, conclude, after_check, after_parse, run_check,
}

-- The outcome of a check, by whether the report is healthy.
abbrev verdict : Bool → Outcome
verdict true = success
verdict false = exits 3

conclude-outcome :
    {S H : Type 0} (healthy : Bool) (max_age : ℤ) (reasons : List Text) (p : Process S H)
    → (conclude healthy max_age reasons p).0 ≡ verdict healthy
unfolding conclude
conclude-outcome true max_age reasons p = refl
conclude-outcome false max_age reasons p = refl

after_check-outcome :
    {S H : Type 0} (max_age : ℤ) (x : Result Text Check.Report × S) (p : Process S H)
    → ((e : Text) → x.0 ≡ err e → (after_check max_age x p).0 ≡ failure e)
      × ((rep : Check.Report) → x.0 ≡ ok rep → (after_check max_age x p).0 ≡ verdict rep.healthy)
unfolding after_check
after_check-outcome max_age (err d, s) p =
    (λ e h. let same : d ≡ e = ground arith in ap failure same, λ rep h. absurd (ground arith))
after_check-outcome max_age (ok r, s) p = (
  λ e h. absurd (ground arith),
  λ rep h.
      let same : r ≡ rep = ground arith in
      conclude-outcome r.healthy max_age r.reasons _
      ∙ ap (λ (q : Check.Report). verdict q.healthy) same,
)

healthy_or_not :
    (b : Bool)
    → ((verdict b ≡ success) ↔ (b ≡ true)) × ((verdict b ≡ success) ⊎ (verdict b ≡ exits 3))
healthy_or_not true = ((λ h. refl, λ h. refl), inl refl)
healthy_or_not false = ((λ h. absurd (ground arith), λ h. absurd (ground arith)), inr refl)

module _ {S H P : Type 0} (sys : System S H P) (b : Backend S) where
  covered :
      (now : Time) (s : S) (max_age : ℤ) (ms : List Manifest) (outcome : Outcome)
      → IsSorter sys.sorter
      → (load_all b sys.json s).0 ≡ ok ms
      → ((rep : Check.Report)
          → (Check.run b sys.json sys.sorter max_age now s).0 ≡ ok rep
          → outcome ≡ verdict rep.healthy)
      → ((outcome ≡ success) ↔ IsCovered ms max_age now)
        × ((outcome ≡ success) ⊎ (outcome ≡ exits 3))
  unfolding Check.run
  covered now s max_age ms outcome sorts loaded reported =
      elim (Result-cases (Check.run b sys.json sys.sorter max_age now s).0) [
        | inr (e, failed) ↦ absurd (ground arith)
        | inl (rep, checked) ↦
            let (read, loaded', iff, _) =
              run-healthy_iff b sys.json sys.sorter max_age now s rep sorts checked in
            let same : read ≡ ms = ground arith in
            let out = reported rep checked in
            let (healthy, either) = healthy_or_not rep.healthy in
            (
              (
                λ h. subst (λ q. IsCovered q max_age now) same (iff.0 (healthy.0 (sym out ∙ h))),
                λ c. out ∙ healthy.1 (iff.1 (subst (λ q. IsCovered q max_age now) (sym same) c)),
              ),
              elim either [ inl a ↦ inl (out ∙ a) | inr a ↦ inr (out ∙ a) ],
            )
      ]

  -- With flags that parse, `check` returns the error of loading the manifests, and nothing else, when
  -- that fails. Otherwise it succeeds exactly when a verified backup among them is no older than
  -- -max-age, and exits with the code 3 when none is.
  pub run_check_lem :
      (args : List Text) (now : Time) (p : Process S H) (max_age : ℤ) (operands : List Text)
      → IsSorter sys.sorter
      → parse sys.values (check_flags sys.values) none args default_max_age ≡ ok (max_age, operands)
      → let outcome = (run_check sys b args now p).0 in
        let loaded = (load_all b sys.json p.store).0 in
        ((e : Text) → loaded ≡ err e → outcome ≡ failure e)
        × ((ms : List Manifest)
            → loaded ≡ ok ms
            → ((outcome ≡ success) ↔ IsCovered ms max_age now)
              × ((outcome ≡ success) ⊎ (outcome ≡ exits 3)))
  unfolding run_check after_parse Check.run
  run_check_lem args now p max_age operands sorts parsed =
      let x = Check.run b sys.json sys.sorter max_age now p.store in
      let (failed, reported) = after_check-outcome max_age x p in
      rw parsed (
        λ e h. failed e (ground arith),
        λ ms h. covered now p.store max_age ms (after_check max_age x p).0 sorts h reported,
      )
