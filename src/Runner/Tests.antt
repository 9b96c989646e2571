-- ===== src/Runner/Tests.antt =====
-- internal/runner/status.go: a tracker after a backup, two checks and a verification.
use backwyn.Prelude.{◌≡◌, ◌↔◌, refl, true, false, none, some, List, [], ◌∷◌, ◌+◌, ◌*◌, arith}
use backwyn.Prelude.Int.{pos}
use backwyn.Time.{day}
use backwyn.Runner.Status.{new_tracker, healthz, record_backup, record_verify, record_check}
use backwyn.Runner.Status.Health.{
  Step, step, backup_done, verify_done, check_done, steps, last_check, IsTimed, healthz_iff,
}

abbrev calls : List Step
calls =
    backup_done (740_000 * day) true (pos 100) (pos 5)
    ∷ check_done (740_000 * day + 7) false (366 * day)
    ∷ verify_done (740_000 * day + 8) true (pos 3)
    ∷ check_done (740_000 * day + 9) true (740_000 * day)
    ∷ []

healthz_iff_example :
    ((healthz (steps calls new_tracker)).code ≡ 200) ↔ (last_check none calls ≡ some true)
unfolding IsTimed
healthz_iff_example =
    healthz_iff calls
      (tt, ((λ e. absurd (omega (arith, e))), (tt, ((λ e. absurd (omega (arith, e))), tt))))

healthy_now : (healthz (steps calls new_tracker)).code ≡ 200
unfolding healthz steps new_tracker step record_check record_verify record_backup
healthy_now = refl
