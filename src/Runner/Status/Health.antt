-- ===== src/Runner/Status/Health.antt =====
-- What `/healthz` answers after any sequence of the tracker's steps.
use backwyn.Prelude.{◌≡◌, ◌≢◌, ◌↔◌, refl, Bool, true, Option, none, some, List, [], ◌∷◌, arith, All}
use backwyn.Prelude.Int.{ℤ}
use backwyn.Time.{Time, zero_time}
use backwyn.Runner.Status.{
  Tracker, new_tracker, record_backup, record_verify, record_check, healthz,
}

-- A call of one of the tracker's methods, with the time at which it runs.
pub data Step : Type 0 where
  backup_done : Time → Bool → ℤ → ℤ → Step
  verify_done : Time → Bool → ℤ → Step
  check_done : Time → Bool → Time → Step

unfoldable pub step : Step → Tracker → Tracker
unfolding record_backup record_verify record_check
step (backup_done now success size dur) = record_backup now success size dur
step (verify_done now success table_count) = record_verify now success table_count
step (check_done now healthy last_verified) = record_check now healthy last_verified

unfoldable pub steps : List Step → Tracker → Tracker
unfolding step
steps [] t = t
steps (e ∷ es) t = steps es (step e t)

-- The result of the last check, if there was one; `before` is that of the checks before.
unfoldable pub last_check : Option Bool → List Step → Option Bool
last_check before [] = before
last_check before (backup_done _ _ _ _ ∷ es) = last_check before es
last_check before (verify_done _ _ _ ∷ es) = last_check before es
last_check before (check_done now healthy _ ∷ es) = last_check (some healthy) es

-- The clock shows no zero time at a check.
unfoldable pub IsTimed : Step → Type 0
IsTimed (backup_done _ _ _ _) = Unit
IsTimed (verify_done _ _ _) = Unit
IsTimed (check_done now _ _) = now ≢ zero_time

-- The time and the result of a tracker's last check tell the result of the last check.
Knows : Time → Bool → Option Bool → Type 0
Knows time healthy none = time ≡ zero_time
Knows time healthy (some result) = (time ≢ zero_time) × (healthy ≡ result)

steps-Knows :
    (es : List Step) (t : Tracker) (before : Option Bool)
    → All IsTimed es
    → Knows t.last_check_time t.last_check_healthy before
    → Knows (steps es t).last_check_time (steps es t).last_check_healthy (last_check before es)
unfolding steps last_check IsTimed Knows
steps-Knows [] t before timed known = known
steps-Knows (backup_done now success size dur ∷ es) t before timed known =
    steps-Knows es (record_backup now success size dur t) before timed.1 known
steps-Knows (verify_done now success n ∷ es) t before timed known =
    steps-Knows es (record_verify now success n t) before timed.1 known
steps-Knows (check_done now healthy v ∷ es) t before timed known =
    steps-Knows es (record_check now healthy v t) (some healthy) timed.1 (timed.0, refl)

-- The answer to a tracker that knows the result of the last check.
healthz-Knows :
    (t : Tracker) (known : Option Bool)
    → Knows t.last_check_time t.last_check_healthy known
    → ((healthz t).code ≡ 200) ↔ (known ≡ some true)
unfolding healthz Knows
healthz-Knows t none k = ground arith
healthz-Knows t (some result) k = ground arith

-- After any calls of the tracker's methods, `/healthz` answers 200 exactly when there was a check and
-- the last one was healthy, if the clock never shows the zero time at a check.
pub healthz_iff :
    (es : List Step)
    → All IsTimed es
    → ((healthz (steps es new_tracker)).code ≡ 200) ↔ (last_check none es ≡ some true)
unfolding new_tracker Knows
healthz_iff es timed =
    healthz-Knows (steps es new_tracker) (last_check none es)
      (steps-Knows es new_tracker none timed refl)
