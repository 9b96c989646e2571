-- ===== src/Check.antt =====
-- internal/check/check.go: whether a verified backup exists within a freshness window.
pub mod Healthy
mod Tests
use backwyn.Prelude.{
  ℕ, Bool, true, false, not, ◌&&◌, Option, none, some, List, [], ◌∷◌, ◌++◌, Result, ok, err,
  if◌then◌else◌,
}
use backwyn.Prelude.Int.{ℤ, pos, ltb_ℤ, leb_ℤ}
use backwyn.Prelude.Text.{Text, lit, text_eq}
use backwyn.Time.{Time, sub}
use backwyn.Time.Duration.{show_duration, round}
use backwyn.Storage.{Backend}
use backwyn.Manifest.{Manifest, Json}
use backwyn.Artifact.Load.{load_all}
use backwyn.Retention.Plan.{Sorter, first_verified}

pub record Report : Type 0 where
  pub now : Time
  pub max_age : ℤ
  pub last_verified : Option Manifest
  pub last_verified_age : ℤ
  pub latest_backup : Option Manifest
  pub healthy : Bool
  pub reasons : List Text
  pub warnings : List Text

-- `roundDur`
unfoldable pub round_dur : ℤ → ℤ
round_dur d = if ltb_ℤ (pos 60_000_000_000) d then round d 1_000_000_000 else round d 1_000_000

abbrev head? : List Manifest → Option Manifest
head? [] = none
head? (m ∷ ms) = some m

-- `rep.LastVerifiedAge`, which stays zero without a verified backup.
abbrev age_of : Time → Option Manifest → ℤ
age_of now none = pos 0
age_of now (some m) = sub now m.created_at

-- The cases of the `switch`.
unfoldable pub reasons_for : List Manifest → Option Manifest → ℤ → ℤ → List Text
reasons_for [] verified age max_age = lit "no backups exist at all" ∷ []
reasons_for (m ∷ ms) none age max_age =
    lit "backups exist but none are verified (unrestorable until proven)" ∷ []
reasons_for (m ∷ ms) (some v) age max_age =
    if ltb_ℤ max_age age
    then (lit "last verified backup is "
        ++ (show_duration (round_dur age)
            ++ (lit " old, older than the " ++ (show_duration max_age ++ lit " threshold"))))
      ∷ []
    else []

-- The warning for a newest backup that is not verified.
unfoldable pub warnings_for : Option Manifest → List Text
warnings_for none = []
warnings_for (some m) =
    let note =
      if text_eq m.verification.error [] then lit "not yet verified" else m.verification.error in
    if not m.verification.verified
    then (lit "most recent backup " ++ (m.id ++ (lit " is not verified: " ++ note))) ∷ []
    else []

abbrev is_fresh : Option Manifest → ℤ → ℤ → Bool
is_fresh none age max_age = false
is_fresh (some m) age max_age = leb_ℤ age max_age

-- The report on manifests in the order of the sort.
unfoldable pub evaluate : List Manifest → ℤ → Time → Report
evaluate ms max_age now =
    let verified = first_verified ms in
    let age = age_of now verified in
    record {
      now = now;
      max_age = max_age;
      last_verified = verified;
      last_verified_age = age;
      latest_backup = head? ms;
      healthy = is_fresh verified age max_age;
      reasons = reasons_for ms verified age max_age;
      warnings = warnings_for (head? ms);
    }

-- `Run`
module _ {S : Type 0} (b : Backend S) (j : Json) (sorter : Sorter) where
  unfoldable pub run : ℤ → Time → S → Result Text Report × S
  run max_age now s =
      let (r, s') = load_all b j s in
      elim r [ err e ↦ (err e, s') | ok ms ↦ (ok (evaluate (sorter.sort ms) max_age now), s') ]
