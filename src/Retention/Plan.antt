-- ===== src/Retention/Plan.antt =====
-- internal/retention/retention.go: `Compute`. `sort.Slice` puts manifests of the same time in any
-- order: it stands as the interface `Sorter`.
use mathlib.Core.List.{Perm}
use backwyn.Prelude.{
  ◌≤◌, true, false, not, Option, none, some, List, [], ◌∷◌, if◌then◌else◌, All, map,
}
use backwyn.Prelude.Text.{Text, lit}
use backwyn.Manifest.{Manifest}
use backwyn.Retention.Policy.{Policy, Decision, Plan, is_zero}
use backwyn.Retention.Slots.{Reasons, reason_for, keep, slot_loop, first_slots}

-- `sorted[i].CreatedAt.After(sorted[j].CreatedAt)`, newest first
pub record Sorter : Type 0 where
  pub sort : List Manifest → List Manifest

-- The library's contract: a permutation in which no element comes after an older one.
abbrev pub NewestFirst : List Manifest → Type 0
NewestFirst [] = Unit
NewestFirst (m ∷ ms) = All (λ x. x.created_at ≤ m.created_at) ms × NewestFirst ms

pub record IsSorter (s : Sorter) : Type 0 where
  pub perm : (ms : List Manifest) → Perm (s.sort ms) ms
  pub ordered : (ms : List Manifest) → NewestFirst (s.sort ms)

-- The first verified manifest, in the order given.
unfoldable pub first_verified : List Manifest → Option Manifest
first_verified [] = none
first_verified (m ∷ ms) = if m.verification.verified then some m else first_verified ms

-- The last loop of `Compute`.
unfoldable pub decide : Reasons → Manifest → Decision
unfolding reason_for
decide rs m = elim (reason_for m.id rs) [
  | some reason ↦ record { manifest = m; keep = true; reason = reason }
  | none ↦ record {
    manifest = m;
    keep = false;
    reason =
        if not m.verification.verified
        then lit "unverified: never proven restorable, so not coverage"
        else lit "outside retention policy";
  }
]

-- the closure `keepAll`
unfoldable pub keep_all : Text → Text → List Manifest → Plan
keep_all warning reason ms = record {
  decisions = map (λ m. record { manifest = m; keep = true; reason = reason }) ms;
  warnings = warning ∷ [];
}

-- The reasons that the guards and the policy give, for a sorted list.
unfoldable pub reasons_of : Policy → Manifest → Manifest → List Manifest → Reasons
unfolding keep
reasons_of p newest newest_verified ms =
    let rs =
      keep newest_verified (lit "most recent verified backup (safety net, never pruned)") [] in
    let rs' = keep newest (lit "most recent backup (may be mid-verification)") rs in
    (slot_loop p ms (first_slots rs')).reasons

unfoldable pub plan_sorted : Policy → List Manifest → Plan
plan_sorted p [] = record { decisions = []; warnings = [] }
plan_sorted p (newest ∷ older) =
    let ms = newest ∷ older in
    if is_zero p
    then keep_all (lit "retention policy is empty: keeping everything")
        (lit "no retention policy configured") ms
    else elim (first_verified ms) [
      | none ↦
          keep_all
            (lit "refusing to prune: no verified backup exists, so coverage is already broken")
            (lit "kept: nothing is verified, pruning is unsafe") ms
      | some v ↦ record { decisions = map (decide (reasons_of p newest v ms)) ms; warnings = [] }
    ]

-- `Compute`. Its argument `now` is not used.
unfoldable pub compute : Sorter → List Manifest → Policy → Plan
unfolding plan_sorted
compute s ms p = plan_sorted p (s.sort ms)
