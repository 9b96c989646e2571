-- ===== src/Check/Healthy.antt =====
-- What a report of `Run` says of the manifests that it has read.
use mathlib.Core.Path.{subst}
use mathlib.Core.Logic.Or
use mathlib.Core.Bool.{Bool-set}
use mathlib.Core.List.{Mem, mem-cons, not-mem-nil}
use mathlib.Core.List.Perm
use backwyn.Prelude.{
  ◌≤◌, ◌≡◌, ◌↔◌, refl, sym, ap, ◌∙◌, true, false, Option-cases, Result-cases, Option, none, List,
  [], ◌∷◌, ok, arith, inl, inr, length, if◌then◌else◌,
}
use backwyn.Prelude.Int.{ℤ, ◌≤ℤ◌}
use backwyn.Prelude.Text.{Text}
use backwyn.Time.{Time, sub}
use backwyn.Storage.{Backend, IsStore}
use backwyn.Manifest.{Manifest, Json}
use backwyn.Artifact.Load.{load_all}
use backwyn.Artifact.Reads.{load_all-view}
use backwyn.Retention.Plan.{Sorter, IsSorter, NewestFirst, first_verified}
use backwyn.Retention.Guards.{first_verified_lem}
use backwyn.Check.{Report, evaluate, reasons_for, run}

sub_antitone : (now t u : Time) → t ≤ u → sub now u ≤ℤ sub now t
unfolding sub
sub_antitone now t u h = ground arith

-- A verified backup of the list that is no older than the threshold.
abbrev pub IsCovered : List Manifest → ℤ → Time → Type 0
IsCovered ms max_age now =
    (m : Manifest) × Mem m ms × (m.verification.verified ≡ true) × (sub now m.created_at ≤ℤ max_age)

unverified_of_none :
    (ms : List Manifest) (m : Manifest)
    → first_verified ms ≡ none
    → Mem m ms
    → m.verification.verified ≡ false
unfolding first_verified
unverified_of_none [] m e h = absurd (not-mem-nil h)
unverified_of_none (x ∷ ms) m e h =
    Or.elim (Bool-set _ _) (mem-cons.0 h)
      (λ same. ap (λ (y : Manifest). y.verification.verified) same ∙ ground arith)
      (λ i. unverified_of_none ms m (ground arith) i)

evaluate-healthy :
    (ms : List Manifest) (max_age : ℤ) (now : Time)
    → NewestFirst ms
    → ((evaluate ms max_age now).healthy ≡ true) ↔ IsCovered ms max_age now
unfolding evaluate
evaluate-healthy ms max_age now sorted = elim (Option-cases (first_verified ms)) [
  | inl unproven ↦
      (λ h. cc (rw unproven at h), λ c. cc (c.2, unverified_of_none ms c.0 unproven c.1))
  | inr (v, found) ↦
      let (v_in, newest) = first_verified_lem ms v sorted found in
      (
        λ h. let h' = rw found at h in (v, v_in, newest.0, ground arith),
        λ c. rw found (
            ground
              (arith, sub_antitone now c.0.created_at v.created_at (newest.1 c.0 c.1 c.2), c.3)),
      )
]

-- A healthy report has no reasons, and an unhealthy one has one.
evaluate-reasons :
    (ms : List Manifest) (max_age : ℤ) (now : Time)
    → let rep = evaluate ms max_age now in length rep.reasons ≡ (if rep.healthy then 0 else 1)
unfolding evaluate reasons_for first_verified
evaluate-reasons [] max_age now = refl
evaluate-reasons (m ∷ ms) max_age now = ground arith

module _ {S : Type 0} (b : Backend S) (j : Json) where
  -- A report is healthy exactly when one of the manifests that were read is verified and no older
  -- than the threshold; it gives one reason otherwise, and none when it is healthy.
  pub run-healthy_iff :
      (sorter : Sorter) (max_age : ℤ) (now : Time) (s : S) (rep : Report)
      → IsSorter sorter
      → (run b j sorter max_age now s).0 ≡ ok rep
      → (ms : List Manifest) × ((load_all b j s).0 ≡ ok ms)
        × ((rep.healthy ≡ true) ↔ IsCovered ms max_age now)
        × (length rep.reasons ≡ (if rep.healthy then 0 else 1))
  unfolding run
  run-healthy_iff sorter max_age now s rep sorts h = elim (Result-cases (load_all b j s).0) [
    | inr (e, failed) ↦ absurd (ground arith)
    | inl (ms, loaded) ↦
        let e : evaluate (sorter.sort ms) max_age now ≡ rep = ground arith in
        let iff = evaluate-healthy (sorter.sort ms) max_age now (sorts.ordered ms) in
        (
          ms,
          loaded,
          (
            λ healthy.
                let c = iff.0 (ap (λ (r : Report). r.healthy) e ∙ healthy) in
                (c.0, (Perm.mem_iff (sorts.perm ms)).0 c.1, c.2, c.3),
            λ c.
                sym (ap (λ (r : Report). r.healthy) e)
                ∙ iff.1 (c.0, (Perm.mem_iff (sorts.perm ms)).1 c.1, c.2, c.3),
          ),
          subst (λ (r : Report). length r.reasons ≡ (if r.healthy then 0 else 1)) e
              (evaluate-reasons (sorter.sort ms) max_age now),
        )
  ]

  -- A check reads the store and changes no object.
  pub run-view :
      (view : S → Text → Option Text) (sorter : Sorter) (max_age : ℤ) (now : Time) (s : S)
      (i : Text)
      → IsStore b view
      → view (run b j sorter max_age now s).1 i ≡ view s i
  unfolding run
  run-view view sorter max_age now s i st = elim (Result-cases (load_all b j s).0) [
    | inl (ms, loaded) ↦ ap (λ x. view x i) (ground arith) ∙ load_all-view b j view st s i
    | inr (e, failed) ↦ ap (λ x. view x i) (ground arith) ∙ load_all-view b j view st s i
  ]
