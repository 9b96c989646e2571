-- ===== src/Retention/Guards.antt =====
-- The guards of `Compute`: what is removed, and what then is kept.
use mathlib.Core.Logic.Or
use mathlib.Core.List.{Mem, Perm, mem-cons, mem-cons_of_mem, mem-cons_self, not-mem-nil}
use mathlib.Core.Path.{subst}
use native.Mathlib.Bridge.{le_prop}
use mathlib.Core.List.Perm
use backwyn.Prelude.{
  ◌++◌, ◌≡◌, refl, sym, ap, ◌≤◌, ◌⊎◌, true, false, some, List, [], ◌∷◌, arith, All, map, Bool-cases,
  Option-cases, inl, inr,
}
use backwyn.Prelude.Text.{Text, lit, text_eq_refl, text_eq_iff}
use backwyn.Manifest.{Manifest}
use backwyn.Retention.Policy.{Policy, Decision, Plan, is_zero, remove, kept}
use backwyn.Retention.Reasons.{named, named-keep, slot_loop-named, slot_loop-only}
use backwyn.Retention.Decided.{
  removed-keep_all, retained_of_named, kept-removed-perm, map-manifest-decide, named_of_retained,
  map-manifest-all_kept,
}
use backwyn.Retention.Plan.{
  NewestFirst, first_verified, decide, keep_all, reasons_of, plan_sorted, Sorter, IsSorter, compute,
}

-- No manifest of `ms` is newer than `n`.
abbrev pub IsNewest : Manifest → List Manifest → Type 0
IsNewest n ms = (w : Manifest) → Mem w ms → w.created_at ≤ n.created_at

-- `v` is verified, and no verified manifest of `ms` is newer.
abbrev pub IsNewestVerified : Manifest → List Manifest → Type 0
IsNewestVerified v ms =
    (v.verification.verified ≡ true)
    × ((w : Manifest) → Mem w ms → w.verification.verified ≡ true → w.created_at ≤ v.created_at)

all_mem :
    {P : Manifest → Type 0}
    → ((m : Manifest) → IsProp (P m))
    → (ms : List Manifest) → All P ms
    → (w : Manifest) → Mem w ms
    → P w
all_mem pp [] a w h = absurd (not-mem-nil h)
all_mem {P} pp (m ∷ ms) a w h =
    Or.elim (pp w) (mem-cons.0 h) (λ e. subst P (sym e) a.0) (all_mem pp ms a.1 w)

head-IsNewest : (m : Manifest) (ms : List Manifest) → NewestFirst (m ∷ ms) → IsNewest m (m ∷ ms)
head-IsNewest m ms h w w_in =
    Or.elim le_prop (mem-cons.0 w_in) (λ e. rw e (omega arith)) (all_mem (λ x. le_prop) ms h.0 w)

pub first_verified_lem :
    (ms : List Manifest) (v : Manifest)
    → NewestFirst ms
    → first_verified ms ≡ some v
    → Mem v ms × IsNewestVerified v ms
unfolding first_verified
first_verified_lem [] v h e = cc
first_verified_lem (m ∷ ms) v h e = elim (Bool-cases m.verification.verified) [
  | inl found ↦
      let same : m ≡ v = ground arith in
      subst (λ x. Mem x (m ∷ ms) × IsNewestVerified x (m ∷ ms)) same
        (mem-cons_self, (found, λ w w_in _. head-IsNewest m ms h w w_in))
  | inr not_yet ↦
      let (v_in, vn) = first_verified_lem ms v h.1 (ground arith) in
      (
        mem-cons_of_mem m v_in,
        (
          vn.0,
          λ w w_in vw.
              Or.elim le_prop (mem-cons.0 w_in)
                (λ same. absurd (cc (ap (λ (x : Manifest). x.verification.verified) same)))
                (λ r. vn.1 w r vw),
        ),
      )
]

-- Both guards give their backup a reason, which the policy does not take back.
module _ (p : Policy) (newest v : Manifest) (ms : List Manifest) where
  verified-named : named v.id (reasons_of p newest v ms) ≡ true
  unfolding reasons_of
  verified-named =
      slot_loop-named v.id p ms _ (rw named-keep (rw named-keep (rw text_eq_refl (ground arith))))

  newest-named : named newest.id (reasons_of p newest v ms) ≡ true
  unfolding reasons_of
  newest-named = slot_loop-named newest.id p ms _ (rw named-keep (rw text_eq_refl refl))

abbrev pub all_kept : Text → List Manifest → List Decision
all_kept r ms = map (λ m. record { manifest = m; keep = true; reason = r }) ms

-- Some kept backup is as new as every verified one of `ms` and verified itself, and some kept
-- backup is as new as all of `ms`.
abbrev pub IsGuarded : List Manifest → Plan → Type 0
IsGuarded ms plan =
    ((v : Manifest) × Mem v (kept plan) × IsNewestVerified v ms)
    × ((n : Manifest) × Mem n (kept plan) × IsNewest n ms)

-- `plan_sorted` keeps everything, or decides by the reasons that it has collected.
pub plan_sorted-cases :
    (p : Policy) (ms : List Manifest)
    → ((r : Text) × ((plan_sorted p ms).decisions ≡ all_kept r ms))
      ⊎ ((n v : Manifest) × (rest : List Manifest) × (ms ≡ n ∷ rest)
          × (is_zero p ≡ false)
          × (first_verified ms ≡ some v)
          × ((plan_sorted p ms).decisions ≡ map (decide (reasons_of p n v ms)) ms))
unfolding plan_sorted keep_all
plan_sorted-cases p [] = inl ([], refl)
plan_sorted-cases p (m ∷ ms) = elim (Bool-cases (is_zero p)) [
  | inl zero ↦ inl (lit "no retention policy configured", rw zero)
  | inr some_slot ↦ elim (Option-cases (first_verified (m ∷ ms))) [
    | inl unproven ↦
        inl (lit "kept: nothing is verified, pruning is unsafe", rw (some_slot, unproven))
    | inr (v, found) ↦ inr (m, v, ms, refl, some_slot, found, rw (some_slot, found))
  ]
]

manifests_of_decisions :
    (p : Policy) (ms : List Manifest)
    → map (λ (d : Decision). d.manifest) (plan_sorted p ms).decisions ≡ ms
manifests_of_decisions p ms = elim (plan_sorted-cases p ms) [
  | inl (reason, e) ↦ rw e (map-manifest-all_kept reason ms)
  | inr (n, v, rest, ems, _, _, e) ↦ rw e (map-manifest-decide _ ms)
]

plan_sorted-IsGuarded :
    (p : Policy) (ms : List Manifest) (x : Manifest)
    → NewestFirst ms
    → Mem x (remove (plan_sorted p ms))
    → IsGuarded ms (plan_sorted p ms)
unfolding remove kept
plan_sorted-IsGuarded p ms x h r = elim (plan_sorted-cases p ms) [
  | inl (reason, e) ↦ absurd (not-mem-nil (rw (removed-keep_all reason ms) at (rw e at r)))
  | inr (n, v, rest, ems, _, found, e) ↦
      let (v_in, newest) = first_verified_lem ms v h found in
      rw e (
        (v, retained_of_named _ ms v v_in (verified-named p n v ms), newest),
        (
          n,
          retained_of_named _ ms n (rw ems mem-cons_self) (newest-named p n v ms),
          rw ems (head-IsNewest n rest (rw ems at h)),
        ),
      )
]

-- Whatever order the sort gives to backups of one time: if `Compute` removes anything, it keeps a
-- verified backup that no verified one is newer than, and a backup that none is newer than.
pub compute-IsGuarded :
    (s : Sorter) (ms : List Manifest) (p : Policy) (x : Manifest)
    → IsSorter s
    → Mem x (remove (compute s ms p))
    → IsGuarded ms (compute s ms p)
unfolding compute
compute-IsGuarded s ms p x sorts r =
    let same = λ (w : Manifest) (i : Mem w ms). (Perm.mem_iff (sorts.perm ms)).1 i in
    let (g, n) = plan_sorted-IsGuarded p (s.sort ms) x (sorts.ordered ms) r in
    ((g.0, g.1, (g.2.0, λ w i v. g.2.1 w (same w i) v)), (n.0, n.1, λ w i. n.2 w (same w i)))

-- An empty policy removes nothing.
compute_empty_policy :
    (s : Sorter) (ms : List Manifest) (p : Policy) → is_zero p ≡ true → remove (compute s ms p) ≡ []
unfolding compute remove
compute_empty_policy s ms p z = elim (plan_sorted-cases p (s.sort ms)) [
  | inl (reason, e) ↦ rw e (removed-keep_all reason (s.sort ms))
  | inr (n, v, rest, ems, nz, _, _) ↦ cc
]

-- What is kept and what is removed are together the backups that were given, each as often.
pub compute_partition :
    (s : Sorter) (ms : List Manifest) (p : Policy)
    → IsSorter s
    → Perm (kept (compute s ms p) ++ remove (compute s ms p)) ms
unfolding compute remove kept
compute_partition s ms p sorts =
    Perm.trans (kept-removed-perm (plan_sorted p (s.sort ms)).decisions)
      (rw (manifests_of_decisions p (s.sort ms)) (sorts.perm ms))

-- The ids that the reasons name: the newest backup's, and those of verified backups.
reasons_of-named :
    (p : Policy) (n v : Manifest) (ms : List Manifest) (k : Text)
    → named k (reasons_of p n v ms) ≡ true
    → (n.id ≡ k)
      ⊎ ((v.id ≡ k) ⊎ ((m : Manifest) × Mem m ms × (m.verification.verified ≡ true) × (m.id ≡ k)))
unfolding reasons_of
reasons_of-named p n v ms k h = elim (slot_loop-only k p ms _ h) [
  | inr by_policy ↦ inr (inr by_policy)
  | inl by_guard ↦
      ground
        (arith, rw (named-keep, named-keep) at by_guard, text_eq_iff n.id k, text_eq_iff v.id k)
]

-- Where anything is removed, every backup that is kept has the id of a verified backup, or of one
-- that none is newer than: an unverified backup takes no slot of the policy.
pub compute_keeps_coverage :
    (s : Sorter) (ms : List Manifest) (p : Policy) (x y : Manifest)
    → IsSorter s
    → Mem x (remove (compute s ms p))
    → Mem y (kept (compute s ms p))
    → (m : Manifest) × Mem m ms × (m.id ≡ y.id) × ((m.verification.verified ≡ true) ⊎ IsNewest m ms)
unfolding compute remove kept
compute_keeps_coverage s ms p x y sorts r k = elim (plan_sorted-cases p (s.sort ms)) [
  | inl (reason, e) ↦ absurd (not-mem-nil (rw (removed-keep_all reason (s.sort ms)) at (rw e at r)))
  | inr (n, v, rest, ems, _, found, e) ↦
      let back = λ (w : Manifest) (i : Mem w (s.sort ms)). (Perm.mem_iff (sorts.perm ms)).0 i in
      let forth = λ (w : Manifest) (i : Mem w ms). (Perm.mem_iff (sorts.perm ms)).1 i in
      let (v_in, vn) = first_verified_lem (s.sort ms) v (sorts.ordered ms) found in
      let named_y = named_of_retained (reasons_of p n v (s.sort ms)) (s.sort ms) y (rw e at k) in
      let top : IsNewest n (s.sort ms) =
        rw ems (head-IsNewest n rest (rw ems at (sorts.ordered ms))) in
      elim (reasons_of-named p n v (s.sort ms) y.id named_y) [
        | inl same ↦ (n, back n (rw ems mem-cons_self), same, inr (λ w i. top w (forth w i)))
        | inr (inl same) ↦ (v, back v v_in, same, inl vn.0)
        | inr (inr (m, m_in, verified, same)) ↦ (m, back m m_in, same, inl verified)
      ]
]
