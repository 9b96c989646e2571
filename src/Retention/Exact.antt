-- ===== src/Retention/Exact.antt =====
-- The loop over the policy slots keeps exactly what the policy means.
use backwyn.Prelude.{
  ℕ, zero, suc, ◌-◌, ◌+◌, ◌≡◌, refl, ◌∙◌, ◌||◌, ◌&&◌, ◌++◌, not, Bool, true, false, ◌↔◌, some, List,
  [], ◌∷◌, take, arith, ltb, tests, if◌then◌else◌, Bool-cases, inl, inr,
}
use backwyn.Prelude.Int.{ℤ, pos, negsuc, pos_part, ltb_ℤ}
use backwyn.Prelude.Text.{Text, lit, text_eq, show_ℤ}
use backwyn.Manifest.{Manifest}
use backwyn.Retention.Policy.{Policy, is_zero, remove}
use backwyn.Retention.Plan.{Sorter, first_verified, reasons_of, plan_sorted, compute}
use backwyn.Retention.Decided.{mem-removed, removed_of_unnamed}
use mathlib.Core.List.{Mem}
use backwyn.Retention.Slots.{Reasons, Slot, Slots, slot_step, last_step, fill_slots, slot_loop}
use backwyn.Retention.Reasons.{named, named-keep}
use backwyn.Retention.Spec.{
  verified_only, run_heads, has_id, day_label, week_label, month_label, in_policy,
}

-- Whether a slot takes a backup with the label.
abbrev takes : ℤ → Text → Slot → Bool
takes limit label s = not (text_eq label s.last_label) && ltb_ℤ (pos s.taken) limit

abbrev heads : (Manifest → Text) → ℤ → Slot → List Manifest → List Manifest
heads f limit s v = run_heads f (pos_part limit - s.taken) s.last_label v

-- The order in which the slots are asked does not matter.
regroup :
    (a b c d n t x y z : Bool)
    → ((d || (c || (b || (a || n)))) || (t || (x || (y || z))))
      ≡ (n || ((a || t) || ((b || x) || ((c || y) || (d || z)))))
regroup true b c d n t x y z = ground arith
regroup false b c d n t x y z = ground arith

module _ (k : Text) where
  slot_step-named :
      (limit : ℤ) (kind label : Text) (m : Manifest) (s : Slot) (rs : Reasons)
      → named k (slot_step limit kind label m (s, rs)).1
        ≡ (takes limit label s && text_eq m.id k || named k rs)
  unfolding slot_step
  slot_step-named limit kind label m s rs = ground (arith, named-keep k m (kind ++ label) rs)

  last_step-named :
      (p : Policy) (m : Manifest) (n : ℕ) (rs : Reasons)
      → named k (last_step p m (n, rs)).1
        ≡ (ltb_ℤ (pos n) p.keep_last && text_eq m.id k || named k rs)
  unfolding last_step
  last_step-named p m n rs = ground (
    arith,
    named-keep k m (lit "one of the last " ++ (show_ℤ p.keep_last ++ lit " verified backups")) rs,
  )

  -- One backup more: the slot's runs begin with it if the slot takes it.
  heads-cons :
      (f : Manifest → Text) (limit : ℤ) (kind : Text) (m : Manifest) (v : List Manifest) (s : Slot)
      (rs : Reasons)
      → has_id k (heads f limit s (m ∷ v)) ≡ (
          takes limit (f m) s && text_eq m.id k
          || has_id k (heads f limit (slot_step limit kind (f m) m (s, rs)).0 v))
  unfolding slot_step run_heads has_id
  heads-cons f (negsuc l) kind m v s rs = ground arith
  heads-cons f (pos l) kind m v s rs = elim (Bool-cases (ltb s.taken l)) [
    | inl room ↦
        let e : l - s.taken ≡ suc (l - (s.taken + 1)) = omega (tests, room) in rw e (ground arith)
    | inr full ↦ let e : l - s.taken ≡ 0 = ground arith in rw e (ground arith)
  ]

  take-cons :
      (limit : ℤ) (m : Manifest) (v : List Manifest) (n : ℕ)
      → has_id k (take (pos_part limit - n) (m ∷ v)) ≡ (
          ltb_ℤ (pos n) limit && text_eq m.id k
          || has_id k (take (pos_part limit - (if ltb_ℤ (pos n) limit then n + 1 else n)) v))
  unfolding take has_id
  take-cons (negsuc l) m v n = ground arith
  take-cons (pos l) m v n = elim (Bool-cases (ltb n l)) [
    | inl room ↦ let e : l - n ≡ suc (l - (n + 1)) = omega (tests, room) in rw e (ground arith)
    | inr full ↦ let e : l - n ≡ 0 = ground arith in rw e (ground arith)
  ]

  last-cons :
      (p : Policy) (m : Manifest) (v : List Manifest) (n : ℕ) (rs : Reasons)
      → has_id k (take (pos_part p.keep_last - n) (m ∷ v)) ≡ (
          ltb_ℤ (pos n) p.keep_last && text_eq m.id k
          || has_id k (take (pos_part p.keep_last - (last_step p m (n, rs)).0) v))
  unfolding last_step
  last-cons p m v n rs = elim (Bool-cases (ltb_ℤ (pos n) p.keep_last)) [
    | inl room ↦ rw (take-cons p.keep_last m v n) (rw room)
    | inr full ↦ rw (take-cons p.keep_last m v n) (rw full)
  ]

  -- What the policy has still to say, from the state of the loop on.
  abbrev remaining : Policy → Slots → List Manifest → Bool
  remaining p s v =
      has_id k (take (pos_part p.keep_last - s.n_last) v)
      || (has_id k (heads day_label p.keep_daily s.daily v)
          || (has_id k (heads week_label p.keep_weekly s.weekly v)
              || has_id k (heads month_label p.keep_monthly s.monthly v)))

  fill_slots-remaining :
      (p : Policy) (m : Manifest) (v : List Manifest) (s : Slots)
      → (named k (fill_slots p m s).reasons || remaining p (fill_slots p m s) v)
        ≡ (named k s.reasons || remaining p s (m ∷ v))
  unfolding fill_slots
  fill_slots-remaining p m v s =
      let r1 = (last_step p m (s.n_last, s.reasons)).1 in
      let (_, r2) = slot_step p.keep_daily (lit "daily slot ") (day_label m) m (s.daily, r1) in
      let (_, r3) = slot_step p.keep_weekly (lit "weekly slot ") (week_label m) m (s.weekly, r2) in
      rw
        (
          slot_step-named p.keep_monthly (lit "monthly slot ") (month_label m) m s.monthly r3,
          slot_step-named p.keep_weekly (lit "weekly slot ") (week_label m) m s.weekly r2,
          slot_step-named p.keep_daily (lit "daily slot ") (day_label m) m s.daily r1,
          last_step-named p m s.n_last s.reasons,
          last-cons p m v s.n_last s.reasons,
          heads-cons day_label p.keep_daily (lit "daily slot ") m v s.daily r1,
          heads-cons week_label p.keep_weekly (lit "weekly slot ") m v s.weekly r2,
          heads-cons month_label p.keep_monthly (lit "monthly slot ") m v s.monthly r3,
        )
        (search regroup)

  take-nil : (n : ℕ) → has_id k (take n []) ≡ false
  unfolding take has_id
  take-nil zero = refl
  take-nil (suc n) = refl

  run_heads-nil :
      (f : Manifest → Text) (n : ℕ) (last : Text) → has_id k (run_heads f n last []) ≡ false
  unfolding run_heads has_id
  run_heads-nil f zero last = refl
  run_heads-nil f (suc n) last = refl

  slot_loop-named_iff :
      (p : Policy) (ms : List Manifest) (s : Slots)
      → named k (slot_loop p ms s).reasons ≡ (named k s.reasons || remaining p s (verified_only ms))
  unfolding slot_loop verified_only
  slot_loop-named_iff p [] s = simp (take-nil, run_heads-nil) (ground arith)
  slot_loop-named_iff p (m ∷ ms) s = elim (Bool-cases m.verification.verified) [
    | inl v ↦ simp v (
        slot_loop-named_iff p ms (fill_slots p m s) ∙ fill_slots-remaining p m (verified_only ms) s)
    | inr v ↦ simp v (slot_loop-named_iff p ms s)
  ]

  reasons_of-named_iff :
      (p : Policy) (n v : Manifest) (ms : List Manifest)
      → named k (reasons_of p n v ms) ≡ (text_eq n.id k || (text_eq v.id k || in_policy p k ms))
  unfolding reasons_of in_policy
  reasons_of-named_iff p n v ms =
      rw slot_loop-named_iff (rw (named-keep, named-keep) (ground arith))

-- With a policy and a verified backup `Compute` removes exactly the backups that neither have the
-- id of the newest, nor of the first verified one, nor of one that the policy holds.
pub compute_removes_exactly :
    (s : Sorter) (ms : List Manifest) (p : Policy) (n v : Manifest) (rest : List Manifest)
    (x : Manifest)
    → is_zero p ≡ false
    → s.sort ms ≡ n ∷ rest
    → first_verified (s.sort ms) ≡ some v
    → Mem x (remove (compute s ms p)) ↔ (
        Mem x (s.sort ms)
        × (text_eq n.id x.id ≡ false)
        × (text_eq v.id x.id ≡ false)
        × (in_policy p x.id (s.sort ms) ≡ false))
unfolding compute remove plan_sorted
compute_removes_exactly s ms p n v rest x nz sorted found =
    let rs = reasons_of p n v (n ∷ rest) in
    let e : named x.id rs
        ≡ (text_eq n.id x.id || (text_eq v.id x.id || in_policy p x.id (n ∷ rest))) =
      reasons_of-named_iff x.id p n v (n ∷ rest) in
    let found' : first_verified (n ∷ rest) ≡ some v = (rw sorted at found) in
    rw (sorted, nz, found')
      (
        λ r.
            let (i, unnamed) = mem-removed rs (n ∷ rest) x r in
            (i, ground arith, ground arith, ground arith),
        λ h. removed_of_unnamed rs (n ∷ rest) x h.0 (ground arith),
      )
