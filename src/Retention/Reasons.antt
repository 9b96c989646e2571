-- ===== src/Retention/Reasons.antt =====
-- A reason that was given is never taken back, by any step of the loop over the policy slots; and
-- every reason names the newest backup or a verified one.
use mathlib.Core.List.{Mem, mem-cons_of_mem, mem-cons_self}
use backwyn.Prelude.{
  ◌≡◌, ℕ, ◌⊎◌, ◌++◌, Bool, true, false, ◌||◌, Option, none, some, List, [], ◌∷◌, arith, Bool-cases,
  inl, inr, if◌then◌else◌, not,
}
use backwyn.Prelude.Int.{ℤ}
use backwyn.Prelude.Text.{Text, lit, text_eq, text_eq_iff, show_ℤ}
use backwyn.Manifest.{Manifest}
use backwyn.Retention.Policy.{Policy}
use backwyn.Retention.Slots.{
  Reasons, reason_for, keep, Slot, Slots, slot_step, last_step, fill_slots, slot_loop,
}

abbrev pub is_some : Option Text → Bool
is_some none = false
is_some (some _) = true

-- Whether a backup id has a reason.
abbrev pub named : Text → Reasons → Bool
named k rs = is_some (reason_for k rs)

pub named-keep :
    (k : Text) (m : Manifest) (r : Text) (rs : Reasons)
    → named k (keep m r rs) ≡ (text_eq m.id k || named k rs)
unfolding keep
named-keep k m r rs = ground (arith, text_eq_iff m.id k)

-- Two sets of ids: the first lies in the second, and what the second adds is `k`'s own.
abbrev Adds : Text → Text → Reasons → Reasons → Type 0
Adds k own rs rs' =
    (named k rs ≡ true → named k rs' ≡ true)
    × (named k rs' ≡ true → (named k rs ≡ true) ⊎ (own ≡ k))

module _ (k : Text) (m : Manifest) where
  keep-Adds : (r : Text) (rs : Reasons) → Adds k m.id rs (keep m r rs)
  keep-Adds r rs = ground (arith, named-keep k m r rs, text_eq_iff m.id k)

  slot_step-Adds :
      (limit : ℤ) (kind label : Text) (s : Slot) (rs : Reasons)
      → Adds k m.id rs (slot_step limit kind label m (s, rs)).1
  unfolding slot_step
  slot_step-Adds limit kind label s rs = ground (arith, keep-Adds (kind ++ label) rs)

  last_step-Adds : (p : Policy) (n : ℕ) (rs : Reasons) → Adds k m.id rs (last_step p m (n, rs)).1
  unfolding last_step
  last_step-Adds p n rs = ground (
    arith,
    keep-Adds (lit "one of the last " ++ (show_ℤ p.keep_last ++ lit " verified backups")) rs,
  )

  fill_slots-Adds : (p : Policy) (s : Slots) → Adds k m.id s.reasons (fill_slots p m s).reasons
  unfolding fill_slots
  fill_slots-Adds p s = grind (arith, last_step-Adds, slot_step-Adds)

-- The state after one round of the loop.
abbrev pub round : Policy → Manifest → Slots → Slots
round p m s = if not m.verification.verified then s else fill_slots p m s

pub slot_loop-named :
    (k : Text) (p : Policy) (ms : List Manifest) (s : Slots)
    → named k s.reasons ≡ true
    → named k (slot_loop p ms s).reasons ≡ true
unfolding slot_loop
slot_loop-named k p [] s h = h
slot_loop-named k p (m ∷ ms) s h =
    slot_loop-named k p ms (round p m s) (ground (arith, fill_slots-Adds k m p s))

-- Only verified manifests get a reason from the policy.
pub slot_loop-only :
    (k : Text) (p : Policy) (ms : List Manifest) (s : Slots)
    → named k (slot_loop p ms s).reasons ≡ true
    → (named k s.reasons ≡ true)
      ⊎ ((m : Manifest) × Mem m ms × (m.verification.verified ≡ true) × (m.id ≡ k))
unfolding slot_loop
slot_loop-only k p [] s h = inl h
slot_loop-only k p (m ∷ ms) s h = elim (slot_loop-only k p ms (round p m s) h) [
  | inr (x, x_in, v, e) ↦ inr (x, mem-cons_of_mem m x_in, v, e)
  | inl old ↦ elim (Bool-cases m.verification.verified) [
    | inl v ↦ elim ((fill_slots-Adds k m p s).1 (ground arith)) [
      | inl older ↦ inl older
      | inr e ↦ inr (m, mem-cons_self, v, e)
    ]
    | inr v ↦ inl (ground arith)
  ]
]
