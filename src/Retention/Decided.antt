-- ===== src/Retention/Decided.antt =====
-- What `Plan.Remove` and `Plan.Kept` read off the decisions of `Compute`.
use mathlib.Core.Logic.Or
use mathlib.Core.Bool.{Bool-set}
use mathlib.Core.HLevel.{×_prop}
use mathlib.Core.List.{
  Mem, Perm, Mem-prop, mem-cons, mem-cons_of_mem, mem-cons_self, not-mem-nil, perm_middle,
}
use mathlib.Core.List.Perm
use backwyn.Prelude.{
  ◌≡◌, refl, ap, Bool, true, false, List, [], ◌∷◌, ◌++◌, arith, map, Bool-cases, inl, inr,
  if◌then◌else◌, not,
}
use backwyn.Prelude.Text.{Text}
use backwyn.Manifest.{Manifest}
use backwyn.Retention.Policy.{Decision, removed, retained}
use backwyn.Retention.Slots.{Reasons}
use backwyn.Retention.Reasons.{named}
use backwyn.Retention.Plan.{decide}

pub decide_lem :
    (rs : Reasons) (m : Manifest)
    → ((decide rs m).manifest ≡ m) × ((decide rs m).keep ≡ named m.id rs)
unfolding decide
decide_lem rs m = ground arith

-- What is removed has no reason to be kept.
pub mem-removed :
    (rs : Reasons) (ms : List Manifest) (x : Manifest)
    → Mem x (removed (map (decide rs) ms))
    → Mem x ms × (named x.id rs ≡ false)
unfolding removed
mem-removed rs [] x h = absurd (not-mem-nil h)
mem-removed rs (m ∷ ms) x h = elim (Bool-cases (named m.id rs)) [
  | inl keeps ↦
      let (i, n) = mem-removed rs ms x (rw ((decide_lem rs m).1, keeps) at h) in
      (mem-cons_of_mem m i, n)
  | inr drops ↦
      Or.elim (×_prop Mem-prop (Bool-set _ _))
        (mem-cons.0 (rw ((decide_lem rs m).1, drops, (decide_lem rs m).0) at h))
        (λ e. (rw e mem-cons_self, rw e drops))
        (λ r. let (i, n) = mem-removed rs ms x r in (mem-cons_of_mem m i, n))
]

mem-if_cons :
    (b : Bool) (y : Manifest) (l : List Manifest) (x : Manifest)
    → Mem x l
    → Mem x (if b then y ∷ l else l)
mem-if_cons true y l x h = mem-cons_of_mem y h
mem-if_cons false y l x h = h

-- What has a reason is kept.
pub retained_of_named :
    (rs : Reasons) (ms : List Manifest) (x : Manifest)
    → Mem x ms
    → named x.id rs ≡ true
    → Mem x (retained (map (decide rs) ms))
unfolding retained
retained_of_named rs [] x h n = absurd (not-mem-nil h)
retained_of_named rs (m ∷ ms) x h n =
    Or.elim Mem-prop (mem-cons.0 h)
      (λ e.
        let k : named m.id rs ≡ true = (rw (← e) n) in
        rw ((decide_lem rs m).1, k, (decide_lem rs m).0) (rw e mem-cons_self))
      (λ i.
        rw (decide_lem rs m).1 (mem-if_cons (named m.id rs) _ _ x (retained_of_named rs ms x i n)))

-- What has no reason is removed.
pub removed_of_unnamed :
    (rs : Reasons) (ms : List Manifest) (x : Manifest)
    → Mem x ms
    → named x.id rs ≡ false
    → Mem x (removed (map (decide rs) ms))
unfolding removed
removed_of_unnamed rs [] x h n = absurd (not-mem-nil h)
removed_of_unnamed rs (m ∷ ms) x h n =
    Or.elim Mem-prop (mem-cons.0 h)
      (λ e.
        let k : named m.id rs ≡ false = (rw (← e) n) in
        rw ((decide_lem rs m).1, k, (decide_lem rs m).0) (rw e mem-cons_self))
      (λ i.
        rw (decide_lem rs m).1
          (mem-if_cons (not (named m.id rs)) _ _ x (removed_of_unnamed rs ms x i n)))

-- What is kept has a reason.
pub named_of_retained :
    (rs : Reasons) (ms : List Manifest) (x : Manifest)
    → Mem x (retained (map (decide rs) ms))
    → named x.id rs ≡ true
unfolding retained
named_of_retained rs [] x h = absurd (not-mem-nil h)
named_of_retained rs (m ∷ ms) x h = elim (Bool-cases (named m.id rs)) [
  | inl keeps ↦
      Or.elim (Bool-set _ _)
        (mem-cons.0 (rw ((decide_lem rs m).1, keeps, (decide_lem rs m).0) at h)) (λ e. rw e keeps)
        (named_of_retained rs ms x)
  | inr drops ↦ named_of_retained rs ms x (rw ((decide_lem rs m).1, drops) at h)
]

-- Every decision is for a manifest of the list, and the list is split between the two readers.
pub kept-removed-perm :
    (ds : List Decision) → Perm (retained ds ++ removed ds) (map (λ d. d.manifest) ds)
unfolding retained removed
kept-removed-perm [] = Perm.refl []
kept-removed-perm (d ∷ ds) = elim (Bool-cases d.keep) [
  | inl k ↦ simp k (Perm.cons d.manifest (kept-removed-perm ds))
  | inr k ↦ simp k (
      Perm.trans (perm_middle (retained ds) (removed ds))
        (Perm.cons d.manifest (kept-removed-perm ds)))
]

pub map-manifest-decide :
    (rs : Reasons) (ms : List Manifest)
    → map (λ (d : Decision). d.manifest) (map (decide rs) ms) ≡ ms
map-manifest-decide rs [] = refl
map-manifest-decide rs (m ∷ ms) = cc ((decide_lem rs m).0, map-manifest-decide rs ms)

pub removed-keep_all :
    (reason : Text) (ms : List Manifest)
    → removed (map (λ m. record { manifest = m; keep = true; reason = reason }) ms) ≡ []
unfolding removed
removed-keep_all reason [] = refl
removed-keep_all reason (m ∷ ms) = removed-keep_all reason ms

pub retained-keep_all :
    (reason : Text) (ms : List Manifest)
    → retained (map (λ m. record { manifest = m; keep = true; reason = reason }) ms) ≡ ms
unfolding retained
retained-keep_all reason [] = refl
retained-keep_all reason (m ∷ ms) = ap (◌∷◌ m) (retained-keep_all reason ms)

pub map-manifest-all_kept :
    (reason : Text) (ms : List Manifest)
    → map
        (λ (d : Decision). d.manifest)
        (map (λ m. record { manifest = m; keep = true; reason = reason }) ms)
      ≡ ms
map-manifest-all_kept reason [] = refl
map-manifest-all_kept reason (m ∷ ms) = ap (◌∷◌ m) (map-manifest-all_kept reason ms)
