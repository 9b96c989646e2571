-- ===== src/Storage/Memory/Assoc.antt =====
-- Keys with their bytes, as an association list.
use mathlib.Core.Logic.Or
use mathlib.Core.List.{Mem, mem-cons, mem-cons_of_mem, mem-cons_self, not-mem-nil}
use mathlib.Core.HLevel.{⊥_prop}
use mathlib.Core.Bool.{Bool-set}
use backwyn.Prelude.{
  ◌≡◌, ◌≢◌, ◌↔◌, refl, sym, inl, inr, true, Option, none, some, List, [], ◌∷◌, arith, if◌then◌else◌,
  Bool-cases,
}
use backwyn.Prelude.Text.{Text, has_prefix, text_eq, text_eq_iff}

abbrev pub Objects : Type 0
Objects = List (Text × Text)

unfoldable pub find : Text → Objects → Option Text
find k [] = none
find k ((j, b) ∷ o) = if text_eq j k then some b else find k o

unfoldable pub without : Text → Objects → Objects
without k [] = []
without k ((j, b) ∷ o) = let rest = without k o in if text_eq j k then rest else (j, b) ∷ rest

unfoldable pub insert : Text → Text → Objects → Objects
unfolding without
insert k b o = (k, b) ∷ without k o

-- The keys with the prefix `p`.
unfoldable pub keys : Text → Objects → List Text
keys p [] = []
keys p ((j, b) ∷ o) = let rest = keys p o in if has_prefix j p then j ∷ rest else rest

pub find-without :
    (k j : Text) (o : Objects) → find j (without k o) ≡ (if text_eq k j then none else find j o)
unfolding find without
find-without k j [] = ground arith
find-without k j ((i, b) ∷ o) =
    ground (arith, find-without k j o, text_eq_iff i k, text_eq_iff i j, text_eq_iff k j)

pub find-insert :
    (k j b : Text) (o : Objects)
    → find j (insert k b o) ≡ (if text_eq k j then some b else find j o)
unfolding find insert
find-insert k j b o = ground (arith, find-without k j o)

is_listed : (p k : Text) (o : Objects) → has_prefix k p ≡ true → find k o ≢ none → Mem k (keys p o)
unfolding keys find
is_listed p k [] h f = absurd (f refl)
is_listed p k ((j, b) ∷ o) h f = elim (Bool-cases (text_eq j k)) [
  | inl same ↦
      let e : j ≡ k = (text_eq_iff j k).0 same in
      let hj : has_prefix j p ≡ true = rw e h in rw hj (rw e mem-cons_self)
  | inr other ↦
      let m : Mem k (keys p o) = is_listed p k o h (rw other at f) in
      elim (Bool-cases (has_prefix j p)) [ inl q ↦ rw q (mem-cons_of_mem j m) | inr q ↦ rw q m ]
]

listed_has_prefix : (p k : Text) (o : Objects) → Mem k (keys p o) → has_prefix k p ≡ true
unfolding keys
listed_has_prefix p k [] m = absurd (not-mem-nil m)
listed_has_prefix p k ((j, b) ∷ o) m = elim (Bool-cases (has_prefix j p)) [
  | inl q ↦ Or.elim (Bool-set _ _) (mem-cons.0 (rw q at m)) (λ e. rw e q) (listed_has_prefix p k o)
  | inr q ↦ listed_has_prefix p k o (rw q at m)
]

listed_is_stored : (p k : Text) (o : Objects) → Mem k (keys p o) → find k o ≢ none
unfolding keys find
listed_is_stored p k [] m f = not-mem-nil m
listed_is_stored p k ((j, b) ∷ o) m f = elim (Bool-cases (text_eq j k)) [
  | inl same ↦ cc (rw same at f)
  | inr other ↦
      let rest : find k o ≡ none = (rw other at f) in
      elim (Bool-cases (has_prefix j p)) [
        | inl q ↦
            Or.elim ⊥_prop (mem-cons.0 (rw q at m)) (λ e. cc (other, (text_eq_iff j k).1 (sym e)))
              (λ r. listed_is_stored p k o r rest)
        | inr q ↦ listed_is_stored p k o (rw q at m) rest
      ]
]

-- A key is listed exactly when it has the prefix and an object.
pub mem-keys :
    (p k : Text) (o : Objects) → Mem k (keys p o) ↔ ((has_prefix k p ≡ true) × (find k o ≢ none))
mem-keys p k o =
    (λ m. (listed_has_prefix p k o m, listed_is_stored p k o m), λ h. is_listed p k o h.0 h.1)
