-- ===== src/Retention/Sort.antt =====
-- A sort that keeps the promises of `sort.Slice`: insertion, newest first.
use mathlib.Core.List.{Perm}
use mathlib.Core.List.Perm
use backwyn.Prelude.{◌≤◌, Bool-cases, inl, inr, List, [], ◌∷◌, All, arith, if◌then◌else◌}
use backwyn.Time.{after}
use backwyn.Manifest.{Manifest}
use backwyn.Retention.Plan.{Sorter, IsSorter, NewestFirst}

unfoldable pub place : Manifest → List Manifest → List Manifest
place m [] = m ∷ []
place m (x ∷ xs) =
    let rest = place m xs in if after x.created_at m.created_at then x ∷ rest else m ∷ x ∷ xs

unfoldable pub insertion : List Manifest → List Manifest
unfolding place
insertion [] = []
insertion (m ∷ ms) = place m (insertion ms)

unfoldable pub by_insertion : Sorter
unfolding insertion
by_insertion = record { sort = insertion }

place-perm : (m : Manifest) (xs : List Manifest) → Perm (place m xs) (m ∷ xs)
unfolding place
place-perm m [] = Perm.refl (m ∷ [])
place-perm m (x ∷ xs) = elim (Bool-cases (after x.created_at m.created_at)) [
  | inl newer ↦ simp newer (Perm.trans (Perm.cons x (place-perm m xs)) (Perm.swap m x xs))
  | inr older ↦ simp older (Perm.refl (m ∷ (x ∷ xs)))
]

insertion-perm : (ms : List Manifest) → Perm (insertion ms) ms
unfolding insertion
insertion-perm [] = Perm.refl []
insertion-perm (m ∷ ms) = Perm.trans (place-perm m (insertion ms)) (Perm.cons m (insertion-perm ms))

abbrev NotNewer : Manifest → List Manifest → Type 0
NotNewer y xs = All (λ x. x.created_at ≤ y.created_at) xs

NotNewer-trans :
    (y z : Manifest) (xs : List Manifest)
    → y.created_at ≤ z.created_at
    → NotNewer y xs
    → NotNewer z xs
NotNewer-trans y z [] h a = tt
NotNewer-trans y z (x ∷ xs) h a = (omega arith, NotNewer-trans y z xs h a.1)

NotNewer-place :
    (y m : Manifest) (xs : List Manifest)
    → m.created_at ≤ y.created_at
    → NotNewer y xs
    → NotNewer y (place m xs)
unfolding place
NotNewer-place y m [] h a = (h, tt)
NotNewer-place y m (x ∷ xs) h a = ground (arith, NotNewer-place y m xs h a.1)

place-NewestFirst : (m : Manifest) (xs : List Manifest) → NewestFirst xs → NewestFirst (place m xs)
unfolding place
place-NewestFirst m [] h = (tt, tt)
place-NewestFirst m (x ∷ xs) h =
    ground (arith, place-NewestFirst m xs h.1, NotNewer-place x m xs, NotNewer-trans x m xs)

insertion-NewestFirst : (ms : List Manifest) → NewestFirst (insertion ms)
unfolding insertion
insertion-NewestFirst [] = tt
insertion-NewestFirst (m ∷ ms) = place-NewestFirst m (insertion ms) (insertion-NewestFirst ms)

pub by_insertion-IsSorter : IsSorter by_insertion
unfolding by_insertion
by_insertion-IsSorter = record { perm = insertion-perm; ordered = insertion-NewestFirst }
