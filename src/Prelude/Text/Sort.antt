-- ===== src/Prelude/Text/Sort.antt =====
-- `sort.Strings`: strings in the order of their bytes. Any sort gives the same list; this is insertion.
use mathlib.Core.List.{Perm, List, [], ◌∷◌}
use mathlib.Core.List.Perm
use mathlib.Core.Path.{◌≡◌, refl}
use mathlib.Core.Logic.{inl, inr}
use mathlib.Core.Bool.{Bool, true, false, ◌&&◌, ◌||◌}
use native.Mathlib.Omega.{arith}
use backwyn.Prelude.Tests.{◌==◌, ltb, if◌then◌else◌, Bool-cases}
use backwyn.Prelude.Lists.{All}
use backwyn.Prelude.Text.{Text}

-- `a <= b` on strings
unfoldable pub text_le : Text → Text → Bool
text_le [] b = true
text_le (x ∷ a) [] = false
text_le (x ∷ a) (y ∷ b) = ltb x y || (x == y && text_le a b)

unfoldable pub place : Text → List Text → List Text
unfolding text_le
place k [] = k ∷ []
place k (x ∷ xs) = let rest = place k xs in if text_le k x then k ∷ x ∷ xs else x ∷ rest

unfoldable pub sort_strings : List Text → List Text
unfolding place
sort_strings [] = []
sort_strings (k ∷ ks) = place k (sort_strings ks)

-- No string is smaller than one before it.
abbrev pub Ascending : List Text → Type 0
Ascending [] = Unit
Ascending (x ∷ xs) = All (λ y. text_le x y ≡ true) xs × Ascending xs

text_le_total : (a b : Text) → text_le a b ≡ false → text_le b a ≡ true
unfolding text_le
text_le_total [] b h = ground arith
text_le_total (x ∷ a) [] h = ground arith
text_le_total (x ∷ a) (y ∷ b) h = ground (arith, text_le_total a b)

text_le_trans : (a b c : Text) → text_le a b ≡ true → text_le b c ≡ true → text_le a c ≡ true
unfolding text_le
text_le_trans [] b c h g = ground arith
text_le_trans (x ∷ a) [] c h g = ground arith
text_le_trans (x ∷ a) (y ∷ b) [] h g = ground arith
text_le_trans (x ∷ a) (y ∷ b) (z ∷ c) h g = ground (arith, text_le_trans a b c)

place-perm : (k : Text) (xs : List Text) → Perm (place k xs) (k ∷ xs)
unfolding place
place-perm k [] = Perm.refl (k ∷ [])
place-perm k (x ∷ xs) = elim (Bool-cases (text_le k x)) [
  | inl first ↦ simp first (Perm.refl (k ∷ (x ∷ xs)))
  | inr later ↦ simp later (Perm.trans (Perm.cons x (place-perm k xs)) (Perm.swap k x xs))
]

pub sort_strings-perm : (ks : List Text) → Perm (sort_strings ks) ks
unfolding sort_strings
sort_strings-perm [] = Perm.refl []
sort_strings-perm (k ∷ ks) =
    Perm.trans (place-perm k (sort_strings ks)) (Perm.cons k (sort_strings-perm ks))

abbrev From : Text → List Text → Type 0
From x = All (λ y. text_le x y ≡ true)

From-trans : (x k : Text) (ks : List Text) → text_le x k ≡ true → From k ks → From x ks
From-trans x k [] h a = tt
From-trans x k (y ∷ ks) h a = (text_le_trans x k y h a.0, From-trans x k ks h a.1)

From-place : (x k : Text) (ks : List Text) → text_le x k ≡ true → From x ks → From x (place k ks)
unfolding place
From-place x k [] h a = (h, tt)
From-place x k (y ∷ ks) h a = elim (Bool-cases (text_le k y)) [
  | inl first ↦ simp first (h, a)
  | inr later ↦ simp later (a.0, From-place x k ks h a.1)
]

place-Ascending : (k : Text) (ks : List Text) → Ascending ks → Ascending (place k ks)
unfolding place
place-Ascending k [] h = (tt, tt)
place-Ascending k (y ∷ ks) h = elim (Bool-cases (text_le k y)) [
  | inl first ↦ simp first ((refl, From-trans k y ks first h.0), h)
  | inr later ↦
      simp later (From-place y k ks (text_le_total k y later) h.0, place-Ascending k ks h.1)
]

pub sort_strings-Ascending : (ks : List Text) → Ascending (sort_strings ks)
unfolding sort_strings
sort_strings-Ascending [] = tt
sort_strings-Ascending (k ∷ ks) = place-Ascending k (sort_strings ks) (sort_strings-Ascending ks)
